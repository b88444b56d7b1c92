-- ===== src/Examples/Scripts.antt =====
-- resolver/: a small registry and small syntax trees.
use tascript.Common.{
  true, none, some, [], ◌∷◌, Str, codes, ◌≢◌, refl, pos, str_eq, pair_eq, str_beq,
}
use tascript.Token.{Token, percent, token_type_eq}
use tascript.Registry.Value.{integer_id, scalar_shape, TypeDef}
use tascript.Registry.Rule.{Registry, BinaryRule, DeclKind, initializer_required, empty_registry}
use tascript.Registry.StdMath.{numeric_binary}
use tascript.Registry.Good.{GoodReg, differ, has_dot}
use tascript.Ast
use tascript.Ast.{Program, FunctionDecl, KindDecl, PortDecl, ConstDecl}
use tascript.Resolver.EnvGood.{UndottedTypes}
use tascript.Examples.World.{small_world, at_token}

abbrev pub remainder_rule : BinaryRule small_world
remainder_rule = record { eval_fn = numeric_binary percent; eval_type = integer_id }

abbrev pub state_kind : DeclKind
state_kind = record {
  word = codes "state";
  initializer = initializer_required;
  assignable = true;
  namespaced = true;
  allowed_types = [];
}

abbrev pub integer_type : TypeDef
integer_type = record { shape = scalar_shape; fields = [] }

-- Integers with `%`, and slots of the kind `state`.
abbrev pub small_registry : Registry small_world
small_registry = record empty_registry {
  binary = ((percent, (integer_id, integer_id)), remainder_rule) ∷ [];
  types = (integer_id, integer_type) ∷ [];
  decl_kinds = (codes "state", state_kind) ∷ [];
}

integer_id-NotError : integer_id ≢ codes "Error"
unfolding str_beq
integer_id-NotError = differ _ _ refl

pub small_registry-Good : GoodReg small_registry
unfolding has_dot
small_registry-Good = record {
  binary = ((integer_id-NotError, (integer_id-NotError, integer_id-NotError)), tt);
  unary = tt;
  member_access = tt;
  call = tt;
  coerces = tt;
  types = ((integer_id-NotError, tt), tt);
  words = (refl, tt);
}

pub small_registry-Undotted : UndottedTypes small_registry
unfolding has_dot
small_registry-Undotted = (refl, tt)

abbrev pub name : Str → Ast.Expr small_world
name text = Ast.ident (at_token text)

abbrev pub state_count : Ast.Expr small_world
state_count =
    Ast.member_access (at_token (codes ".")) (name (codes "state")) (at_token (codes "count"))

abbrev pub percent_token : Token
percent_token = record (at_token (codes "%")) { type = percent }

-- `state count = 1`
abbrev pub count_decl : KindDecl small_world
count_decl = record {
  token = at_token (codes "state");
  keyword = codes "state";
  identifier = at_token (codes "count");
  type = none;
  value = some (Ast.integer (at_token (codes "1")) (pos 1));
}

-- `output signal: Integer`
abbrev pub signal_decl : PortDecl
signal_decl = record {
  token = at_token (codes "output");
  identifier = at_token (codes "signal");
  type = Ast.type_ident (at_token (codes "Integer"));
}

-- `let rest = state.count % 2`
abbrev pub let_rest : Ast.Stmt small_world
let_rest =
    Ast.let_stmt (at_token (codes "let")) (at_token (codes "rest"))
      (Ast.infix_expr percent_token state_count (Ast.integer (at_token (codes "2")) (pos 2)))

-- `emit(signal, value: rest)`
abbrev pub emit_rest : Ast.Stmt small_world
emit_rest = Ast.expr_stmt (at_token (codes "emit")) (
    Ast.call (at_token (codes "(")) (name (codes "emit"))
      (Ast.expr (name (codes "signal")) Ast.no_exprs)
      (Ast.kwarg (at_token (codes "value")) (at_token (codes "value")) (name (codes "rest"))
        Ast.no_kwargs))

-- `state.count = rest`
abbrev pub write_rest : Ast.Stmt small_world
write_rest = Ast.assign_stmt (at_token (codes "=")) state_count (name (codes "rest"))

abbrev pub run_decl : FunctionDecl small_world
run_decl = record {
  token = at_token (codes "fn");
  identifier = at_token (codes "Run");
  body_token = at_token (codes "{");
  body = Ast.then_do let_rest (Ast.then_do emit_rest (Ast.then_do write_rest Ast.done));
}

abbrev pub script : Program small_world
script = record {
  decls = Ast.kind_decl count_decl ∷ Ast.output_decl signal_decl ∷ [];
  init_fn = none;
  run_fn = some run_decl;
  valid = true;
}

-- `Run` with `state.count = state.count % 0`.
abbrev pub failing_run : FunctionDecl small_world
failing_run = record run_decl {
  body =
      Ast.then_do
        (Ast.assign_stmt (at_token (codes "=")) state_count
          (Ast.infix_expr percent_token state_count (Ast.integer (at_token (codes "0")) (pos 0))))
        Ast.done;
}

abbrev pub failing_script : Program small_world
failing_script = record {
  decls = Ast.kind_decl count_decl ∷ [];
  init_fn = none;
  run_fn = some failing_run;
  valid = true;
}

-- A host type whose name is a slot's: the reference has no slot behind it.
abbrev pub dotted_registry : Registry small_world
dotted_registry = record small_registry {
  types = (integer_id, integer_type) ∷ (codes "state.count", integer_type) ∷ [];
}

abbrev pub dotted_run : FunctionDecl small_world
dotted_run = record run_decl {
  body =
      Ast.then_do (Ast.let_stmt (at_token (codes "let")) (at_token (codes "rest")) state_count)
        Ast.done;
}

abbrev pub dotted_script : Program small_world
dotted_script = record { decls = []; init_fn = none; run_fn = some dotted_run; valid = true }
