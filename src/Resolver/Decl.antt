-- ===== src/Resolver/Decl.antt =====
-- resolver/resolver.go: the declarations, each resolved in the walk over the program's.
use tascript.Common.{
  ℕ, suc, Bool, false, not, ◌&&◌, ◌||◌, Option, none, some, List, [], ◌∷◌, ◌++◌, Str, codes, ◌==◌,
  str_eq, if◌then◌else◌, unhandled_node,
}
use tascript.Token.{Token, contains}
use tascript.Registry.Value.{TypeId, error_type_id, World}
use tascript.Registry.Rule.{
  InitializerRule, initializer_required, initializer_forbidden, DeclKind, Registry,
}
use tascript.Registry.Register.{lookup_type, lookup_decl_kind, lookup_coerce}
use tascript.Resolved.{SlotHead, expr_type}
use tascript.Resolved
use tascript.Ast
use tascript.Resolver.Scope.{
  Symbol, Binding, kind_const, kind_input, kind_output, kind_slot, BindingKind, plain_binding,
  slot_symbol, Scope, find, bind,
}
use tascript.Resolver.Report.{
  add_decl_type_not_allowed, add_initializer_forbidden, add_initializer_required, add_type_mismatch,
  add_type_required, add_undefined_type, add_unknown_decl_keyword,
}
use tascript.Resolver.Check.{
  Check, Context, ◌>>=◌, ◌>>◌, give, report, report_if, fail, crash, is_error,
}
use tascript.Resolver.Expr.{resolve_expr}
use tascript.Resolver.Stmt.{taken}
use tascript.Resolver.TypeDecl.{resolve_type_decl}

-- What the walk changes: the registry, the top-level scope, `resolvedProg.Decls` and `slotCount`.
pub record Walk (w : World) : Type 0 where
  pub reg : Registry w
  pub scope : Scope
  pub decls : List (Resolved.Decl w)
  pub slot_count : ℕ

abbrev pub port : Ast.PortDecl → TypeId → Resolved.PortDecl
port d t = record { token = d.token; name = d.identifier.literal; type = t }

-- The slot's type and its initializer: `none` where the declaration is given up.
abbrev pub SlotInit : World → Type 0
SlotInit w = Option (TypeId × Option (Resolved.Expr w))

abbrev pub type_refused : DeclKind → TypeId → Bool
type_refused kind t = elim kind.allowed_types [
  | [] ↦ false
  | _ ∷ _ ↦ not (is_error t) && not (contains t kind.allowed_types)
]

abbrev pub slot_head : DeclKind → Token → TypeId → ℕ → SlotHead
slot_head kind name t i = record {
  token = name;
  kind = kind.word;
  name = name.literal;
  type = t;
  index = i;
}

abbrev pub slot_binding : DeclKind → SlotHead → Binding
slot_binding kind s = record {
  type = s.type;
  kind = kind_slot;
  slot = some s;
  assignable = kind.assignable;
}

module _ {w : World} where
  -- The walk after a declaration of the symbol: bound, and appended.
  abbrev pub declare : Symbol → Binding → Resolved.Decl w → Walk w → Walk w
  declare sym b d k = record k { scope = bind sym b k.scope; decls = k.decls ++ d ∷ [] }

  -- Reject a symbol that is bound, else declare it.
  unfoldable pub unless_taken : Token → Token → Symbol → Walk w → Check (Walk w) → Check (Walk w)
  unless_taken keyword name sym k declaring = elim (find sym k.scope) [
    | some b ↦ fail (taken keyword name b) k
    | none ↦ declaring
  ]

  unfoldable pub declare_port :
      Str
      → BindingKind
      → (Resolved.PortDecl → Resolved.Decl w)
      → Ast.PortDecl
      → Walk w
      → Check (Walk w)
  declare_port namespace kind decl d k = do
    (t, r) ← resolve_type_decl k.reg namespace d.identifier.literal d.type
    give (
        declare d.identifier.literal (plain_binding t kind) (decl (port d t))
          (record k { reg = r }))

  unfoldable pub resolve_input : Ast.PortDecl → Walk w → Check (Walk w)
  resolve_input d k =
      unless_taken d.token d.identifier d.identifier.literal k
        (declare_port (codes "input") kind_input Resolved.input_decl d k)

  unfoldable pub resolve_output : Ast.PortDecl → Walk w → Check (Walk w)
  resolve_output d k =
      unless_taken d.token d.identifier d.identifier.literal k
        (declare_port (codes "output") kind_output Resolved.output_decl d k)

  -- At the top level `currFn` is empty.
  abbrev pub top_context : List Symbol → Walk w → Context w
  top_context names k = record { reg = k.reg; curr_fn = []; declared_names = names }

  abbrev pub const : Ast.ConstDecl w → Resolved.Expr w → Resolved.ConstDecl w
  const d v = record { token = d.token; name = d.identifier.literal; value = v; type = expr_type v }

  unfoldable pub declare_const : List Symbol → Ast.ConstDecl w → Walk w → Check (Walk w)
  declare_const names d k = do
    v ← resolve_expr (top_context names k) k.scope d.value
    give (
        declare d.identifier.literal (plain_binding (expr_type v) kind_const)
          (Resolved.const_decl (const d v)) k)

  unfoldable pub resolve_const : List Symbol → Ast.ConstDecl w → Walk w → Check (Walk w)
  resolve_const names d k =
      unless_taken d.token d.identifier d.identifier.literal k (declare_const names d k)

  -- `switch kind.Initializer`
  unfoldable pub check_initializer :
      InitializerRule → DeclKind → Token → Option (Ast.Expr w) → Check (Unit {0})
  check_initializer initializer_required kind name none =
      report (add_initializer_required name kind.word)
  check_initializer initializer_forbidden kind name (some _) =
      report (add_initializer_forbidden name kind.word)
  check_initializer _ kind name _ = give tt

  unfoldable pub declared_type : Registry w → Option Token → Check TypeId
  declared_type r none = give error_type_id
  declared_type r (some t) = elim (lookup_type r t.literal) [
    | some id ↦ give id
    | none ↦ fail (add_undefined_type t) error_type_id
  ]

  unfoldable pub resolve_init :
      Context w → Scope → Option (Ast.Expr w) → Check (Option (Resolved.Expr w))
  resolve_init x Γ none = give none
  resolve_init x Γ (some e) = do v ← resolve_expr x Γ e; give (some v)

  unfoldable pub coerce_init : Registry w → Token → TypeId → Resolved.Expr w → Check (SlotInit w)
  coerce_init r name t v =
      if is_error (expr_type v) || is_error t || expr_type v == t
      then give (some (t, some v))
      else elim (lookup_coerce r (expr_type v) t) [
        | some rule ↦ give (some (t, some (Resolved.coerce v rule.eval_type rule.eval_fn)))
        | none ↦ fail (add_type_mismatch name t (expr_type v)) none
      ]

  unfoldable pub fit_init :
      Registry w
      → DeclKind
      → Token
      → Option Token
      → TypeId
      → Option (Resolved.Expr w)
      → Check (SlotInit w)
  fit_init r kind name (some _) t (some v) = coerce_init r name t v
  fit_init r kind name none t (some v) = give (some (expr_type v, some v))
  fit_init r kind name none t none =
      fail (add_type_required name kind.word name.literal) (some (t, none))
  fit_init r kind name (some _) t none = give (some (t, none))

  abbrev pub add_slot : DeclKind → Token → SlotHead → Option (Resolved.Expr w) → Walk w → Walk w
  add_slot kind name s init k =
      let k' =
        declare (slot_symbol kind name.literal) (slot_binding kind s)
          (Resolved.slot_decl (record { head = s; init = init })) k in
      record k' { slot_count = suc k.slot_count }

  unfoldable pub declare_slot : DeclKind → Token → Walk w → SlotInit w → Check (Walk w)
  declare_slot kind name k none = give k
  declare_slot kind name k (some (t, init)) = do
    report_if (type_refused kind t) (add_decl_type_not_allowed name kind.word t)
    give (add_slot kind name (slot_head kind name t k.slot_count) init k)

  unfoldable pub declare_kind : List Symbol → DeclKind → Ast.KindDecl w → Walk w → Check (Walk w)
  declare_kind names kind d k = do
    _ ← check_initializer kind.initializer kind d.identifier d.value
    t ← declared_type k.reg d.type
    v ← resolve_init (top_context names k) k.scope d.value
    fitted ← fit_init k.reg kind d.identifier d.type t v
    declare_slot kind d.identifier k fitted

  unfoldable pub resolve_kind_decl : List Symbol → Ast.KindDecl w → Walk w → Check (Walk w)
  resolve_kind_decl names d k = elim (lookup_decl_kind k.reg d.keyword) [
    | some kind ↦
        unless_taken d.token d.identifier (slot_symbol kind d.identifier.literal) k
          (declare_kind names kind d k)
    | none ↦ fail (add_unknown_decl_keyword d.token) k
  ]

  unfoldable pub resolve_decl : List Symbol → Ast.Decl w → Walk w → Check (Walk w)
  resolve_decl names (Ast.const_decl d) k = resolve_const names d k
  resolve_decl names (Ast.input_decl d) k = resolve_input d k
  resolve_decl names (Ast.output_decl d) k = resolve_output d k
  resolve_decl names (Ast.kind_decl d) k = resolve_kind_decl names d k
  resolve_decl names (Ast.other_decl _) k = crash unhandled_node
