-- ===== src/Resolver/Typing.antt =====
-- resolver/resolver.go: the typing rules that the resolver checks, stated of the resolved tree by
-- itself: each node carries the rule that the registry has for the types of its parts.
use tascript.Common.{
  not, ◌&&◌, ℤ, Bool, true, false, none, some, List, [], ◌∷◌, Str, ◌≡◌, ◌≢◌, str_eq, pair_eq, codes,
  ◌==◌,
}
use tascript.Token.{Token, token_type_eq}
use tascript.Registry.Value.{TypeId, integer_id, float_id, string_id, bool_id, error_type_id, World}
use tascript.Registry.Rule.{
  Registry, ParamRule, BinaryRule, UnaryRule, MemberAccessRule, CallRule, CoerceRule,
}
use tascript.Registry.Register.{
  lookup_binary, lookup_unary, lookup_member_access, lookup_call, lookup_coerce,
}
use tascript.Registry.Script.{emit_rule}
use tascript.Registry.Good.{has_dot}
use tascript.Resolved.{SlotHead, expr_type}
use tascript.Resolved
use tascript.Resolver.Operand.{is_input, is_module}
use tascript.Resolver.Scope.{is_readable, Binding, Scope, find, enclosed, bind}
use tascript.Resolver.Stmt.{let_binding, is_output}

-- A name that the function of the name may read; an input only in `Run`. A module is read where its
-- members are.
pub data Reads (fn : Str) (b : Binding) : Type 0 where
  variable :
      is_readable b.kind ≡ true → (is_input b.kind && not (fn == codes "Run")) ≡ false → Reads fn b
  module_name : is_module b.kind ≡ true → Reads fn b

mutual
  pub data Typed {w : World} (r : Registry w) (fn : Str) (Γ : Scope)
      : Resolved.Expr w → Type 0 where
    integer : (t : Token) (n : ℤ) → Typed r fn Γ (Resolved.integer t n integer_id)
    float : (t : Token) (v : w.Float) → Typed r fn Γ (Resolved.float t v float_id)
    string : (t : Token) (s : Str) → Typed r fn Γ (Resolved.string t s string_id)
    boolean : (t : Token) (b : Bool) → Typed r fn Γ (Resolved.boolean t b bool_id)
    ident :
        (t : Token) (b : Binding)
        → find t.literal Γ ≡ some b
        → Reads fn b
        → Typed r fn Γ (Resolved.ident t b.type)
    slot_ref :
        (t : Token) (key : Str) (b : Binding) (s : SlotHead)
        → find key Γ ≡ some b
        → b.slot ≡ some s
        → Typed r fn Γ (Resolved.slot_ref t s)
    logical :
        (t : Token) (a b : Resolved.Expr w)
        → Typed r fn Γ a
        → Typed r fn Γ b
        → expr_type a ≡ bool_id
        → expr_type b ≡ bool_id
        → Typed r fn Γ (Resolved.logical t a b)
    infix_expr :
        (t : Token) (a b : Resolved.Expr w) (rule : BinaryRule w)
        → Typed r fn Γ a
        → Typed r fn Γ b
        → lookup_binary r t.type (expr_type a) (expr_type b) ≡ some rule
        → Typed r fn Γ (Resolved.infix_expr t a b rule.eval_type rule.eval_fn)
    prefix_expr :
        (t : Token) (a : Resolved.Expr w) (rule : UnaryRule w)
        → Typed r fn Γ a
        → lookup_unary r t.type (expr_type a) ≡ some rule
        → Typed r fn Γ (Resolved.prefix_expr t a rule.eval_fn rule.eval_type)
    member_access :
        (t : Token) (a : Resolved.Expr w) (name : Str) (rule : MemberAccessRule w)
        → Typed r fn Γ a
        → lookup_member_access r (expr_type a) name ≡ some rule
        → Typed r fn Γ (Resolved.member_access t a name rule.eval_type rule.eval_fn)
    method_call :
        (t : Token) (a : Resolved.Expr w) (name : Str) (args : Resolved.Args w) (rule : CallRule w)
        → Typed r fn Γ a
        → lookup_call r (expr_type a) name ≡ some rule
        → TypedArgs r fn Γ rule.args args
        → Typed r fn Γ (Resolved.method_call t a name args rule.eval_type rule.eval_fn)

  -- A value of the type that is wanted, or, where a coercion may be applied, one that is coerced to it.
  pub data Fits {w : World} (r : Registry w) (fn : Str) (Γ : Scope)
      : TypeId → Bool → Resolved.Expr w → Type 0 where
    same :
        {want : TypeId} {exact : Bool} (a : Resolved.Expr w)
        → Typed r fn Γ a
        → expr_type a ≡ want
        → Fits r fn Γ want exact a
    coerced :
        {want : TypeId} {exact : Bool} (a : Resolved.Expr w) (rule : CoerceRule w)
        → Typed r fn Γ a
        → exact ≡ false
        → lookup_coerce r (expr_type a) want ≡ some rule
        → Fits r fn Γ want exact (Resolved.coerce a rule.eval_type rule.eval_fn)

  -- One argument for each parameter, in the order of the parameters and with their names.
  pub data TypedArgs {w : World} (r : Registry w) (fn : Str) (Γ : Scope)
      : List ParamRule → Resolved.Args w → Type 0 where
    no_args : TypedArgs r fn Γ [] Resolved.no_args
    arg :
        (p : ParamRule) (ps : List ParamRule) (t : Token) (a : Resolved.Expr w)
        (rest : Resolved.Args w)
        → Fits r fn Γ p.type p.exact a
        → TypedArgs r fn Γ ps rest
        → TypedArgs r fn Γ (p ∷ ps) (Resolved.arg t p.name a rest)

mutual
  -- A statement of the function named, with the scope before it and after it.
  pub data TypedStmt {w : World} (r : Registry w) (fn : Str)
      : Scope → Resolved.Stmt w → Scope → Type 0 where
    let_stmt :
        {Γ : Scope} (t : Token) (name : Str) (a : Resolved.Expr w)
        → find name Γ ≡ none
        → Typed r fn Γ a
        → TypedStmt r fn Γ
            (Resolved.let_stmt t name a (expr_type a))
            (bind name (let_binding (expr_type a)) Γ)
    assign_name :
        {Γ : Scope} (t : Token) (name : Str) (b : Binding) (a : Resolved.Expr w)
        → find name Γ ≡ some b
        → b.assignable ≡ true
        → Fits r fn Γ b.type false a
        → TypedStmt r fn Γ (Resolved.assign_name t name a b.type) Γ
    assign_slot :
        {Γ : Scope} (t : Token) (key : Str) (b : Binding) (s : SlotHead) (a : Resolved.Expr w)
        → find key Γ ≡ some b
        → b.slot ≡ some s
        → b.assignable ≡ true
        → Fits r fn Γ b.type false a
        → TypedStmt r fn Γ (Resolved.assign_slot t s a b.type) Γ
    emit :
        {Γ : Scope} (t : Token) (name : Str) (b : Binding) (args : Resolved.Args w)
        → find name Γ ≡ some b
        → is_output b.kind ≡ true
        → (fn == codes "Run") ≡ true
        → TypedArgs r fn Γ (emit_rule r b.type) args
        → TypedStmt r fn Γ (Resolved.emit t name args b.type) Γ
    expr_stmt :
        {Γ : Scope} (t : Token) (a : Resolved.Expr w)
        → Typed r fn Γ a
        → TypedStmt r fn Γ (Resolved.expr_stmt t a) Γ
    block :
        {Γ : Scope} (t : Token) (ss : Resolved.Stmts w)
        → TypedStmts r fn (enclosed Γ) ss
        → TypedStmt r fn Γ (Resolved.block t ss) Γ
    if_stmt :
        {Γ Γ' : Scope} (t at : Token) (a : Resolved.Expr w) (ss : Resolved.Stmts w)
        (els : Resolved.Else w)
        → Typed r fn Γ a
        → expr_type a ≡ bool_id
        → TypedStmts r fn (enclosed Γ) ss
        → TypedElse r fn Γ els Γ'
        → TypedStmt r fn Γ (Resolved.if_stmt t a at ss els) Γ'

  pub data TypedStmts {w : World} (r : Registry w) (fn : Str)
      : Scope → Resolved.Stmts w → Type 0 where
    done : {Γ : Scope} → TypedStmts r fn Γ Resolved.done
    then_do :
        {Γ Γ' : Scope} (s : Resolved.Stmt w) (ss : Resolved.Stmts w)
        → TypedStmt r fn Γ s Γ'
        → TypedStmts r fn Γ' ss
        → TypedStmts r fn Γ (Resolved.then_do s ss)

  pub data TypedElse {w : World} (r : Registry w) (fn : Str)
      : Scope → Resolved.Else w → Scope → Type 0 where
    no_else : {Γ : Scope} → TypedElse r fn Γ Resolved.no_else Γ
    otherwise :
        {Γ Γ' : Scope} (s : Resolved.Stmt w)
        → TypedStmt r fn Γ s Γ'
        → TypedElse r fn Γ (Resolved.otherwise s) Γ'

-- A name's type is not the one that stands for an error, and a slot has the type of its binding.
abbrev pub GoodBinding : Binding → Type 0
GoodBinding b = (b.type ≢ error_type_id) × ((s : SlotHead) → b.slot ≡ some s → s.type ≡ b.type)

abbrev pub GoodScope : Scope → Type 0
GoodScope Γ = (key : Str) (b : Binding) → find key Γ ≡ some b → GoodBinding b

-- A name with a dot is a slot's.
abbrev pub SlotNames : Scope → Type 0
SlotNames Γ = (key : Str) (b : Binding) → find key Γ ≡ some b → has_dot key ≡ true → b.slot ≢ none
