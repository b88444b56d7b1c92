-- ===== src/Resolver/Stmt.antt =====
-- resolver/resolver.go: `resolveStmt` and what it calls. A statement's resolution returns, beside the
-- statement, the scope as the statement leaves it: Go's `Env.Set` writes to the innermost map.
use tascript.Common.{
  ◌+◌, Bool, true, false, not, ◌&&◌, ◌||◌, Option, none, some, List, codes, ◌==◌, str_eq,
  if◌then◌else◌, unhandled_node,
}
use tascript.Token.{Token}
use tascript.Registry.Value.{TypeId, bool_id, World}
use tascript.Registry.Rule.{ParamRule}
use tascript.Registry.Register.{lookup_coerce}
use tascript.Registry.Script.{emit_rule}
use tascript.Resolved.{SlotHead, expr_type}
use tascript.Resolved
use tascript.Ast
use tascript.Diag
use tascript.Resolver.Scope.{
  Binding, BindingKind, kind_let, kind_output, kind_label, is_reserved, Scope, find, bind, enclosed,
  namespaced_symbol,
}
use tascript.Resolver.Report.{
  add_duplicate_declaration, add_emit_outside_run, add_invalid_assign_target,
  add_invalid_emit_target, add_not_assignable, add_reserved_name, add_slot_undeclared,
  add_type_mismatch, add_undefined_ident, add_undefined_var,
}
use tascript.Resolver.Check.{
  Check, Context, ◌>>=◌, ◌>>◌, give, report, report_if, fail, crash, is_error,
}
use tascript.Resolver.Operand.{is_emit, is_decl_word}
use tascript.Resolver.Args.{check_args, empty_args, count_exprs, count_kwargs}
use tascript.Resolver.Expr.{resolve_expr, resolve_positional, resolve_keyed}

unfoldable pub is_output : BindingKind → Bool
is_output kind_output = true
is_output _ = false

-- The diagnostic for a declaration, by the keyword, of a name that is bound.
abbrev pub taken : Token → Token → Binding → Diag.Diagnostic
taken keyword name b =
    if is_reserved b.kind
    then add_reserved_name name b.kind
    else add_duplicate_declaration keyword name

abbrev pub let_binding : TypeId → Binding
let_binding t = record { type = t; kind = kind_let; slot = none; assignable = true }

-- A binding that can be the target of an assignment, with the target's token, or the token of a
-- `BadStmt` in its place.
pub data Target : Type 0 where
  target : Binding → Token → Target
  no_target : Token → Target

abbrev pub target_name : Token → Option Binding → Check Target
target_name t none = fail (add_undefined_var t) (no_target t)
target_name t (some b) = give (target b t)

abbrev pub target_slot : Token → Token → Token → Option Binding → Check Target
target_slot t word member none = fail (add_slot_undeclared member word.literal) (no_target t)
target_slot t word member (some b) = give (target b member)

abbrev pub is_word : Option Binding → Bool
is_word none = false
is_word (some b) = is_decl_word b.kind

module _ {w : World} where
  -- `resolveAssignTarget`, with the statement's token.
  unfoldable pub resolve_assign_target : Scope → Token → Ast.Expr w → Check Target
  resolve_assign_target Γ t (Ast.ident name) = target_name name (find name.literal Γ)
  resolve_assign_target Γ t (Ast.member_access _ (Ast.ident word) member) =
      if is_word (find word.literal Γ)
      then target_slot t word member (find (namespaced_symbol word.literal member.literal) Γ)
      else fail (add_invalid_assign_target t) (no_target t)
  resolve_assign_target Γ t _ = fail (add_invalid_assign_target t) (no_target t)

  abbrev pub assignment :
      Token → Token → Binding → Resolved.Expr w → Option SlotHead → Resolved.Stmt w
  assignment t name b value (some s) = Resolved.assign_slot t s value b.type
  assignment t name b value none = Resolved.assign_name t name.literal value b.type

  unfoldable pub assign_fitting :
      Context w → Token → Token → Binding → Resolved.Expr w → Check (Resolved.Stmt w)
  assign_fitting x t name b value =
      if expr_type value == b.type
      then give (assignment t name b value b.slot)
      else elim (lookup_coerce x.reg (expr_type value) b.type) [
        | some rule ↦
            give (assignment t name b (Resolved.coerce value rule.eval_type rule.eval_fn) b.slot)
        | none ↦ fail (add_type_mismatch t b.type (expr_type value)) (Resolved.bad_stmt t)
      ]

  unfoldable pub assign_target :
      Context w → Token → Resolved.Expr w → Target → Check (Resolved.Stmt w)
  assign_target x t value (no_target at) = give (Resolved.bad_stmt at)
  assign_target x t value (target b name) =
      if not b.assignable
      then fail (add_not_assignable name (kind_label b)) (Resolved.bad_stmt name)
      else if is_error (expr_type value) || is_error b.type
      then give (Resolved.bad_stmt t)
      else assign_fitting x t name b value

  abbrev pub emit_or_bad : Token → Token → TypeId → Option (Resolved.Args w) → Resolved.Stmt w
  emit_or_bad t name type none = Resolved.bad_stmt t
  emit_or_bad t name type (some args) = Resolved.emit t name.literal args type

  abbrev pub emit_args :
      Context w
      → Scope
      → Token
      → Ast.Exprs w
      → Ast.Kwargs w
      → List ParamRule
      → Check (Option (Resolved.Args w))
  emit_args x Γ t args named params =
      check_args t (count_exprs args + count_kwargs named) params 1
        (resolve_positional x Γ args params 0
          (record { args = empty_args params; has_errs = false }))
        (resolve_keyed x Γ named params)

  unfoldable pub emit_to :
      Context w
      → Scope
      → Token
      → Token
      → Ast.Exprs w
      → Ast.Kwargs w
      → Binding
      → Check (Resolved.Stmt w)
  emit_to x Γ t name args named b =
      if not (is_output b.kind)
      then fail (add_invalid_emit_target name) (Resolved.bad_stmt name)
      else (do
        report_if (not (x.curr_fn == codes "Run")) (add_emit_outside_run t)
        found ← emit_args x Γ t args named (emit_rule x.reg b.type)
        give (emit_or_bad t name b.type found))

  unfoldable pub emit_bound :
      Context w
      → Scope
      → Token
      → Token
      → Ast.Exprs w
      → Ast.Kwargs w
      → Option Binding
      → Check (Resolved.Stmt w)
  emit_bound x Γ t name args named none = fail (add_undefined_ident name) (Resolved.bad_stmt name)
  emit_bound x Γ t name args named (some b) = emit_to x Γ t name args named b

  -- `resolveEmit`
  unfoldable pub resolve_emit :
      Context w → Scope → Token → Ast.Exprs w → Ast.Kwargs w → Check (Resolved.Stmt w)
  resolve_emit x Γ t (Ast.expr (Ast.ident name) args) named =
      emit_bound x Γ t name args named (find name.literal Γ)
  resolve_emit x Γ t _ named = fail (add_invalid_emit_target t) (Resolved.bad_stmt t)

  unfoldable pub plain_stmt : Context w → Scope → Token → Ast.Expr w → Check (Resolved.Stmt w)
  plain_stmt x Γ t e = do v ← resolve_expr x Γ e; give (Resolved.expr_stmt t v)

  -- An `ExprStmt`.
  unfoldable pub resolve_expr_stmt :
      Context w → Scope → Token → Ast.Expr w → Check (Resolved.Stmt w)
  resolve_expr_stmt x Γ t (Ast.call at (Ast.ident callee) args named) =
      if is_emit callee
      then resolve_emit x Γ at args named
      else plain_stmt x Γ t (Ast.call at (Ast.ident callee) args named)
  resolve_expr_stmt x Γ t e = plain_stmt x Γ t e

  -- A `LetStmt`, by what its name is bound to.
  unfoldable pub resolve_let :
      Context w
      → Scope
      → Token
      → Token
      → Ast.Expr w
      → Option Binding
      → Check (Resolved.Stmt w × Scope)
  resolve_let x Γ t name e (some b) = do
    report (taken t name b)
    _ ← resolve_expr x Γ e
    give (Resolved.bad_stmt t, Γ)
  resolve_let x Γ t name e none = do
    v ← resolve_expr x Γ e
    give (
      Resolved.let_stmt t name.literal v (expr_type v),
      bind name.literal (let_binding (expr_type v)) Γ,
    )

  -- An `AssignStmt`.
  unfoldable pub resolve_assign :
      Context w → Scope → Token → Ast.Expr w → Ast.Expr w → Check (Resolved.Stmt w)
  resolve_assign x Γ t to e = do
    v ← resolve_expr x Γ e
    found ← resolve_assign_target Γ t to
    assign_target x t v found

  abbrev pub keep_scope : Scope → Check (Resolved.Stmt w) → Check (Resolved.Stmt w × Scope)
  keep_scope Γ m = do s ← m; give (s, Γ)

unfoldable mutual
  pub resolve_stmt : {w : World} → Context w → Scope → Ast.Stmt w → Check (Resolved.Stmt w × Scope)
  resolve_stmt x Γ (Ast.expr_stmt t e) = keep_scope Γ (resolve_expr_stmt x Γ t e)
  resolve_stmt x Γ (Ast.let_stmt t name e) = resolve_let x Γ t name e (find name.literal Γ)
  resolve_stmt x Γ (Ast.assign_stmt t to e) = keep_scope Γ (resolve_assign x Γ t to e)
  resolve_stmt x Γ (Ast.block t ss) = do
    ss' ← resolve_stmts x (enclosed Γ) ss
    give (Resolved.block t ss', Γ)
  resolve_stmt x Γ (Ast.if_stmt t condition at ss els) = do
    c ← resolve_expr x Γ condition
    report_if (not (is_error (expr_type c)) && not (expr_type c == bool_id))
        (add_type_mismatch (Ast.tok condition) bool_id (expr_type c))
    ss' ← resolve_stmts x (enclosed Γ) ss
    (els', Γ') ← resolve_else x Γ els
    give (Resolved.if_stmt t c at ss' els', Γ')
  resolve_stmt x Γ (Ast.bad_stmt _ _) = crash unhandled_node

  -- The statements of a block, in the scope made for it.
  pub resolve_stmts : {w : World} → Context w → Scope → Ast.Stmts w → Check (Resolved.Stmts w)
  resolve_stmts x Γ Ast.done = give Resolved.done
  resolve_stmts x Γ (Ast.then_do s ss) = do
    (s', Γ') ← resolve_stmt x Γ s
    ss' ← resolve_stmts x Γ' ss
    give (Resolved.then_do s' ss')

  pub resolve_else : {w : World} → Context w → Scope → Ast.Else w → Check (Resolved.Else w × Scope)
  resolve_else x Γ Ast.no_else = give (Resolved.no_else, Γ)
  resolve_else x Γ (Ast.otherwise s) = do
    (s', Γ') ← resolve_stmt x Γ s
    give (Resolved.otherwise s', Γ')
