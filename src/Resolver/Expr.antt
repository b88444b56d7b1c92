-- ===== src/Resolver/Expr.antt =====
-- resolver/resolver.go: `resolveExpr`.
use tascript.Common.{
  ℕ, suc, ◌+◌, false, none, some, List, [], ◌∷◌, if◌then◌else◌, str_eq, out_of_range,
  unhandled_node,
}
use tascript.Token.{token_type_eq}
use tascript.Registry.Value.{integer_id, float_id, string_id, bool_id, World}
use tascript.Registry.Rule.{ParamRule}
use tascript.Resolved.{SlotHead, expr_type}
use tascript.Resolved
use tascript.Ast
use tascript.Resolver.Scope.{Scope}
use tascript.Resolver.Report.{add_emit_not_expression, add_not_callable, add_undefined_func}
use tascript.Resolver.Check.{Check, Context, ◌>>=◌, give, fail, error_count, crash}
use tascript.Resolver.Operand.{
  is_emit, resolve_ident, resolve_slot_ref, resolve_infix, resolve_prefix, resolve_attribute,
  resolve_index, resolve_method, decl_word, receiver,
}
use tascript.Resolver.Args.{
  ArgState, fit_argument, put_arg, empty_args, param_index, keyed_arg, check_args, count_exprs,
  count_kwargs,
}

unfoldable mutual
  pub resolve_expr : {w : World} → Context w → Scope → Ast.Expr w → Check (Resolved.Expr w)
  resolve_expr x Γ (Ast.integer t n) = give (Resolved.integer t n integer_id)
  resolve_expr x Γ (Ast.float t v) = give (Resolved.float t v float_id)
  resolve_expr x Γ (Ast.string t s) = give (Resolved.string t s string_id)
  resolve_expr x Γ (Ast.boolean t b) = give (Resolved.boolean t b bool_id)
  resolve_expr x Γ (Ast.ident t) = resolve_ident x Γ t
  resolve_expr x Γ (Ast.infix_expr t left right) = do
    before ← error_count
    l ← resolve_expr x Γ left
    r ← resolve_expr x Γ right
    resolve_infix x before t l r
  resolve_expr x Γ (Ast.prefix_expr t right) = do
    before ← error_count
    r ← resolve_expr x Γ right
    resolve_prefix x before t r
  resolve_expr x Γ (Ast.member_access t object member) = elim (decl_word Γ object) [
    | some word ↦ resolve_slot_ref x Γ word member
    | none ↦ do
      before ← error_count
      o ← receiver Γ object (resolve_expr x Γ object)
      resolve_attribute x before t member o
  ]
  resolve_expr x Γ (Ast.index_expr t left index) = do
    before ← error_count
    l ← resolve_expr x Γ left
    _ ← resolve_expr x Γ index
    resolve_index before t l
  resolve_expr x Γ (Ast.call t (Ast.member_access _ object member) args named) = do
    before ← error_count
    o ← receiver Γ object (resolve_expr x Γ object)
    resolve_method x before t member
        (λ params.
          check_args t (count_exprs args + count_kwargs named) params 0
            (resolve_positional x Γ args params 0
              (record { args = empty_args params; has_errs = false }))
            (resolve_keyed x Γ named params))
        o
  resolve_expr x Γ (Ast.call t (Ast.ident callee) args named) =
      fail (if is_emit callee then add_emit_not_expression callee else add_undefined_func callee)
        (Resolved.bad t)
  resolve_expr x Γ (Ast.call t _ args named) = fail (add_not_callable t) (Resolved.bad t)
  resolve_expr x Γ (Ast.bad t) = crash unhandled_node

  -- The loop over `args`; `i` counts them, `params` are the rules from there on.
  pub resolve_positional :
      {w : World}
      → Context w
      → Scope
      → Ast.Exprs w
      → List ParamRule
      → ℕ
      → ArgState w
      → Check (ArgState w)
  resolve_positional x Γ Ast.no_exprs params i st = give st
  resolve_positional x Γ (Ast.expr e es) [] i st = crash out_of_range
  resolve_positional x Γ (Ast.expr e es) (p ∷ ps) i st = do
    v ← resolve_expr x Γ e
    (v', bad) ← fit_argument x p (Ast.tok e) v
    resolve_positional x Γ es ps (suc i)
        (put_arg i (record { token = Ast.tok e; name = p.name; value = v' }) bad st)

  -- The loop over `kwargs`.
  pub resolve_keyed :
      {w : World}
      → Context w
      → Scope
      → Ast.Kwargs w
      → List ParamRule
      → ArgState w
      → Check (ArgState w)
  resolve_keyed x Γ Ast.no_kwargs params st = give st
  resolve_keyed x Γ (Ast.kwarg t key e ks) params st = do
    st' ← keyed_arg x t key (resolve_expr x Γ e) st (param_index 0 key.literal params)
    resolve_keyed x Γ ks params st'
