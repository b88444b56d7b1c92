-- ===== src/Resolver/Operand.antt =====
-- resolver/resolver.go: references, and the operators of `resolveExpr` behind their operands.
use tascript.Common.{
  ℕ, Bool, true, false, not, ◌&&◌, ◌||◌, Option, none, some, List, [], ◌∷◌, codes, if◌then◌else◌,
  ◌==◌, str_eq, ok, panic, nil_dereference, error_without_report,
}
use tascript.Token.{Token, and, or, token_type_eq, contains}
use tascript.Registry.Value.{bool_id, World}
use tascript.Registry.Rule.{ParamRule, CallRule}
use tascript.Registry.Register.{lookup_binary, lookup_unary, lookup_member_access, lookup_call}
use tascript.Resolved.{SlotHead, expr_type}
use tascript.Resolved
use tascript.Ast
use tascript.Diag
use tascript.Resolver.Scope.{
  Binding, BindingKind, kind_input, kind_module, kind_decl_word, is_readable, Scope, find,
  namespaced_symbol,
}
use tascript.Resolver.Report.{
  add_input_in_init, add_invalid_binary_op, add_invalid_unary_op, add_not_indexable,
  add_not_readable, add_slot_undeclared, add_type_mismatch, add_undefined_attribute,
  add_undefined_ident, add_undefined_method, add_use_before_declaration,
}
use tascript.Resolver.Check.{
  Check, Context, ◌>>=◌, ◌>>◌, give, report_if, fail, report_first, crash, is_error,
}

unfoldable pub is_emit : Token → Bool
is_emit t = t.literal == codes "emit"

unfoldable pub is_decl_word : BindingKind → Bool
is_decl_word kind_decl_word = true
is_decl_word _ = false

unfoldable pub is_module : BindingKind → Bool
is_module kind_module = true
is_module _ = false

unfoldable pub is_input : BindingKind → Bool
is_input kind_input = true
is_input _ = false

-- The word of a declaration kind, if the expression is one.
abbrev pub word_if : Token → Option Binding → Option Token
word_if t none = none
word_if t (some b) = if is_decl_word b.kind then some t else none

module _ {w : World} where
  unfoldable pub new_error_expr : Token → Check (Resolved.Expr w)
  new_error_expr t [] = panic error_without_report
  new_error_expr t (d ∷ ds) = ok (Resolved.bad t, d ∷ ds)

  -- The diagnostic for a name that no scope binds.
  abbrev pub undefined : Context w → Bool → Diag.Diagnostic → Diag.Diagnostic → Diag.Diagnostic
  undefined x declared early late = if x.curr_fn == [] && declared then early else late

  unfoldable pub ref_slot : Token → Option SlotHead → Check (Resolved.Expr w)
  ref_slot t (some s) = give (Resolved.slot_ref t s)
  ref_slot t none = crash nil_dereference

  -- `resolveSlotRef`. A binding without a slot makes a reference whose `Type()` panics: it does so here.
  unfoldable pub resolve_slot_ref : Context w → Scope → Token → Token → Check (Resolved.Expr w)
  resolve_slot_ref x Γ word member = elim (find (namespaced_symbol word.literal member.literal) Γ) [
    | some b ↦ ref_slot member b.slot
    | none ↦
        fail
          (undefined x (contains (namespaced_symbol word.literal member.literal) x.declared_names)
            (add_use_before_declaration member) (add_slot_undeclared member word.literal))
          (Resolved.bad member)
  ]

  abbrev pub bound_value : Token → Binding → Check (Resolved.Expr w)
  bound_value t b = elim b.slot [
    | some s ↦ give (Resolved.slot_ref t s)
    | none ↦ give (Resolved.ident t b.type)
  ]

  unfoldable pub resolve_bound : Context w → Token → Binding → Check (Resolved.Expr w)
  resolve_bound x t b =
      if not (is_readable b.kind)
      then fail (add_not_readable t b.kind) (Resolved.bad t)
      else if is_input b.kind && not (x.curr_fn == codes "Run")
      then fail (add_input_in_init t) (Resolved.bad t)
      else bound_value t b

  unfoldable pub resolve_ident : Context w → Scope → Token → Check (Resolved.Expr w)
  resolve_ident x Γ t = elim (find t.literal Γ) [
    | some b ↦ resolve_bound x t b
    | none ↦
        fail
          (undefined x (contains t.literal x.declared_names) (add_use_before_declaration t)
            (add_undefined_ident t))
          (Resolved.bad t)
  ]

  unfoldable pub resolve_logical :
      Token → Resolved.Expr w → Resolved.Expr w → Check (Resolved.Expr w)
  resolve_logical t left right = do
    report_if (not (is_error (expr_type left)) && not (expr_type left == bool_id))
        (add_type_mismatch t bool_id (expr_type left))
    report_if (not (is_error (expr_type right)) && not (expr_type right == bool_id))
        (add_type_mismatch t bool_id (expr_type right))
    give (Resolved.logical t left right)

  -- Behind the operands of an `InfixExpr` with another operator.
  unfoldable pub resolve_binary :
      Context w → ℕ → Token → Resolved.Expr w → Resolved.Expr w → Check (Resolved.Expr w)
  resolve_binary x before t left right =
      if is_error (expr_type left) || is_error (expr_type right)
      then new_error_expr t
      else elim (lookup_binary x.reg t.type (expr_type left) (expr_type right)) [
        | some rule ↦ give (Resolved.infix_expr t left right rule.eval_type rule.eval_fn)
        | none ↦ do
          report_first before (add_invalid_binary_op t (expr_type left) (expr_type right))
          give (Resolved.bad t)
      ]

  unfoldable pub resolve_infix :
      Context w → ℕ → Token → Resolved.Expr w → Resolved.Expr w → Check (Resolved.Expr w)
  resolve_infix x before t left right =
      if t.type == and || t.type == or
      then resolve_logical t left right
      else resolve_binary x before t left right

  unfoldable pub resolve_prefix : Context w → ℕ → Token → Resolved.Expr w → Check (Resolved.Expr w)
  resolve_prefix x before t right =
      if is_error (expr_type right)
      then new_error_expr t
      else elim (lookup_unary x.reg t.type (expr_type right)) [
        | some rule ↦ give (Resolved.prefix_expr t right rule.eval_fn rule.eval_type)
        | none ↦ do
          report_first before (add_invalid_unary_op t (expr_type right))
          give (Resolved.bad t)
      ]

  unfoldable pub resolve_attribute :
      Context w → ℕ → Token → Token → Resolved.Expr w → Check (Resolved.Expr w)
  resolve_attribute x before t member object =
      if is_error (expr_type object)
      then new_error_expr t
      else elim (lookup_member_access x.reg (expr_type object) member.literal) [
        | some rule ↦
            give (Resolved.member_access t object member.literal rule.eval_type rule.eval_fn)
        | none ↦ do report_first before (add_undefined_attribute member); give (Resolved.bad t)
      ]

  unfoldable pub resolve_index : ℕ → Token → Resolved.Expr w → Check (Resolved.Expr w)
  resolve_index before t left =
      if is_error (expr_type left)
      then new_error_expr t
      else (do report_first before (add_not_indexable t (expr_type left)); give (Resolved.bad t))

  unfoldable pub decl_word : Scope → Ast.Expr w → Option Token
  decl_word Γ (Ast.ident t) = word_if t (find t.literal Γ)
  decl_word Γ _ = none

  -- `resolveReceiver`; `otherwise` resolves the expression.
  abbrev pub module_or : Token → Check (Resolved.Expr w) → Option Binding → Check (Resolved.Expr w)
  module_or t otherwise none = otherwise
  module_or t otherwise (some b) =
      if is_module b.kind then give (Resolved.ident t b.type) else otherwise

  unfoldable pub receiver : Scope → Ast.Expr w → Check (Resolved.Expr w) → Check (Resolved.Expr w)
  receiver Γ (Ast.ident t) otherwise = module_or t otherwise (find t.literal Γ)
  receiver Γ _ otherwise = otherwise

  abbrev pub call_or_bad :
      Token → Token → Resolved.Expr w → CallRule w → Option (Resolved.Args w) → Resolved.Expr w
  call_or_bad t member object rule none = Resolved.bad t
  call_or_bad t member object rule (some args) =
      Resolved.method_call t object member.literal args rule.eval_type rule.eval_fn

  unfoldable pub resolve_method :
      Context w
      → ℕ
      → Token
      → Token
      → (List ParamRule → Check (Option (Resolved.Args w)))
      → Resolved.Expr w
      → Check (Resolved.Expr w)
  resolve_method x before t member args object =
      if is_error (expr_type object)
      then new_error_expr t
      else elim (lookup_call x.reg (expr_type object) member.literal) [
        | some rule ↦ do found ← args rule.args; give (call_or_bad t member object rule found)
        | none ↦ do report_first before (add_undefined_method member); give (Resolved.bad t)
      ]
