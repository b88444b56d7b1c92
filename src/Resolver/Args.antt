-- ===== src/Resolver/Args.antt =====
-- resolver/resolver.go: `resolveArgs`, around the resolution of each argument.
use tascript.Common.{
  ℕ, suc, ◌+◌, Bool, true, false, ◌||◌, Option, none, some, List, [], ◌∷◌, Str, length, nat_beq,
  set, get_elem?, if◌then◌else◌, ◌==◌, str_eq,
}
use tascript.Token.{Token, token_type_eq}
use tascript.Registry.Value.{World}
use tascript.Registry.Rule.{ParamRule}
use tascript.Registry.Register.{lookup_coerce}
use tascript.Resolved.{SlotHead, expr_type}
use tascript.Resolved
use tascript.Ast
use tascript.Resolver.Report.{
  add_arg_count_mismatch, add_args_missing, add_duplicate_arg, add_type_mismatch, add_unknown_kwarg,
}
use tascript.Resolver.Check.{Check, Context, ◌>>=◌, ◌>>◌, give, report, fail, is_error}

-- `exprs` counted.
abbrev pub count_exprs : {w : World} → Ast.Exprs w → ℕ
count_exprs Ast.no_exprs = 0
count_exprs (Ast.expr _ es) = suc (count_exprs es)

abbrev pub count_kwargs : {w : World} → Ast.Kwargs w → ℕ
count_kwargs Ast.no_kwargs = 0
count_kwargs (Ast.kwarg _ _ _ ks) = suc (count_kwargs ks)

unfoldable pub param_index : ℕ → Str → List ParamRule → Option (ℕ × ParamRule)
param_index i key [] = none
param_index i key (p ∷ ps) = if key == p.name then some (i, p) else param_index (suc i) key ps

-- An element of `resolvedArgs`.
pub record Arg (w : World) : Type 0 where
  pub token : Token
  pub name : Str
  pub value : Resolved.Expr w

-- `resolvedArgs`, in which an index is set where `resolvedIdx` is, and `hasErrs`.
pub record ArgState (w : World) : Type 0 where
  pub args : List (Option (Arg w))
  pub has_errs : Bool

module _ {w : World} where
  -- A value where a parameter is expected, and whether a type error was reported.
  unfoldable pub fit_argument :
      Context w → ParamRule → Token → Resolved.Expr w → Check (Resolved.Expr w × Bool)
  fit_argument x p t e =
      if expr_type e == p.type
      then give (e, false)
      else elim (if p.exact then none else lookup_coerce x.reg (expr_type e) p.type) [
        | some rule ↦ give (Resolved.coerce e rule.eval_type rule.eval_fn, false)
        | none ↦
            if is_error (expr_type e) || is_error p.type
            then give (e, false)
            else fail (add_type_mismatch t p.type (expr_type e)) (e, true)
      ]

  abbrev pub put_arg : ℕ → Arg w → Bool → ArgState w → ArgState w
  put_arg i a bad st = record { args = set st.args i (some a); has_errs = st.has_errs || bad }

  abbrev pub with_errs : ArgState w → ArgState w
  with_errs st = record st { has_errs = true }

  abbrev pub is_set : List (Option (Arg w)) → ℕ → Bool
  is_set args i = elim (get_elem? args i) [ some (some _) ↦ true | _ ↦ false ]

  -- The last loop of `resolveArgs`.
  unfoldable pub report_missing : Token → List ParamRule → List (Option (Arg w)) → Bool → Check Bool
  report_missing t (p ∷ ps) (none ∷ rest) errs = do
    report (add_args_missing t p.name)
    report_missing t ps rest true
  report_missing t (p ∷ ps) (some _ ∷ rest) errs = report_missing t ps rest errs
  report_missing t _ _ errs = give errs

  abbrev pub to_args : List (Option (Arg w)) → Resolved.Args w
  to_args [] = Resolved.no_args
  to_args (none ∷ rest) = to_args rest
  to_args (some a ∷ rest) = Resolved.arg a.token a.name a.value (to_args rest)

  abbrev pub empty_args : List ParamRule → List (Option (Arg w))
  empty_args [] = []
  empty_args (_ ∷ ps) = none ∷ empty_args ps

  abbrev pub valid_args : ArgState w → Bool → Option (Resolved.Args w)
  valid_args st errs = if errs then none else some (to_args st.args)

  -- `resolveArgs` around its two loops: `none` where Go returns false.
  unfoldable pub check_args :
      Token
      → ℕ
      → List ParamRule
      → ℕ
      → Check (ArgState w)
      → (ArgState w → Check (ArgState w))
      → Check (Option (Resolved.Args w))
  check_args t count params leading positional keyed =
      if nat_beq count (length params)
      then (do
        st ← positional
        st' ← keyed st
        errs ← report_missing t params st'.args st'.has_errs
        give (valid_args st' errs))
      else fail (add_arg_count_mismatch t (length params + leading) (count + leading)) none

  -- The two branches that follow the search for a keyword's parameter.
  unfoldable pub keyed_arg :
      Context w
      → Token
      → Token
      → Check (Resolved.Expr w)
      → ArgState w
      → Option (ℕ × ParamRule)
      → Check (ArgState w)
  keyed_arg x t key value st none = fail (add_unknown_kwarg t key.literal) (with_errs st)
  keyed_arg x t key value st (some (i, p)) =
      if is_set st.args i then fail (add_duplicate_arg t p.name) (with_errs st) else (do
        e ← value
        (e', bad) ← fit_argument x p t e
        give (put_arg i (record { token = t; name = p.name; value = e' }) bad st))
