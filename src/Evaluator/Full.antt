-- ===== src/Evaluator/Full.antt =====
-- evaluator/evaluator.go: expressions on slots that are all filled.
use tascript.Common.{
  ℕ, Bool, Option, none, some, ◌≢◌, get_elem?, inl, inr, Option-cases, Outcome, ok, err, panic,
  ◌>>=◌, str_eq,
}
use tascript.Token.{Token}
use tascript.Registry.Value.{World, Value, Fields, empty}
use tascript.Registry.Rule.{RuleError, registry_error, plain_error}
use tascript.Registry.Script.{fields_set}
use tascript.Resolved.{
  Expr, bad, ident, infix_expr, logical, prefix_expr, member_access, slot_ref, index_expr,
  method_call, coerce, Args, no_args, arg, SlotHead,
}
use tascript.Evaluator.Env.{Env, get}
use tascript.Evaluator.Failure.{
  Eval, Failure, trap, lift, to_failure, runtime_failure, read_before_filled,
}
use tascript.Evaluator.Expr.{
  Slots, short_circuit, to_bool, eval_ident, eval_slot_ref, eval_expr, eval_args,
}
use tascript.Evaluator.Stmt.{to_condition}

-- The failure of a read of an empty cell.
abbrev pub IsEmptyRead : Failure → Type 0
IsEmptyRead (runtime_failure _ _ (read_before_filled _ _)) = Unit
IsEmptyRead _ = ⊥

-- An outcome other than that failure.
pub data Clean {A : Type 0} : Eval A → Type 0 where
  clean_ok : (a : A) → Clean (ok a)
  clean_err : (f : Failure) → (IsEmptyRead f → ⊥) → Clean (err f)
  clean_panic : (p : _) → Clean (panic p)

pub >>=-Clean :
    {A B : Type 0} {m : Eval A} {f : A → Eval B}
    → Clean m
    → ((a : A) → Clean (f a))
    → Clean (m >>= f)
>>=-Clean (clean_ok a) h = h a
>>=-Clean (clean_err f k) h = clean_err f k
>>=-Clean (clean_panic p) h = clean_panic p

module _ {w : World} where
  abbrev pub Full : Slots w → Type 0
  Full slots = (i : ℕ) → get_elem? slots i ≢ some none

  trap-Clean : (tok : Token) (r : Outcome RuleError (Value w)) → Clean (trap tok r)
  unfolding trap to_failure
  trap-Clean tok (ok v) = clean_ok v
  trap-Clean tok (err (registry_error k m)) = clean_err _ (λ h. h)
  trap-Clean tok (err (plain_error m)) = clean_err _ (λ h. h)
  trap-Clean tok (panic p) = clean_panic p

  lift-Clean : (r : Outcome ⊥ (Value w)) → Clean (lift r)
  unfolding lift
  lift-Clean (ok v) = clean_ok v
  lift-Clean (err e) = absurd e
  lift-Clean (panic p) = clean_panic p

  to_bool-Clean : (v : Value w) → Clean (to_bool v)
  unfolding to_bool
  to_bool-Clean (Value.boolean b) = clean_ok b
  to_bool-Clean _ = clean_panic _

  pub to_condition-Clean : (v : Value w) → Clean (to_condition v)
  unfolding to_condition
  to_condition-Clean (Value.boolean b) = clean_ok b
  to_condition-Clean _ = clean_panic _

  eval_ident-Clean : (tok : Token) (env : Env w) → Clean (eval_ident tok env)
  unfolding eval_ident
  eval_ident-Clean tok env = elim (Option-cases (get tok.literal env)) [
    | inl e ↦ rw (e, eval_ident) (clean_panic _)
    | inr (v, e) ↦ rw (e, eval_ident) (clean_ok v)
  ]

  eval_slot_ref-Clean :
      (tok : Token) (s : SlotHead) (slots : Slots w)
      → Full slots
      → Clean (eval_slot_ref tok s slots)
  unfolding eval_slot_ref
  eval_slot_ref-Clean tok s slots full = elim (Option-cases (get_elem? slots s.index)) [
    | inl e ↦ rw (e, eval_slot_ref) (clean_panic _)
    | inr (none, e) ↦ absurd (full s.index e)
    | inr (some v, e) ↦ rw (e, eval_slot_ref) (clean_ok v)
  ]

  early-Clean :
      (o : Option Bool) (rest : Eval (Value w))
      → Clean rest
      → Clean (elim o [ some early ↦ ok (Value.boolean early) | none ↦ rest ])
  early-Clean none rest h = h
  early-Clean (some b) rest h = clean_ok _

mutual
  unfolding eval_expr

  pub eval_expr-Clean :
      {w : World} (slots : Slots w) (env : Env w) (e : Expr w)
      → Full slots
      → Clean (eval_expr slots env e)
  eval_expr-Clean slots env (Expr.integer _ n _) full = clean_ok _
  eval_expr-Clean slots env (Expr.float _ x _) full = clean_ok _
  eval_expr-Clean slots env (Expr.string _ s _) full = clean_ok _
  eval_expr-Clean slots env (Expr.boolean _ b _) full = clean_ok _
  eval_expr-Clean slots env (ident tok _) full = eval_ident-Clean tok env
  eval_expr-Clean slots env (infix_expr tok left right _ fn) full =
      >>=-Clean (eval_expr-Clean slots env left full)
        λ l. >>=-Clean (eval_expr-Clean slots env right full) λ r. trap-Clean tok (fn l r)
  eval_expr-Clean slots env (logical tok left right) full =
      >>=-Clean (eval_expr-Clean slots env left full) λ l. >>=-Clean (to_bool-Clean l) λ b.
        early-Clean (short_circuit tok.type b) _ (
          >>=-Clean (eval_expr-Clean slots env right full)
            λ r. >>=-Clean (to_bool-Clean r) λ c. clean_ok _)
  eval_expr-Clean slots env (prefix_expr tok right fn _) full =
      >>=-Clean (eval_expr-Clean slots env right full) (λ r. trap-Clean tok (fn r))
  eval_expr-Clean slots env (coerce inner _ fn) full =
      >>=-Clean (eval_expr-Clean slots env inner full) (λ v. lift-Clean (fn v))
  eval_expr-Clean slots env (member_access tok object _ _ fn) full =
      >>=-Clean (eval_expr-Clean slots env object full) (λ o. trap-Clean tok (fn o))
  eval_expr-Clean slots env (method_call tok receiver _ args _ fn) full =
      >>=-Clean (eval_expr-Clean slots env receiver full) λ v.
        >>=-Clean (eval_args-Clean slots env args empty full) λ fields. trap-Clean tok (fn v fields)
  eval_expr-Clean slots env (slot_ref tok s) full = eval_slot_ref-Clean tok s slots full
  eval_expr-Clean slots env (index_expr _ _ _ _) full = clean_panic _
  eval_expr-Clean slots env (bad _) full = clean_panic _

  pub eval_args-Clean :
      {w : World} (slots : Slots w) (env : Env w) (args : Args w) (fields : Fields w)
      → Full slots
      → Clean (eval_args slots env args fields)
  eval_args-Clean slots env no_args fields full = clean_ok fields
  eval_args-Clean slots env (arg _ name value rest) fields full =
      >>=-Clean (eval_expr-Clean slots env value full)
        λ v. eval_args-Clean slots env rest (fields_set name v fields) full
