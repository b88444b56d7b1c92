-- ===== src/Resolver/Check.antt =====
-- resolver/resolver.go: what the resolver's methods share. Each returns its result beside the
-- diagnostics, the oldest first, to which it adds; `panic` is one that nothing recovers.
use tascript.Common.{
  ℕ, Bool, List, [], ◌∷◌, ◌++◌, Str, Outcome, ok, err, panic, Panic, length, nat_beq, if◌then◌else◌,
  ◌==◌, str_eq,
}
use tascript.Registry.Value.{TypeId, error_type_id, World}
use tascript.Registry.Rule.{Registry}
use tascript.Resolver.Scope.{Symbol}
use tascript.Diag.{Diagnostic}

abbrev pub Errs : Type 0
Errs = List Diagnostic

abbrev pub Check : Type 0 → Type 0
Check A = Errs → Outcome ⊥ (A × Errs)

abbrev pub continue : {A B : Type 0} → Outcome ⊥ (A × Errs) → (A → Check B) → Outcome ⊥ (B × Errs)
continue (ok (a, errs)) f = f a errs
continue (err e) f = err e
continue (panic p) f = panic p

infixl 5 ◌>>=◌ ◌>>◌
unfoldable pub ◌>>=◌ : {A B : Type 0} → Check A → (A → Check B) → Check B
◌>>=◌ m f errs = continue (m errs) f

unfoldable pub ◌>>◌ : {A : Type 0} → Check (Unit {0}) → Check A → Check A
◌>>◌ m k errs = continue (m errs) (λ _. k)

unfoldable pub give : {A : Type 0} → A → Check A
give a errs = ok (a, errs)

-- The `add…` methods.
unfoldable pub report : Diagnostic → Check (Unit {0})
report d errs = ok (tt, errs ++ d ∷ [])

unfoldable pub report_if : Bool → Diagnostic → Check (Unit {0})
report_if b d errs = if b then report d errs else give tt errs

-- Report, and go on with a value.
unfoldable pub fail : {A : Type 0} → Diagnostic → A → Check A
fail d a errs = ok (a, errs ++ d ∷ [])

-- `len(r.errs)`
unfoldable pub error_count : Check ℕ
error_count errs = ok (length errs, errs)

-- `if len(r.errs) == errsBefore`
unfoldable pub report_first : ℕ → Diagnostic → Check (Unit {0})
report_first before d errs = if nat_beq (length errs) before then report d errs else give tt errs

abbrev pub crash : {A : Type 0} → Panic → Check A
crash p errs = panic p

abbrev pub is_error : TypeId → Bool
is_error t = t == error_type_id

-- What a walk reads and does not change. `curr_fn` is empty at the top level.
pub record Context (w : World) : Type 0 where
  pub reg : Registry w
  pub curr_fn : Str
  pub declared_names : List Symbol
