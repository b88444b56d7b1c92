-- ===== src/Executable/Reach.antt =====
-- executable.go: `Run` on an executable that the host's calls have initialized, and empty slots.
use tascript.Common.{
  ℕ, zero, suc, ◌+◌, ◌<◌, ◌≤◌, nat_beq, nat_beq_iff, arith, none, some, List, [], ◌∷◌, ◌≡◌, sym,
  ◌∙◌, subst, inl, inr, length, ok, err, panic, get_elem?, Bool-cases, str_eq,
}
use tascript.Registry.Value.{World, Value}
use tascript.Registry.Rule.{Registry}
use tascript.Resolved.{Program, SlotDecl}
use tascript.Evaluator.Failure.{Eval, Failure}
use tascript.Evaluator.Machine.{slots_of, eval_run}
use tascript.Evaluator.Effects.{IsFilled}
use tascript.Evaluator.Expr.{Slots}
use tascript.Evaluator.Full.{Full, Clean, clean_err, IsEmptyRead}
use tascript.Evaluator.FullRun.{eval_run-Clean}
use tascript.Executable.{
  compiled, Stage, stage_created, stage_initialized, stage_failed, engine, Executable, reply,
  run_at, run,
}
use tascript.Executable.Laws.{Steps}
use tascript.Executable.Invariant.{IsValid, AllFilled, reachable-IsValid}

pub some→lt : {A : Type 0} (xs : List A) (i : ℕ) (a : A) → get_elem? xs i ≡ some a → i < length xs
some→lt [] i a h = cc
some→lt (x ∷ xs) zero a h = omega arith
some→lt (x ∷ xs) (suc i) a h = omega (arith, some→lt xs i a h)

module _ {w : World} where
  -- The slots are numbered in the order of their declarations, from `n`.
  abbrev pub Numbered : ℕ → List (SlotDecl w) → Type 0
  Numbered n [] = Unit
  Numbered n (d ∷ ds) = (d.head.index ≡ n) × Numbered (suc n) ds

  Numbered-IsFilled :
      (n : ℕ) (ds : List (SlotDecl w)) (slots : Slots w)
      → Numbered n ds
      → AllFilled ds slots
      → (i : ℕ) → n ≤ i
      → i < n + length ds
      → IsFilled slots i
  Numbered-IsFilled n [] slots h k i a b = absurd (omega arith)
  Numbered-IsFilled n (d ∷ ds) slots h k i a b = elim (Bool-cases (nat_beq i n)) [
    | inl e ↦ rw ((nat_beq_iff i n).0 e, ← h.0) k.0
    | inr e ↦ Numbered-IsFilled (suc n) ds slots h.1 k.1 i (ground arith) (omega arith)
  ]

  IsValid-Full :
      (ds : List (SlotDecl w)) (y : Executable w)
      → Numbered 0 ds
      → IsValid ds y
      → y.stage ≡ stage_initialized
      → Full y.eval.slots
  IsValid-Full ds y numbered h stage i e =
      let bound = some→lt y.eval.slots i none e in
      let cells = h.cells in
      let (v, k) =
        Numbered-IsFilled 0 ds y.eval.slots numbered (h.filled stage) i (omega arith)
          (omega arith) in
      let e' = sym k ∙ e in cc

  reply-Clean :
      (r : Eval (Value w)) (f : Failure)
      → Clean r
      → reply (λ _. tt) r ≡ err (engine f)
      → ¬ IsEmptyRead f
  reply-Clean (ok v) f c h k = cc
  reply-Clean (err g) f (clean_err _ n) h k = n (subst IsEmptyRead {x = f} {y = g} (cc) k)
  reply-Clean (panic p) f c h k = cc

  run_at-Clean :
      (st : Stage) (x : Executable w) (f : Failure)
      → Clean (eval_run x.eval).0
      → (run_at st x).0 ≡ err (engine f)
      → ¬ IsEmptyRead f
  unfolding run_at
  run_at-Clean stage_initialized x f c h k = reply-Clean (eval_run x.eval).0 f c h k
  run_at-Clean stage_created x f c h k = cc
  run_at-Clean stage_failed x f c h k = cc

  -- If the program's slots are numbered in the order of their declarations, then once an executable
  -- is initialized, whatever calls the host made to get there and whatever the script does, `Run`
  -- does not fail because a slot is read before it was filled.
  pub run-no-IsEmptyRead :
      (prog : Program w) (reg : Registry w) (y : Executable w) (f : Failure)
      → Numbered 0 (slots_of prog.decls)
      → Steps (compiled prog reg) y
      → y.stage ≡ stage_initialized
      → (run y).0 ≡ err (engine f)
      → ¬ IsEmptyRead f
  unfolding run
  run-no-IsEmptyRead prog reg y f numbered steps stage =
      let valid = reachable-IsValid prog reg y steps in
      run_at-Clean y.stage y f
        (eval_run-Clean y.eval valid.idle (IsValid-Full _ y numbered valid stage))
