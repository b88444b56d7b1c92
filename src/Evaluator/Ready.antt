-- ===== src/Evaluator/Ready.antt =====
-- evaluator/evaluator.go: what a successful `EvalInit` promises, what the host's own fills are worth
-- to it, and how an activation without its inputs or outputs is refused.
use tascript.Common.{
  ℕ, false, Option, none, some, List, [], ◌∷◌, Str, Map, ◌≡◌, ◌≢◌, refl, sym, ◌∙◌, ap, subst,
  length, get_elem?, get_elem?-set_ne, ltb, Bool-cases, inl, inr, Option-cases, lookup, ok, err,
  panic, Panic, str_eq, codes, All,
}
use tascript.Registry.Value.{World, Value}
use tascript.Resolved.{
  Expr, SlotDecl, PortDecl, Decl, const_decl, slot_decl, input_decl, output_decl,
}
use tascript.Evaluator.Failure.{Eval, Failure}
use tascript.Evaluator.Stmt.{Sink, State, M, and_then, write_slot, bind_name}
use tascript.Evaluator.Machine.{
  Evaluator, check_outputs, run_init, init_cell, init_slot, load_decl, load_decls, check_filled,
  call_init_fn, init_body, entered, finish, eval_init, wiring, recover,
}
use tascript.Evaluator.Effects.{IsFilled}
use tascript.Evaluator.Activation.{check_filled-state}
use tascript.Evaluator.Laws.{activate-idle, check_filled-ok}

module _ {w : World} where
  -- What a call promises of the state that it leaves when it succeeds.
  data Ends {A : Type 0} (P : State w → Type 0) : Eval A × State w → Type 0 where
    succeeded : (a : A) (s : State w) → P s → Ends P (ok a, s)
    failed : (f : Failure) (s : State w) → Ends P (err f, s)
    panicked : (p : Panic) (s : State w) → Ends P (panic p, s)

  Ends-of :
      {A : Type 0} {P : State w → Type 0} (p : Eval A × State w)
      → ((b : A) → p.0 ≡ ok b → P p.1)
      → Ends P p
  Ends-of (ok a, s) h = succeeded a s (h a refl)
  Ends-of (err f, s) h = failed f s
  Ends-of (panic x, s) h = panicked x s

  Ends-ok :
      {A : Type 0} {P : State w → Type 0} {p : Eval A × State w} {b : A}
      → Ends P p
      → p.0 ≡ ok b
      → P p.1
  Ends-ok (succeeded a s k) h = k
  Ends-ok (failed f s) h = cc
  Ends-ok (panicked x s) h = cc

  -- What the last call of a chain promises is a promise of the chain.
  and_then-Ends :
      {A B : Type 0} {P : State w → Type 0} (p : Eval A × State w) (k : A → M w B)
      → ((a : A) (s : State w) → Ends P (k a s))
      → Ends P (and_then p k)
  and_then-Ends (ok a, s) k g = g a s
  and_then-Ends (err e, s) k g = failed e s
  and_then-Ends (panic e, s) k g = panicked e s

  and_then-first :
      {A B : Type 0} (p : Eval A × State w) (k : A → M w B) {b : B}
      → (and_then p k).0 ≡ ok b
      → (a : A) × (p.0 ≡ ok a)
  and_then-first (ok a, s) k h = (a, refl)
  and_then-first (err e, s) k h = cc
  and_then-first (panic e, s) k h = cc

  recover-ok : (fn : Str) (r : Eval (Value w)) {v : Value w} → recover fn r ≡ ok v → r ≡ ok v
  recover-ok fn (ok a) h = h
  recover-ok fn (err e) h = h
  recover-ok fn (panic p) h = cc

  -- Every declared slot of the evaluator holds a value.
  abbrev pub AllFilled : List (SlotDecl w) → State w → Type 0
  AllFilled ds s = All (λ (d : SlotDecl w). IsFilled s.slots d.head.index) ds

  check_filled-Ends :
      (ds : List (SlotDecl w)) (v : Value w) (s : State w)
      → Ends (AllFilled ds) (check_filled ds v s)
  check_filled-Ends ds v s =
      Ends-of _
        λ b h. subst (AllFilled ds) (sym (check_filled-state ds v s)) (check_filled-ok ds v b s h)

  init_body-Ends : (e : Evaluator w) (s : State w) → Ends (AllFilled e.slot_decls) (init_body e s)
  unfolding init_body
  init_body-Ends e s = and_then-Ends (check_outputs e.outputs e.output_decls s) _ λ _ s₁.
      and_then-Ends (load_decls e.prog.decls s₁) _ λ _ s₂.
        and_then-Ends (call_init_fn (wiring e) e.prog.init_fn s₂) _
          λ v s₃. check_filled-Ends e.slot_decls v s₃

  abbrev pub IsWired : Map Str (Sink w) → PortDecl → Type 0
  IsWired outputs d = (sink : Sink w) × (lookup d.name outputs ≡ some sink)

  check_outputs-ok :
      (outputs : Map Str (Sink w)) (ds : List PortDecl) (s : State w) {b : Value w}
      → (check_outputs outputs ds s).0 ≡ ok b
      → All (IsWired outputs) ds
  unfolding check_outputs
  check_outputs-ok outputs [] s h = tt
  check_outputs-ok outputs (d ∷ ds) s h = elim (Option-cases (lookup d.name outputs)) [
    | inl e ↦ let h = rw (e, check_outputs) at h in cc
    | inr (sink, e) ↦ ((sink, e), check_outputs-ok outputs ds s (rw (e, check_outputs) at h))
  ]

  init_body-IsWired :
      (e : Evaluator w) (s : State w) {b : Value w}
      → (init_body e s).0 ≡ ok b
      → All (IsWired e.outputs) e.output_decls
  unfolding init_body
  init_body-IsWired e s h = check_outputs-ok e.outputs e.output_decls s (and_then-first _ _ h).1

  -- When `EvalInit` succeeds, every declared output has a sink, and every declared slot holds a
  -- value.
  pub eval_init-ready :
      (e : Evaluator w) (v : Value w)
      → e.in_tick ≡ false
      → (eval_init e).0 ≡ ok v
      → All (IsWired e.outputs) e.output_decls
        × All (λ (d : SlotDecl w). IsFilled (eval_init e).1.slots d.head.index) e.slot_decls
  unfolding eval_init finish
  eval_init-ready e v idle h =
      let eq = activate-idle (codes "Init") init_body e idle in
      let done = recover-ok _ _ (ap (λ (p : Eval (Value w) × Evaluator w). p.0) (sym eq) ∙ h) in
      (
        init_body-IsWired (entered (codes "Init") e) _ done,
        subst
            (λ (p : Eval (Value w) × Evaluator w).
              All (λ (d : SlotDecl w). IsFilled p.1.slots d.head.index) e.slot_decls)
            (sym eq) (Ends-ok (init_body-Ends (entered (codes "Init") e) _) done),
      )

  -- The cell holds the value.
  abbrev Holds : ℕ → Value w → State w → Type 0
  Holds i v s = get_elem? s.slots i ≡ some (some v)

  and_then-Holds :
      {A B : Type 0} (i : ℕ) (v : Value w) (p : Eval A × State w) (k : A → M w B)
      → Holds i v p.1
      → ((a : A) (s : State w) → Holds i v s → Holds i v (k a s).1)
      → Holds i v (and_then p k).1
  and_then-Holds i v (ok a, s) k h g = g a s h
  and_then-Holds i v (err e, s) k h g = h
  and_then-Holds i v (panic e, s) k h g = h

  write_slot-Holds :
      (i j : ℕ) (v x : Value w) (s : State w) → j ≢ i → Holds i v s → Holds i v (write_slot j x s).1
  unfolding write_slot
  write_slot-Holds i j v x s ne h = elim (Bool-cases (ltb j (length s.slots))) [
    | inl e ↦ rw e (get_elem?-set_ne s.slots j i (some x) ne ∙ h)
    | inr e ↦ rw e h
  ]

  run_init-Holds :
      (i j : ℕ) (v : Value w) (o : Option (Expr w)) (s : State w)
      → j ≢ i
      → Holds i v s
      → Holds i v (run_init j o s).1
  unfolding run_init
  run_init-Holds i j v none s ne h = h
  run_init-Holds i j v (some e) s ne h =
      and_then-Holds i v _ _ h (λ x s'. write_slot-Holds i j v x s' ne)

  init_cell-Holds :
      (i : ℕ) (v : Value w) (c : Option (Option (Value w))) (d : SlotDecl w) (s : State w)
      → get_elem? s.slots d.head.index ≡ c
      → Holds i v s
      → Holds i v (init_cell c d s).1
  unfolding init_cell
  init_cell-Holds i v none d s e h = h
  init_cell-Holds i v (some (some _)) d s e h = h
  init_cell-Holds i v (some none) d s e h =
      run_init-Holds i d.head.index v d.init s (λ same. let e' = rw (← same) at h in cc) h

  load_decl-Holds :
      (i : ℕ) (v : Value w) (d : Decl w) (s : State w) → Holds i v s → Holds i v (load_decl d s).1
  unfolding load_decl init_slot bind_name
  load_decl-Holds i v (const_decl c) s h = and_then-Holds i v _ _ h (λ _ _ k. k)
  load_decl-Holds i v (slot_decl d) s h = init_cell-Holds i v _ d s refl h
  load_decl-Holds i v (input_decl _) s h = h
  load_decl-Holds i v (output_decl _) s h = h

  -- A value that a slot holds before the declarations are loaded is the value that it holds after:
  -- an initializer never overwrites what the host filled, and loading never rewrites a slot,
  -- whatever the order of the declarations and however the loading ends.
  pub load_decls-host_wins :
      (i : ℕ) (v : Value w) (ds : List (Decl w)) (s : State w)
      → get_elem? s.slots i ≡ some (some v)
      → get_elem? (load_decls ds s).1.slots i ≡ some (some v)
  unfolding load_decls
  load_decls-host_wins i v [] s h = h
  load_decls-host_wins i v (d ∷ ds) s h =
      and_then-Holds i v _ _ (load_decl-Holds i v d s h) (λ _. load_decls-host_wins i v ds)
