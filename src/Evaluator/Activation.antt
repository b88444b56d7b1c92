-- ===== src/Evaluator/Activation.antt =====
-- evaluator/evaluator.go: what `EvalInit` and `EvalRun` leave behind, on every path.
use tascript.Common.{
  ℕ, Option, none, some, List, [], ◌∷◌, Str, ◌≡◌, refl, arith, inl, inr, Option-cases, lookup,
  str_eq, Map,
}
use tascript.Registry.Value.{World, Value, nil}
use tascript.Resolved.{
  Expr, Stmts, SlotDecl, PortDecl, Decl, const_decl, slot_decl, input_decl, output_decl,
}
use tascript.Evaluator.Failure.{Eval}
use tascript.Evaluator.Stmt.{Sink, Wiring, State, enter_scope}
use tascript.Evaluator.Machine.{
  Evaluator, check_outputs, init_slot, load_decl, load_decls, check_filled, call_init_fn, init_body,
  run_init, init_cell, bind_inputs, call_run_fn, run_body, wiring,
}
use tascript.Evaluator.Effects.{
  Extends-refl, Keeps, keeps, Keeps-same, and_then-Keeps, leave_scope-Keeps, write_slot-Keeps,
  bind_name-Keeps, exec_all-Keeps,
}

module _ {w : World} where
  check_outputs-state :
      (outputs : Map Str (Sink w)) (ds : List PortDecl) (s : State w)
      → (check_outputs outputs ds s).1 ≡ s
  unfolding check_outputs
  check_outputs-state outputs [] s = refl
  check_outputs-state outputs (d ∷ ds) s = elim (Option-cases (lookup d.name outputs)) [
    | inl e ↦ rw (e, check_outputs)
    | inr (sink, e) ↦ rw (e, check_outputs) (check_outputs-state outputs ds s)
  ]

  -- A call that does not change the state keeps it.
  Keeps-state : {A : Type 0} (s : State w) (p : Eval A × State w) → p.1 ≡ s → Keeps s p
  Keeps-state s (r, s') h = keeps r s' (rw h (Extends-refl s))

  run_init-Keeps : (i : ℕ) (o : Option (Expr w)) (s : State w) → Keeps s (run_init i o s)
  unfolding run_init
  run_init-Keeps i none s = Keeps-same _ s
  run_init-Keeps i (some e) s = and_then-Keeps _ (Keeps-same _ s) (write_slot-Keeps i)

  init_cell-Keeps :
      (c : Option (Option (Value w))) (d : SlotDecl w) (s : State w) → Keeps s (init_cell c d s)
  unfolding init_cell
  init_cell-Keeps none d s = Keeps-same _ s
  init_cell-Keeps (some (some _)) d s = Keeps-same _ s
  init_cell-Keeps (some none) d s = run_init-Keeps d.head.index d.init s

  load_decl-Keeps : (d : Decl w) (s : State w) → Keeps s (load_decl d s)
  unfolding load_decl init_slot
  load_decl-Keeps (const_decl c) s = and_then-Keeps _ (Keeps-same _ s) (bind_name-Keeps c.name)
  load_decl-Keeps (slot_decl d) s = init_cell-Keeps _ d s
  load_decl-Keeps (input_decl _) s = Keeps-same _ s
  load_decl-Keeps (output_decl _) s = Keeps-same _ s

  load_decls-Keeps : (ds : List (Decl w)) (s : State w) → Keeps s (load_decls ds s)
  unfolding load_decls
  load_decls-Keeps [] s = Keeps-same _ s
  load_decls-Keeps (d ∷ ds) s = and_then-Keeps _ (load_decl-Keeps d s) (λ _. load_decls-Keeps ds)

  call_init_fn-Keeps :
      (x : Wiring w) (o : Option (Stmts w)) (s : State w) → Keeps s (call_init_fn x o s)
  unfolding call_init_fn
  call_init_fn-Keeps x none s = Keeps-same _ s
  call_init_fn-Keeps x (some b) s = leave_scope-Keeps s (exec_all-Keeps x b nil (enter_scope s))

  pub check_filled-state :
      (ds : List (SlotDecl w)) (v : Value w) (s : State w) → (check_filled ds v s).1 ≡ s
  unfolding check_filled
  check_filled-state [] v s = refl
  check_filled-state (d ∷ ds) v s = ground (arith, check_filled-state ds v s)

  pub init_body-Keeps : (e : Evaluator w) (s : State w) → Keeps s (init_body e s)
  unfolding init_body
  init_body-Keeps e s =
      and_then-Keeps _ (Keeps-state s _ (check_outputs-state e.outputs e.output_decls s)) λ _ s₁.
        and_then-Keeps _ (load_decls-Keeps e.prog.decls s₁) λ _ s₂.
          and_then-Keeps _ (call_init_fn-Keeps (wiring e) e.prog.init_fn s₂)
            λ v s₃. Keeps-state s₃ _ (check_filled-state e.slot_decls v s₃)

  pub bind_inputs-Keeps :
      (inputs : Map Str (Value w)) (ds : List PortDecl) (s : State w)
      → Keeps s (bind_inputs inputs ds s)
  unfolding bind_inputs
  bind_inputs-Keeps inputs [] s = Keeps-same _ s
  bind_inputs-Keeps inputs (d ∷ ds) s = elim (Option-cases (lookup d.name inputs)) [
    | inl e ↦ rw (e, bind_inputs) (Keeps-same _ s)
    | inr (v, e) ↦
        rw (e, bind_inputs)
          (and_then-Keeps _ (bind_name-Keeps d.name v s) (λ _. bind_inputs-Keeps inputs ds))
  ]

  call_run_fn-Keeps :
      (x : Wiring w) (o : Option (Stmts w)) (s : State w) → Keeps s (call_run_fn x o s)
  unfolding call_run_fn
  call_run_fn-Keeps x none s = Keeps-same _ s
  call_run_fn-Keeps x (some b) s = exec_all-Keeps x b nil s

  pub run_body-Keeps : (e : Evaluator w) (s : State w) → Keeps s (run_body e s)
  unfolding run_body
  run_body-Keeps e s = leave_scope-Keeps s (
      and_then-Keeps _ (bind_inputs-Keeps e.inputs e.input_decls (enter_scope s))
        λ _. call_run_fn-Keeps (wiring e) e.prog.run_fn)
