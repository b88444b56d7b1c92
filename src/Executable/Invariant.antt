-- ===== src/Executable/Invariant.antt =====
-- executable.go: what holds of every executable that the host's calls can reach from a new one.
use tascript.Common.{
  ℕ, false, Option, none, some, List, [], ◌∷◌, Str, ◌≡◌, refl, ap, sym, ◌∙◌, subst, length, set,
  length-set, ok, err, panic, All, get_elem?, length-replicate, str_eq, insert, ◌==◌, if_false,
  if-elim,
}
use tascript.Registry.Value.{World, Value}
use tascript.Registry.Rule.{Registry}
use tascript.Resolved.{Program, SlotDecl, PortDecl}
use tascript.Evaluator.Failure.{Eval, slot_type_mismatch, input_type_mismatch}
use tascript.Evaluator.Stmt.{Sink}
use tascript.Evaluator.Machine.{Evaluator, new_evaluator, slots_of, eval_init}
use tascript.Evaluator.Host.{
  update, slot_fill, slot_set, bind_input_at, bind_input, bind_output_at, bind_output, coerced,
  no_value,
}
use tascript.Evaluator.Effects.{IsFilled, StaysFilled, set-StaysFilled}
use tascript.Evaluator.Expr.{Slots}
use tascript.Evaluator.Laws.{Persists, eval_init-Persists, eval_run-Persists}
use tascript.Evaluator.Ready.{eval_init-ready}
use tascript.Executable.{
  compiled, Stage, stage_created, stage_initialized, stage_failed, Executable, Slot, with_eval,
  set_slot_at, set_slot, bind_at, bind_in, bind_out, init_at, run_at, after_init, init, run,
  HostCall, Reply, init_nested, run_nested,
}
use tascript.Executable.Reentry.{Rebound, init_nested-same, run_nested-same}
use tascript.Executable.Laws.{
  Step, Steps, sets, binds_input, binds_output, inits, runs, here, onward,
}

-- A predicate that implies another, on all elements.
All-map :
    {A : Type 0} {P Q : A → Type 0} → ((a : A) → P a → Q a) → (xs : List A) → All P xs → All Q xs
All-map f [] h = tt
All-map f (x ∷ xs) h = (f x h.0, All-map f xs h.1)

module _ {w : World} where
  -- The slots of the declarations hold values.
  abbrev pub AllFilled : List (SlotDecl w) → Slots w → Type 0
  AllFilled ds slots = All (λ (d : SlotDecl w). IsFilled slots d.head.index) ds

  -- The evaluator has the given slot declarations and a cell for each, no activation is running, and
  -- if the stage says initialized, then every declared slot holds a value.
  pub record IsValid (ds : List (SlotDecl w)) (x : Executable w) : Type 0 where
    pub declared : x.eval.slot_decls ≡ ds
    pub idle : x.eval.in_tick ≡ false
    pub cells : length x.eval.slots ≡ length ds
    pub filled : x.stage ≡ stage_initialized → AllFilled ds x.eval.slots

  -- The parts of an evaluator that the invariant reads, before and after a call.
  record Grows (e e' : Evaluator w) : Type 0 where
    idle : e'.in_tick ≡ false
    count : length e'.slots ≡ length e.slots
    decls : e'.slot_decls ≡ e.slot_decls
    filled : StaysFilled e.slots e'.slots

  Grows-refl : (e : Evaluator w) → e.in_tick ≡ false → Grows e e
  Grows-refl e h = record { idle = h; count = refl; decls = refl; filled = λ i k. k }

  Persists-Grows : (e e' : Evaluator w) → Persists e e' → Grows e e'
  Persists-Grows e e' p = record {
    idle = p.idle;
    count = p.slot_count;
    decls = p.wired.2;
    filled = p.stay_filled;
  }

  update-Grows :
      {A B : Type 0} (r : Eval A) (result : A → B) (next : A → Evaluator w) (e : Evaluator w)
      → e.in_tick ≡ false
      → ((a : A) → Grows e (next a))
      → Grows e (update r result next e).1
  update-Grows (ok a) result next e h k = k a
  update-Grows (err f) result next e h k = Grows-refl e h
  update-Grows (panic p) result next e h k = Grows-refl e h

  slot_fill-Grows :
      (i : ℕ) (v : Value w) (o : Option (SlotDecl w)) (e : Evaluator w)
      → e.in_tick ≡ false
      → Grows e (slot_fill i v o e).1
  unfolding slot_fill
  slot_fill-Grows i v none e h = Grows-refl e h
  slot_fill-Grows i v (some d) e h =
      update-Grows {B = Unit {0}}
        (coerced e.registry d.head.type
          (slot_type_mismatch d.head.token.pos d.head.kind d.head.name d.head.type) v)
        no_value (λ v'. record e { slots = set e.slots i (some v') }) e h
        λ v'. record {
          idle = h;
          count = length-set e.slots i (some v');
          decls = refl;
          filled = set-StaysFilled e.slots i v';
        }

  slot_set-Grows :
      (i : ℕ) (v : Value w) (e : Evaluator w) → e.in_tick ≡ false → Grows e (slot_set i v e).1
  unfolding slot_set
  slot_set-Grows i v e h =
      subst (λ (p : Eval (Unit {0}) × Evaluator w). Grows e p.1) (sym (if_false _ _ h))
        (slot_fill-Grows i v (get_elem? e.slot_decls i) e h)

  bind_input-Grows :
      (name : Str) (v : Value w) (o : Option PortDecl) (e : Evaluator w)
      → e.in_tick ≡ false
      → Grows e (bind_input_at name v o e).1
  unfolding bind_input_at
  bind_input-Grows name v none e h = Grows-refl e h
  bind_input-Grows name v (some d) e h =
      update-Grows {B = Unit {0}}
        (coerced e.registry d.type (input_type_mismatch d.token.pos name d.type) v) no_value
        (λ v'. record e { inputs = insert name v' e.inputs }) e h
        λ v'. record { idle = h; count = refl; decls = refl; filled = λ i k. k }

  bind_output-Grows :
      (name : Str) (k : Sink w) (o : Option PortDecl) (e : Evaluator w)
      → e.in_tick ≡ false
      → Grows e (bind_output_at name k o e).1
  unfolding bind_output_at
  bind_output-Grows name k none e h = Grows-refl e h
  bind_output-Grows name k (some d) e h =
      if-elim (λ (p : Eval (Unit {0}) × Evaluator w). Grows e p.1) (k.type == d.type)
        (record { idle = h; count = refl; decls = refl; filled = λ i z. z }) (Grows-refl e h)

module _ {w : World} {ds : List (SlotDecl w)} where
  -- A call that grows the evaluator and leaves the stage.
  IsValid-grow :
      (x : Executable w) (e : Evaluator w)
      → IsValid ds x
      → Grows x.eval e
      → IsValid ds (record x { eval = e })
  IsValid-grow x e h g = record {
    declared = g.decls ∙ h.declared;
    idle = g.idle;
    cells = g.count ∙ h.cells;
    filled = λ s. All-map (λ (d : SlotDecl w). g.filled d.head.index) ds (h.filled s);
  }

  with_eval-IsValid :
      {A : Type 0} (x : Executable w) (p : Eval A × Evaluator w)
      → IsValid ds x
      → Grows x.eval p.1
      → IsValid ds (with_eval x p).1
  with_eval-IsValid x (r, e) h g = IsValid-grow x e h g

  set_slot-IsValid :
      (st : Stage) (s : Slot w) (v : Value w) (x : Executable w)
      → IsValid ds x
      → IsValid ds (set_slot_at st s v x).1
  unfolding set_slot_at
  set_slot-IsValid stage_created s v x h =
      with_eval-IsValid x (slot_set s.idx v x.eval) h (slot_set-Grows s.idx v x.eval h.idle)
  set_slot-IsValid stage_initialized s v x h =
      with_eval-IsValid x (slot_set s.idx v x.eval) h (slot_set-Grows s.idx v x.eval h.idle)
  set_slot-IsValid stage_failed s v x h = h

  bind-IsValid :
      (st : Stage) (f : Evaluator w → Eval (Unit {0}) × Evaluator w) (x : Executable w)
      → IsValid ds x
      → Grows x.eval (f x.eval).1
      → IsValid ds (bind_at st f x).1
  unfolding bind_at
  bind-IsValid stage_created f x h g = with_eval-IsValid x (f x.eval) h g
  bind-IsValid stage_initialized f x h g = h
  bind-IsValid stage_failed f x h g = h

  after_init-IsValid :
      (x : Executable w) (p : Eval (Value w) × Evaluator w)
      → IsValid ds x
      → Grows x.eval p.1
      → ((v : Value w) → p.0 ≡ ok v → AllFilled ds p.1.slots)
      → IsValid ds (after_init x p).1
  after_init-IsValid x (ok v, e) h g ready = record {
    idle = g.idle;
    declared = g.decls ∙ h.declared;
    cells = g.count ∙ h.cells;
    filled = λ _. ready v refl;
  }
  after_init-IsValid x (err f, e) h g ready = record {
    idle = g.idle;
    declared = g.decls ∙ h.declared;
    cells = g.count ∙ h.cells;
    filled = λ s. cc;
  }
  after_init-IsValid x (panic f, e) h g ready = IsValid-grow x e h g

  init-IsValid : (st : Stage) (x : Executable w) → IsValid ds x → IsValid ds (init_at st x).1
  unfolding init_at
  init-IsValid stage_created x h =
      after_init-IsValid x (eval_init x.eval) h
        (Persists-Grows _ _ (eval_init-Persists x.eval h.idle))
        (λ v k.
          subst (λ l. AllFilled l (eval_init x.eval).1.slots) h.declared
            (eval_init-ready x.eval v h.idle k).1)
  init-IsValid stage_initialized x h = h
  init-IsValid stage_failed x h = h

  run-IsValid : (st : Stage) (x : Executable w) → IsValid ds x → IsValid ds (run_at st x).1
  unfolding run_at
  run-IsValid stage_initialized x h =
      IsValid-grow x _ h (Persists-Grows _ _ (eval_run-Persists x.eval h.idle))
  run-IsValid stage_created x h = h
  run-IsValid stage_failed x h = h

  -- An evaluator that only has other inputs and outputs bound, in the same stage.
  Rebound-IsValid :
      (x y : Executable w) → y.stage ≡ x.stage → Rebound x.eval y.eval → IsValid ds x → IsValid ds y
  Rebound-IsValid x y s r h = record {
    declared = ap (λ (e : Evaluator w). e.slot_decls) r.same ∙ h.declared;
    idle = ap (λ (e : Evaluator w). e.in_tick) r.same ∙ h.idle;
    cells = ap (λ (e : Evaluator w). length e.slots) r.same ∙ h.cells;
    filled = λ k.
        subst (AllFilled ds) (sym (ap (λ (e : Evaluator w). e.slots) r.same))
          (h.filled (sym s ∙ k));
  }

  init_nested-IsValid :
      (cs : List (HostCall w)) (x : Executable w) → IsValid ds x → IsValid ds (init_nested cs x).1
  unfolding init
  init_nested-IsValid cs x h =
      let (_, s, r) = init_nested-same cs x h.idle in
      Rebound-IsValid (init x).1 _ s r (init-IsValid x.stage x h)

  run_nested-IsValid :
      (cs : List (HostCall w)) (x : Executable w) → IsValid ds x → IsValid ds (run_nested cs x).1
  unfolding run
  run_nested-IsValid cs x h =
      subst (λ (p : Reply (Unit {0}) × Executable w). IsValid ds p.1)
        (sym (run_nested-same cs x h.idle)) (run-IsValid x.stage x h)

  Step-IsValid : (x y : Executable w) → Step x y → IsValid ds x → IsValid ds y
  unfolding set_slot bind_in bind_out bind_input bind_output
  Step-IsValid x y (sets s v _) h = set_slot-IsValid x.stage s v x h
  Step-IsValid x y (binds_input name v _) h =
      bind-IsValid x.stage _ x h (bind_input-Grows name v _ x.eval h.idle)
  Step-IsValid x y (binds_output name k _) h =
      bind-IsValid x.stage _ x h (bind_output-Grows name k _ x.eval h.idle)
  Step-IsValid x y (inits cs _) h = init_nested-IsValid cs x h
  Step-IsValid x y (runs cs _) h = run_nested-IsValid cs x h

  Steps-IsValid : (x y : Executable w) → Steps x y → IsValid ds x → IsValid ds y
  Steps-IsValid x y (here _) h = h
  Steps-IsValid x z (onward _ y _ s k) h = Steps-IsValid y z k (Step-IsValid x y s h)

module _ {w : World} where
  -- Of every executable that the host's calls, in any order, with any outcome, and with any calls from
  -- within Init and Run, can make of a freshly compiled one: its slots are the program's, one cell for each, no activation is left
  -- marked as running, and if its stage is initialized, every declared slot holds a value.
  pub reachable-IsValid :
      (prog : Program w) (reg : Registry w) (y : Executable w)
      → Steps (compiled prog reg) y
      → IsValid (slots_of prog.decls) y
  unfolding compiled new_evaluator
  reachable-IsValid prog reg y steps = Steps-IsValid _ y steps (record {
    declared = refl;
    idle = refl;
    cells = length-replicate (length (slots_of prog.decls)) none;
    filled = λ s. cc;
  })
