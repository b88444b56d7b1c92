-- ===== src/Evaluator/Laws.antt =====
-- evaluator/evaluator.go: the promises of `EvalInit`, `EvalRun` and the slot calls to the host.
use tascript.Common.{
  ℕ, true, false, none, some, List, [], ◌∷◌, ◌++◌, Str, ◌≡◌, if_true, if_false, subst, refl, sym,
  length, get_elem?, inl, inr, Option-cases, ok, err, str_eq, codes, All,
}
use tascript.Registry.Value.{World, Value}
use tascript.Resolved.{SlotDecl}
use tascript.Evaluator.Names.{names, GrowsTop}
use tascript.Evaluator.Failure.{Eval, mid_activation}
use tascript.Evaluator.Stmt.{State, M}
use tascript.Evaluator.Machine.{
  Evaluator, entered, finish, check_filled, init_body, run_body, activate, eval_init, eval_run,
  start, bottom,
}
use tascript.Evaluator.Host.{slot_get, slot_set}
use tascript.Evaluator.Effects.{IsFilled, StaysFilled, Extends, Keeps-Extends}
use tascript.Evaluator.Activation.{init_body-Keeps, run_body-Keeps}

module _ {w : World} where
  -- What an activation leaves of the evaluator before it.
  pub record Persists (e e' : Evaluator w) : Type 0 where
    pub idle : e'.in_tick ≡ false
    pub slot_count : length e'.slots ≡ length e.slots
    pub stay_filled : StaysFilled e.slots e'.slots
    pub log : List (Str × Value w)
    pub emitted_more : e'.emitted ≡ e.emitted ++ log
    pub added : List Str
    pub globals_grow : names e'.globals ≡ names e.globals ++ added
    pub wired : (e'.inputs ≡ e.inputs) × (e'.outputs ≡ e.outputs) × (e'.slot_decls ≡ e.slot_decls)

  bottom-grows :
      (f : List (Str × Value w)) (env : List (List (Str × Value w)))
      → GrowsTop (f ∷ []) env
      → (added : List Str) × (names (bottom env) ≡ names f ++ added)
  bottom-grows f [] h = absurd h
  bottom-grows f (g ∷ []) h = h.0
  bottom-grows f (g ∷ m ∷ ms) h = absurd h.1

  finish-Persists :
      (fn : Str) (e : Evaluator w) (p : Eval (Value w) × State w)
      → Extends (start (entered fn e)) p.1
      → Persists e (finish (entered fn e) p).1
  unfolding finish
  finish-Persists fn e p h =
      let (added, q) = bottom-grows e.globals p.1.env h.names_grow in
      record {
        idle = refl;
        slot_count = h.slot_count;
        stay_filled = h.stay_filled;
        log = h.log;
        emitted_more = h.emitted_more;
        added = added;
        globals_grow = q;
        wired = (refl, refl, refl);
      }

  pub activate-idle :
      (fn : Str) (body : Evaluator w → M w (Value w)) (e : Evaluator w)
      → e.in_tick ≡ false
      → activate fn body e ≡ finish (entered fn e) (body (entered fn e) (start (entered fn e)))
  unfolding activate
  activate-idle fn body e = if_false _ _

  activate-busy :
      (fn : Str) (body : Evaluator w → M w (Value w)) (e : Evaluator w)
      → e.in_tick ≡ true
      → activate fn body e ≡ (err mid_activation, e)
  unfolding activate
  activate-busy fn body e = if_true _ _

  activate-Persists :
      (fn : Str) (body : Evaluator w → M w (Value w)) (e : Evaluator w)
      → e.in_tick ≡ false
      → Extends (start (entered fn e)) (body (entered fn e) (start (entered fn e))).1
      → Persists e (activate fn body e).1
  activate-Persists fn body e idle h =
      subst (λ (p : Eval (Value w) × Evaluator w). Persists e p.1)
        (sym (activate-idle fn body e idle))
        (finish-Persists fn e (body (entered fn e) (start (entered fn e))) h)

  -- An EvalRun that starts while no activation runs ends with none running, whether it succeeds,
  -- fails or panics; it keeps every slot and what is filled stays filled, keeps what was emitted and appends
  -- to it, keeps the top-level names, and leaves the bound inputs and outputs alone.
  pub eval_run-Persists : (e : Evaluator w) → e.in_tick ≡ false → Persists e (eval_run e).1
  unfolding eval_run
  eval_run-Persists e idle =
      activate-Persists (codes "Run") run_body e idle
        (Keeps-Extends (run_body-Keeps (entered (codes "Run") e) (start (entered (codes "Run") e))))

  -- An EvalInit that starts while no activation runs ends with none running, whether it succeeds,
  -- fails or panics; it keeps every slot and what is filled stays filled, keeps what was emitted and
  -- appends to it, keeps the top-level names, and leaves the bound inputs and outputs alone.
  pub eval_init-Persists : (e : Evaluator w) → e.in_tick ≡ false → Persists e (eval_init e).1
  unfolding eval_init
  eval_init-Persists e idle = activate-Persists (codes "Init") init_body e idle (
      Keeps-Extends (init_body-Keeps (entered (codes "Init") e) (start (entered (codes "Init") e))))

  -- While an activation runs, `EvalInit`, `EvalRun`, `SlotGet` and `SlotSet` refuse, and change
  -- nothing.
  pub mid_activation-refused :
      (e : Evaluator w) (i : ℕ) (v : Value w)
      → e.in_tick ≡ true
      → (eval_init e ≡ (err mid_activation, e))
        × (eval_run e ≡ (err mid_activation, e))
        × (slot_get i e ≡ err mid_activation)
        × (slot_set i v e ≡ (err mid_activation, e))
  unfolding eval_init eval_run slot_get slot_set
  mid_activation-refused e i v h =
      (activate-busy _ _ e h, activate-busy _ _ e h, if_true _ _ h, if_true _ _ h)

  pub check_filled-ok :
      (ds : List (SlotDecl w)) (v v' : Value w) (s : State w)
      → (check_filled ds v s).0 ≡ ok v'
      → All (λ (d : SlotDecl w). IsFilled s.slots d.head.index) ds
  unfolding check_filled
  check_filled-ok [] v v' s h = tt
  check_filled-ok (d ∷ ds) v v' s h = elim (Option-cases (get_elem? s.slots d.head.index)) [
    | inl e ↦ let h = rw (e, check_filled) at h in cc
    | inr (none, e) ↦ let h = rw (e, check_filled) at h in cc
    | inr (some x, e) ↦ ((x, e), check_filled-ok ds v v' s (rw (e, check_filled) at h))
  ]
