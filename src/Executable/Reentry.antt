-- ===== src/Executable/Reentry.antt =====
-- executable.go and evaluator.go: calls of the host that arrive while Init or Run is at work, from
-- within a rule or a sink.
use tascript.Common.{
  Panic, ◌≢◌, true, false, Option, none, some, List, [], ◌∷◌, Str, Map, ◌≡◌, refl, sym, ap, ◌∙◌,
  subst, if_false, if-elim, insert, str_eq, ◌==◌, ok, err, panic, codes, pair_eq,
}
use tascript.Registry.Value.{World, Value, nil}
use tascript.Resolved.{PortDecl}
use tascript.Evaluator.Failure.{Eval, input_type_mismatch}
use tascript.Evaluator.Stmt.{Sink, State, M}
use tascript.Evaluator.Machine.{
  Evaluator, entered, start, finish, eval_init, eval_run, init_body, run_body,
}
use tascript.Evaluator.Host.{
  coerced, no_value, update, bind_input_at, bind_input, bind_output_at, bind_output,
}
use tascript.Evaluator.Laws.{activate-idle, mid_activation-refused}
use tascript.Executable.{
  Stage, stage_created, stage_initialized, stage_failed, Executable, Slot, Reply, with_eval,
  set_slot_at, set_slot, bind_at, bind_in, bind_out, after_init, init_at, init, after_run, run_at,
  run, HostCall, call_set, call_bind_in, call_bind_out, call_init, call_run, host_call, host_calls,
  entered_at, activate_nested, init_nested_at, init_nested, run_nested_at, run_nested,
}

module _ {w : World} where
  -- The second evaluator is the first with other inputs and outputs bound.
  pub record Rebound (e e' : Evaluator w) : Type 0 where
    pub inputs : Map Str (Value w)
    pub outputs : Map Str (Sink w)
    pub same : e' ≡ record e { inputs = inputs; outputs = outputs }

  Rebound-refl : (e : Evaluator w) → Rebound e e
  Rebound-refl e = record { inputs = e.inputs; outputs = e.outputs; same = refl }

  Rebound-of : (e e' : Evaluator w) → e' ≡ e → Rebound e e'
  Rebound-of e e' h = subst (Rebound e) (sym h) (Rebound-refl e)

  Rebound-trans : (a b c : Evaluator w) → Rebound a b → Rebound b c → Rebound a c
  Rebound-trans a b c h k = record {
    inputs = k.inputs;
    outputs = k.outputs;
    same =
        k.same
        ∙ ap (λ (e : Evaluator w). record e { inputs = k.inputs; outputs = k.outputs }) h.same;
  }

  Rebound-busy : (e e' : Evaluator w) → Rebound e e' → e.in_tick ≡ true → e'.in_tick ≡ true
  Rebound-busy e e' h k = ap (λ (x : Evaluator w). x.in_tick) h.same ∙ k

  update-Rebound :
      {A B : Type 0} (r : Eval A) (result : A → B) (next : A → Evaluator w) (e : Evaluator w)
      → ((a : A) → Rebound e (next a))
      → Rebound e (update r result next e).1
  update-Rebound (ok a) result next e k = k a
  update-Rebound (err f) result next e k = Rebound-refl e
  update-Rebound (panic p) result next e k = Rebound-refl e

  bind_input-Rebound :
      (name : Str) (v : Value w) (o : Option PortDecl) (e : Evaluator w)
      → Rebound e (bind_input_at name v o e).1
  unfolding bind_input_at
  bind_input-Rebound name v none e = Rebound-refl e
  bind_input-Rebound name v (some d) e =
      update-Rebound {B = Unit {0}}
        (coerced e.registry d.type (input_type_mismatch d.token.pos name d.type) v) no_value
        (λ v'. record e { inputs = insert name v' e.inputs }) e
        λ v'. record { inputs = insert name v' e.inputs; outputs = e.outputs; same = refl }

  bind_output-Rebound :
      (name : Str) (k : Sink w) (o : Option PortDecl) (e : Evaluator w)
      → Rebound e (bind_output_at name k o e).1
  unfolding bind_output_at
  bind_output-Rebound name k none e = Rebound-refl e
  bind_output-Rebound name k (some d) e =
      if-elim (λ (p : Eval (Unit {0}) × Evaluator w). Rebound e p.1) (k.type == d.type)
        (record { inputs = e.inputs; outputs = insert name k e.outputs; same = refl })
        (Rebound-refl e)

  -- What a call, made while an activation is at work, leaves of the executable.
  abbrev Aside : Executable w → Executable w → Type 0
  Aside x y = Rebound x.eval y.eval × (x.stage ≡ stage_initialized → y ≡ x)

  unchanged : (x : Executable w) → Aside x x
  unchanged x = (Rebound-refl x.eval, λ _. refl)

  set_slot-Aside :
      (st : Stage) (s : Slot w) (v : Value w) (x : Executable w)
      → x.eval.in_tick ≡ true
      → (set_slot_at st s v x).1 ≡ x
  unfolding set_slot_at
  set_slot-Aside stage_created s v x h =
      ap (λ p. (with_eval x p).1) (mid_activation-refused x.eval s.idx v h).3
  set_slot-Aside stage_initialized s v x h =
      ap (λ p. (with_eval x p).1) (mid_activation-refused x.eval s.idx v h).3
  set_slot-Aside stage_failed s v x h = refl

  bind-Aside :
      (st : Stage) (f : Evaluator w → Eval (Unit {0}) × Evaluator w) (x : Executable w)
      → st ≡ x.stage
      → Rebound x.eval (f x.eval).1
      → Aside x (bind_at st f x).1
  unfolding bind_at
  bind-Aside stage_created f x e h = (h, λ k. cc)
  bind-Aside stage_initialized f x e h = unchanged x
  bind-Aside stage_failed f x e h = unchanged x

  init-Aside :
      (st : Stage) (x : Executable w)
      → st ≡ x.stage
      → x.eval.in_tick ≡ true
      → Aside x (init_at st x).1
  unfolding init_at
  init-Aside stage_created x e h = (
    Rebound-of _ _ (ap (λ p. (after_init x p).1.eval) (mid_activation-refused x.eval 0 nil h).0),
    λ k. cc,
  )
  init-Aside stage_initialized x e h = unchanged x
  init-Aside stage_failed x e h = unchanged x

  run-Aside : (st : Stage) (x : Executable w) → x.eval.in_tick ≡ true → (run_at st x).1 ≡ x
  unfolding run_at
  run-Aside stage_initialized x h =
      ap (λ p. (after_run x p).1) (mid_activation-refused x.eval 0 nil h).1
  run-Aside stage_created x h = refl
  run-Aside stage_failed x h = refl

  Aside-of : (x y : Executable w) → y ≡ x → Aside x y
  Aside-of x y h = (Rebound-of _ _ (ap (λ (z : Executable w). z.eval) h), λ _. h)

  host_call-Aside :
      (c : HostCall w) (x : Executable w) → x.eval.in_tick ≡ true → Aside x (host_call c x).1
  unfolding host_call set_slot bind_in bind_out bind_input bind_output init run
  host_call-Aside (call_set s v) x h = Aside-of x _ (set_slot-Aside x.stage s v x h)
  host_call-Aside (call_bind_in name v) x h =
      bind-Aside x.stage _ x refl (bind_input-Rebound name v _ x.eval)
  host_call-Aside (call_bind_out name k) x h =
      bind-Aside x.stage _ x refl (bind_output-Rebound name k _ x.eval)
  host_call-Aside call_init x h = init-Aside x.stage x refl h
  host_call-Aside call_run x h = Aside-of x _ (run-Aside x.stage x h)

  host_calls-Aside :
      (cs : List (HostCall w)) (x : Executable w)
      → x.eval.in_tick ≡ true
      → Aside x (host_calls cs x)
  unfolding host_calls
  host_calls-Aside [] x h = unchanged x
  host_calls-Aside (c ∷ cs) x h =
      let (r, q) = host_call-Aside c x h in
      let (r', q') = host_calls-Aside cs (host_call c x).1 (Rebound-busy _ _ r h) in
      (Rebound-trans _ _ _ r r', λ k. q' (ap (λ (z : Executable w). z.stage) (q k) ∙ k) ∙ q k)

  -- The end of an activation, after calls that rebound inputs and outputs.
  finish-Rebound :
      (e e' : Evaluator w) (p : Eval (Value w) × State w)
      → Rebound e e'
      → ((finish e' p).0 ≡ (finish e p).0) × Rebound (finish e p).1 (finish e' p).1
  unfolding finish
  finish-Rebound e e' (r, s) h = (
    ap (λ (z : Evaluator w). (finish z (r, s)).0) h.same,
    record {
      inputs = h.inputs;
      outputs = h.outputs;
      same = ap (λ (z : Evaluator w). (finish z (r, s)).1) h.same;
    },
  )

  after_init-Rebound :
      (x z : Executable w) (p q : Eval (Value w) × Evaluator w)
      → ((v : Panic) → p.0 ≢ panic v)
      → (q.0 ≡ p.0) × Rebound p.1 q.1
      → ((after_init z q).0 ≡ (after_init x p).0)
        × ((after_init z q).1.stage ≡ (after_init x p).1.stage)
        × Rebound (after_init x p).1.eval (after_init z q).1.eval
  after_init-Rebound x z (ok v, e) (r, e') ret (h, k) = rw h (refl, refl, k)
  after_init-Rebound x z (err f, e) (r, e') ret (h, k) = rw h (refl, refl, k)
  after_init-Rebound x z (panic v, e) q ret h = absurd (ret v refl)

  finish-returns :
      (e : Evaluator w) (p : Eval (Value w) × State w) (v : Panic) → (finish e p).0 ≢ panic v
  unfolding finish
  finish-returns e (ok a, s) v h = cc
  finish-returns e (err f, s) v h = cc
  finish-returns e (panic r, s) v h = cc

  activate_nested-idle :
      (fn : Str) (body : Evaluator w → M w (Value w)) (cs : List (HostCall w)) (x : Executable w)
      → x.eval.in_tick ≡ false
      → activate_nested fn body cs x ≡ (
        (finish
            (host_calls cs (entered_at fn x)).eval
            (body (entered fn x.eval) (start (entered fn x.eval)))).0,
        record (host_calls cs (entered_at fn x)) {
          eval =
              (finish
                (host_calls cs (entered_at fn x)).eval
                (body (entered fn x.eval) (start (entered fn x.eval)))).1;
        },
      )
  unfolding activate_nested
  activate_nested-idle fn body cs x h = if_false _ _ h

  -- What Init with calls inside shares with Init alone.
  abbrev pub SameInit : Reply (Unit {0}) × Executable w → Reply (Unit {0}) × Executable w → Type 0
  SameInit p q = (q.0 ≡ p.0) × (q.1.stage ≡ p.1.stage) × Rebound p.1.eval q.1.eval

  init_nested_at-same :
      (st : Stage) (cs : List (HostCall w)) (x : Executable w)
      → x.eval.in_tick ≡ false
      → SameInit (init_at st x) (init_nested_at st cs x)
  unfolding init_at init_nested_at eval_init
  init_nested_at-same stage_created cs x h =
      let e = entered (codes "Init") x.eval in
      let z = host_calls cs (entered_at (codes "Init") x) in
      let p = init_body e (start e) in
      let d = finish e p in
      let q = finish z.eval p in
      rw
        (
          activate_nested-idle (codes "Init") init_body cs x h,
          activate-idle (codes "Init") init_body x.eval h,
        )
        (after_init-Rebound x (record z { eval = q.1 }) d q (finish-returns e p)
          (finish-Rebound e z.eval p (host_calls-Aside cs (entered_at (codes "Init") x) refl).0))
  init_nested_at-same stage_initialized cs x h = (refl, refl, Rebound-refl _)
  init_nested_at-same stage_failed cs x h = (refl, refl, Rebound-refl _)

  run_nested_at-same :
      (st : Stage) (cs : List (HostCall w)) (x : Executable w)
      → st ≡ x.stage
      → x.eval.in_tick ≡ false
      → run_nested_at st cs x ≡ run_at st x
  unfolding run_at run_nested_at eval_run
  run_nested_at-same stage_created cs x s h = refl
  run_nested_at-same stage_initialized cs x s h =
      let same = (host_calls-Aside cs (entered_at (codes "Run") x) refl).1 (sym s) in
      rw
        (
          activate_nested-idle (codes "Run") run_body cs x h,
          activate-idle (codes "Run") run_body x.eval h,
          same,
        )
        refl
  run_nested_at-same stage_failed cs x s h = refl

  pub init_nested-same :
      (cs : List (HostCall w)) (x : Executable w)
      → x.eval.in_tick ≡ false
      → SameInit (init x) (init_nested cs x)
  unfolding init init_nested
  init_nested-same cs x = init_nested_at-same x.stage cs x

  pub run_nested-same :
      (cs : List (HostCall w)) (x : Executable w) → x.eval.in_tick ≡ false → run_nested cs x ≡ run x
  unfolding run run_nested
  run_nested-same cs x = run_nested_at-same x.stage cs x refl
