-- ===== src/Executable/Laws.antt =====
-- executable.go: the stages of an executable as a step relation on the host's calls, and what holds
-- of every executable that those calls can reach.
use tascript.Common.{
  List, [], ◌∷◌, if-elim, subst, codes, Str, ◌≡◌, refl, sym, ok, err, panic, str_eq,
}
use tascript.Registry.Value.{World, Value}
use tascript.Evaluator.Failure.{Eval}
use tascript.Evaluator.Stmt.{Sink, M}
use tascript.Evaluator.Machine.{Evaluator, eval_init, init_body, run_body}
use tascript.Executable.{
  Stage, stage_created, stage_initialized, stage_failed, Executable, Slot, set_slot_at, set_slot,
  bind_at, bind_in, bind_out, init_at, run_at, after_init, init, run, HostCall, call_set,
  call_bind_in, call_bind_out, call_init, call_run, host_call, host_calls, entered_at,
  activate_nested, init_nested_at, init_nested, run_nested_at, run_nested,
}

-- How a stage may change: created to initialized or failed, and no other way.
pub data Becomes : Stage → Stage → Type 0 where
  stays : (s : Stage) → Becomes s s
  initializes : Becomes stage_created stage_initialized
  fails : Becomes stage_created stage_failed

pub Becomes-trans : (a b c : Stage) → Becomes a b → Becomes b c → Becomes a c
Becomes-trans a b c (stays _) k = k
Becomes-trans a b c initializes (stays _) = initializes
Becomes-trans a b c fails (stays _) = fails

-- A call that keeps the executable's stage.
same : {a b : Stage} → b ≡ a → Becomes a b
same {a} h = rw h (stays a)

module _ {w : World} where
  -- One call of the host that may change the executable, Init and Run with the calls that the host
  -- makes from within them.
  pub data Step : Executable w → Executable w → Type 0 where
    sets : (h : Slot w) (v : Value w) (x : Executable w) → Step x (set_slot h v x).1
    binds_input : (name : Str) (v : Value w) (x : Executable w) → Step x (bind_in name v x).1
    binds_output : (name : Str) (k : Sink w) (x : Executable w) → Step x (bind_out name k x).1
    inits : (cs : List (HostCall w)) (x : Executable w) → Step x (init_nested cs x).1
    runs : (cs : List (HostCall w)) (x : Executable w) → Step x (run_nested cs x).1

  pub data Steps : Executable w → Executable w → Type 0 where
    here : (x : Executable w) → Steps x x
    onward : (x y z : Executable w) → Step x y → Steps y z → Steps x z

  set_slot-stage :
      (st : Stage) (h : Slot w) (v : Value w) (x : Executable w)
      → (set_slot_at st h v x).1.stage ≡ x.stage
  unfolding set_slot_at
  set_slot-stage stage_created h v x = refl
  set_slot-stage stage_initialized h v x = refl
  set_slot-stage stage_failed h v x = refl

  bind-stage :
      (st : Stage) (f : Evaluator w → Eval (Unit {0}) × Evaluator w) (x : Executable w)
      → (bind_at st f x).1.stage ≡ x.stage
  unfolding bind_at
  bind-stage stage_created f x = refl
  bind-stage stage_initialized f x = refl
  bind-stage stage_failed f x = refl

  after_init-Becomes :
      (x : Executable w) (p : Eval (Value w) × Evaluator w)
      → Becomes stage_created x.stage
      → Becomes stage_created (after_init x p).1.stage
  after_init-Becomes x (ok v, e') h = initializes
  after_init-Becomes x (err f, e') h = fails
  after_init-Becomes x (panic f, e') h = h

  init-Becomes : (st : Stage) (x : Executable w) → st ≡ x.stage → Becomes st (init_at st x).1.stage
  unfolding init_at
  init-Becomes stage_created x h = after_init-Becomes x (eval_init x.eval) (same (sym h))
  init-Becomes stage_initialized x h = same (sym h)
  init-Becomes stage_failed x h = same (sym h)

  run-stage : (st : Stage) (x : Executable w) → (run_at st x).1.stage ≡ x.stage
  unfolding run_at
  run-stage stage_created x = refl
  run-stage stage_initialized x = refl
  run-stage stage_failed x = refl

  host_call-Becomes : (c : HostCall w) (x : Executable w) → Becomes x.stage (host_call c x).1.stage
  unfolding host_call set_slot bind_in bind_out init run
  host_call-Becomes (call_set h v) x = same (set_slot-stage x.stage h v x)
  host_call-Becomes (call_bind_in name v) x = same (bind-stage x.stage _ x)
  host_call-Becomes (call_bind_out name k) x = same (bind-stage x.stage _ x)
  host_call-Becomes call_init x = init-Becomes x.stage x refl
  host_call-Becomes call_run x = same (run-stage x.stage x)

  host_calls-Becomes :
      (cs : List (HostCall w)) (x : Executable w) → Becomes x.stage (host_calls cs x).stage
  unfolding host_calls
  host_calls-Becomes [] x = stays _
  host_calls-Becomes (c ∷ cs) x =
      Becomes-trans _ _ _ (host_call-Becomes c x) (host_calls-Becomes cs (host_call c x).1)

  activate_nested-Becomes :
      (fn : Str) (body : Evaluator w → M w (Value w)) (cs : List (HostCall w)) (x : Executable w)
      → Becomes x.stage (activate_nested fn body cs x).1.stage
  unfolding activate_nested
  activate_nested-Becomes fn body cs x =
      if-elim (λ (p : Eval (Value w) × Executable w). Becomes x.stage p.1.stage) x.eval.in_tick
        (stays _) (host_calls-Becomes cs (entered_at fn x))

  init_nested-Becomes :
      (st : Stage) (cs : List (HostCall w)) (x : Executable w)
      → st ≡ x.stage
      → Becomes st (init_nested_at st cs x).1.stage
  unfolding init_nested_at
  init_nested-Becomes stage_created cs x h =
      let p = activate_nested (codes "Init") init_body cs x in
      after_init-Becomes p.1 (p.0, p.1.eval)
        (subst (λ s. Becomes s p.1.stage) (sym h)
          (activate_nested-Becomes (codes "Init") init_body cs x))
  init_nested-Becomes stage_initialized cs x h = same (sym h)
  init_nested-Becomes stage_failed cs x h = same (sym h)

  run_nested-Becomes :
      (st : Stage) (cs : List (HostCall w)) (x : Executable w)
      → Becomes x.stage (run_nested_at st cs x).1.stage
  unfolding run_nested_at
  run_nested-Becomes stage_created cs x = stays _
  run_nested-Becomes stage_initialized cs x = activate_nested-Becomes (codes "Run") run_body cs x
  run_nested-Becomes stage_failed cs x = stays _

  Step-Becomes : (x y : Executable w) → Step x y → Becomes x.stage y.stage
  unfolding set_slot bind_in bind_out init_nested run_nested
  Step-Becomes x y (sets h v _) = same (set_slot-stage x.stage h v x)
  Step-Becomes x y (binds_input name v _) = same (bind-stage x.stage _ x)
  Step-Becomes x y (binds_output name k _) = same (bind-stage x.stage _ x)
  Step-Becomes x y (inits cs _) = init_nested-Becomes x.stage cs x refl
  Step-Becomes x y (runs cs _) = run_nested-Becomes x.stage cs x

  -- Whatever calls the host makes one after another, Init and Run with whatever calls from within
  -- them, the stage stays, or it goes once from created to initialized or failed: from one such call
  -- to the next, an initialized or failed executable never leaves its stage. What the stage is while
  -- an Init is at work is not said.
  pub Steps-Becomes : (x y : Executable w) → Steps x y → Becomes x.stage y.stage
  Steps-Becomes x y (here _) = stays _
  Steps-Becomes x z (onward _ y _ h k) =
      Becomes-trans _ _ _ (Step-Becomes x y h) (Steps-Becomes y z k)
