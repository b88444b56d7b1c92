-- ===== src/Executable.antt =====
-- executable.go: the life of a compiled program, created, then initialized or failed. A rule of the
-- host, or a sink, may call the executable while Init or Run is at work: `init_nested` and
-- `run_nested` are Init and Run with such calls.
pub mod Reentry
pub mod Laws
pub mod Invariant
pub mod Reach
pub mod Slots
use tascript.Common.{
  ℕ, suc, ◌&&◌, Option, none, some, List, [], ◌∷◌, Str, Outcome, ok, err, panic, str_eq, ◌==◌,
  if◌then◌else◌, codes,
}
use tascript.Registry.Value.{World, Value}
use tascript.Registry.Rule.{Registry}
use tascript.Resolved.{SlotDecl, Program}
use tascript.Evaluator.Failure.{Eval, Failure, mid_activation}
use tascript.Evaluator.Stmt.{Sink, M}
use tascript.Evaluator.Machine.{
  Evaluator, new_evaluator, init_body, run_body, entered, start, finish, eval_init, eval_run,
}
use tascript.Evaluator.Host.{slot_get, slot_set, bind_input, bind_output}

pub data Stage : Type 0 where
  stage_created stage_initialized stage_failed : Stage

-- The errors of the stage checks carry the stage that they print.
pub data HostError : Type 0 where
  not_initialized init_repeated bind_too_late set_too_late : Stage → HostError
  engine : Failure → HostError

pub record Executable (w : World) : Type 0 where
  pub eval : Evaluator w
  pub stage : Stage

-- A handle on a slot, without the executable, which a call takes as an argument.
pub record Slot (w : World) : Type 0 where
  pub idx : ℕ
  pub decl : SlotDecl w

abbrev pub Reply : Type 0 → Type 0
Reply A = Outcome HostError A

abbrev pub reply : {A B : Type 0} → (A → B) → Eval A → Reply B
reply f (ok a) = ok (f a)
reply f (err e) = err (engine e)
reply f (panic p) = panic p

module _ {w : World} where
  -- The executable that `Build` returns.
  unfoldable pub compiled : Program w → Registry w → Executable w
  compiled prog reg = record { eval = new_evaluator prog reg; stage = stage_created }

  unfoldable pub handles : ℕ → List (SlotDecl w) → List (Slot w)
  handles i [] = []
  handles i (d ∷ ds) = record { idx = i; decl = d } ∷ handles (suc i) ds

  -- `Slots()`
  unfoldable pub all_slots : Executable w → List (Slot w)
  all_slots x = handles 0 x.eval.slot_decls

  unfoldable pub find_slot : Str → Str → List (Slot w) → Option (Slot w)
  find_slot kind name [] = none
  find_slot kind name (s ∷ ss) =
      if s.decl.head.kind == kind && s.decl.head.name == name
      then some s
      else find_slot kind name ss

  -- `Slot(kind, name)`
  unfoldable pub slot : Str → Str → Executable w → Option (Slot w)
  slot kind name x = find_slot kind name (all_slots x)

  -- `Slot.Get`
  unfoldable pub get_slot : Slot w → Executable w → Reply (Value w)
  get_slot s x = reply (λ v. v) (slot_get s.idx x.eval)

  abbrev pub with_eval : {A : Type 0} → Executable w → Eval A × Evaluator w → Reply A × Executable w
  with_eval x (r, e) = (reply (λ a. a) r, record x { eval = e })

  -- `Slot.Set`, `BindInput` and `BindOutput`, after the look at the stage.
  unfoldable pub set_slot_at :
      Stage → Slot w → Value w → Executable w → Reply (Unit {0}) × Executable w
  set_slot_at stage_failed s v x = (err (set_too_late stage_failed), x)
  set_slot_at _ s v x = with_eval x (slot_set s.idx v x.eval)

  unfoldable pub set_slot : Slot w → Value w → Executable w → Reply (Unit {0}) × Executable w
  set_slot s v x = set_slot_at x.stage s v x

  unfoldable pub bind_at :
      Stage
      → (Evaluator w → Eval (Unit {0}) × Evaluator w)
      → Executable w
      → Reply (Unit {0}) × Executable w
  bind_at stage_created f x = with_eval x (f x.eval)
  bind_at other f x = (err (bind_too_late other), x)

  unfoldable pub bind_in : Str → Value w → Executable w → Reply (Unit {0}) × Executable w
  bind_in name v x = bind_at x.stage (bind_input name v) x

  unfoldable pub bind_out : Str → Sink w → Executable w → Reply (Unit {0}) × Executable w
  bind_out name sink x = bind_at x.stage (bind_output name sink) x

  -- A panic does not leave `EvalInit`; were one to, the stage would stay.
  abbrev pub after_init :
      Executable w → Eval (Value w) × Evaluator w → Reply (Unit {0}) × Executable w
  after_init x (ok _, e) = (ok tt, record { eval = e; stage = stage_initialized })
  after_init x (err f, e) = (err (engine f), record { eval = e; stage = stage_failed })
  after_init x (panic p, e) = (panic p, record x { eval = e })

  unfoldable pub init_at : Stage → Executable w → Reply (Unit {0}) × Executable w
  init_at stage_created x = after_init x (eval_init x.eval)
  init_at other x = (err (init_repeated other), x)

  -- `Init`
  unfoldable pub init : Executable w → Reply (Unit {0}) × Executable w
  init x = init_at x.stage x

  abbrev pub after_run :
      Executable w → Eval (Value w) × Evaluator w → Reply (Unit {0}) × Executable w
  after_run x (r, e) = (reply (λ _. tt) r, record x { eval = e })

  unfoldable pub run_at : Stage → Executable w → Reply (Unit {0}) × Executable w
  run_at stage_initialized x = after_run x (eval_run x.eval)
  run_at other x = (err (not_initialized other), x)

  -- `Run`
  unfoldable pub run : Executable w → Reply (Unit {0}) × Executable w
  run x = run_at x.stage x

-- The calls that may change an executable, and the same while another is at work.
pub data HostCall (w : World) : Type 0 where
  call_set : Slot w → Value w → HostCall w
  call_bind_in : Str → Value w → HostCall w
  call_bind_out : Str → Sink w → HostCall w
  call_init call_run : HostCall w

module _ {w : World} where
  unfoldable pub host_call : HostCall w → Executable w → Reply (Unit {0}) × Executable w
  host_call (call_set s v) x = set_slot s v x
  host_call (call_bind_in name v) x = bind_in name v x
  host_call (call_bind_out name sink) x = bind_out name sink x
  host_call call_init x = init x
  host_call call_run x = run x

  unfoldable pub host_calls : List (HostCall w) → Executable w → Executable w
  host_calls [] x = x
  host_calls (c ∷ cs) x = host_calls cs (host_call c x).1

  -- The executable while an activation is at work.
  abbrev pub entered_at : Str → Executable w → Executable w
  entered_at fn x = record x { eval = entered fn x.eval }

  -- What the body of an activation makes of the executable that it started with, and what the
  -- nested calls make of it, are put together by `finish`: the body owns the slots, the globals and the
  -- log, which a nested call does not touch, and reads no output or input that one can change.
  unfoldable pub activate_nested :
      Str
      → (Evaluator w → M w (Value w))
      → List (HostCall w)
      → Executable w
      → Eval (Value w) × Executable w
  activate_nested fn body cs x =
      let y = entered_at fn x in
      let z = host_calls cs y in
      let p = finish z.eval (body y.eval (start y.eval)) in
      if x.eval.in_tick then (err mid_activation, x) else (p.0, record z { eval = p.1 })

  abbrev pub end_init : Eval (Value w) × Executable w → Reply (Unit {0}) × Executable w
  end_init (r, x) = after_init x (r, x.eval)

  abbrev pub end_run : Eval (Value w) × Executable w → Reply (Unit {0}) × Executable w
  end_run (r, x) = after_run x (r, x.eval)

  unfoldable pub init_nested_at :
      Stage → List (HostCall w) → Executable w → Reply (Unit {0}) × Executable w
  init_nested_at stage_created cs x = end_init (activate_nested (codes "Init") init_body cs x)
  init_nested_at other cs x = (err (init_repeated other), x)

  -- `Init`, with the calls that the host makes meanwhile.
  unfoldable pub init_nested : List (HostCall w) → Executable w → Reply (Unit {0}) × Executable w
  init_nested cs x = init_nested_at x.stage cs x

  unfoldable pub run_nested_at :
      Stage → List (HostCall w) → Executable w → Reply (Unit {0}) × Executable w
  run_nested_at stage_initialized cs x = end_run (activate_nested (codes "Run") run_body cs x)
  run_nested_at other cs x = (err (not_initialized other), x)

  -- `Run`, with the calls that the host makes meanwhile.
  unfoldable pub run_nested : List (HostCall w) → Executable w → Reply (Unit {0}) × Executable w
  run_nested cs x = run_nested_at x.stage cs x
