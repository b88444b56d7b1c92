-- ===== src/Examples/Machine.antt =====
-- evaluator/ and executable.go: the theorems at a small program, `state count = 1` with a `Run` that
-- writes the slot and then divides by zero.
use tascript.Common.{
  nat_beq, zero, suc, false, some, List, [], ◌∷◌, codes, ◌≡◌, refl, ok, err, All, pos, get_elem?,
  lookup, insert, str_eq, str_beq, ◌==◌, if◌then◌else◌,
}
use tascript.Registry.Value.{nil, integer}
use tascript.Registry.Rule.{Registry, empty_registry, division_by_zero}
use tascript.Registry.StdMath.{numeric_binary, int_binary}
use tascript.Registry.Value.{type_id}
use tascript.Resolved.{SlotDecl, Stmt, assign_slot}
use tascript.Evaluator.Env.{Env, get, assign}
use tascript.Evaluator.Failure.{
  Failure, runtime_failure, rule_message, to_failure, trap, output_missing, input_missing,
}
use tascript.Evaluator.Expr.{eval_expr, eval_slot_ref}
use tascript.Evaluator.Stmt.{State, exec, write_slot}
use tascript.Evaluator.Machine.{
  Evaluator, new_evaluator, slots_of, inputs_of, outputs_of, check_outputs, run_init, init_cell,
  init_slot, load_decl, load_decls, check_filled, call_init_fn, init_body, bind_inputs, call_run_fn,
  run_body, finish, activate, eval_init, eval_run, wiring,
}
use tascript.Evaluator.Effects.{Extends, exec-Extends, IsFilled}
use tascript.Evaluator.Full.{Clean, IsEmptyRead, Full}
use tascript.Evaluator.FullRun.{eval_run-Clean}
use tascript.Evaluator.Laws.{Persists, eval_run-Persists, eval_init-Persists}
use tascript.Evaluator.Ready.{IsWired, eval_init-ready, load_decls-host_wins}
use tascript.Evaluator.Refused.{eval_init-unwired, eval_run-unbound}
use tascript.Evaluator.Lookup.{Rebinds, assign-get}
use tascript.Executable.{
  HostCall, call_init, call_run, init_nested, init_nested_at, run_nested, activate_nested,
  host_calls, host_call, Slot, get_slot, set_slot, stage_initialized, stage_failed, entered_at,
  Executable, compiled, init, init_at, run, run_at, engine,
}
use tascript.Executable.Laws.{Steps, inits, runs, here, onward, Becomes, Steps-Becomes}
use tascript.Executable.Invariant.{IsValid, reachable-IsValid}
use tascript.Executable.Slots.{get_slot-set_slot}
use tascript.Executable.Reach.{run-no-IsEmptyRead}
use tascript.Examples.World.{
  count_decl, small_world, at_token, count_head, one_value, price, signal, failing, program,
  wired_program,
}

abbrev registry : Registry small_world
registry = empty_registry

abbrev created : Executable small_world
created = compiled program registry

-- A host whose rule calls Init and Run again.
abbrev meanwhile : List (HostCall small_world)
meanwhile = call_init ∷ call_run ∷ []

abbrev initialized : Executable small_world
initialized = (init_nested meanwhile created).1

abbrev ticked : Executable small_world
ticked = (run_nested meanwhile initialized).1

initializing : Steps created initialized
initializing = onward _ _ _ (inits meanwhile created) (here initialized)

ticking : Steps created ticked
ticking =
    onward _ _ _ (inits meanwhile created) (onward _ _ _ (runs meanwhile initialized) (here ticked))

reachable-IsValid_example : IsValid (slots_of program.decls) ticked
reachable-IsValid_example = reachable-IsValid program registry ticked ticking

Steps-Becomes_example : Becomes created.stage ticked.stage
Steps-Becomes_example = Steps-Becomes created ticked ticking

-- What `Run` returns.
abbrev zero_failure : Failure
zero_failure =
    runtime_failure (record { line = 1; col = 1 }) division_by_zero
      (rule_message "integer modulo by zero")

-- The handle of the one slot.
abbrev count_slot : Slot small_world
count_slot = record { idx = 0; decl = count_decl }

get_slot-set_slot_example :
    ((set_slot count_slot one_value created).0 ≡ ok tt)
    × (get_slot count_slot (set_slot count_slot one_value created).1 ≡ (
        if nat_beq count_slot.idx count_slot.idx
        then ok one_value
        else get_slot count_slot created))
unfolding compiled slots_of type_id
get_slot-set_slot_example =
    get_slot-set_slot (slots_of program.decls) count_slot count_slot one_value created count_decl
      (reachable-IsValid program registry created (here created)) (λ q. cc) refl refl

initialized_stage : initialized.stage ≡ stage_initialized
unfolding compiled new_evaluator slots_of inputs_of outputs_of init init_at eval_init activate
    init_nested init_nested_at activate_nested host_calls host_call run run_at eval_run finish
    init_body check_outputs load_decls load_decl init_slot init_cell run_init eval_expr write_slot
    call_init_fn check_filled
initialized_stage = refl

run_fails : (run initialized).0 ≡ err (engine zero_failure)
unfolding compiled new_evaluator slots_of inputs_of outputs_of init init_at eval_init activate
    init_nested init_nested_at activate_nested host_calls host_call run run_at eval_run finish
    init_body check_outputs load_decls load_decl init_slot init_cell run_init eval_expr write_slot
    call_init_fn check_filled run_body bind_inputs call_run_fn exec trap to_failure eval_slot_ref
    numeric_binary int_binary
run_fails = refl

run-no-IsEmptyRead_example : ¬ IsEmptyRead zero_failure
unfolding slots_of
run-no-IsEmptyRead_example =
    run-no-IsEmptyRead program registry initialized zero_failure (refl, tt) initializing
      initialized_stage run_fails

abbrev new_eval : Evaluator small_world
new_eval = new_evaluator program registry

abbrev ready_eval : Evaluator small_world
ready_eval = (eval_init new_eval).1

init_succeeds : (eval_init new_eval).0 ≡ ok nil
unfolding compiled new_evaluator slots_of inputs_of outputs_of init init_at eval_init activate
    init_nested init_nested_at activate_nested host_calls host_call run run_at eval_run finish
    init_body check_outputs load_decls load_decl init_slot init_cell run_init eval_expr write_slot
    call_init_fn check_filled
init_succeeds = refl

eval_init-ready_example :
    All (IsWired new_eval.outputs) new_eval.output_decls
    × All
        (λ (d : SlotDecl small_world). IsFilled (eval_init new_eval).1.slots d.head.index)
        new_eval.slot_decls
unfolding new_evaluator
eval_init-ready_example = eval_init-ready new_eval nil refl init_succeeds

eval_init-Persists_example : Persists new_eval (eval_init new_eval).1
unfolding new_evaluator
eval_init-Persists_example = eval_init-Persists new_eval refl

eval_run-Persists_example : Persists new_eval (eval_run new_eval).1
unfolding new_evaluator
eval_run-Persists_example = eval_run-Persists new_eval refl

-- The program behind an `Init` that filled the slot.
abbrev filled_eval : Evaluator small_world
filled_eval = record new_eval { slots = some one_value ∷ [] }

all-Full : Full filled_eval.slots
all-Full zero h = cc
all-Full (suc i) h = cc

eval_run-Clean_example : Clean (eval_run filled_eval).0
unfolding new_evaluator
eval_run-Clean_example = eval_run-Clean filled_eval refl all-Full

abbrev filled_state : State small_world
filled_state = record { slots = some (integer (pos 7)) ∷ []; env = [] ∷ []; emitted = [] }

load_decls-host_wins_example :
    get_elem? (load_decls program.decls filled_state).1.slots 0 ≡ some (some (integer (pos 7)))
load_decls-host_wins_example =
    load_decls-host_wins 0 (integer (pos 7)) program.decls filled_state refl

abbrev failing_write : Stmt small_world
failing_write = assign_slot (at_token (codes "=")) count_head failing count_head.type

exec-Extends_example : Extends filled_state (exec (wiring new_eval) failing_write filled_state).1
exec-Extends_example = exec-Extends (wiring new_eval) failing_write filled_state

abbrev wired_eval : Evaluator small_world
wired_eval = new_evaluator wired_program registry

eval_init-unwired_example : eval_init wired_eval ≡ (
  err (output_missing signal.token.pos signal.name),
  record wired_eval { curr_fn = codes "Init"; in_tick = false },
)
unfolding new_evaluator outputs_of lookup
eval_init-unwired_example = eval_init-unwired wired_eval [] [] signal refl refl tt refl

eval_run-unbound_example : eval_run wired_eval ≡ (
  err (input_missing price.token.pos price.name),
  record wired_eval { curr_fn = codes "Run"; in_tick = false },
)
unfolding new_evaluator inputs_of lookup
eval_run-unbound_example = eval_run-unbound wired_eval [] [] price refl refl tt refl

-- `x` is bound in the outer of two scopes.
abbrev outer_x : Env small_world
outer_x = [] ∷ ((codes "x", one_value) ∷ []) ∷ []

abbrev outer_x_assigned : Env small_world
outer_x_assigned = [] ∷ ((codes "x", integer (pos 5)) ∷ []) ∷ []

assign-get_example :
    Rebinds (codes "x") (integer (pos 5)) outer_x outer_x_assigned
    × (get (codes "x") outer_x_assigned
        ≡ (if codes "x" == codes "x" then some (integer (pos 5)) else get (codes "x") outer_x))
unfolding assign lookup str_beq insert
assign-get_example =
    assign-get (codes "x") (codes "x") (integer (pos 5)) outer_x outer_x_assigned refl

-- The refused Init of a rule leaves a failed stage, which the outer Init then overwrites.
nested_init-fails : (host_calls meanwhile (entered_at (codes "Init") created)).stage ≡ stage_failed
unfolding compiled new_evaluator host_calls host_call init init_at eval_init activate run run_at
nested_init-fails = refl

nested_init-overwritten : (init_nested meanwhile created).1.stage ≡ stage_initialized
nested_init-overwritten = initialized_stage
