-- ===== src/Evaluator/Machine.antt =====
-- evaluator/evaluator.go: the evaluator's state, its construction, its two activations, and the
-- calls by which the host reads and fills it. A call returns Go's result beside the evaluator that
-- it leaves; `panic` is one that reaches the host.
use tascript.Common.{
  ℕ, Bool, true, false, Option, none, some, List, [], ◌∷◌, Str, Map, ok, err, panic, codes, lookup,
  str_eq, get_elem?, length, replicate, out_of_range, nil_dereference, if◌then◌else◌,
}
use tascript.Registry.Value.{World, Value, nil}
use tascript.Registry.Rule.{Registry, uninitialized_slot}
use tascript.Resolved.{
  Expr, Stmts, SlotDecl, PortDecl, Decl, const_decl, slot_decl, input_decl, output_decl, Program,
}
use tascript.Evaluator.Env.{Frame, Env}
use tascript.Evaluator.Failure.{
  Eval, runtime_failure, internal_failure, output_missing, input_missing, mid_activation,
  left_uninitialized,
}
use tascript.Evaluator.Expr.{Slots, eval_expr}
use tascript.Evaluator.Stmt.{
  Sink, Wiring, State, M, and_then, enter_scope, leave_scope, write_slot, bind_name, exec_all,
}

pub record Evaluator (w : World) : Type 0 where
  pub prog : Program w
  pub registry : Registry w
  pub globals : Frame w
  pub slots : Slots w
  pub slot_decls : List (SlotDecl w)
  pub input_decls : List PortDecl
  pub output_decls : List PortDecl
  pub inputs : Map Str (Value w)
  pub outputs : Map Str (Sink w)
  pub curr_fn : Str
  pub in_tick : Bool
  pub emitted : List (Str × Value w)

module _ {w : World} where
  -- The three lists that `New` fills in its loop over the declarations.
  unfoldable pub slots_of : List (Decl w) → List (SlotDecl w)
  slots_of [] = []
  slots_of (slot_decl d ∷ ds) = d ∷ slots_of ds
  slots_of (_ ∷ ds) = slots_of ds

  unfoldable pub inputs_of : List (Decl w) → List PortDecl
  inputs_of [] = []
  inputs_of (input_decl d ∷ ds) = d ∷ inputs_of ds
  inputs_of (_ ∷ ds) = inputs_of ds

  unfoldable pub outputs_of : List (Decl w) → List PortDecl
  outputs_of [] = []
  outputs_of (output_decl d ∷ ds) = d ∷ outputs_of ds
  outputs_of (_ ∷ ds) = outputs_of ds

  unfoldable pub new_evaluator : Program w → Registry w → Evaluator w
  new_evaluator prog reg = record {
    prog = prog;
    registry = reg;
    globals = reg.modules;
    slots = replicate (length (slots_of prog.decls)) none;
    slot_decls = slots_of prog.decls;
    input_decls = inputs_of prog.decls;
    output_decls = outputs_of prog.decls;
    inputs = [];
    outputs = [];
    curr_fn = [];
    in_tick = false;
    emitted = [];
  }

  unfoldable pub check_outputs : Map Str (Sink w) → List PortDecl → M w (Value w)
  check_outputs outputs [] s = (ok nil, s)
  check_outputs outputs (d ∷ ds) s = elim (lookup d.name outputs) [
    | some _ ↦ check_outputs outputs ds s
    | none ↦ (err (output_missing d.token.pos d.name), s)
  ]

  -- The initializer of an empty slot, if it has one.
  unfoldable pub run_init : ℕ → Option (Expr w) → M w (Value w)
  run_init i none s = (ok nil, s)
  run_init i (some e) s = and_then (eval_expr s.slots s.env e, s) (write_slot i)

  -- A slot that the host has filled keeps its value: the initializer is a fallback.
  unfoldable pub init_cell : Option (Option (Value w)) → SlotDecl w → M w (Value w)
  init_cell none d s = (panic out_of_range, s)
  init_cell (some (some _)) d s = (ok nil, s)
  init_cell (some none) d s = run_init d.head.index d.init s

  unfoldable pub init_slot : SlotDecl w → M w (Value w)
  init_slot d s = init_cell (get_elem? s.slots d.head.index) d s

  unfoldable pub load_decl : Decl w → M w (Value w)
  load_decl (const_decl c) s = and_then (eval_expr s.slots s.env c.value, s) (bind_name c.name)
  load_decl (slot_decl d) s = init_slot d s
  load_decl (input_decl _) s = (ok nil, s)
  load_decl (output_decl _) s = (ok nil, s)

  unfoldable pub load_decls : List (Decl w) → M w (Value w)
  load_decls [] s = (ok nil, s)
  load_decls (d ∷ ds) s = and_then (load_decl d s) (λ _. load_decls ds)

  -- The last loop of `EvalInit`.
  unfoldable pub check_filled : List (SlotDecl w) → Value w → M w (Value w)
  check_filled [] result s = (ok result, s)
  check_filled (d ∷ ds) result s =
      let rest = check_filled ds result s in
      elim (get_elem? s.slots d.head.index) [
        | none ↦ (panic out_of_range, s)
        | some (some _) ↦ rest
        | some none ↦ (
          err (
              runtime_failure d.head.token.pos uninitialized_slot
                (left_uninitialized d.head.kind d.head.name)),
          s,
        )
      ]

  abbrev pub wiring : Evaluator w → Wiring w
  wiring e = record { registry = e.registry; outputs = e.outputs }

  unfoldable pub call_init_fn : Wiring w → Option (Stmts w) → M w (Value w)
  call_init_fn x none s = (ok nil, s)
  call_init_fn x (some body) s = leave_scope (exec_all x body nil (enter_scope s))

  unfoldable pub init_body : Evaluator w → M w (Value w)
  init_body e s = and_then (check_outputs e.outputs e.output_decls s) λ _ s₁.
      and_then (load_decls e.prog.decls s₁)
        λ _ s₂. and_then (call_init_fn (wiring e) e.prog.init_fn s₂) (check_filled e.slot_decls)

  unfoldable pub bind_inputs : Map Str (Value w) → List PortDecl → M w (Value w)
  bind_inputs inputs [] s = (ok nil, s)
  bind_inputs inputs (d ∷ ds) s = elim (lookup d.name inputs) [
    | some v ↦ and_then (bind_name d.name v s) (λ _. bind_inputs inputs ds)
    | none ↦ (err (input_missing d.token.pos d.name), s)
  ]

  unfoldable pub call_run_fn : Wiring w → Option (Stmts w) → M w (Value w)
  call_run_fn x none s = (panic nil_dereference, s)
  call_run_fn x (some body) s = exec_all x body nil s

  unfoldable pub run_body : Evaluator w → M w (Value w)
  run_body e s = leave_scope (
      and_then (bind_inputs e.inputs e.input_decls (enter_scope s))
        λ _. call_run_fn (wiring e) e.prog.run_fn)

  -- The deferred `recover` of an activation.
  abbrev pub recover : Str → Eval (Value w) → Eval (Value w)
  recover fn (ok v) = ok v
  recover fn (err e) = err e
  recover fn (panic p) = err (internal_failure fn p)

  -- The top-level environment is the last frame.
  abbrev pub bottom : Env w → Frame w
  bottom [] = []
  bottom (f ∷ []) = f
  bottom (f ∷ g ∷ fs) = bottom (g ∷ fs)

  abbrev pub start : Evaluator w → State w
  start e = record { slots = e.slots; env = e.globals ∷ []; emitted = e.emitted }

  -- The evaluator while an activation runs.
  abbrev pub entered : Str → Evaluator w → Evaluator w
  entered fn e = record e { curr_fn = fn; in_tick = true }

  -- The deferred function of an activation: it clears `in_tick`, and a panic becomes an error.
  unfoldable pub finish : Evaluator w → Eval (Value w) × State w → Eval (Value w) × Evaluator w
  finish e (r, s) = (
    recover e.curr_fn r,
    record e { slots = s.slots; globals = bottom s.env; emitted = s.emitted; in_tick = false },
  )

  -- The frame of `EvalInit` and `EvalRun`.
  unfoldable pub activate :
      Str → (Evaluator w → M w (Value w)) → Evaluator w → Eval (Value w) × Evaluator w
  activate fn body e =
      let e₁ = entered fn e in
      if e.in_tick then (err mid_activation, e) else finish e₁ (body e₁ (start e₁))

  unfoldable pub eval_init : Evaluator w → Eval (Value w) × Evaluator w
  eval_init = activate (codes "Init") init_body

  unfoldable pub eval_run : Evaluator w → Eval (Value w) × Evaluator w
  eval_run = activate (codes "Run") run_body
