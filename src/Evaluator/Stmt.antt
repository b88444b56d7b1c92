-- ===== src/Evaluator/Stmt.antt =====
-- evaluator/evaluator.go: `evalBlock`, `evalStmt` and what they call. A statement returns its value
-- beside the state, which keeps what was done before an error or a panic.
use tascript.Common.{
  ℕ, Bool, true, false, none, some, List, [], ◌∷◌, ◌++◌, Str, Map, ok, err, panic, ◌>>=◌, set,
  lookup, str_eq, out_of_range, nil_dereference, in_host, condition_not_bool, unknown_variable,
  unhandled_node, if◌then◌else◌, length, ltb,
}
use tascript.Registry.Value.{TypeId, World, Value, nil, structure, empty, FieldDef}
use tascript.Registry.Rule.{Registry}
use tascript.Registry.Script.{type_fields}
use tascript.Resolved.{
  Args, no_args, arg, Stmt, let_stmt, assign_name, assign_slot, emit, expr_stmt, block, if_stmt,
  bad_stmt, Stmts, done, then_do, Else, no_else, otherwise,
}
use tascript.Evaluator.Env.{Env, set_name, assign}
use tascript.Evaluator.Failure.{Eval}
use tascript.Evaluator.Expr.{Slots, eval_expr, eval_args}

-- `registry.Sink`: its type, and the values that its `Emit` takes without a panic.
pub record Sink (w : World) : Type 0 where
  pub type : TypeId
  pub accepts : Value w → Bool

-- What an activation reads and does not change.
pub record Wiring (w : World) : Type 0 where
  pub registry : Registry w
  pub outputs : Map Str (Sink w)

-- `emitted` lists the calls of `Emit` with the output's name, the oldest first.
pub record State (w : World) : Type 0 where
  pub slots : Slots w
  pub env : Env w
  pub emitted : List (Str × Value w)

abbrev pub M : World → Type 0 → Type 0
M w A = State w → Eval A × State w

module _ {w : World} where
  -- Go on with the value, in the state that was left.
  abbrev pub and_then : {A B : Type 0} → Eval A × State w → (A → M w B) → Eval B × State w
  and_then (ok a, s) k = k a s
  and_then (err e, s) k = (err e, s)
  and_then (panic p, s) k = (panic p, s)

  -- `evalBlock` in a child environment.
  abbrev pub leave : Env w → Env w
  leave [] = []
  leave (f ∷ fs) = fs

  abbrev pub enter_scope : State w → State w
  enter_scope s = record s { env = [] ∷ s.env }

  abbrev pub leave_scope : {A : Type 0} → Eval A × State w → Eval A × State w
  leave_scope (r, s) = (r, record s { env = leave s.env })

  unfoldable pub write_slot : ℕ → Value w → M w (Value w)
  write_slot i v s =
      if ltb i (length s.slots)
      then (ok v, record s { slots = set s.slots i (some v) })
      else (panic out_of_range, s)

  unfoldable pub bind_name : Str → Value w → M w (Value w)
  bind_name name v s = (ok v, record s { env = set_name name v s.env })

  unfoldable pub assign_to : Str → Value w → M w (Value w)
  assign_to name v s = elim (assign name v s.env) [
    | some env ↦ (ok v, record s { env = env })
    | none ↦ (panic unknown_variable, s)
  ]

  -- `e.outputs[stmt.Output].Emit(value)`
  unfoldable pub send : Wiring w → Str → Value w → M w (Value w)
  send x output v s = elim (lookup output x.outputs) [
    | some sink ↦
        if sink.accepts v
        then (ok nil, record s { emitted = s.emitted ++ (output, v) ∷ [] })
        else (panic in_host, s)
    | none ↦ (panic nil_dereference, s)
  ]

  -- The value that `evalEmit` sends: the first argument for a type without fields, else a record.
  unfoldable pub emit_value : Slots w → Env w → List FieldDef → TypeId → Args w → Eval (Value w)
  emit_value slots env [] t no_args = panic out_of_range
  emit_value slots env [] t (arg _ _ value _) = eval_expr slots env value
  emit_value slots env (_ ∷ _) t args =
      eval_args slots env args empty >>= λ fields. ok (structure t fields)

  unfoldable pub to_condition : Value w → Eval Bool
  to_condition (Value.boolean b) = ok b
  to_condition _ = panic condition_not_bool

  abbrev pub choose : {A : Type 0} → M w A → M w A → Bool → M w A
  choose yes_part no_part true = yes_part
  choose yes_part no_part false = no_part

unfoldable mutual
  pub exec : {w : World} → Wiring w → Stmt w → State w → Eval (Value w) × State w
  exec x (let_stmt _ name value _) s = and_then (eval_expr s.slots s.env value, s) (bind_name name)
  exec x (assign_name _ target value _) s =
      and_then (eval_expr s.slots s.env value, s) (assign_to target)
  exec x (expr_stmt _ e) s = (eval_expr s.slots s.env e, s)
  exec x (block _ body) s = leave_scope (exec_all x body nil (enter_scope s))
  exec x (if_stmt _ condition _ consequence alternative) s =
      and_then (eval_expr s.slots s.env condition >>= to_condition, s)
        (choose (λ s'. leave_scope (exec_all x consequence nil (enter_scope s')))
          (exec_else x alternative))
  exec x (emit _ output args t) s =
      and_then (emit_value s.slots s.env (type_fields x.registry t) t args, s) (send x output)
  exec x (assign_slot _ target value _) s =
      and_then (eval_expr s.slots s.env value, s) (write_slot target.index)
  exec x (bad_stmt _) s = (panic unhandled_node, s)

  -- The loop of `evalBlock`; `last` is the value of the statement before.
  pub exec_all : {w : World} → Wiring w → Stmts w → Value w → State w → Eval (Value w) × State w
  exec_all x done last s = (ok last, s)
  exec_all x (then_do stmt rest) last s = and_then (exec x stmt s) (exec_all x rest)

  pub exec_else : {w : World} → Wiring w → Else w → State w → Eval (Value w) × State w
  exec_else x no_else s = (ok nil, s)
  exec_else x (otherwise stmt) s = exec x stmt s
