-- ===== src/Evaluator/Host.antt =====
-- evaluator/evaluator.go: the calls by which the host reads and fills the evaluator.
use tascript.Common.{
  ℕ, Option, none, some, List, [], ◌∷◌, Str, ok, err, panic, insert, str_eq, ◌==◌, get_elem?, set,
  out_of_range, nil_dereference, if◌then◌else◌,
}
use tascript.Registry.Value.{TypeId, World, Value, type_id}
use tascript.Registry.Rule.{Registry}
use tascript.Registry.Register.{lookup_coerce}
use tascript.Resolved.{SlotDecl, PortDecl}
use tascript.Evaluator.Failure.{
  Eval, Failure, lift, mid_activation, slot_empty, slot_type_mismatch, input_type_mismatch,
  output_type_mismatch, input_unknown, output_unknown,
}
use tascript.Evaluator.Stmt.{Sink}
use tascript.Evaluator.Machine.{Evaluator}

abbrev pub no_value : {A : Type 0} → A → Unit {0}
no_value _ = tt

-- The first declaration of a name, as the loops of `BindInput` and `BindOutput` find it.
unfoldable pub find_port : Str → List PortDecl → Option PortDecl
find_port name [] = none
find_port name (d ∷ ds) = if d.name == name then some d else find_port name ds

module _ {w : World} where
  -- A host value at a declared type: as it is, or coerced by the registry's rule.
  unfoldable pub coerced : Registry w → TypeId → (TypeId → Failure) → Value w → Eval (Value w)
  coerced r want mismatch v = elim (type_id v) [
    | none ↦ panic nil_dereference
    | some got ↦ if got == want then ok v else elim (lookup_coerce r got want) [
      | none ↦ err (mismatch got)
      | some rule ↦ lift (rule.eval_fn v)
    ]
  ]

  -- The evaluator after a successful call, or unchanged.
  abbrev pub update :
      {A B : Type 0} → Eval A → (A → B) → (A → Evaluator w) → Evaluator w → Eval B × Evaluator w
  update (ok a) result next e = (ok (result a), next a)
  update (err f) result next e = (err f, e)
  update (panic p) result next e = (panic p, e)

  unfoldable pub read_cell : Option (Option (Value w)) → Eval (Value w)
  read_cell none = panic out_of_range
  read_cell (some none) = err slot_empty
  read_cell (some (some v)) = ok v

  unfoldable pub slot_get : ℕ → Evaluator w → Eval (Value w)
  slot_get i e = if e.in_tick then err mid_activation else read_cell (get_elem? e.slots i)

  unfoldable pub slot_fill :
      ℕ → Value w → Option (SlotDecl w) → Evaluator w → Eval (Unit {0}) × Evaluator w
  slot_fill i v none e = (panic out_of_range, e)
  slot_fill i v (some d) e =
      update
        (coerced e.registry d.head.type
          (slot_type_mismatch d.head.token.pos d.head.kind d.head.name d.head.type) v)
        no_value (λ v'. record e { slots = set e.slots i (some v') }) e

  unfoldable pub slot_set : ℕ → Value w → Evaluator w → Eval (Unit {0}) × Evaluator w
  slot_set i v e =
      if e.in_tick then (err mid_activation, e) else slot_fill i v (get_elem? e.slot_decls i) e

  unfoldable pub bind_input_at :
      Str → Value w → Option PortDecl → Evaluator w → Eval (Unit {0}) × Evaluator w
  bind_input_at name v none e = (err (input_unknown name), e)
  bind_input_at name v (some d) e =
      update (coerced e.registry d.type (input_type_mismatch d.token.pos name d.type) v) no_value
        (λ v'. record e { inputs = insert name v' e.inputs }) e

  unfoldable pub bind_input : Str → Value w → Evaluator w → Eval (Unit {0}) × Evaluator w
  bind_input name v e = bind_input_at name v (find_port name e.input_decls) e

  unfoldable pub bind_output_at :
      Str → Sink w → Option PortDecl → Evaluator w → Eval (Unit {0}) × Evaluator w
  bind_output_at name sink none e = (err (output_unknown name), e)
  bind_output_at name sink (some d) e =
      if sink.type == d.type
      then (ok tt, record e { outputs = insert name sink e.outputs })
      else (err (output_type_mismatch d.token.pos name d.type sink.type), e)

  unfoldable pub bind_output : Str → Sink w → Evaluator w → Eval (Unit {0}) × Evaluator w
  bind_output name sink e = bind_output_at name sink (find_port name e.output_decls) e
