-- ===== src/Evaluator/Failure.antt =====
-- diag/diag.go: the diagnostics that the evaluator returns, and `runtimeFailure`.
use tascript.Common.{Str, String, Outcome, ok, err, panic, Panic}
use tascript.Token.{Pos, Token}
use tascript.Registry.Value.{TypeId, World, Value}
use tascript.Registry.Rule.{ErrorKind, unknown_kind, RuleError, registry_error, plain_error}

-- The message of a `RuntimeFailure`: a rule's own, or one that the evaluator formats from the
-- slot's kind and name.
pub data Message : Type 0 where
  rule_message : String → Message
  left_uninitialized : Str → Str → Message
  read_before_filled : Str → Str → Message

pub data Failure : Type 0 where
  runtime_failure : Pos → ErrorKind → Message → Failure
  -- The entry function and the panic that was recovered.
  internal_failure : Str → Panic → Failure
  output_missing : Pos → Str → Failure
  input_missing : Pos → Str → Failure
  mid_activation : Failure
  slot_empty : Failure
  slot_type_mismatch : Pos → Str → Str → TypeId → TypeId → Failure
  input_type_mismatch : Pos → Str → TypeId → TypeId → Failure
  output_type_mismatch : Pos → Str → TypeId → TypeId → Failure
  input_unknown : Str → Failure
  output_unknown : Str → Failure

abbrev pub Eval : Type 0 → Type 0
Eval A = Outcome Failure A

unfoldable pub to_failure : RuleError → Token → Failure
to_failure (registry_error kind message) tok = runtime_failure tok.pos kind (rule_message message)
to_failure (plain_error message) tok = runtime_failure tok.pos unknown_kind (rule_message message)

-- The result of a rule at a token.
unfoldable pub trap : {w : World} → Token → Outcome RuleError (Value w) → Eval (Value w)
trap tok (ok v) = ok v
trap tok (err e) = err (to_failure e tok)
trap tok (panic p) = panic p

unfoldable pub lift : {w : World} → Outcome ⊥ (Value w) → Eval (Value w)
lift (ok v) = ok v
lift (err e) = absurd e
lift (panic p) = panic p
