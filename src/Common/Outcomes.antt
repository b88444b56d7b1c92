-- ===== src/Common/Outcomes.antt =====
-- How a call of Go code ends: with a value, with an error value, or with a panic.

-- The panics of the engine and of the code that it calls.
pub data Panic : Type 0 where
  wrong_type not_numeric zero_divisor unsupported_operator uncomparable nil_dereference
        out_of_range :
      Panic
  unhandled_node condition_not_bool operand_not_bool unknown_identifier unknown_variable : Panic
  in_host error_without_report : Panic

pub data Outcome {ℓ κ} (E : Type ℓ) (A : Type κ) : Type (ℓ ⊔ κ) where
  ok : A → Outcome E A
  err : E → Outcome E A
  panic : Panic → Outcome E A

infixl 5 ◌>>=◌
abbrev pub ◌>>=◌ {ℓ κ μ} :
    {E : Type ℓ} {A : Type κ} {B : Type μ} (first : Outcome E A) (next : A → Outcome E B)
    → Outcome E B
panic reason >>= next = panic reason
err failure >>= next = err failure
ok value >>= next = next value
