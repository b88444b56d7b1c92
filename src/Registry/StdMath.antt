-- ===== src/Registry/StdMath.antt =====
-- registry/std_math.go and registry/cast.go: what the operators of the built-in types compute.
use tascript.Common.{
  Bool, true, false, not, none, some, ◌++◌, Str, str_beq, Outcome, ok, err, panic, wrong_type,
  not_numeric, zero_divisor, unsupported_operator, uncomparable, if◌then◌else◌, str_eq, ◌>>=◌, ℤ,
  pos, ◌+ℤ◌, ◌-ℤ◌, ◌*ℤ◌, neg_ℤ, rem_ℤ, beq_ℤ, ltb_ℤ, wrap,
}
use tascript.Token.{TokenType, plus, minus, asterisk, slash, percent, eq, neq, lt, gt, lteq, gteq}
use tascript.Registry.Value.{
  float_id, World, Value, nil, integer, float, string, boolean, plain_module, structure, time,
  duration, host,
}
use tascript.Registry.Rule.{division_by_zero, RuleError, registry_error, Call, CoerceRule}

-- The three tests that `cmp.Ordered` gives; `>` and `>=` swap the operands.
unfoldable pub eval_compare :
    {E T : Type 0}
    → TokenType
    → (T → T → Bool)
    → (T → T → Bool)
    → (T → T → Bool)
    → T
    → T
    → Outcome E Bool
eval_compare eq same less less_eq a b = ok (same a b)
eval_compare neq same less less_eq a b = ok (not (same a b))
eval_compare lt same less less_eq a b = ok (less a b)
eval_compare gt same less less_eq a b = ok (less b a)
eval_compare lteq same less less_eq a b = ok (less_eq a b)
eval_compare gteq same less less_eq a b = ok (less_eq b a)
eval_compare _ same less less_eq a b = panic unsupported_operator

abbrev pub leb_ℤ : ℤ → ℤ → Bool
leb_ℤ a b = not (ltb_ℤ b a)

abbrev pub as_boolean : {w : World} → Outcome RuleError Bool → Call w
as_boolean (ok b) = ok (boolean b)
as_boolean (err e) = err e
as_boolean (panic p) = panic p

-- `x == 0` on floats.
abbrev pub is_zero : (w : World) → w.Float → Bool
is_zero w x = w.float_eq x (w.float_of_int (pos 0))

-- Go's `%` on integers, which panics on a zero divisor.
unfoldable pub go_rem : ℤ → ℤ → Outcome RuleError ℤ
go_rem a b = if beq_ℤ b (pos 0) then panic zero_divisor else ok (rem_ℤ a b)

module _ {w : World} where
  unfoldable pub as_integer : Value w → Outcome ⊥ ℤ
  as_integer (integer n) = ok n
  as_integer _ = panic wrong_type

  unfoldable pub as_string : Value w → Outcome RuleError Str
  as_string (string s) = ok s
  as_string _ = panic wrong_type

  unfoldable pub as_bool : Value w → Outcome RuleError Bool
  as_bool (boolean b) = ok b
  as_bool _ = panic wrong_type

  unfoldable pub as_float : Value w → Outcome RuleError w.Float
  as_float (integer n) = ok (w.float_of_int n)
  as_float (float x) = ok x
  as_float _ = panic not_numeric

  unfoldable pub eval_string_concat : Value w → Value w → Call w
  eval_string_concat left right =
      as_string left >>= λ a. as_string right >>= λ b. ok (string (a ++ b))

  unfoldable pub eval_numeric_negate : Value w → Call w
  eval_numeric_negate (integer n) = ok (integer (wrap (neg_ℤ n)))
  eval_numeric_negate (float x) = ok (float (w.float_neg x))
  eval_numeric_negate _ = panic not_numeric

  unfoldable pub eval_bool_not : Value w → Call w
  eval_bool_not operand = as_bool operand >>= λ b. ok (boolean (not b))

  -- The second `switch` of `makeNumericBinary`.
  unfoldable pub float_binary : TokenType → w.Float → w.Float → Call w
  float_binary plus a b = ok (float (w.float_add a b))
  float_binary minus a b = ok (float (w.float_sub a b))
  float_binary asterisk a b = ok (float (w.float_mul a b))
  float_binary slash a b =
      if is_zero w b
      then err (registry_error division_by_zero "division by zero")
      else ok (float (w.float_div a b))
  float_binary percent a b =
      if is_zero w b
      then err (registry_error division_by_zero "modulo by zero")
      else ok (float (w.float_mod a b))
  float_binary _ a b = panic unsupported_operator

  -- The first `switch`, on two integers; another operator falls through to the second.
  unfoldable pub int_binary : TokenType → ℤ → ℤ → Call w
  int_binary plus a b = ok (integer (wrap (a +ℤ b)))
  int_binary minus a b = ok (integer (wrap (a -ℤ b)))
  int_binary asterisk a b = ok (integer (wrap (a *ℤ b)))
  int_binary slash a b =
      if beq_ℤ b (pos 0)
      then err (registry_error division_by_zero "integer division by zero")
      else ok (float (w.float_div (w.float_of_int a) (w.float_of_int b)))
  int_binary percent a b =
      if beq_ℤ b (pos 0)
      then err (registry_error division_by_zero "integer modulo by zero")
      else go_rem a b >>= λ n. ok (integer n)
  int_binary op a b = float_binary op (w.float_of_int a) (w.float_of_int b)

  unfoldable pub numeric_binary : TokenType → Value w → Value w → Call w
  numeric_binary op (integer a) (integer b) = int_binary op a b
  numeric_binary op left right = as_float left >>= λ a. as_float right >>= λ b. float_binary op a b

  unfoldable pub numeric_compare : TokenType → Value w → Value w → Call w
  numeric_compare op (integer a) (integer b) = as_boolean (eval_compare op beq_ℤ ltb_ℤ leb_ℤ a b)
  numeric_compare op left right = as_float left >>= λ a.
      as_float right >>= λ b. as_boolean (eval_compare op w.float_eq w.float_lt w.float_le a b)

  -- Go's `==` on interface values: equal dynamic types and equal contents. Two records hold maps,
  -- which Go refuses to compare; a module is one object for each name.
  unfoldable pub interface_eq : Value w → Value w → Outcome RuleError Bool
  interface_eq nil nil = ok true
  interface_eq (integer a) (integer b) = ok (beq_ℤ a b)
  interface_eq (float a) (float b) = ok (w.float_eq a b)
  interface_eq (string a) (string b) = ok (str_beq a b)
  interface_eq (boolean a) (boolean b) = ok (if a then b else not b)
  interface_eq (plain_module a) (plain_module b) = ok (str_beq a b)
  interface_eq (structure _ _) (structure _ _) = panic uncomparable
  interface_eq (time a) (time b) = ok (beq_ℤ a b)
  interface_eq (duration a) (duration b) = ok (beq_ℤ a b)
  interface_eq (host a) (host b) = elim (w.host_eq a b) [
    | some t ↦ ok t
    | none ↦ panic uncomparable
  ]
  interface_eq _ _ = ok false

  unfoldable pub eval_scalar_eq : Value w → Value w → Call w
  eval_scalar_eq left right = interface_eq left right >>= λ b. ok (boolean b)

  unfoldable pub eval_scalar_neq : Value w → Value w → Call w
  eval_scalar_neq left right = interface_eq left right >>= λ b. ok (boolean (not b))

  unfoldable pub int_to_float : CoerceRule w
  int_to_float = record {
    eval_type = float_id;
    eval_fn = λ v. as_integer v >>= λ n. ok (float (w.float_of_int n));
  }
