-- ===== src/Registry/Sound.antt =====
-- registry/std_math.go: what the arithmetic rules of `DefaultRegistry` return.
use tascript.Common.{
  ◌+◌, false, some, ◌≡◌, refl, arith, lookup, insert, str_beq, str_eq, pair_eq, String, ok, err,
  if_false, if-elim, if-elim_eq, ℤ, pos, pos_part, neg_part, beq_ℤ, rem_ℤ, IsInt64, wrap-IsInt64,
}
use native.Mathlib.Nat.{mod-le}
use tascript.Token.{TokenType, plus, minus, asterisk, slash, percent, token_beq, token_type_eq}
use tascript.Registry.Value.{TypeId, integer_id, float_id, World, Value, integer, float}
use tascript.Registry.Rule.{BinaryRule, Call, registry_error, division_by_zero}
use tascript.Registry.Register.{
  commit, ◌orelse◌, check_open, reject_reserved, register_binary, register_unary, register_coercion,
  lookup_binary,
}
use tascript.Registry.StdMath.{
  numeric_binary, int_binary, float_binary, as_float, is_zero, int_to_float, go_rem,
}
use tascript.Registry.Default.{
  register_numeric, arithmetic_rule, comparison_rule, register_operators, register_equality,
  register_negate, register_std_math, default_registry,
}

-- The five arithmetic operators.
pub data Arithmetic : TokenType → Type 0 where
  adds : Arithmetic plus
  subtracts : Arithmetic minus
  multiplies : Arithmetic asterisk
  divides : Arithmetic slash
  remains : Arithmetic percent

-- The two numeric types.
pub data Num : Type 0 where
  int_num float_num : Num

abbrev pub num_id : Num → TypeId
num_id int_num = integer_id
num_id float_num = float_id

-- Two integers give an integer, except that a quotient is a float; a float makes the result one.
abbrev pub of_integers : {op : TokenType} → Arithmetic op → Num
of_integers divides = float_num
of_integers _ = int_num

abbrev pub join : Num → Num → Num → Num
join k int_num int_num = k
join k int_num float_num = float_num
join k float_num n = float_num

abbrev pub result : {op : TokenType} → Arithmetic op → Num → Num → Num
result o m n = join (of_integers o) m n

-- A value of a numeric type; an integer fits in 64 bits.
pub data HasNum {w : World} : Num → Value w → Type 0 where
  int_value : (n : ℤ) → IsInt64 n → HasNum int_num (integer n)
  float_value : (x : w.Float) → HasNum float_num (float x)

-- A call ends with a value of the type, or with a division by zero.
pub data Returns {w : World} (k : Num) : Call w → Type 0 where
  returns : (v : Value w) → HasNum k v → Returns k (ok v)
  divided_by_zero : (m : String) → Returns k (err (registry_error division_by_zero m))

rem_ℤ-IsInt64 : (a b : ℤ) → IsInt64 a → beq_ℤ b (pos 0) ≡ false → IsInt64 (rem_ℤ a b)
unfolding rem_ℤ
rem_ℤ-IsInt64 a b h ne =
    let m = pos_part b + neg_part b in
    let p = mod-le (pos_part a) m in let q = mod-le (neg_part a) m in ground arith

pub go_rem-nonzero : (a b : ℤ) → beq_ℤ b (pos 0) ≡ false → go_rem a b ≡ ok (rem_ℤ a b)
unfolding go_rem
go_rem-nonzero a b h = if_false _ _ h

module _ {w : World} where
  float_binary-Returns :
      {op : TokenType} (o : Arithmetic op) (x y : w.Float)
      → Returns {w = w} float_num (float_binary op x y)
  unfolding float_binary
  float_binary-Returns adds x y = returns _ (float_value _)
  float_binary-Returns subtracts x y = returns _ (float_value _)
  float_binary-Returns multiplies x y = returns _ (float_value _)
  float_binary-Returns divides x y =
      if-elim (Returns {w = w} float_num) (is_zero w y) (divided_by_zero _)
        (returns _ (float_value _))
  float_binary-Returns remains x y =
      if-elim (Returns {w = w} float_num) (is_zero w y) (divided_by_zero _)
        (returns _ (float_value _))

  int_binary-Returns :
      {op : TokenType} (o : Arithmetic op) (a b : ℤ)
      → IsInt64 a
      → Returns {w = w} (result o int_num int_num) (int_binary op a b)
  unfolding int_binary
  int_binary-Returns adds a b h = returns _ (int_value _ (wrap-IsInt64 _))
  int_binary-Returns subtracts a b h = returns _ (int_value _ (wrap-IsInt64 _))
  int_binary-Returns multiplies a b h = returns _ (int_value _ (wrap-IsInt64 _))
  int_binary-Returns divides a b h =
      if-elim (Returns {w = w} float_num) (beq_ℤ b (pos 0)) (divided_by_zero _)
        (returns _ (float_value _))
  int_binary-Returns remains a b h =
      if-elim_eq (Returns {w = w} int_num) (beq_ℤ b (pos 0)) (λ _. divided_by_zero _)
        (λ e. rw (go_rem-nonzero a b e) (returns _ (int_value _ (rem_ℤ-IsInt64 a b h e))))

  numeric_binary-Returns :
      {op : TokenType} (o : Arithmetic op) (m n : Num) (a b : Value w)
      → HasNum m a
      → HasNum n b
      → Returns (result o m n) (numeric_binary op a b)
  unfolding numeric_binary as_float
  numeric_binary-Returns o _ _ _ _ (int_value a h) (int_value b k) = int_binary-Returns o a b h
  numeric_binary-Returns o _ _ _ _ (int_value a h) (float_value y) = float_binary-Returns o _ y
  numeric_binary-Returns o _ _ _ _ (float_value x) (int_value b k) = float_binary-Returns o x _
  numeric_binary-Returns o _ _ _ _ (float_value x) (float_value y) = float_binary-Returns o x y

  -- The rule that `DefaultRegistry` has for an operator and two numeric types.
  arithmetic_entry :
      {op : TokenType} (o : Arithmetic op) (m n : Num)
      → lookup_binary {w = w} default_registry op (num_id m) (num_id n)
        ≡ some (record { eval_fn = numeric_binary op; eval_type = num_id (result o m n) })
  unfolding lookup_binary default_registry register_std_math register_negate register_equality
      register_operators comparison_rule arithmetic_rule register_numeric register_binary
      register_unary register_coercion check_open reject_reserved commit ◌orelse◌ lookup insert
      str_beq token_beq int_to_float
  arithmetic_entry adds int_num int_num = refl
  arithmetic_entry adds int_num float_num = refl
  arithmetic_entry adds float_num int_num = refl
  arithmetic_entry adds float_num float_num = refl
  arithmetic_entry subtracts int_num int_num = refl
  arithmetic_entry subtracts int_num float_num = refl
  arithmetic_entry subtracts float_num int_num = refl
  arithmetic_entry subtracts float_num float_num = refl
  arithmetic_entry multiplies int_num int_num = refl
  arithmetic_entry multiplies int_num float_num = refl
  arithmetic_entry multiplies float_num int_num = refl
  arithmetic_entry multiplies float_num float_num = refl
  arithmetic_entry divides int_num int_num = refl
  arithmetic_entry divides int_num float_num = refl
  arithmetic_entry divides float_num int_num = refl
  arithmetic_entry divides float_num float_num = refl
  arithmetic_entry remains int_num int_num = refl
  arithmetic_entry remains int_num float_num = refl
  arithmetic_entry remains float_num int_num = refl
  arithmetic_entry remains float_num float_num = refl

  -- `DefaultRegistry` has a rule for each of `+`, `-`, `*`, `/` and `%` on each two of Integer and Float,
  -- and on all values of those types the rule ends with a value of the type that it names, an integer
  -- within 64 bits, or with a division by zero: it never panics.
  pub arithmetic-Returns :
      {op : TokenType} (o : Arithmetic op) (m n : Num) (a b : Value w)
      → HasNum m a
      → HasNum n b
      → (rule : BinaryRule w) × (lookup_binary default_registry op (num_id m) (num_id n)
          ≡ some rule)
        × (rule.eval_type ≡ num_id (result o m n))
        × Returns (result o m n) (rule.eval_fn a b)
  arithmetic-Returns o m n a b h k =
      (_, arithmetic_entry o m n, refl, numeric_binary-Returns o m n a b h k)
