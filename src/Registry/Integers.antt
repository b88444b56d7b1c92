-- ===== src/Registry/Integers.antt =====
-- registry/std_math.go: what `+`, `-`, `*` and `%` give on two integers.
use tascript.Common.{
  ℕ, ◌<◌, ◌+◌, ◌*◌, ◌^◌, ◌≡◌, refl, ap, ◌∙◌, arith, ok, ℤ, pos, negsuc, ◌+ℤ◌, ◌-ℤ◌, ◌*ℤ◌, wrap,
  neg_ℤ, rem_ℤ, beq_ℤ, Bool, pos_part, neg_part, IsInt64, if◌then◌else◌, true, false, ◌%◌,
}
use native.Mathlib.Nat.{mod-eq_of_lt, mul-add-mod_self_right, zero-mod}
use tascript.Token.{TokenType, plus, minus, asterisk, percent}
use tascript.Registry.Value.{World, integer}
use tascript.Registry.Sound.{go_rem-nonzero}
use tascript.Registry.StdMath.{int_binary, numeric_binary}

-- The operators whose result can leave 64 bits, with the operation on integers that each stands for.
pub data Exact : TokenType → (ℤ → ℤ → ℤ) → Type 0 where
  sum : Exact plus ◌+ℤ◌
  difference : Exact minus ◌-ℤ◌
  product : Exact asterisk ◌*ℤ◌

wrap-shift : (k q : ℤ) → IsInt64 k → wrap (k +ℤ q *ℤ pos (2 ^ 64)) ≡ k
unfolding wrap ◌+ℤ◌ ◌*ℤ◌
wrap-shift (pos n) (pos m) h = ground arith
wrap-shift (pos n) (negsuc m) h = ground arith
wrap-shift (negsuc n) (pos m) h = ground arith
wrap-shift (negsuc n) (negsuc m) h = ground arith

-- n or -n.
abbrev pub signed : Bool → ℕ → ℤ
signed false n = pos n
signed true n = neg_ℤ (pos n)

add_mul-mod : (q m r : ℕ) → r < m → (q * m + r) % m ≡ r
add_mul-mod q m r h = mul-add-mod_self_right q m r ∙ mod-eq_of_lt h

magnitude : (s : Bool) (m : ℕ) → pos_part (signed s m) + neg_part (signed s m) ≡ m
unfolding neg_ℤ
magnitude false m = ground arith
magnitude true m = ground arith

parts :
    (s : Bool) (n : ℕ)
    → (pos_part (signed s n) ≡ (if s then 0 else n))
      × (neg_part (signed s n) ≡ (if s then n else 0))
unfolding neg_ℤ
parts false n = ground arith
parts true n = ground arith

rem_ℤ-signed :
    (s t : Bool) (q m r : ℕ) → r < m → rem_ℤ (signed s (q * m + r)) (signed t m) ≡ signed s r
unfolding rem_ℤ neg_ℤ
rem_ℤ-signed false t q m r h =
    let e = add_mul-mod q m r h in let z = zero-mod m in rw (magnitude t m, e, z) (ground arith)
rem_ℤ-signed true t q m r h =
    let e = add_mul-mod q m r h in
    let z = zero-mod m in
    let (p, n) = parts true (q * m + r) in rw (magnitude t m, p, n, e, z) (ground arith)

nonzero : (t : Bool) (m r : ℕ) → r < m → beq_ℤ (signed t m) (pos 0) ≡ false
unfolding neg_ℤ
nonzero false m r h = ground arith
nonzero true m r h = ground arith

module _ {w : World} where
  -- For two integers, `+`, `-` and `*` give the integer k within 64 bits that differs from the exact
  -- sum, difference or product by a multiple q * 2^64; in particular they give the exact result where it
  -- fits.
  pub numeric_binary-wraps :
      {op : TokenType} {f : ℤ → ℤ → ℤ} (o : Exact op f) (a b k q : ℤ)
      → IsInt64 k
      → f a b ≡ k +ℤ q *ℤ pos (2 ^ 64)
      → numeric_binary {w = w} op (integer a) (integer b) ≡ ok (integer k)
  unfolding numeric_binary int_binary
  numeric_binary-wraps sum a b k q h e = ap (λ n. ok (integer n)) (ap wrap e ∙ wrap-shift k q h)
  numeric_binary-wraps difference a b k q h e =
      ap (λ n. ok (integer n)) (ap wrap e ∙ wrap-shift k q h)
  numeric_binary-wraps product a b k q h e = ap (λ n. ok (integer n)) (ap wrap e ∙ wrap-shift k q h)

  -- For operands ±(q * m + r) and ±m with r < m, whatever the two signs, `%` gives r with the sign of
  -- the first.
  pub numeric_binary-truncates :
      (s t : Bool) (q m r : ℕ)
      → r < m
      → numeric_binary {w = w} percent (integer (signed s (q * m + r))) (integer (signed t m))
        ≡ ok (integer (signed s r))
  unfolding numeric_binary int_binary
  numeric_binary-truncates s t q m r h =
      rw (nonzero t m r h, go_rem-nonzero _ _ (nonzero t m r h), rem_ℤ-signed s t q m r h) refl
