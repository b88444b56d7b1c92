-- ===== src/Common/Strings.antt =====
-- Texts of the program are byte sequences, as in Go.
use Prim.Native.Nat.{ℕ}
use Prim.Native.Char.{code}
use Prim.Native.String.{String}
use mathlib.Core.Path.{◌≡◌, refl}
use mathlib.Core.Logic.{◌↔◌}
use mathlib.Core.Bool.{Bool, true, false, ◌&&◌}
use mathlib.Core.List.{List, [], ◌∷◌}
use native.Mathlib.Omega.{arith}
use tascript.Common.Tests.{nat_beq}
use tascript.Common.Classes.{Eq}

abbrev pub Str : Type 0
Str = List ℕ

-- The code points of a literal: its bytes, since every literal of the development is ASCII.
abbrev pub codes : String → Str
codes String.[] = []
codes (String.◌∷◌ c s) = code c ∷ codes s

unfoldable pub str_beq : Str → Str → Bool
str_beq [] [] = true
str_beq (x ∷ xs) (y ∷ ys) = nat_beq x y && str_beq xs ys
str_beq _ _ = false

pub str_beq_refl : (a : Str) → str_beq a a ≡ true
unfolding str_beq
str_beq_refl [] = refl
str_beq_refl (x ∷ xs) = ground (arith, str_beq_refl xs)

pub str_beq→eq : (a b : Str) → str_beq a b ≡ true → a ≡ b
unfolding str_beq
str_beq→eq [] [] h = refl
str_beq→eq (x ∷ xs) (y ∷ ys) h = ground (arith, str_beq→eq xs ys)
str_beq→eq [] (y ∷ ys) h = ground arith
str_beq→eq (x ∷ xs) [] h = ground arith

pub str_beq_iff : (a b : Str) → (str_beq a b ≡ true) ↔ (a ≡ b)
str_beq_iff a b = (str_beq→eq a b, λ e. rw e (str_beq_refl b))

instance abbrev pub str_eq : Eq Str
str_eq = record { same = str_beq; same_iff = str_beq_iff }
