-- ===== src/Common/Classes.antt =====
-- A Boolean test that decides equality, as Go's `==` on comparable types.
use Prim.Native.Nat.{ℕ}
use mathlib.Core.Path.{◌≡◌, refl}
use mathlib.Core.Logic.{◌↔◌}
use mathlib.Core.Bool.{Bool, true, ◌&&◌}
use tascript.Common.Tests.{nat_beq, nat_beq_iff, and_true}

pub record Eq {ℓ} (A : Type ℓ) : Type ℓ where
  pub same : (x y : A) → Bool
  pub same_iff : (x y : A) → (same x y ≡ true) ↔ (x ≡ y)

infix 50 ◌==◌
abbrev pub ◌==◌ {ℓ} : {A : Type ℓ} ⦃test : Eq A⦄ (x y : A) → Bool
◌==◌ ⦃test⦄ x y = test.same x y

instance abbrev pub nat_eq : Eq ℕ
nat_eq = record { same = nat_beq; same_iff = nat_beq_iff }

module _ {ℓ} {A : Type ℓ} ⦃e : Eq A⦄ where
  pub eq_iff : (a b : A) → ((a == b) ≡ true) ↔ (a ≡ b)
  eq_iff a b = e.same_iff a b

  pub eq_refl : (a : A) → (a == a) ≡ true
  eq_refl a = (e.same_iff a a).1 refl

module _ {ℓ κ} {A : Type ℓ} {B : Type κ} ⦃e : Eq A⦄ ⦃f : Eq B⦄ where
  abbrev pub pair_beq : A × B → A × B → Bool
  pair_beq p q = p.0 == q.0 && p.1 == q.1

  pub pair_beq→eq : (p q : A × B) → pair_beq p q ≡ true → p ≡ q
  pair_beq→eq p q h =
      let t = and_true _ _ h in λ i. ((eq_iff p.0 q.0).0 t.0 i, (eq_iff p.1 q.1).0 t.1 i)

  pub pair_beq_refl : (p : A × B) → pair_beq p p ≡ true
  pair_beq_refl p = rw (eq_refl p.0, eq_refl p.1)

  pub pair_beq_iff : (p q : A × B) → (pair_beq p q ≡ true) ↔ (p ≡ q)
  pair_beq_iff p q = (pair_beq→eq p q, λ h. rw h (pair_beq_refl q))

  instance abbrev pub pair_eq : Eq (A × B)
  pair_eq = record { same = pair_beq; same_iff = pair_beq_iff }
