-- ===== src/Common/Maps.antt =====
-- Go maps as association lists with one entry for a key.
use mathlib.Core.Path.{◌≡◌, refl}
use mathlib.Core.Bool.{Bool, true, false}
use mathlib.Core.List.{List, [], ◌∷◌}
use mathlib.Core.Option.{Option, none, some}
use native.Mathlib.Omega.{arith}
use tascript.Common.Tests.{if◌then◌else◌}
use tascript.Common.Classes.{Eq, ◌==◌, eq_iff, eq_refl}

abbrev pub Map {ℓ κ} : Type ℓ → Type κ → Type (ℓ ⊔ κ)
Map K V = List (K × V)

module _ {ℓ κ} {K : Type ℓ} {V : Type κ} ⦃e : Eq K⦄ where
  unfoldable pub lookup : K → Map K V → Option V
  lookup key [] = none
  lookup key ((k, value) ∷ rest) = if k == key then some value else lookup key rest

  unfoldable pub insert : K → V → Map K V → Map K V
  insert key value [] = (key, value) ∷ []
  insert key value ((k, old) ∷ rest) =
      if k == key then (key, value) ∷ rest else (k, old) ∷ insert key value rest

  abbrev pub has_key : K → Map K V → Bool
  has_key k m = elim (lookup k m) [ none ↦ false | some _ ↦ true ]

  -- Reading at `read` after a write at `written`.
  pub lookup-insert :
      (written read : K) (value : V) (entries : Map K V)
      → lookup read (insert written value entries)
        ≡ (if written == read then some value else lookup read entries)
  unfolding insert lookup
  lookup-insert written read value ((k, old) ∷ rest) = ground (
    arith,
    lookup-insert written read value rest,
    eq_iff k written,
    eq_iff k read,
    eq_iff written read,
  )
  lookup-insert written read value [] = refl

  pub lookup-insert_self : (k : K) (v : V) (m : Map K V) → lookup k (insert k v m) ≡ some v
  lookup-insert_self k v m = rw (lookup-insert, eq_refl k)

  pub lookup-insert_ne :
      (k j : K) (v : V) (m : Map K V) → (k == j) ≡ false → lookup j (insert k v m) ≡ lookup j m
  lookup-insert_ne k j v m h = rw (lookup-insert, h)
