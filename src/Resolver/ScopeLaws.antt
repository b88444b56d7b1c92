-- ===== src/Resolver/ScopeLaws.antt =====
-- resolver/env.go: what a binding changes in a scope.
use tascript.Common.{
  true, Option, none, some, [], ◌∷◌, ◌≡◌, ◌≢◌, sym, ◌∙◌, ap, subst, ◌⊎◌, inl, inr, Bool-cases,
  lookup, lookup-insert, ◌==◌, eq_iff, str_eq, if_true, if_false,
}
use tascript.Resolver.Scope.{Symbol, Binding, Scope, find, bind, enclosed}
use tascript.Registry.Good.{has_dot}
use tascript.Resolver.Typing.{GoodBinding, GoodScope, SlotNames}

abbrev found_first : Option Binding → Option Binding → Option Binding
found_first o rest = elim o [ some b ↦ some b | none ↦ rest ]

-- A name that is found after a binding is the one that was bound, or was found before.
pub find-bind :
    (key name : Symbol) (b c : Binding) (Γ : Scope)
    → find name (bind key b Γ) ≡ some c
    → ((key ≡ name) × (b ≡ c)) ⊎ (find name Γ ≡ some c)
unfolding find bind
find-bind key name b c [] h = inr h
find-bind key name b c (f ∷ fs) h =
    let e = ap (λ o. found_first o (find name fs)) (lookup-insert key name b f) in
    elim (Bool-cases (key == name)) [
      | inl t ↦
          let e' =
            sym (ap (λ o. found_first o (find name fs)) (if_true (some b) (lookup name f) t)) in
          inl ((eq_iff key name).0 t, cc)
      | inr n ↦ inr (
          sym (ap (λ o. found_first o (find name fs)) (if_false (some b) (lookup name f) n))
          ∙ sym e
          ∙ h)
    ]

pub enclosed-GoodScope : (Γ : Scope) → GoodScope Γ → GoodScope (enclosed Γ)
unfolding find lookup
enclosed-GoodScope Γ h = h

pub enclosed-SlotNames : (Γ : Scope) → SlotNames Γ → SlotNames (enclosed Γ)
unfolding find lookup
enclosed-SlotNames Γ h = h

pub bind-GoodScope :
    (key : Symbol) (b : Binding) (Γ : Scope)
    → GoodScope Γ
    → GoodBinding b
    → GoodScope (bind key b Γ)
bind-GoodScope key b Γ h g name c e = elim (find-bind key name b c Γ e) [
  | inl (_, q) ↦ subst GoodBinding q g
  | inr q ↦ h name c q
]

pub bind-SlotNames :
    (key : Symbol) (b : Binding) (Γ : Scope)
    → SlotNames Γ
    → (has_dot key ≡ true → b.slot ≢ none)
    → SlotNames (bind key b Γ)
bind-SlotNames key b Γ h g name c e d = elim (find-bind key name b c Γ e) [
  | inl (k, q) ↦ λ n. g (ap has_dot k ∙ d) (ap (λ (c : Binding). c.slot) q ∙ n)
  | inr q ↦ h name c q d
]
