-- ===== src/Evaluator/Names.antt =====
-- The names that the frames of an environment bind, and how the writes of `Env` change them.
use tascript.Common.{
  true, Option, none, some, List, [], ◌∷◌, ◌++◌, Str, lookup, insert, has_key, ◌≡◌, refl, sym, ◌∙◌,
  ap, str_eq, eq_iff, ◌==◌, Bool-cases, inl, inr,
}
use mathlib.Core.List.{append-nil, append_assoc}
use tascript.Registry.Value.{World, Value}
use tascript.Evaluator.Env.{Frame, Env, set_name, assign}

module _ {w : World} where
  abbrev pub names : Frame w → List Str
  names [] = []
  names ((k, v) ∷ f) = k ∷ names f

  -- The same names in each frame.
  abbrev pub SameNames : Env w → Env w → Type 0
  SameNames [] [] = Unit
  SameNames (f ∷ fs) (g ∷ gs) = (names g ≡ names f) × SameNames fs gs
  SameNames _ _ = ⊥

  -- Names may be added to the innermost frame, and to no other.
  abbrev pub GrowsTop : Env w → Env w → Type 0
  GrowsTop [] [] = Unit
  GrowsTop (f ∷ fs) (g ∷ gs) = ((added : List Str) × (names g ≡ names f ++ added)) × SameNames fs gs
  GrowsTop _ _ = ⊥

  pub SameNames-refl : (e : Env w) → SameNames e e
  SameNames-refl [] = tt
  SameNames-refl (f ∷ fs) = (refl, SameNames-refl fs)

  pub SameNames-trans : (a b c : Env w) → SameNames a b → SameNames b c → SameNames a c
  SameNames-trans [] [] [] h k = tt
  SameNames-trans (f ∷ fs) (g ∷ gs) (m ∷ ms) h k = (k.0 ∙ h.0, SameNames-trans fs gs ms h.1 k.1)
  SameNames-trans [] [] (m ∷ ms) h k = absurd k
  SameNames-trans [] (g ∷ gs) c h k = absurd h
  SameNames-trans (f ∷ fs) [] c h k = absurd h
  SameNames-trans (f ∷ fs) (g ∷ gs) [] h k = absurd k

  pub GrowsTop-refl : (e : Env w) → GrowsTop e e
  GrowsTop-refl [] = tt
  GrowsTop-refl (f ∷ fs) = (([], sym (append-nil _)), SameNames-refl fs)

  pub SameNames-GrowsTop : (a b : Env w) → SameNames a b → GrowsTop a b
  SameNames-GrowsTop [] [] h = tt
  SameNames-GrowsTop (f ∷ fs) (g ∷ gs) h = (([], h.0 ∙ sym (append-nil _)), h.1)
  SameNames-GrowsTop [] (g ∷ gs) h = absurd h
  SameNames-GrowsTop (f ∷ fs) [] h = absurd h

  pub GrowsTop-trans : (a b c : Env w) → GrowsTop a b → GrowsTop b c → GrowsTop a c
  GrowsTop-trans [] [] [] h k = tt
  GrowsTop-trans (f ∷ fs) (g ∷ gs) (m ∷ ms) ((x, p), h) ((y, q), k) =
      ((x ++ y, q ∙ ap (λ t. t ++ y) p ∙ append_assoc _ x y), SameNames-trans fs gs ms h k)
  GrowsTop-trans [] [] (m ∷ ms) h k = absurd k
  GrowsTop-trans [] (g ∷ gs) c h k = absurd h
  GrowsTop-trans (f ∷ fs) [] c h k = absurd h
  GrowsTop-trans (f ∷ fs) (g ∷ gs) [] h k = absurd k

  -- A bound name keeps its place, a new one is added at the end.
  pub names-insert_bound :
      (k : Str) (v : Value w) (f : Frame w) → has_key k f ≡ true → names (insert k v f) ≡ names f
  unfolding lookup insert
  names-insert_bound k v [] h = cc
  names-insert_bound k v ((j, x) ∷ f) h = elim (Bool-cases (j == k)) [
    | inl e ↦ rw e (ap (λ t. t ∷ names f) (sym ((eq_iff j k).0 e)))
    | inr e ↦ rw e (ap (λ t. j ∷ t) (names-insert_bound k v f (rw (has_key, e) at h)))
  ]

  pub names-insert :
      (k : Str) (v : Value w) (f : Frame w)
      → (added : List Str) × (names (insert k v f) ≡ names f ++ added)
  unfolding insert
  names-insert k v [] = (k ∷ [], refl)
  names-insert k v ((j, x) ∷ f) = elim (Bool-cases (j == k)) [
    | inl e ↦ rw e ([], (ap (λ t. t ∷ names f) (sym ((eq_iff j k).0 e))) ∙ sym (append-nil _))
    | inr e ↦ let (added, p) = names-insert k v f in rw e (added, ap (λ t. j ∷ t) p)
  ]

  pub set_name-GrowsTop : (k : Str) (v : Value w) (e : Env w) → GrowsTop e (set_name k v e)
  unfolding set_name
  set_name-GrowsTop k v [] = tt
  set_name-GrowsTop k v (f ∷ fs) = (names-insert k v f, SameNames-refl fs)

  abbrev Kept : Env w → Option (Env w) → Type 0
  Kept e none = Unit
  Kept e (some e') = SameNames e e'

  Kept-outer :
      (f : Frame w) (fs : Env w) (o : Option (Env w))
      → Kept fs o
      → Kept (f ∷ fs) (elim o [ some fs' ↦ some (f ∷ fs') | none ↦ none ])
  Kept-outer f fs none h = tt
  Kept-outer f fs (some fs') h = (refl, h)

  assign-Kept : (k : Str) (v : Value w) (e : Env w) → Kept e (assign k v e)
  unfolding assign
  assign-Kept k v [] = tt
  assign-Kept k v (f ∷ fs) = elim (Bool-cases (has_key k f)) [
    | inl e ↦ rw e (names-insert_bound k v f e, SameNames-refl fs)
    | inr e ↦ rw e (Kept-outer f fs (assign k v fs) (assign-Kept k v fs))
  ]

  -- `Assign` binds no name anew.
  pub assign-SameNames :
      (k : Str) (v : Value w) (e : Env w) {e' : Env w} → assign k v e ≡ some e' → SameNames e e'
  assign-SameNames k v e h = rw h at (assign-Kept k v e)
