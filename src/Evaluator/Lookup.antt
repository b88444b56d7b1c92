-- ===== src/Evaluator/Lookup.antt =====
-- evaluator/env.go: reading what was written.
use tascript.Common.{
  All, ◌∙◌, ◌++◌, sym, ap, none, some, [], ◌∷◌, Str, ◌≡◌, refl, arith, lookup, insert, has_key,
  ◌==◌, eq_iff, lookup-insert, if◌then◌else◌, str_eq, inl, inr, Option-cases,
}
use tascript.Registry.Value.{World, Value}
use tascript.Evaluator.Env.{Frame, Env, get, set_name, assign}

module _ {w : World} where
  -- A frame written at a name, on top of a stack.
  get-insert :
      (k j : Str) (v : Value w) (f : Frame w) (fs : Env w)
      → get j (insert k v f ∷ fs) ≡ (if k == j then some v else get j (f ∷ fs))
  unfolding get
  get-insert k j v f fs = ground (arith, lookup-insert k j v f)

  -- A declaration in the innermost scope hides what the name meant, and changes no other name.
  pub get-set_name :
      (k j : Str) (v : Value w) (f : Frame w) (fs : Env w)
      → get j (set_name k v (f ∷ fs)) ≡ (if k == j then some v else get j (f ∷ fs))
  unfolding set_name
  get-set_name k j v f fs = get-insert k j v f fs

  -- A write below a frame that does not bind the name.
  get-below :
      (k j : Str) (v : Value w) (f : Frame w) (fs fs' : Env w)
      → lookup k f ≡ none
      → get j fs' ≡ (if k == j then some v else get j fs)
      → get j (f ∷ fs') ≡ (if k == j then some v else get j (f ∷ fs))
  unfolding get
  get-below k j v f fs fs' h e = ground (arith, eq_iff k j)

  get-assign :
      (k j : Str) (v : Value w) (fs fs' : Env w)
      → assign k v fs ≡ some fs'
      → get j fs' ≡ (if k == j then some v else get j fs)
  unfolding assign
  get-assign k j v [] fs' h = cc
  get-assign k j v (f ∷ fs) fs' h = elim (Option-cases (lookup k f)) [
    | inl e ↦ elim (Option-cases (assign k v fs)) [
      | inl a ↦ let h = rw (e, a, assign, has_key) at h in cc
      | inr (gs, a) ↦
          let h : (f ∷ gs) ≡ fs' = ground arith in
          rw (← h) (get-below k j v f fs gs e (get-assign k j v fs gs a))
    ]
    | inr (x, e) ↦
        let h : (insert k v f ∷ fs) ≡ fs' = ground arith in rw (← h) (get-insert k j v f fs)
  ]

  -- The second stack is the first with the name rebound in the innermost frame that binds it.
  pub record Rebinds (k : Str) (v : Value w) (fs fs' : Env w) : Type 0 where
    pub inner : Env w
    pub declaring : Frame w
    pub outer : Env w
    pub before : fs ≡ inner ++ declaring ∷ outer
    pub after : fs' ≡ inner ++ insert k v declaring ∷ outer
    pub unbound : All (λ f. lookup k f ≡ none) inner
    pub bound : (u : Value w) × (lookup k declaring ≡ some u)

  assign-Rebinds :
      (k : Str) (v : Value w) (fs fs' : Env w) → assign k v fs ≡ some fs' → Rebinds k v fs fs'
  unfolding assign
  assign-Rebinds k v [] fs' h = cc
  assign-Rebinds k v (f ∷ fs) fs' h = elim (Option-cases (lookup k f)) [
    | inl e ↦ elim (Option-cases (assign k v fs)) [
      | inl a ↦ let h = rw (e, a, assign, has_key) at h in cc
      | inr (gs, a) ↦
          let h : (f ∷ gs) ≡ fs' = ground arith in
          let r = assign-Rebinds k v fs gs a in
          record {
            inner = f ∷ r.inner;
            declaring = r.declaring;
            outer = r.outer;
            before = ap (λ es. f ∷ es) r.before;
            after = sym h ∙ ap (λ es. f ∷ es) r.after;
            unbound = (e, r.unbound);
            bound = r.bound;
          }
    ]
    | inr (x, e) ↦
        let h : (insert k v f ∷ fs) ≡ fs' = ground arith in
        record {
          inner = [];
          declaring = f;
          outer = fs;
          before = refl;
          after = sym h;
          unbound = tt;
          bound = (x, e);
        }
  ]

  -- An assignment that succeeds rebinds the name in the innermost scope that binds it, and changes no
  -- other scope; the name then reads as the value, and each other name as before.
  pub assign-get :
      (k j : Str) (v : Value w) (fs fs' : Env w)
      → assign k v fs ≡ some fs'
      → Rebinds k v fs fs' × (get j fs' ≡ (if k == j then some v else get j fs))
  assign-get k j v fs fs' h = (assign-Rebinds k v fs fs' h, get-assign k j v fs fs' h)
