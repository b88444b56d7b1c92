-- ===== src/Resolver/ArgsTyped.antt =====
-- resolver/resolver.go: what `resolveArgs` leaves, given what the arguments resolve to.
use tascript.Common.{
  ℕ, zero, suc, Bool, true, false, ◌||◌, Option, none, some, List, [], ◌∷◌, Str, ◌≡◌, ◌≢◌, refl,
  sym, ◌∙◌, ap, subst, inl, inr, Bool-cases, if-elim, if-elim_eq, if◌then◌else◌, length, nat_beq,
  nat_beq_iff, ◌==◌, eq_iff, str_eq, arith, get_elem?, set, drop,
}
use tascript.Token.{Token}
use tascript.Registry.Value.{error_type_id, World}
use tascript.Registry.Rule.{ParamRule, CoerceRule}
use tascript.Registry.Register.{lookup_coerce}
use tascript.Resolved.{expr_type}
use tascript.Resolved
use tascript.Resolver.Scope.{Scope}
use tascript.Resolver.Report.{add_type_mismatch}
use tascript.Resolver.Check.{Errs, Check, Context, give, fail, is_error}
use tascript.Resolver.Args.{
  Arg, ArgState, fit_argument, put_arg, param_index, is_set, report_missing, to_args, empty_args,
  check_args, keyed_arg,
}
use tascript.Resolver.Post.{
  Grows, Grows-nil, Ensures, Clear, bind-Post, then-Post, give-Post, fail-Post, report-Post,
  map-Post,
}
use tascript.Registry.Good.{GoodReg, GoodParams}
use tascript.Resolver.Typing.{Typed, Fits, TypedArgs, GoodScope}
use tascript.Resolver.Typing
use tascript.Resolver.OperandTyped.{ScopeOk, FoundArgs, is_error-Reported}

-- The parameters from `i` on are `p` and others.
pub drop-get_elem? :
    (all : List ParamRule) (i : ℕ) (p : ParamRule) (ps : List ParamRule)
    → drop i all ≡ p ∷ ps
    → (get_elem? all i ≡ some p) × (drop (suc i) all ≡ ps)
drop-get_elem? [] zero p ps h = cc
drop-get_elem? [] (suc i) p ps h = cc
drop-get_elem? (q ∷ qs) zero p ps h = (cc, cc)
drop-get_elem? (q ∷ qs) (suc i) p ps h = drop-get_elem? qs i p ps h

param_index-get_elem? :
    (key : Str) (all ps : List ParamRule) (i j : ℕ) (p : ParamRule)
    → drop i all ≡ ps
    → param_index i key ps ≡ some (j, p)
    → get_elem? all j ≡ some p
unfolding param_index
param_index-get_elem? key all [] i j p h e = cc
param_index-get_elem? key all (q ∷ qs) i j p h e =
    let d = drop-get_elem? all i q qs h in
    let next = param_index-get_elem? key all qs (suc i) j p d.1 in
    elim (Bool-cases (key == q.name)) [
      | inl t ↦ let e' = rw t at e in cc
      | inr t ↦ next (rw t at e)
    ]

the_same : {A : Type 0} (a b : A) → some a ≡ some b → a ≡ b
the_same a b h = cc

param-NotError :
    (ps : List ParamRule) (i : ℕ) (p : ParamRule)
    → GoodParams ps
    → get_elem? ps i ≡ some p
    → p.type ≢ error_type_id
param-NotError [] i p h e k = cc
param-NotError (q ∷ qs) zero p h e k = h.0 (ap (λ (c : ParamRule). c.type) (the_same q p e) ∙ k)
param-NotError (q ∷ qs) (suc i) p h e k = param-NotError qs i p h.1 e k

allowed :
    {A : Type 0} (b : Bool) (o : Option A) (a : A)
    → (if b then none else o) ≡ some a
    → (b ≡ false) × (o ≡ some a)
allowed true o a h = cc
allowed false o a h = (refl, h)

module _ {w : World} (x : Context w) (Γ : Scope) where
  -- What stands in the place of a parameter.
  abbrev PlaceOk : ParamRule → Option (Arg w) → Type 0
  PlaceOk p none = Unit
  PlaceOk p (some a) = (a.name ≡ p.name) × Fits x.reg x.curr_fn Γ p.type p.exact a.value

  abbrev PlacesOk : List ParamRule → List (Option (Arg w)) → Type 0
  PlacesOk [] [] = Unit
  PlacesOk (p ∷ ps) (o ∷ os) = PlaceOk p o × PlacesOk ps os
  PlacesOk _ _ = ⊥

  abbrev pub StateOk : List ParamRule → ArgState w → Type 0
  StateOk ps st = (st.has_errs ≡ false) × PlacesOk ps st.args

  empty_args-PlacesOk : (ps : List ParamRule) → PlacesOk ps (empty_args ps)
  empty_args-PlacesOk [] = tt
  empty_args-PlacesOk (p ∷ ps) = (tt, empty_args-PlacesOk ps)

  pub start-StateOk :
      (ps : List ParamRule) → StateOk ps (record { args = empty_args ps; has_errs = false })
  start-StateOk ps = (refl, empty_args-PlacesOk ps)

  set-PlacesOk :
      (ps : List ParamRule) (os : List (Option (Arg w))) (i : ℕ) (p : ParamRule) (a : Arg w)
      → PlacesOk ps os
      → get_elem? ps i ≡ some p
      → PlaceOk p (some a)
      → PlacesOk ps (set os i (some a))
  set-PlacesOk [] os i p a h e k = cc
  set-PlacesOk (q ∷ qs) [] i p a h e k = absurd h
  set-PlacesOk (q ∷ qs) (o ∷ os) zero p a h e k = (subst (λ c. PlaceOk c (some a)) (cc) k, h.1)
  set-PlacesOk (q ∷ qs) (o ∷ os) (suc i) p a h e k = (h.0, set-PlacesOk qs os i p a h.1 e k)

  put_arg-StateOk :
      (ps : List ParamRule) (st : ArgState w) (i : ℕ) (p : ParamRule) (a : Arg w) (bad : Bool)
      → StateOk ps st
      → get_elem? ps i ≡ some p
      → bad ≡ false
      → PlaceOk p (some a)
      → StateOk ps (put_arg i a bad st)
  put_arg-StateOk ps st i p a bad h e b k =
      (rw (h.0, b) refl, set-PlacesOk ps st.args i p a h.1 e k)

  -- A value that fits, unless something is reported.
  abbrev Fitted : ParamRule → Resolved.Expr w × Bool → Type 0
  Fitted p c = (c.1 ≡ false) × Fits x.reg x.curr_fn Γ p.type p.exact c.0

  abbrev Here : Resolved.Expr w → Errs → Type 0
  Here = Clear (Typed x.reg x.curr_fn Γ)

  -- Neither coerced nor of the parameter's type: reported, now or before.
  misfit-Post :
      (p : ParamRule) (t : Token) (v : Resolved.Expr w) (errs : Errs)
      → (is_error (expr_type v) ≡ true → errs ≢ [])
      → (errs ≡ [] → p.type ≢ error_type_id)
      → Ensures errs (Clear (Fitted p)) (
          if is_error (expr_type v) || is_error p.type
          then give (v, false)
          else fail (add_type_mismatch t p.type (expr_type v)) (v, true))
  misfit-Post p t v errs h k =
      if-elim_eq (Ensures errs (Clear (Fitted p))) (is_error (expr_type v) || is_error p.type)
        (λ e. give-Post _ errs (λ q.
          let n = eq_iff p.type error_type_id in
          let a = k q in
          elim (Bool-cases (is_error (expr_type v))) [
            | inl i ↦ absurd (h i q)
            | inr i ↦ absurd (a (n.0 (ground arith)))
          ]))
        (λ _. fail-Post _ _ errs refl)

  coercion-Post :
      (p : ParamRule) (t : Token) (v : Resolved.Expr w) (errs : Errs) (o : Option (CoerceRule w))
      → Here v errs
      → (is_error (expr_type v) ≡ true → errs ≢ [])
      → (errs ≡ [] → p.type ≢ error_type_id)
      → ((rule : CoerceRule w)
          → o ≡ some rule
          → (p.exact ≡ false) × (lookup_coerce x.reg (expr_type v) p.type ≡ some rule))
      → Ensures errs (Clear (Fitted p)) (elim o [
        | some rule ↦ give (Resolved.coerce v rule.eval_type rule.eval_fn, false)
        | none ↦
            if is_error (expr_type v) || is_error p.type
            then give (v, false)
            else fail (add_type_mismatch t p.type (expr_type v)) (v, true)
      ])
  coercion-Post p t v errs none d h k c = misfit-Post p t v errs h k
  coercion-Post p t v errs (some rule) d h k c =
      let both = c rule refl in
      give-Post _ errs (λ q. (refl, Typing.coerced v rule (d q) both.0 both.1))

  fit_argument-Post :
      (p : ParamRule) (t : Token) (v : Resolved.Expr w) (errs : Errs)
      → Here v errs
      → (is_error (expr_type v) ≡ true → errs ≢ [])
      → (errs ≡ [] → p.type ≢ error_type_id)
      → Ensures errs (Clear (Fitted p)) (fit_argument x p t v)
  unfolding fit_argument
  fit_argument-Post p t v errs d h k =
      if-elim_eq (Ensures errs (Clear (Fitted p))) (expr_type v == p.type)
        (λ e.
          give-Post _ errs (λ q. (refl, Typing.same v (d q) ((eq_iff (expr_type v) p.type).0 e))))
        (λ _.
          coercion-Post p t v errs
            (if p.exact then none else lookup_coerce x.reg (expr_type v) p.type) d h k
            (λ rule e. allowed p.exact _ rule e))

  -- All are there, where none is reported as missing.
  report_missing-Post :
      (t : Token) (ps : List ParamRule) (os : List (Option (Arg w))) (b : Bool) (errs : Errs)
      → (errs ≡ [] → PlacesOk ps os)
      → Ensures errs
          (Clear (λ b'. (b' ≡ b) × TypedArgs x.reg x.curr_fn Γ ps (to_args os)))
          (report_missing t ps os b)
  unfolding report_missing
  report_missing-Post t [] [] b errs h = give-Post _ errs (λ q. (refl, Typing.no_args))
  report_missing-Post t [] (o ∷ os) b errs h = give-Post _ errs (λ q. absurd (h q))
  report_missing-Post t (p ∷ ps) [] b errs h = give-Post _ errs (λ q. absurd (h q))
  report_missing-Post t (p ∷ ps) (none ∷ os) b errs h =
      then-Post _ _ (report-Post _ errs refl) (λ e g r.
        map-Post _ (report_missing-Post t ps os true e (λ q. absurd (r q)))
          (λ b' e' g' k q. absurd (r (Grows-nil e e' g' q))))
  report_missing-Post t (p ∷ ps) (some a ∷ os) b errs h =
      map-Post _ (report_missing-Post t ps os b errs (λ q. (h q).1)) (λ b' e' g' k q.
        let place = (h (Grows-nil errs e' g' q)).0 in
        (
          (k q).0,
          subst
              (λ n.
                TypedArgs x.reg x.curr_fn Γ (p ∷ ps) (Resolved.arg a.token n a.value (to_args os)))
              (sym place.0) (Typing.arg p ps a.token a.value (to_args os) place.1 (k q).1),
        ))

  pub check_args-Post :
      (t : Token) (count : ℕ) (ps : List ParamRule) (leading : ℕ) (positional : Check (ArgState w))
      (keyed : ArgState w → Check (ArgState w)) (errs : Errs)
      → (count ≡ length ps → Ensures errs (Clear (StateOk ps)) positional)
      → ((st : ArgState w) (errs' : Errs)
          → Grows errs errs'
          → Clear (StateOk ps) st errs'
          → Ensures errs' (Clear (StateOk ps)) (keyed st))
      → Ensures errs
          (Clear (FoundArgs x.reg x.curr_fn Γ ps))
          (check_args t count ps leading positional keyed)
  unfolding check_args
  check_args-Post t count ps leading positional keyed errs h k =
      if-elim_eq (Ensures errs (Clear (FoundArgs x.reg x.curr_fn Γ ps))) (nat_beq count (length ps))
        (λ e. bind-Post _ _ (h ((nat_beq_iff count (length ps)).0 e)) (λ st e1 g1 s1.
          bind-Post _ _ (k st e1 g1 s1) (λ st' e2 g2 s2.
            bind-Post _ _ (report_missing-Post t ps st'.args st'.has_errs e2 (λ q. (s2 q).1))
              (λ b e3 g3 s3. give-Post _ e3 (λ q.
                let ok = (s2 (Grows-nil e2 e3 g3 q)).0 in
                (to_args st'.args, rw ((s3 q).0, ok) refl, (s3 q).1))))))
        (λ _. fail-Post _ _ errs refl)

  module _ (good : GoodReg x.reg) where
    -- A value put in the place of a parameter that it is checked against.
    pub put-StateOk :
        (all : List ParamRule) (st : ArgState w) (i : ℕ) (p : ParamRule) (t at : Token)
        (v : Resolved.Expr w) (errs : Errs)
        → ScopeOk errs Γ
        → (errs ≡ [] → GoodParams all)
        → get_elem? all i ≡ some p
        → Clear (StateOk all) st errs
        → Here v errs
        → Ensures errs
            (Clear (λ c.
              StateOk all (put_arg i (record { token = at; name = p.name; value = c.0 }) c.1 st)))
            (fit_argument x p t v)
    put-StateOk all st i p t at v errs sc ps e s d =
        map-Post _
          (fit_argument-Post p t v errs d (λ b. is_error-Reported x Γ good v errs sc d b)
            (λ q. param-NotError all i p (ps q) e))
          (λ c errs' g f q.
            let before = Grows-nil errs errs' g q in
            put_arg-StateOk all st i p _ c.1 (s before) e (f q).0 (refl, (f q).1))

    pub keyed_arg-Post :
        (all : List ParamRule) (t key : Token) (value : Check (Resolved.Expr w)) (st : ArgState w)
        (o : Option (ℕ × ParamRule)) (errs : Errs)
        → param_index 0 key.literal all ≡ o
        → ScopeOk errs Γ
        → (errs ≡ [] → GoodParams all)
        → Clear (StateOk all) st errs
        → Ensures errs Here value
        → Ensures errs (Clear (StateOk all)) (keyed_arg x t key value st o)
    unfolding keyed_arg
    keyed_arg-Post all t key value st none errs e sc ps s h = fail-Post _ _ errs refl
    keyed_arg-Post all t key value st (some (i, p)) errs e sc ps s h =
        if-elim (Ensures errs (Clear (StateOk all))) (is_set st.args i) (fail-Post _ _ errs refl) (
          bind-Post _ _ h (λ v e1 g1 d.
            let old = Grows-nil errs e1 g1 in
            bind-Post _ _
              (put-StateOk all st i p t t v e1 (λ q. sc (old q)) (λ q. ps (old q))
                (param_index-get_elem? key.literal all all 0 i p refl e) (λ q. s (old q)) d)
              (λ c e2 g2 k. give-Post _ e2 k)))
