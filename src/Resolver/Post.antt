-- ===== src/Resolver/Post.antt =====
-- resolver/resolver.go: what a method leaves, as a predicate on its outcome. It holds of no panic, and
-- the diagnostics only grow.
use tascript.Common.{
  if◌then◌else◌, ℕ, Bool, true, false, List, [], ◌∷◌, ◌++◌, ◌≡◌, ◌≢◌, refl, sym, ap, subst, All,
  Outcome, ok, length, nat_beq, Bool-cases, inl, inr, arith,
}
use tascript.Diag.{Diagnostic, phase, phase_check}
use tascript.Resolver.Check.{
  Errs, Check, continue, ◌>>=◌, ◌>>◌, give, report, report_if, fail, error_count, report_first,
}

abbrev pub IsCheck : Diagnostic → Type 0
IsCheck d = phase d ≡ phase_check

-- One of two.
pub choice-IsCheck :
    (b : Bool) (d e : Diagnostic) → IsCheck d → IsCheck e → IsCheck (if b then d else e)
choice-IsCheck true d e h k = h
choice-IsCheck false d e h k = k

-- The first diagnostics, then others of the resolver's phase.
pub data Grows (errs : Errs) : Errs → Type 0 where
  grows : (new : Errs) → All IsCheck new → Grows errs (errs ++ new)

append_nil : {A : Type 0} (xs : List A) → xs ++ [] ≡ xs
append_nil [] = refl
append_nil (x ∷ xs) = ap (λ l. x ∷ l) (append_nil xs)

append_assoc : {A : Type 0} (xs ys zs : List A) → (xs ++ ys) ++ zs ≡ xs ++ (ys ++ zs)
append_assoc [] ys zs = refl
append_assoc (x ∷ xs) ys zs = ap (λ l. x ∷ l) (append_assoc xs ys zs)

All-append : (xs ys : Errs) → All IsCheck xs → All IsCheck ys → All IsCheck (xs ++ ys)
All-append [] ys h k = k
All-append (x ∷ xs) ys h k = (h.0, All-append xs ys h.1 k)

pub Grows-refl : (errs : Errs) → Grows errs errs
Grows-refl errs = subst (Grows errs) (append_nil errs) (grows [] tt)

pub Grows-trans : (a b c : Errs) → Grows a b → Grows b c → Grows a c
Grows-trans a b c (grows x h) (grows y k) =
    subst (Grows a) (sym (append_assoc a x y)) (grows (x ++ y) (All-append x y h k))

-- All that grew from none.
pub Grows-IsCheck : (errs : Errs) → Grows [] errs → All IsCheck errs
Grows-IsCheck errs (grows new h) = h

-- Diagnostics that grew to none were none.
pub Grows-nil : (a b : Errs) → Grows a b → b ≡ [] → a ≡ []
Grows-nil [] b g h = refl
Grows-nil (d ∷ ds) b (grows new k) h = cc

append_one : (errs : Errs) (d : Diagnostic) → (errs ++ d ∷ []) ≢ []
append_one [] d h = cc
append_one (e ∷ es) d h = cc

pub data Post {A : Type 0} (errs : Errs) (P : A → Errs → Type 0)
    : Outcome ⊥ (A × Errs) → Type 0 where
  post : (a : A) (errs' : Errs) → Grows errs errs' → P a errs' → Post errs P (ok (a, errs'))

-- The method run on the diagnostics.
abbrev pub Ensures : {A : Type 0} → Errs → (A → Errs → Type 0) → Check A → Type 0
Ensures errs P m = Post errs P (m errs)

-- If there are no diagnostics.
abbrev pub Clear : {A : Type 0} → (A → Type 0) → A → Errs → Type 0
Clear P a errs = errs ≡ [] → P a

pub widen :
    {A : Type 0} {P : A → Errs → Type 0} (a b : Errs) (o : Outcome ⊥ (A × Errs))
    → Grows a b
    → Post b P o
    → Post a P o
widen a b o g (post v c h p) = post v c (Grows-trans a b c g h) p

-- A method whose name is not unfolded, after another.
bind_eq :
    {A B : Type 0} (m : Check A) (f : A → Check B) (errs : Errs)
    → (m >>= f) errs ≡ continue (m errs) f
unfolding ◌>>=◌
bind_eq m f errs = refl

seq_eq :
    {A : Type 0} (m : Check (Unit {0})) (k : Check A) (errs : Errs)
    → (m >> k) errs ≡ continue (m errs) (λ _. k)
unfolding ◌>>◌
seq_eq m k errs = refl

module _ {A B : Type 0} {P : A → Errs → Type 0} {Q : B → Errs → Type 0} where
  continue-Post :
      (errs : Errs) (o : Outcome ⊥ (A × Errs)) (f : A → Check B)
      → Post errs P o
      → ((a : A) (errs' : Errs) → Grows errs errs' → P a errs' → Ensures errs' Q (f a))
      → Post errs Q (continue o f)
  continue-Post errs o f (post a e g p) h = widen errs e (f a e) g (h a e g p)

  -- One for each `>>=`.
  pub bind-Post :
      {errs : Errs} (m : Check A) (f : A → Check B)
      → Ensures errs P m
      → ((a : A) (errs' : Errs) → Grows errs errs' → P a errs' → Ensures errs' Q (f a))
      → Ensures errs Q (m >>= f)
  bind-Post {errs} m f h k =
      subst (Post errs Q) (sym (bind_eq m f errs)) (continue-Post errs (m errs) f h k)

-- One for each `>>`.
pub then-Post :
    {A : Type 0} {P : Unit {0} → Errs → Type 0} {Q : A → Errs → Type 0} {errs : Errs}
    (m : Check (Unit {0})) (k : Check A)
    → Ensures errs P m
    → ((errs' : Errs) → Grows errs errs' → P tt errs' → Ensures errs' Q k)
    → Ensures errs Q (m >> k)
then-Post {Q} {errs} m k h j =
    subst (Post errs Q) (sym (seq_eq m k errs)) (continue-Post errs (m errs) (λ _. k) h (λ _. j))

pub map-Post :
    {A : Type 0} {P Q : A → Errs → Type 0} {errs : Errs} (o : Outcome ⊥ (A × Errs))
    → Post errs P o
    → ((a : A) (errs' : Errs) → Grows errs errs' → P a errs' → Q a errs')
    → Post errs Q o
map-Post o (post a e g p) f = post a e g (f a e g p)

module _ {A : Type 0} {P : A → Errs → Type 0} where
  pub give-Post : (a : A) (errs : Errs) → P a errs → Ensures errs P (give a)
  unfolding give
  give-Post a errs p = post a errs (Grows-refl errs) p

abbrev pub Reported : {A : Type 0} → A → Errs → Type 0
Reported a errs = errs ≢ []

pub report-Post : (d : Diagnostic) (errs : Errs) → IsCheck d → Ensures errs Reported (report d)
unfolding report
report-Post d errs c = post tt (errs ++ d ∷ []) (grows (d ∷ []) (c, tt)) (append_one errs d)

pub fail-Post :
    {A : Type 0} {P : A → Type 0} (d : Diagnostic) (a : A) (errs : Errs)
    → IsCheck d
    → Ensures errs (Clear P) (fail d a)
unfolding fail
fail-Post d a errs c =
    post a (errs ++ d ∷ []) (grows (d ∷ []) (c, tt)) (λ h. absurd (append_one errs d h))

pub fail_with-Post :
    {A : Type 0} {P : A → Errs → Type 0} (d : Diagnostic) (a : A) (errs : Errs)
    → IsCheck d
    → ((errs' : Errs) → Grows errs errs' → errs' ≢ [] → P a errs')
    → Ensures errs P (fail d a)
unfolding fail
fail_with-Post d a errs c h =
    post a (errs ++ d ∷ []) (grows (d ∷ []) (c, tt))
      (h _ (grows (d ∷ []) (c, tt)) (append_one errs d))

-- Reported if the test holds.
pub report_if-Post :
    (b : Bool) (d : Diagnostic) (errs : Errs)
    → IsCheck d
    → Ensures errs (Clear (λ _. b ≡ false)) (report_if b d)
unfolding report_if report give
report_if-Post true d errs c =
    post tt (errs ++ d ∷ []) (grows (d ∷ []) (c, tt)) (λ h. absurd (append_one errs d h))
report_if-Post false d errs c = post tt errs (Grows-refl errs) (λ _. refl)

-- A method that counts them first.
pub count-Post :
    {A : Type 0} {Q : A → Errs → Type 0} {errs : Errs} (f : ℕ → Check A)
    → Ensures errs Q (f (length errs))
    → Ensures errs Q (error_count >>= f)
unfolding error_count ◌>>=◌
count-Post f h = h

-- Behind the diagnostics counted, there is one afterwards.
pub report_first-Post :
    (before errs : Errs) (d : Diagnostic)
    → IsCheck d
    → Grows before errs
    → Ensures errs Reported (report_first (length before) d)
unfolding report_first report give
report_first-Post before errs d c g = elim (Bool-cases (nat_beq (length errs) (length before))) [
  | inl e ↦ rw e (post tt (errs ++ d ∷ []) (grows (d ∷ []) (c, tt)) (append_one errs d))
  | inr e ↦ rw e (
      post tt errs (Grows-refl errs) (λ h.
        let a = ap length h in
        let b = ap length (Grows-nil before errs g h) in absurd (ground arith)))
]
