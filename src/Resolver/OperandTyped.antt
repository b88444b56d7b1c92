-- ===== src/Resolver/OperandTyped.antt =====
-- resolver/resolver.go: what references and operators resolve to, given what their operands do.
use tascript.Common.{
  Str, true, false, not, ◌&&◌, ◌||◌, Option, some, List, [], ◌∷◌, ◌≡◌, ◌≢◌, refl, sym, ◌∙◌, inl,
  inr, Bool-cases, Option-cases, if-elim, if-elim_eq, length, ◌==◌, eq_iff, str_eq, pair_eq, lookup,
  str_beq, arith,
}
use tascript.Token.{Token, and, or, token_type_eq}
use tascript.Registry.Value.{bool_id, error_type_id, World}
use tascript.Registry.Rule.{Registry, ParamRule, CallRule, CallKey}
use tascript.Registry.Register.{lookup_binary, lookup_unary, lookup_member_access, lookup_call}
use tascript.Resolved.{SlotHead, expr_type}
use tascript.Resolved
use tascript.Diag
use tascript.Resolver.Scope.{Scope}
use tascript.Resolver.Check.{Errs, Check, Context, ◌>>◌, give, report_first, is_error}
use tascript.Resolver.Operand.{
  new_error_expr, resolve_logical, resolve_binary, resolve_infix, resolve_prefix, resolve_attribute,
  resolve_index, resolve_method, call_or_bad,
}
use tascript.Resolver.Post.{
  IsCheck, Grows, Grows-refl, Grows-nil, Post, Ensures, Clear, bind-Post, then-Post, give-Post,
  report_if-Post, report_first-Post,
}
use tascript.Registry.Good.{
  differ, All-lookup, GoodBinary, GoodUnary, GoodMember, GoodCall, GoodReg, GoodParams,
}
use tascript.Resolver.Typing.{Typed, TypedArgs, GoodBinding, GoodScope, SlotNames}
use tascript.Resolver.Typing

-- A scope that is good unless something has been reported.
abbrev pub ScopeOk : Errs → Scope → Type 0
ScopeOk errs Γ = errs ≡ [] → GoodScope Γ

pub ScopeOk-Grows : (a b : Errs) (Γ : Scope) → Grows a b → ScopeOk a Γ → ScopeOk b Γ
ScopeOk-Grows a b Γ g h e = h (Grows-nil a b g e)

-- Arguments that fit the parameters.
abbrev pub FoundArgs :
    {w : World} → Registry w → Str → Scope → List ParamRule → Option (Resolved.Args w) → Type 0
FoundArgs {w} r fn Γ ps o = (args : Resolved.Args w) × (o ≡ some args) × TypedArgs r fn Γ ps args

call_rule-Good :
    {w : World} (r : Registry w) (k : CallKey) (rule : CallRule w)
    → GoodReg r
    → lookup k r.call ≡ some rule
    → (rule.eval_type ≢ error_type_id) × GoodParams rule.args
call_rule-Good r k rule good e = (All-lookup GoodCall k rule r.call good.call e).0

pub Typed-NotError :
    {w : World} (r : Registry w) (fn : Str) (Γ : Scope) (v : Resolved.Expr w)
    → GoodReg r
    → GoodScope Γ
    → Typed r fn Γ v
    → expr_type v ≢ error_type_id
unfolding expr_type str_beq lookup_binary lookup_unary lookup_member_access lookup_call
Typed-NotError r fn Γ _ good sc (Typing.integer t n) h = differ _ _ refl h
Typed-NotError r fn Γ _ good sc (Typing.float t n) h = differ _ _ refl h
Typed-NotError r fn Γ _ good sc (Typing.string t n) h = differ _ _ refl h
Typed-NotError r fn Γ _ good sc (Typing.boolean t n) h = differ _ _ refl h
Typed-NotError r fn Γ _ good sc (Typing.ident t b e _) h = (sc _ b e).0 h
Typed-NotError r fn Γ _ good sc (Typing.slot_ref t key b s e k) h =
    (sc key b e).0 (sym ((sc key b e).1 s k) ∙ h)
Typed-NotError r fn Γ _ good sc (Typing.logical t a b _ _ _ _) h = differ _ _ refl h
Typed-NotError r fn Γ _ good sc (Typing.infix_expr t a b rule _ _ e) h =
    (All-lookup GoodBinary _ rule r.binary good.binary e).0 h
Typed-NotError r fn Γ _ good sc (Typing.prefix_expr t a rule _ e) h =
    (All-lookup GoodUnary _ rule r.unary good.unary e).0 h
Typed-NotError r fn Γ _ good sc (Typing.member_access t a name rule _ e) h =
    (All-lookup GoodMember _ rule r.member_access good.member_access e).0 h
Typed-NotError r fn Γ _ good sc (Typing.method_call t a name args rule _ e _) h =
    (call_rule-Good r _ rule good e).0 h

module _ {w : World} {P : Resolved.Expr w → Type 0} where
  pub new_error_expr-Post :
      (t : Token) (errs : Errs) → errs ≢ [] → Ensures errs (Clear P) (new_error_expr t)
  unfolding new_error_expr
  new_error_expr-Post t [] h = absurd (h refl)
  new_error_expr-Post t (d ∷ ds) h =
      Post.post (Resolved.bad t) (d ∷ ds) (Grows-refl (d ∷ ds)) (λ e. absurd (h e))

  -- Reported, unless something was since the start, and no result.
  pub report_bad-Post :
      (before errs : Errs) (d : Diag.Diagnostic) (t : Token)
      → IsCheck d
      → Grows before errs
      → Ensures errs (Clear P) (report_first (length before) d >> give (Resolved.bad t))
  report_bad-Post before errs d t c g =
      then-Post _ _ (report_first-Post before errs d c g)
        (λ errs' g' r. give-Post (Resolved.bad t) errs' (λ e. absurd (r e)))

module _ {w : World} (x : Context w) (Γ : Scope) (good : GoodReg x.reg) where
  abbrev pub TypedHere : Resolved.Expr w → Errs → Type 0
  TypedHere = Clear (Typed x.reg x.curr_fn Γ)

  pub is_error-Reported :
      (v : Resolved.Expr w) (errs : Errs)
      → ScopeOk errs Γ
      → TypedHere v errs
      → is_error (expr_type v) ≡ true
      → errs ≢ []
  is_error-Reported v errs sc h e q =
      Typed-NotError x.reg x.curr_fn Γ v good (sc q) (h q)
        ((eq_iff (expr_type v) error_type_id).0 e)

  either_error-Reported :
      (a b : Resolved.Expr w) (errs : Errs)
      → ScopeOk errs Γ
      → TypedHere a errs
      → TypedHere b errs
      → (is_error (expr_type a) || is_error (expr_type b)) ≡ true
      → errs ≢ []
  either_error-Reported a b errs sc h k e = elim (Bool-cases (is_error (expr_type a))) [
    | inl p ↦ is_error-Reported a errs sc h p
    | inr p ↦ is_error-Reported b errs sc k (ground arith)
  ]

  -- A test for a type that is neither Bool nor the error's.
  pub bool_checked :
      (v : Resolved.Expr w)
      → GoodScope Γ
      → Typed x.reg x.curr_fn Γ v
      → (not (is_error (expr_type v)) && not (expr_type v == bool_id)) ≡ false
      → expr_type v ≡ bool_id
  bool_checked v sc d e =
      let no = Typed-NotError x.reg x.curr_fn Γ v good sc d in
      let n = eq_iff (expr_type v) error_type_id in
      let m = eq_iff (expr_type v) bool_id in ground arith

  resolve_logical-Typed :
      (t : Token) (a b : Resolved.Expr w) (errs : Errs)
      → ScopeOk errs Γ
      → TypedHere a errs
      → TypedHere b errs
      → Ensures errs TypedHere (resolve_logical t a b)
  unfolding resolve_logical
  resolve_logical-Typed t a b errs sc h k =
      then-Post _ _ (report_if-Post _ _ errs refl) (λ e1 g1 p1.
        then-Post _ _ (report_if-Post _ _ e1 refl) (λ e2 g2 p2. give-Post _ e2 (λ q.
          let q1 = Grows-nil e1 e2 g2 q in
          let q0 = Grows-nil errs e1 g1 q1 in
          Typing.logical t a b (h q0) (k q0) (bool_checked a (sc q0) (h q0) (p1 q1))
            (bool_checked b (sc q0) (k q0) (p2 q)))))

  resolve_binary-Typed :
      (t : Token) (a b : Resolved.Expr w) (before errs : Errs)
      → Grows before errs
      → ScopeOk errs Γ
      → TypedHere a errs
      → TypedHere b errs
      → Ensures errs TypedHere (resolve_binary x (length before) t a b)
  unfolding resolve_binary
  resolve_binary-Typed t a b before errs g sc h k =
      if-elim_eq (Ensures errs TypedHere) (is_error (expr_type a) || is_error (expr_type b))
        (λ e. new_error_expr-Post t errs (either_error-Reported a b errs sc h k e))
        (λ _. elim (Option-cases (lookup_binary x.reg t.type (expr_type a) (expr_type b))) [
          | inl n ↦ rw n (report_bad-Post before errs _ t refl g)
          | inr (rule, n) ↦
              rw n (give-Post _ errs (λ q. Typing.infix_expr t a b rule (h q) (k q) n))
        ])

  pub resolve_infix-Typed :
      (t : Token) (a b : Resolved.Expr w) (before errs : Errs)
      → Grows before errs
      → ScopeOk errs Γ
      → TypedHere a errs
      → TypedHere b errs
      → Ensures errs TypedHere (resolve_infix x (length before) t a b)
  unfolding resolve_infix
  resolve_infix-Typed t a b before errs g sc h k =
      if-elim (Ensures errs TypedHere) (t.type == and || t.type == or)
        (resolve_logical-Typed t a b errs sc h k) (resolve_binary-Typed t a b before errs g sc h k)

  pub resolve_prefix-Typed :
      (t : Token) (a : Resolved.Expr w) (before errs : Errs)
      → Grows before errs
      → ScopeOk errs Γ
      → TypedHere a errs
      → Ensures errs TypedHere (resolve_prefix x (length before) t a)
  unfolding resolve_prefix
  resolve_prefix-Typed t a before errs g sc h =
      if-elim_eq (Ensures errs TypedHere) (is_error (expr_type a))
        (λ e. new_error_expr-Post t errs (is_error-Reported a errs sc h e))
        (λ _. elim (Option-cases (lookup_unary x.reg t.type (expr_type a))) [
          | inl n ↦ rw n (report_bad-Post before errs _ t refl g)
          | inr (rule, n) ↦ rw n (give-Post _ errs (λ q. Typing.prefix_expr t a rule (h q) n))
        ])

  pub resolve_attribute-Typed :
      (t member : Token) (a : Resolved.Expr w) (before errs : Errs)
      → Grows before errs
      → ScopeOk errs Γ
      → TypedHere a errs
      → Ensures errs TypedHere (resolve_attribute x (length before) t member a)
  unfolding resolve_attribute
  resolve_attribute-Typed t member a before errs g sc h =
      if-elim_eq (Ensures errs TypedHere) (is_error (expr_type a))
        (λ e. new_error_expr-Post t errs (is_error-Reported a errs sc h e))
        (λ _. elim (Option-cases (lookup_member_access x.reg (expr_type a) member.literal)) [
          | inl n ↦ rw n (report_bad-Post before errs _ t refl g)
          | inr (rule, n) ↦
              rw n (give-Post _ errs (λ q. Typing.member_access t a member.literal rule (h q) n))
        ])

  pub resolve_index-Typed :
      (t : Token) (a : Resolved.Expr w) (before errs : Errs)
      → Grows before errs
      → ScopeOk errs Γ
      → TypedHere a errs
      → Ensures errs TypedHere (resolve_index (length before) t a)
  unfolding resolve_index
  resolve_index-Typed t a before errs g sc h =
      if-elim_eq (Ensures errs TypedHere) (is_error (expr_type a))
        (λ e. new_error_expr-Post t errs (is_error-Reported a errs sc h e))
        (λ _. report_bad-Post before errs _ t refl g)

  call_or_bad-Typed :
      (t member : Token) (a : Resolved.Expr w) (rule : CallRule w) (o : Option (Resolved.Args w))
      → Typed x.reg x.curr_fn Γ a
      → lookup_call x.reg (expr_type a) member.literal ≡ some rule
      → FoundArgs x.reg x.curr_fn Γ rule.args o
      → Typed x.reg x.curr_fn Γ (call_or_bad t member a rule o)
  call_or_bad-Typed t member a rule o h n (args, e, d) =
      rw e (Typing.method_call t a member.literal args rule h n d)

  pub resolve_method-Typed :
      (t member : Token) (args : List ParamRule → Check (Option (Resolved.Args w)))
      (a : Resolved.Expr w) (before errs : Errs)
      → Grows before errs
      → ScopeOk errs Γ
      → TypedHere a errs
      → ((ps : List ParamRule)
          → GoodParams ps
          → Ensures errs (Clear (FoundArgs x.reg x.curr_fn Γ ps)) (args ps))
      → Ensures errs TypedHere (resolve_method x (length before) t member args a)
  unfolding resolve_method lookup_call
  resolve_method-Typed t member args a before errs g sc h k =
      if-elim_eq (Ensures errs TypedHere) (is_error (expr_type a))
        (λ e. new_error_expr-Post t errs (is_error-Reported a errs sc h e))
        (λ _. elim (Option-cases (lookup_call x.reg (expr_type a) member.literal)) [
          | inl n ↦ rw n (report_bad-Post before errs _ t refl g)
          | inr (rule, n) ↦ rw n (
              bind-Post _ _ (k rule.args (call_rule-Good x.reg _ rule good n).1)
                (λ o errs' g' found. give-Post _ errs' (λ q.
                  call_or_bad-Typed t member a rule o (h (Grows-nil errs errs' g' q)) n (found q))))
        ])
