-- ===== src/Resolver/SlotTyped.antt =====
-- resolver/resolver.go: what `resolveKindDecl` leaves of the walk.
use tascript.Common.{
  ℕ, suc, ◌+◌, false, ◌||◌, Option, none, some, List, [], ◌∷◌, ◌++◌, Str, ◌≡◌, ◌≢◌, refl, sym, ap,
  subst, inl, inr, Bool-cases, Option-cases, if-elim_eq, ◌==◌, eq_iff, str_eq, length,
  length-append, arith,
}
use tascript.Token.{Token}
use tascript.Registry.Value.{TypeId, error_type_id, World}
use tascript.Registry.Rule.{
  InitializerRule, initializer_required, initializer_optional, initializer_forbidden, DeclKind,
  Registry,
}
use tascript.Registry.Register.{lookup_type, lookup_coerce, lookup_decl_kind}
use tascript.Registry.Good.{GoodReg}
use tascript.Resolved.{SlotHead, SlotDecl, expr_type}
use tascript.Resolved
use tascript.Ast
use tascript.Evaluator.Machine.{slots_of}
use tascript.Executable.Reach.{Numbered}
use tascript.Resolver.Scope.{Symbol, Scope, find, slot_symbol}
use tascript.Resolver.Check.{Errs, Context, is_error}
use tascript.Resolver.Decl.{
  Walk, SlotInit, top_context, check_initializer, declared_type, resolve_init, coerce_init,
  fit_init, type_refused, slot_head, slot_binding, add_slot, declare_slot, declare_kind,
  resolve_kind_decl,
}
use tascript.Resolver.Plain.{PlainInit}
use tascript.Resolver.Post.{
  Grows-trans, Grows-nil, Ensures, Clear, bind-Post, then-Post, give-Post, fail-Post,
  fail_with-Post, report-Post, report_if-Post, map-Post,
}
use tascript.Resolver.Typing.{Typed, Fits, GoodBinding, GoodScope, SlotNames}
use tascript.Resolver.Typing
use tascript.Resolver.ProgramTyping.{TypedInit, TypedDecl}
use tascript.Resolver.ProgramTyping
use tascript.Resolver.OperandTyped.{ScopeOk, ScopeOk-Grows, Typed-NotError, is_error-Reported}
use tascript.Resolver.ExprTyped.{Setting, resolve_expr-Typed}
use tascript.Resolver.Fields.{lookup_type-NotError}
use tascript.Resolver.DeclTyped.{Counted, WalkOk, WalkOk-Grows, declare-Ok, unless_taken-Ok}

abbrev DeclaredOk : Option Token → TypeId → Type 0
DeclaredOk none t = Unit
DeclaredOk (some _) t = t ≢ error_type_id

module _ {w : World} where
  -- A kind's rule allows the initializer, or its absence.
  abbrev InitAllowed : InitializerRule → Option (Ast.Expr w) → Type 0
  InitAllowed rule none = rule ≢ initializer_required
  InitAllowed rule (some _) = rule ≢ initializer_forbidden

  check_initializer-Post :
      (rule : InitializerRule) (kind : DeclKind) (name : Token) (e : Option (Ast.Expr w))
      (errs : Errs)
      → Ensures errs (Clear (λ _. InitAllowed rule e)) (check_initializer rule kind name e)
  unfolding check_initializer
  check_initializer-Post initializer_required kind name none errs =
      map-Post _ (report-Post _ errs refl) (λ _ errs' g r q. absurd (r q))
  check_initializer-Post initializer_forbidden kind name (some _) errs =
      map-Post _ (report-Post _ errs refl) (λ _ errs' g r q. absurd (r q))
  check_initializer-Post initializer_required kind name (some _) errs = give-Post _ errs (λ _ h. cc)
  check_initializer-Post initializer_forbidden kind name none errs = give-Post _ errs (λ _ h. cc)
  check_initializer-Post initializer_optional kind name none errs = give-Post _ errs (λ _ h. cc)
  check_initializer-Post initializer_optional kind name (some _) errs = give-Post _ errs (λ _ h. cc)

  declared_type-Post :
      (r : Registry w) (o : Option Token) (errs : Errs)
      → GoodReg r
      → Ensures errs (Clear (DeclaredOk o)) (declared_type r o)
  unfolding declared_type
  declared_type-Post r none errs good = give-Post _ errs (λ _. tt)
  declared_type-Post r (some t) errs good = elim (Option-cases (lookup_type r t.literal)) [
    | inl n ↦ rw (n, declared_type) (fail-Post _ _ errs refl)
    | inr (id, n) ↦
        rw (n, declared_type) (give-Post _ errs (λ _. lookup_type-NotError r t.literal id good n))
  ]

  module _ (x : Context w) (Γ : Scope) where
    -- An initializer, resolved.
    abbrev InitTyped : Option (Ast.Expr w) → Option (Resolved.Expr w) → Type 0
    InitTyped none none = Unit
    InitTyped (some _) (some v) = Typed x.reg x.curr_fn Γ v
    InitTyped _ _ = ⊥

    resolve_init-Post :
        (o : Option (Ast.Expr w)) (errs : Errs)
        → Setting x Γ
        → PlainInit o
        → ScopeOk errs Γ
        → Ensures errs (Clear (InitTyped o)) (resolve_init x Γ o)
    unfolding resolve_init
    resolve_init-Post none errs s p sc = give-Post _ errs (λ _. tt)
    resolve_init-Post (some e) errs s p sc =
        bind-Post _ _ (resolve_expr-Typed x Γ e errs s p sc) (λ v e1 g1 t. give-Post _ e1 t)

    -- The slot's type and its initializer, which fits it.
    abbrev FittedOk : Option (Ast.Expr w) → SlotInit w → Type 0
    FittedOk none (some (t, none)) = t ≢ error_type_id
    FittedOk (some _) (some (t, some v)) = (t ≢ error_type_id) × Fits x.reg x.curr_fn Γ t false v
    FittedOk _ _ = ⊥

    coerce_init-Post :
        (name : Token) (t : TypeId) (e : Ast.Expr w) (v : Resolved.Expr w) (errs : Errs)
        → GoodReg x.reg
        → ScopeOk errs Γ
        → Clear (Typed x.reg x.curr_fn Γ) v errs
        → (errs ≡ [] → t ≢ error_type_id)
        → Ensures errs (Clear (FittedOk (some e))) (coerce_init x.reg name t v)
    unfolding coerce_init
    coerce_init-Post name t e v errs good sc d ne =
        if-elim_eq (Ensures errs (Clear (FittedOk (some e))))
          (is_error (expr_type v) || is_error t || expr_type v == t)
          (λ c. give-Post _ errs (λ q.
            let n = eq_iff t error_type_id in
            let m = eq_iff (expr_type v) t in
            elim (Bool-cases (is_error (expr_type v))) [
              | inl i ↦ absurd (is_error-Reported x Γ good v errs sc d i q)
              | inr i ↦ elim (Bool-cases (is_error t)) [
                | inl j ↦ absurd (ne q (n.0 j))
                | inr j ↦ (ne q, Typing.same v (d q) (m.0 (ground arith)))
              ]
            ]))
          (λ _. elim (Option-cases (lookup_coerce x.reg (expr_type v) t)) [
            | inl n ↦ rw n (fail-Post _ _ errs refl)
            | inr (rule, n) ↦
                rw n (give-Post _ errs (λ q. (ne q, Typing.coerced v rule (d q) refl n)))
          ])

    fit_init-Post :
        (kind : DeclKind) (name : Token) (o : Option Token) (t : TypeId) (e : Option (Ast.Expr w))
        (v : Option (Resolved.Expr w)) (errs : Errs)
        → GoodReg x.reg
        → ScopeOk errs Γ
        → Clear (InitTyped e) v errs
        → (errs ≡ [] → DeclaredOk o t)
        → Ensures errs (Clear (FittedOk e)) (fit_init x.reg kind name o t v)
    unfolding fit_init
    fit_init-Post kind name (some _) t (some e) (some v) errs good sc d k =
        coerce_init-Post name t e v errs good sc d k
    fit_init-Post kind name (some _) t none (some v) errs good sc d k =
        map-Post _ (coerce_init-Post name t (Ast.bad name) v errs good sc (λ q. absurd (d q)) k)
          (λ a e' g f q. absurd (d (Grows-nil errs e' g q)))
    fit_init-Post kind name none t (some e) (some v) errs good sc d k =
        give-Post _ errs
          (λ q. (Typed-NotError x.reg x.curr_fn Γ v good (sc q) (d q), Typing.same v (d q) refl))
    fit_init-Post kind name none t none (some v) errs good sc d k =
        give-Post _ errs (λ q. absurd (d q))
    fit_init-Post kind name none t e none errs good sc d k = fail-Post _ _ errs refl
    fit_init-Post kind name (some _) t none none errs good sc d k = give-Post _ errs k
    fit_init-Post kind name (some _) t (some e) none errs good sc d k =
        give-Post _ errs (λ q. absurd (d q))

    TypedInit-Fitted :
        (rule : InitializerRule) (e : Option (Ast.Expr w)) (t : TypeId)
        (v : Option (Resolved.Expr w))
        → InitAllowed rule e
        → FittedOk e (some (t, v))
        → (t ≢ error_type_id) × TypedInit x.reg x.curr_fn Γ t rule v
    TypedInit-Fitted rule none t none a f = (f, ProgramTyping.no_init rule a f)
    TypedInit-Fitted rule none t (some v) a f = absurd f
    TypedInit-Fitted rule (some e) t none a f = absurd f
    TypedInit-Fitted rule (some e) t (some v) a f = (f.0, ProgramTyping.init rule v a f.1)

  slots_of-slot :
      (ds : List (Resolved.Decl w)) (s : SlotDecl w)
      → slots_of (ds ++ Resolved.slot_decl s ∷ []) ≡ slots_of ds ++ s ∷ []
  unfolding slots_of
  slots_of-slot [] s = refl
  slots_of-slot (Resolved.slot_decl c ∷ ds) s = ap (λ l. c ∷ l) (slots_of-slot ds s)
  slots_of-slot (Resolved.const_decl c ∷ ds) s = slots_of-slot ds s
  slots_of-slot (Resolved.input_decl c ∷ ds) s = slots_of-slot ds s
  slots_of-slot (Resolved.output_decl c ∷ ds) s = slots_of-slot ds s

  Numbered-append :
      (n : ℕ) (xs : List (SlotDecl w)) (s : SlotDecl w)
      → Numbered n xs
      → s.head.index ≡ n + length xs
      → Numbered n (xs ++ s ∷ [])
  Numbered-append n [] s h e = (omega arith, tt)
  Numbered-append n (x ∷ xs) s h e = (h.0, Numbered-append (suc n) xs s h.1 (omega arith))

  Counted-slot :
      (ds : List (Resolved.Decl w)) (s : SlotDecl w) (n : ℕ)
      → Counted ds n
      → s.head.index ≡ n
      → Counted (ds ++ Resolved.slot_decl s ∷ []) (suc n)
  Counted-slot ds s n c e =
      let more = length-append (slots_of ds) (s ∷ []) in
      let size = c.1 in
      subst (λ (l : List (SlotDecl w)). Numbered 0 l × (length l ≡ suc n))
        (sym (slots_of-slot ds s))
        (Numbered-append 0 (slots_of ds) s c.0 (omega arith), omega arith)

  module _ (r : Registry w) (Γ : Scope) where
    add_slot-Ok :
        (keyword : Str) (kind : DeclKind) (name : Token) (k : Walk w) (t : TypeId)
        (v : Option (Resolved.Expr w)) (errs : Errs)
        → WalkOk r Γ k errs
        → lookup_decl_kind k.reg keyword ≡ some kind
        → find (slot_symbol kind name.literal) k.scope ≡ none
        → (errs ≡ [] → (t ≢ error_type_id) × TypedInit k.reg [] k.scope t kind.initializer v)
        → (errs ≡ [] → type_refused kind t ≡ false)
        → WalkOk r Γ (add_slot kind name (slot_head kind name t k.slot_count) v k) errs
    add_slot-Ok keyword kind name k t v errs h found free init allowed =
        let s = slot_head kind name t k.slot_count in
        declare-Ok r Γ k (slot_symbol kind name.literal) (slot_binding kind s)
          (Resolved.slot_decl (record { head = s; init = v })) k.reg (suc k.slot_count) errs h
          h.good (λ _ n. cc) (λ q. ((init q).0, λ s' n. cc))
          (Counted-slot k.decls _ k.slot_count h.counted refl)
          (λ q.
            ProgramTyping.slot_decl keyword kind name t k.slot_count v found free (init q).1
              (allowed q))

    declare_slot-Ok :
        (keyword : Str) (kind : DeclKind) (name : Token) (k : Walk w) (e : Option (Ast.Expr w))
        (o : SlotInit w) (symbols : List Symbol) (errs : Errs)
        → WalkOk r Γ k errs
        → lookup_decl_kind k.reg keyword ≡ some kind
        → find (slot_symbol kind name.literal) k.scope ≡ none
        → (errs ≡ [] → InitAllowed kind.initializer e)
        → Clear (FittedOk (top_context symbols k) k.scope e) o errs
        → Ensures errs (WalkOk r Γ) (declare_slot kind name k o)
    unfolding declare_slot
    declare_slot-Ok keyword kind name k e none symbols errs h found free a f = give-Post k errs h
    declare_slot-Ok keyword kind name k e (some (t, v)) symbols errs h found free a f =
        then-Post _ _ (report_if-Post _ _ errs refl) (λ e1 g1 allowed.
          let old = Grows-nil errs e1 g1 in
          give-Post _ e1 (
            add_slot-Ok keyword kind name k t v e1 (WalkOk-Grows r Γ k errs e1 g1 h) found free
              (λ q.
                TypedInit-Fitted (top_context symbols k) k.scope kind.initializer e t v (a (old q))
                  (f (old q)))
              allowed))

    declare_kind-Ok :
        (symbols : List Symbol) (kind : DeclKind) (d : Ast.KindDecl w) (k : Walk w) (errs : Errs)
        → WalkOk r Γ k errs
        → PlainInit d.value
        → lookup_decl_kind k.reg d.keyword ≡ some kind
        → find (slot_symbol kind d.identifier.literal) k.scope ≡ none
        → Ensures errs (WalkOk r Γ) (declare_kind symbols kind d k)
    unfolding declare_kind
    declare_kind-Ok symbols kind d k errs h p found free =
        let x = top_context symbols k in
        let s : Setting x k.scope = record { good = h.good; names = h.names } in
        bind-Post _ _ (check_initializer-Post kind.initializer kind d.identifier d.value errs)
          (λ _ e1 g1 a. bind-Post _ _ (declared_type-Post k.reg d.type e1 h.good) (λ t e2 g2 b.
            let g02 = Grows-trans errs e1 e2 g1 g2 in
            let sc = ScopeOk-Grows errs e2 k.scope g02 h.scope in
            bind-Post _ _ (resolve_init-Post x k.scope d.value e2 s p sc) (λ v e3 g3 c.
              let sc3 = ScopeOk-Grows e2 e3 k.scope g3 sc in
              bind-Post _ _
                (fit_init-Post x k.scope kind d.identifier d.type t d.value v e3 h.good sc3 c
                  (λ q. b (Grows-nil e2 e3 g3 q)))
                (λ o e4 g4 f.
                  let g14 = Grows-trans e1 e2 e4 g2 (Grows-trans e2 e3 e4 g3 g4) in
                  declare_slot-Ok d.keyword kind d.identifier k d.value o symbols e4
                    (WalkOk-Grows r Γ k errs e4 (Grows-trans errs e1 e4 g1 g14) h) found free
                    (λ q. a (Grows-nil e1 e4 g14 q)) f))))

    pub resolve_kind_decl-Ok :
        (symbols : List Symbol) (d : Ast.KindDecl w) (k : Walk w) (errs : Errs)
        → WalkOk r Γ k errs
        → PlainInit d.value
        → Ensures errs (WalkOk r Γ) (resolve_kind_decl symbols d k)
    unfolding resolve_kind_decl
    resolve_kind_decl-Ok symbols d k errs h p =
        elim (Option-cases (lookup_decl_kind k.reg d.keyword)) [
          | inl n ↦
              rw (n, resolve_kind_decl)
                (fail_with-Post _ k errs refl (λ errs' g _. WalkOk-Grows r Γ k errs errs' g h))
          | inr (kind, n) ↦
              rw (n, resolve_kind_decl)
                (unless_taken-Ok r Γ d.token d.identifier (slot_symbol kind d.identifier.literal) k
                  _ errs h (λ free. declare_kind-Ok symbols kind d k errs h p n free))
        ]
