-- ===== src/Resolver/StmtTyped.antt =====
-- resolver/resolver.go: what `resolveStmt` leaves.
use tascript.Common.{
  Bool, true, false, not, ◌||◌, Option, none, some, List, [], ◌∷◌, Str, codes, ◌≡◌, ◌≢◌, refl,
  subst, inl, inr, Bool-cases, Option-cases, if-elim, if-elim_eq, ◌==◌, eq_iff, str_eq, arith, All,
  lookup,
}
use tascript.Token.{Token}
use tascript.Registry.Value.{TypeId, error_type_id, FieldDef, World}
use tascript.Registry.Rule.{Registry}
use tascript.Registry.Register.{lookup_coerce, lookup_type_def}
use tascript.Registry.Script.{emit_rule, emit_params, field_params, type_fields}
use tascript.Resolved.{SlotHead, expr_type}
use tascript.Resolved
use tascript.Ast
use tascript.Resolver.Scope.{Binding, Scope, find, namespaced_symbol}
use tascript.Resolver.Check.{Errs, Context, is_error}
use tascript.Resolver.Operand.{is_emit}
use tascript.Resolver.Stmt.{
  Target, target, no_target, target_name, target_slot, is_word, resolve_assign_target, assignment,
  assign_fitting, assign_target, is_output, emit_or_bad, emit_to, emit_bound, resolve_emit,
  plain_stmt, resolve_expr_stmt, resolve_assign,
}
use tascript.Resolver.Plain.{Plain, PlainExprs, PlainKwargs}
use tascript.Resolver.Post.{
  Grows-nil, Ensures, Clear, bind-Post, then-Post, give-Post, fail-Post, report_if-Post,
}
use tascript.Registry.Good.{All-lookup, GoodFields, GoodReg, GoodParams}
use tascript.Resolver.Typing.{Typed, Fits, TypedArgs, TypedStmt, GoodScope, SlotNames}
use tascript.Resolver.Typing
use tascript.Resolver.OperandTyped.{ScopeOk, ScopeOk-Grows, FoundArgs, is_error-Reported}
use tascript.Resolver.ReferenceTyped.{namespaced_symbol-has_dot}
use tascript.Resolver.ArgsTyped.{start-StateOk, check_args-Post}
use tascript.Resolver.ExprTyped.{
  Setting, resolve_expr-Typed, resolve_positional-Post, resolve_keyed-Post,
}

-- A target that the scope binds. One without a slot is bound under the name that its token has.
abbrev TargetOk : Scope → Target → Type 0
TargetOk Γ (no_target _) = ⊥
TargetOk Γ (target b t) = (key : Str) × (find key Γ ≡ some b) × (b.slot ≡ none → key ≡ t.literal)

field_params-GoodParams :
    (fs : List FieldDef) → All (λ f. f.type ≢ error_type_id) fs → GoodParams (field_params fs)
field_params-GoodParams [] h = tt
field_params-GoodParams (f ∷ fs) h = (h.0, field_params-GoodParams fs h.1)

emit_params-GoodParams :
    (fs : List FieldDef) (id : TypeId)
    → All (λ f. f.type ≢ error_type_id) fs
    → id ≢ error_type_id
    → GoodParams (emit_params fs id)
unfolding emit_params
emit_params-GoodParams [] id h k = (k, tt)
emit_params-GoodParams (f ∷ fs) id h k = field_params-GoodParams (f ∷ fs) h

type_fields-Ok :
    {w : World} (r : Registry w) (id : TypeId)
    → GoodReg r
    → All (λ f. f.type ≢ error_type_id) (type_fields r id)
unfolding type_fields lookup_type_def
type_fields-Ok r id good = elim (Option-cases (lookup id r.types)) [
  | inl n ↦ rw (n, type_fields, lookup_type_def) tt
  | inr (d, n) ↦
      rw (n, type_fields, lookup_type_def)
        (All-lookup (λ p. (p.0 ≢ error_type_id) × GoodFields p.1.fields) id d r.types good.types
          n).1
]

emit_rule-GoodParams :
    {w : World} (r : Registry w) (id : TypeId)
    → GoodReg r
    → id ≢ error_type_id
    → GoodParams (emit_rule r id)
unfolding emit_rule
emit_rule-GoodParams r id good k =
    emit_params-GoodParams (type_fields r id) id (type_fields-Ok r id good) k

not-not : (b : Bool) → not b ≡ false → b ≡ true
not-not true h = refl
not-not false h = cc

module _ {w : World} (x : Context w) (Γ : Scope) where
  abbrev Done : Resolved.Stmt w → Errs → Type 0
  Done = Clear (λ s. TypedStmt x.reg x.curr_fn Γ s Γ)

  target_name-Ok :
      (t : Token) (o : Option Binding) (errs : Errs)
      → find t.literal Γ ≡ o
      → Ensures errs (Clear (TargetOk Γ)) (target_name t o)
  target_name-Ok t none errs e = fail-Post _ _ errs refl
  target_name-Ok t (some b) errs e = give-Post _ errs (λ _. (t.literal, e, λ _. refl))

  target_slot-Ok :
      (t word member : Token) (o : Option Binding) (errs : Errs)
      → SlotNames Γ
      → find (namespaced_symbol word.literal member.literal) Γ ≡ o
      → Ensures errs (Clear (TargetOk Γ)) (target_slot t word member o)
  target_slot-Ok t word member none errs names e = fail-Post _ _ errs refl
  target_slot-Ok t word member (some b) errs names e = give-Post _ errs (λ _.
      let dotted = namespaced_symbol-has_dot word.literal member.literal in
      (_, e, λ n. absurd (names _ b e dotted n)))

  resolve_assign_target-Ok :
      (t : Token) (e : Ast.Expr w) (errs : Errs)
      → SlotNames Γ
      → Ensures errs (Clear (TargetOk Γ)) (resolve_assign_target Γ t e)
  unfolding resolve_assign_target
  resolve_assign_target-Ok t (Ast.ident name) errs names =
      target_name-Ok name (find name.literal Γ) errs refl
  resolve_assign_target-Ok t (Ast.member_access _ (Ast.ident word) member) errs names =
      if-elim (Ensures errs (Clear (TargetOk Γ))) (is_word (find word.literal Γ))
        (target_slot-Ok t word member _ errs names refl) (fail-Post _ _ errs refl)
  resolve_assign_target-Ok t _ errs names = fail-Post _ _ errs refl

  assignment-Typed :
      (t name : Token) (b : Binding) (v : Resolved.Expr w) (o : Option SlotHead)
      → b.slot ≡ o
      → TargetOk Γ (target b name)
      → b.assignable ≡ true
      → Fits x.reg x.curr_fn Γ b.type false v
      → TypedStmt x.reg x.curr_fn Γ (assignment t name b v o) Γ
  assignment-Typed t name b v none e k a f =
      Typing.assign_name t name.literal b v (subst (λ key. find key Γ ≡ some b) (k.2 e) k.1) a f
  assignment-Typed t name b v (some s) e k a f = Typing.assign_slot t k.0 b s v k.1 e a f

  assign_fitting-Typed :
      (t name : Token) (b : Binding) (v : Resolved.Expr w) (errs : Errs)
      → Clear (Typed x.reg x.curr_fn Γ) v errs
      → (errs ≡ [] → TargetOk Γ (target b name))
      → b.assignable ≡ true
      → Ensures errs Done (assign_fitting x t name b v)
  unfolding assign_fitting
  assign_fitting-Typed t name b v errs d k a =
      if-elim_eq (Ensures errs Done) (expr_type v == b.type)
        (λ e. give-Post _ errs (λ q.
          assignment-Typed t name b v b.slot refl (k q) a
            (Typing.same v (d q) ((eq_iff (expr_type v) b.type).0 e))))
        (λ _. elim (Option-cases (lookup_coerce x.reg (expr_type v) b.type)) [
          | inl n ↦ rw n (fail-Post _ _ errs refl)
          | inr (rule, n) ↦ rw n (
              give-Post _ errs (λ q.
                assignment-Typed t name b _ b.slot refl (k q) a
                  (Typing.coerced v rule (d q) refl n)))
        ])

  assign_target-Typed :
      (t : Token) (v : Resolved.Expr w) (o : Target) (errs : Errs)
      → GoodReg x.reg
      → ScopeOk errs Γ
      → Clear (Typed x.reg x.curr_fn Γ) v errs
      → Clear (TargetOk Γ) o errs
      → Ensures errs Done (assign_target x t v o)
  unfolding assign_target
  assign_target-Typed t v (no_target at) errs good sc d k = give-Post _ errs (λ q. absurd (k q))
  assign_target-Typed t v (target b name) errs good sc d k =
      if-elim_eq (Ensures errs Done) (not b.assignable) (λ _. fail-Post _ _ errs refl)
        (λ a.
          if-elim_eq (Ensures errs Done) (is_error (expr_type v) || is_error b.type)
            (λ e. give-Post _ errs (λ q.
              let target_ok = (sc q (k q).0 b (k q).1).0 in
              let n = eq_iff b.type error_type_id in
              elim (Bool-cases (is_error (expr_type v))) [
                | inl i ↦ absurd (is_error-Reported x Γ good v errs sc d i q)
                | inr i ↦ absurd (target_ok (n.0 (ground arith)))
              ]))
            (λ _. assign_fitting-Typed t name b v errs d k (ground arith)))

  pub resolve_assign-Typed :
      (t : Token) (to e : Ast.Expr w) (errs : Errs)
      → Setting x Γ
      → Plain e
      → ScopeOk errs Γ
      → Ensures errs Done (resolve_assign x Γ t to e)
  unfolding resolve_assign
  resolve_assign-Typed t to e errs s p sc =
      bind-Post _ _ (resolve_expr-Typed x Γ e errs s p sc) (λ v e1 g1 d.
        bind-Post _ _ (resolve_assign_target-Ok t to e1 s.names) (λ o e2 g2 k.
          assign_target-Typed t v o e2 s.good
            (ScopeOk-Grows e1 e2 Γ g2 (ScopeOk-Grows errs e1 Γ g1 sc))
            (λ q. d (Grows-nil e1 e2 g2 q)) k))

  emit_or_bad-Typed :
      (t name : Token) (b : Binding) (o : Option (Resolved.Args w))
      → find name.literal Γ ≡ some b
      → is_output b.kind ≡ true
      → (x.curr_fn == codes "Run") ≡ true
      → FoundArgs x.reg x.curr_fn Γ (emit_rule x.reg b.type) o
      → TypedStmt x.reg x.curr_fn Γ (emit_or_bad t name b.type o) Γ
  emit_or_bad-Typed t name b o e k run (args, q, d) =
      rw q (Typing.emit t name.literal b args e k run d)

  emit_to-Typed :
      (t name : Token) (args : Ast.Exprs w) (named : Ast.Kwargs w) (b : Binding) (errs : Errs)
      → Setting x Γ
      → PlainExprs args
      → PlainKwargs named
      → ScopeOk errs Γ
      → find name.literal Γ ≡ some b
      → Ensures errs Done (emit_to x Γ t name args named b)
  unfolding emit_to
  emit_to-Typed t name args named b errs s p pk sc e =
      if-elim_eq (Ensures errs Done) (not (is_output b.kind)) (λ _. fail-Post _ _ errs refl)
        (λ out. then-Post _ _ (report_if-Post _ _ errs refl) (λ e1 g1 run.
          let params = λ (q : e1 ≡ []).
            emit_rule-GoodParams x.reg b.type s.good (sc (Grows-nil errs e1 g1 q) _ b e).0 in
          let sc1 = ScopeOk-Grows errs e1 Γ g1 sc in
          bind-Post _ _
            (check_args-Post x Γ t _ (emit_rule x.reg b.type) 1 _ _ e1
              (λ count.
                resolve_positional-Post x Γ args _ _ 0 _ e1 s p sc1 params refl (omega arith)
                  (λ _. start-StateOk x Γ _))
              (λ st e2 g2 s2.
                resolve_keyed-Post x Γ named _ st e2 s pk (ScopeOk-Grows e1 e2 Γ g2 sc1)
                  (λ q. params (Grows-nil e1 e2 g2 q)) s2))
            (λ o e2 g2 found. give-Post _ e2 (λ q.
              emit_or_bad-Typed t name b o e (ground arith) (not-not _ (run (Grows-nil e1 e2 g2 q)))
                (found q)))))

  emit_bound-Typed :
      (t name : Token) (args : Ast.Exprs w) (named : Ast.Kwargs w) (o : Option Binding)
      (errs : Errs)
      → Setting x Γ
      → PlainExprs args
      → PlainKwargs named
      → ScopeOk errs Γ
      → find name.literal Γ ≡ o
      → Ensures errs Done (emit_bound x Γ t name args named o)
  unfolding emit_bound
  emit_bound-Typed t name args named none errs s p pk sc e = fail-Post _ _ errs refl
  emit_bound-Typed t name args named (some b) errs s p pk sc e =
      emit_to-Typed t name args named b errs s p pk sc e

  resolve_emit-Typed :
      (t : Token) (args : Ast.Exprs w) (named : Ast.Kwargs w) (errs : Errs)
      → Setting x Γ
      → PlainExprs args
      → PlainKwargs named
      → ScopeOk errs Γ
      → Ensures errs Done (resolve_emit x Γ t args named)
  unfolding resolve_emit PlainExprs
  resolve_emit-Typed t (Ast.expr (Ast.ident name) args) named errs s p pk sc =
      emit_bound-Typed t name args named _ errs s p.1 pk sc refl
  resolve_emit-Typed t _ named errs s p pk sc = fail-Post _ _ errs refl

  plain_stmt-Typed :
      (t : Token) (e : Ast.Expr w) (errs : Errs)
      → Setting x Γ
      → Plain e
      → ScopeOk errs Γ
      → Ensures errs Done (plain_stmt x Γ t e)
  unfolding plain_stmt
  plain_stmt-Typed t e errs s p sc =
      bind-Post _ _ (resolve_expr-Typed x Γ e errs s p sc)
        (λ v e1 g1 d. give-Post _ e1 (λ q. Typing.expr_stmt t v (d q)))

  pub resolve_expr_stmt-Typed :
      (t : Token) (e : Ast.Expr w) (errs : Errs)
      → Setting x Γ
      → Plain e
      → ScopeOk errs Γ
      → Ensures errs Done (resolve_expr_stmt x Γ t e)
  unfolding resolve_expr_stmt Plain
  resolve_expr_stmt-Typed t (Ast.call at (Ast.ident callee) args named) errs s p sc =
      if-elim (Ensures errs Done) (is_emit callee)
        (resolve_emit-Typed at args named errs s p.1.0 p.1.1 sc)
        (plain_stmt-Typed t (Ast.call at (Ast.ident callee) args named) errs s p sc)
  resolve_expr_stmt-Typed t e errs s p sc = plain_stmt-Typed t e errs s p sc
