-- ===== src/Resolver/BlockTyped.antt =====
-- resolver/resolver.go: what the resolution of statements and blocks leaves, by induction on them.
use tascript.Common.{false, Option, none, some, [], ◌≡◌, ◌≢◌, refl, sym, ◌∙◌, str_eq}
use tascript.Token.{Token}
use tascript.Registry.Value.{error_type_id, World}
use tascript.Resolved.{SlotHead, expr_type}
use tascript.Resolved
use tascript.Ast
use tascript.Resolver.Scope.{Binding, Scope, find, bind, enclosed}
use tascript.Resolver.Check.{Errs, Check, Context}
use tascript.Resolver.Stmt.{resolve_let, let_binding}
use tascript.Resolver.Plain.{Plain}
use tascript.Resolver.Scope.{is_reserved}
use tascript.Resolver.Report.{add_reserved_name, add_duplicate_declaration}
use tascript.Resolver.Post.{
  choice-IsCheck, Grows-nil, Ensures, Clear, bind-Post, then-Post, give-Post, report-Post,
  report_if-Post,
}
use tascript.Resolver.Typing.{Typed, Fits, TypedArgs, TypedStmt, GoodScope, SlotNames}
use tascript.Resolver.Typing
use tascript.Resolver.OperandTyped.{ScopeOk, ScopeOk-Grows, Typed-NotError}
use tascript.Resolver.ExprTyped.{Setting, resolve_expr-Typed}
use tascript.Resolver.Stmt.{resolve_stmt, resolve_stmts, resolve_else, keep_scope}
use tascript.Resolver.Plain.{PlainStmt, PlainStmts, PlainElse}
use tascript.Resolver.Typing.{GoodBinding, TypedStmts, TypedElse}
use tascript.Registry.Good.{has_dot}
use tascript.Resolver.ScopeLaws.{
  enclosed-GoodScope, enclosed-SlotNames, bind-GoodScope, bind-SlotNames,
}
use tascript.Resolver.OperandTyped.{bool_checked}
use tascript.Resolver.StmtTyped.{resolve_expr_stmt-Typed, resolve_assign-Typed}

-- A statement and the scope that it leaves, which is as the one before it.
abbrev pub Leaves :
    {w : World} {A : Type 0} → Context w → (A → Scope → Type 0) → A × Scope → Errs → Type 0
Leaves x T (a, Γ') errs = SlotNames Γ' × (ScopeOk errs Γ' × (errs ≡ [] → T a Γ'))

abbrev enter : {w : World} (x : Context w) (Γ : Scope) → Setting x Γ → Setting x (enclosed Γ)
enter x Γ s = record { good = s.good; names = enclosed-SlotNames Γ s.names }

abbrev go_on :
    {w : World} (x : Context w) (Γ Γ' : Scope) → Setting x Γ → SlotNames Γ' → Setting x Γ'
go_on x Γ Γ' s names = record { good = s.good; names = names }

pub value_binding-Good : (b : Binding) → b.type ≢ error_type_id → b.slot ≡ none → GoodBinding b
value_binding-Good b h n = (h, λ s e. absurd (none_some b.slot s n e))
  where
    none_some : (o : Option SlotHead) (s : SlotHead) → o ≡ none → o ≡ some s → ⊥
    none_some none s n e = cc
    none_some (some t) s n e = cc

module _ {w : World} (x : Context w) (Γ : Scope) where
  abbrev Here : Resolved.Stmt w × Scope → Errs → Type 0
  Here = Leaves x (TypedStmt x.reg x.curr_fn Γ)

  let-Leaves :
      (t name : Token) (v : Resolved.Expr w) (errs : Errs)
      → Setting x Γ
      → ScopeOk errs Γ
      → has_dot name.literal ≡ false
      → find name.literal Γ ≡ none
      → Clear (Typed x.reg x.curr_fn Γ) v errs
      → Here
          (
            Resolved.let_stmt t name.literal v (expr_type v),
            bind name.literal (let_binding (expr_type v)) Γ,
          )
          errs
  let-Leaves t name v errs s sc dot n d = (
    bind-SlotNames name.literal _ Γ s.names (λ h. let both = sym h ∙ dot in cc),
    (
      λ q. bind-GoodScope name.literal _ Γ (sc q) (
          value_binding-Good (let_binding (expr_type v))
            (Typed-NotError x.reg x.curr_fn Γ v s.good (sc q) (d q)) refl),
      λ q. Typing.let_stmt t name.literal v n (d q),
    ),
  )

  resolve_let-Typed :
      (t name : Token) (e : Ast.Expr w) (o : Option Binding) (errs : Errs)
      → Setting x Γ
      → Plain e
      → has_dot name.literal ≡ false
      → ScopeOk errs Γ
      → find name.literal Γ ≡ o
      → Ensures errs Here (resolve_let x Γ t name e o)
  unfolding resolve_let
  resolve_let-Typed t name e (some b) errs s p dot sc n =
      then-Post _ _
        (report-Post _ errs (
          choice-IsCheck (is_reserved b.kind) (add_reserved_name name b.kind)
            (add_duplicate_declaration t name) refl refl))
        (λ e1 g1 r.
          let sc1 = ScopeOk-Grows errs e1 Γ g1 sc in
          bind-Post _ _ (resolve_expr-Typed x Γ e e1 s p sc1) (λ v e2 g2 d.
            give-Post _ e2
              (s.names, (ScopeOk-Grows e1 e2 Γ g2 sc1, λ q. absurd (r (Grows-nil e1 e2 g2 q))))))
  resolve_let-Typed t name e none errs s p dot sc n =
      bind-Post _ _ (resolve_expr-Typed x Γ e errs s p sc) (λ v e1 g1 d.
        give-Post _ e1 (let-Leaves t name v e1 s (ScopeOk-Grows errs e1 Γ g1 sc) dot n d))

  keep_scope-Typed :
      (m : Check (Resolved.Stmt w)) (errs : Errs)
      → Setting x Γ
      → ScopeOk errs Γ
      → Ensures errs (Clear (λ a. TypedStmt x.reg x.curr_fn Γ a Γ)) m
      → Ensures errs Here (keep_scope Γ m)
  keep_scope-Typed m errs s sc h =
      bind-Post _ _ h (λ a e1 g1 d. give-Post _ e1 (s.names, (ScopeOk-Grows errs e1 Γ g1 sc, d)))

mutual
  unfolding resolve_stmt resolve_stmts resolve_else PlainStmt PlainStmts PlainElse

  pub resolve_stmt-Typed :
      {w : World} (x : Context w) (Γ : Scope) (a : Ast.Stmt w) (errs : Errs)
      → Setting x Γ
      → PlainStmt a
      → ScopeOk errs Γ
      → Ensures errs (Leaves x (TypedStmt x.reg x.curr_fn Γ)) (resolve_stmt x Γ a)
  resolve_stmt-Typed x Γ (Ast.expr_stmt t e) errs s p sc =
      keep_scope-Typed x Γ _ errs s sc (resolve_expr_stmt-Typed x Γ t e errs s p sc)
  resolve_stmt-Typed x Γ (Ast.let_stmt t name e) errs s p sc =
      resolve_let-Typed x Γ t name e _ errs s p.1 p.0 sc refl
  resolve_stmt-Typed x Γ (Ast.assign_stmt t to e) errs s p sc =
      keep_scope-Typed x Γ _ errs s sc (resolve_assign-Typed x Γ t to e errs s p.1 sc)
  resolve_stmt-Typed x Γ (Ast.block t ss) errs s p sc =
      bind-Post _ _
        (resolve_stmts-Typed x (enclosed Γ) ss errs (enter x Γ s) p
          (λ q. enclosed-GoodScope Γ (sc q)))
        (λ a e1 g1 d.
          give-Post _ e1 (s.names, (ScopeOk-Grows errs e1 Γ g1 sc, λ q. Typing.block t a (d q))))
  resolve_stmt-Typed x Γ (Ast.if_stmt t e at ss els) errs s p sc =
      bind-Post _ _ (resolve_expr-Typed x Γ e errs s p.0 sc) (λ c e1 g1 d.
        let sc1 = ScopeOk-Grows errs e1 Γ g1 sc in
        then-Post _ _ (report_if-Post _ _ e1 refl) (λ e2 g2 b.
          let sc2 = ScopeOk-Grows e1 e2 Γ g2 sc1 in
          bind-Post _ _
            (resolve_stmts-Typed x (enclosed Γ) ss e2 (enter x Γ s) p.1.0
              (λ q. enclosed-GoodScope Γ (sc2 q)))
            (λ body e3 g3 k.
              let sc3 = ScopeOk-Grows e2 e3 Γ g3 sc2 in
              bind-Post _ _ (resolve_else-Typed x Γ els e3 s p.1.1 sc3) (λ r e4 g4 l.
                give-Post _ e4 (
                  l.0,
                  (
                    l.1.0,
                    λ q.
                        let q3 = Grows-nil e3 e4 g4 q in
                        let q2 = Grows-nil e2 e3 g3 q3 in
                        let q1 = Grows-nil e1 e2 g2 q2 in
                        Typing.if_stmt t at c body r.0 (d q1)
                          (bool_checked x Γ s.good c (sc1 q1) (d q1) (b q2)) (k q3) (l.1.1 q),
                  ),
                )))))
  resolve_stmt-Typed x Γ (Ast.bad_stmt _ _) errs s p sc = absurd p

  pub resolve_stmts-Typed :
      {w : World} (x : Context w) (Γ : Scope) (more : Ast.Stmts w) (errs : Errs)
      → Setting x Γ
      → PlainStmts more
      → ScopeOk errs Γ
      → Ensures errs (Clear (TypedStmts x.reg x.curr_fn Γ)) (resolve_stmts x Γ more)
  resolve_stmts-Typed x Γ Ast.done errs s p sc = give-Post _ errs (λ _. Typing.done)
  resolve_stmts-Typed x Γ (Ast.then_do a more) errs s p sc =
      bind-Post _ _ (resolve_stmt-Typed x Γ a errs s p.0 sc) (λ r e1 g1 h.
        bind-Post _ _ (resolve_stmts-Typed x r.1 more e1 (go_on x Γ r.1 s h.0) p.1 h.1.0)
          (λ rest e2 g2 k.
            give-Post _ e2 (λ q. Typing.then_do r.0 rest (h.1.1 (Grows-nil e1 e2 g2 q)) (k q))))

  pub resolve_else-Typed :
      {w : World} (x : Context w) (Γ : Scope) (els : Ast.Else w) (errs : Errs)
      → Setting x Γ
      → PlainElse els
      → ScopeOk errs Γ
      → Ensures errs (Leaves x (TypedElse x.reg x.curr_fn Γ)) (resolve_else x Γ els)
  resolve_else-Typed x Γ Ast.no_else errs s p sc =
      give-Post _ errs (s.names, (sc, λ _. Typing.no_else))
  resolve_else-Typed x Γ (Ast.otherwise a) errs s p sc =
      bind-Post _ _ (resolve_stmt-Typed x Γ a errs s p sc)
        (λ r e1 g1 h. give-Post _ e1 (h.0, (h.1.0, λ q. Typing.otherwise r.0 (h.1.1 q))))
