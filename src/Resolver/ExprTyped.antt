-- ===== src/Resolver/ExprTyped.antt =====
-- resolver/resolver.go: what `resolveExpr` leaves.
use tascript.Common.{
  ℕ, suc, ◌≤◌, List, [], ◌∷◌, ◌≡◌, refl, length, drop, arith, Option-cases, inl, inr,
}
use tascript.Registry.Value.{World}
use tascript.Registry.Rule.{ParamRule}
use tascript.Ast
use tascript.Resolver.Scope.{Scope}
use tascript.Resolver.Check.{Errs, Context}
use tascript.Resolver.Operand.{decl_word}
use tascript.Resolver.Args.{ArgState, count_exprs, param_index}
use tascript.Resolver.Expr.{resolve_expr, resolve_positional, resolve_keyed}
use tascript.Resolver.Plain.{Plain, PlainExprs, PlainKwargs}
use tascript.Resolver.Operand.{is_emit}
use tascript.Resolver.Report.{add_emit_not_expression, add_undefined_func}
use tascript.Resolver.Post.{
  choice-IsCheck, Grows-trans, Grows-nil, Ensures, Clear, bind-Post, count-Post, give-Post,
  fail-Post,
}
use tascript.Registry.Good.{GoodReg, GoodParams}
use tascript.Resolver.Typing.{Typed, SlotNames}
use tascript.Resolver.Typing
use tascript.Resolver.OperandTyped.{
  ScopeOk, ScopeOk-Grows, resolve_infix-Typed, resolve_prefix-Typed, resolve_attribute-Typed,
  resolve_index-Typed, resolve_method-Typed,
}
use tascript.Resolver.ReferenceTyped.{resolve_ident-Typed, resolve_slot_ref-Typed, receiver-Typed}
use tascript.Resolver.ArgsTyped.{
  StateOk, start-StateOk, drop-get_elem?, check_args-Post, put-StateOk, keyed_arg-Post,
}

-- What stays the same while expressions are resolved: the registry's rules and the scope are good.
pub record Setting {w : World} (x : Context w) (Γ : Scope) : Type 0 where
  pub good : GoodReg x.reg
  pub names : SlotNames Γ

mutual
  unfolding resolve_expr resolve_positional resolve_keyed Plain PlainExprs PlainKwargs

  pub resolve_expr-Typed :
      {w : World} (x : Context w) (Γ : Scope) (e : Ast.Expr w) (errs : Errs)
      → Setting x Γ
      → Plain e
      → ScopeOk errs Γ
      → Ensures errs (Clear (Typed x.reg x.curr_fn Γ)) (resolve_expr x Γ e)
  resolve_expr-Typed x Γ (Ast.bad t) errs k p sc = absurd p
  resolve_expr-Typed x Γ (Ast.ident t) errs k p sc = resolve_ident-Typed x Γ t errs
  resolve_expr-Typed x Γ (Ast.integer t n) errs k p sc = give-Post _ errs (λ _. Typing.integer t n)
  resolve_expr-Typed x Γ (Ast.float t v) errs k p sc = give-Post _ errs (λ _. Typing.float t v)
  resolve_expr-Typed x Γ (Ast.string t s) errs k p sc = give-Post _ errs (λ _. Typing.string t s)
  resolve_expr-Typed x Γ (Ast.boolean t b) errs k p sc = give-Post _ errs (λ _. Typing.boolean t b)
  resolve_expr-Typed x Γ (Ast.infix_expr t a b) errs k p sc = count-Post _ (
      bind-Post _ _ (resolve_expr-Typed x Γ a errs k p.0 sc) (λ l e1 g1 h1.
        let sc1 = ScopeOk-Grows errs e1 Γ g1 sc in
        bind-Post _ _ (resolve_expr-Typed x Γ b e1 k p.1 sc1) (λ r e2 g2 h2.
          resolve_infix-Typed x Γ k.good t l r errs e2 (Grows-trans errs e1 e2 g1 g2)
            (ScopeOk-Grows e1 e2 Γ g2 sc1) (λ q. h1 (Grows-nil e1 e2 g2 q)) h2)))
  resolve_expr-Typed x Γ (Ast.prefix_expr t a) errs k p sc = count-Post _ (
      bind-Post _ _ (resolve_expr-Typed x Γ a errs k p sc) (λ l e1 g1 h1.
        resolve_prefix-Typed x Γ k.good t l errs e1 g1 (ScopeOk-Grows errs e1 Γ g1 sc) h1))
  resolve_expr-Typed x Γ (Ast.member_access t a member) errs k p sc =
      elim (Option-cases (decl_word Γ a)) [
        | inl n ↦
            rw (n, resolve_expr)
              (count-Post _ (
                bind-Post _ _ (receiver-Typed x Γ a _ errs (resolve_expr-Typed x Γ a errs k p sc))
                  (λ l e1 g1 h1.
                    resolve_attribute-Typed x Γ k.good t member l errs e1 g1
                      (ScopeOk-Grows errs e1 Γ g1 sc) h1)))
        | inr (word, n) ↦ rw (n, resolve_expr) (resolve_slot_ref-Typed x Γ word member errs k.names)
      ]
  resolve_expr-Typed x Γ (Ast.index_expr t a b) errs k p sc = count-Post _ (
      bind-Post _ _ (resolve_expr-Typed x Γ a errs k p.0 sc) (λ l e1 g1 h1.
        let sc1 = ScopeOk-Grows errs e1 Γ g1 sc in
        bind-Post _ _ (resolve_expr-Typed x Γ b e1 k p.1 sc1) (λ r e2 g2 h2.
          resolve_index-Typed x Γ k.good t l errs e2 (Grows-trans errs e1 e2 g1 g2)
            (ScopeOk-Grows e1 e2 Γ g2 sc1) (λ q. h1 (Grows-nil e1 e2 g2 q)))))
  resolve_expr-Typed x Γ (Ast.call t (Ast.member_access _ a member) args named) errs k p sc =
      count-Post _ (
        bind-Post _ _ (receiver-Typed x Γ a _ errs (resolve_expr-Typed x Γ a errs k p.0 sc))
          (λ l e1 g1 h1.
            let sc1 = ScopeOk-Grows errs e1 Γ g1 sc in
            resolve_method-Typed x Γ k.good t member _ l errs e1 g1 sc1 h1 (λ ps good.
              check_args-Post x Γ t _ ps 0 _ _ e1
                (λ count.
                  resolve_positional-Post x Γ args ps ps 0 _ e1 k p.1.0 sc1 (λ _. good) refl
                    (omega arith) (λ _. start-StateOk x Γ ps))
                (λ st e2 g2 s2.
                  resolve_keyed-Post x Γ named ps st e2 k p.1.1 (ScopeOk-Grows e1 e2 Γ g2 sc1)
                    (λ _. good) s2))))
  resolve_expr-Typed x Γ (Ast.call t (Ast.ident callee) args named) errs k p sc =
      fail-Post _ _ errs (
        choice-IsCheck (is_emit callee) (add_emit_not_expression callee) (add_undefined_func callee)
          refl refl)
  resolve_expr-Typed x Γ (Ast.call t callee args named) errs k p sc = fail-Post _ _ errs refl

  pub resolve_positional-Post :
      {w : World} (x : Context w) (Γ : Scope) (es : Ast.Exprs w) (all ps : List ParamRule) (i : ℕ)
      (st : ArgState w) (errs : Errs)
      → Setting x Γ
      → PlainExprs es
      → ScopeOk errs Γ
      → (errs ≡ [] → GoodParams all)
      → drop i all ≡ ps
      → count_exprs es ≤ length ps
      → Clear (StateOk x Γ all) st errs
      → Ensures errs (Clear (StateOk x Γ all)) (resolve_positional x Γ es ps i st)
  resolve_positional-Post x Γ Ast.no_exprs all ps i st errs k p sc good d le s = give-Post st errs s
  resolve_positional-Post x Γ (Ast.expr e es) all [] i st errs k p sc good d le s =
      absurd (omega arith)
  resolve_positional-Post x Γ (Ast.expr e es) all (r ∷ rs) i st errs k p sc good d le s =
      let at = drop-get_elem? all i r rs d in
      bind-Post _ _ (resolve_expr-Typed x Γ e errs k p.0 sc) (λ v e1 g1 h1.
        let old = Grows-nil errs e1 g1 in
        let sc1 = ScopeOk-Grows errs e1 Γ g1 sc in
        bind-Post _ _
          (put-StateOk x Γ k.good all st i r (Ast.tok e) (Ast.tok e) v e1 sc1 (λ q. good (old q))
            at.0 (λ q. s (old q)) h1)
          (λ c e2 g2 s2.
            resolve_positional-Post x Γ es all rs (suc i) _ e2 k p.1 (ScopeOk-Grows e1 e2 Γ g2 sc1)
              (λ q. good (old (Grows-nil e1 e2 g2 q))) at.1 (omega arith) s2))

  pub resolve_keyed-Post :
      {w : World} (x : Context w) (Γ : Scope) (ks : Ast.Kwargs w) (all : List ParamRule)
      (st : ArgState w) (errs : Errs)
      → Setting x Γ
      → PlainKwargs ks
      → ScopeOk errs Γ
      → (errs ≡ [] → GoodParams all)
      → Clear (StateOk x Γ all) st errs
      → Ensures errs (Clear (StateOk x Γ all)) (resolve_keyed x Γ ks all st)
  resolve_keyed-Post x Γ Ast.no_kwargs all st errs k p sc good s = give-Post st errs s
  resolve_keyed-Post x Γ (Ast.kwarg t key e ks) all st errs k p sc good s =
      bind-Post _ _
        (keyed_arg-Post x Γ k.good all t key _ st (param_index 0 key.literal all) errs refl sc good
          s (resolve_expr-Typed x Γ e errs k p.0 sc))
        (λ st' e1 g1 s1.
          resolve_keyed-Post x Γ ks all st' e1 k p.1 (ScopeOk-Grows errs e1 Γ g1 sc)
            (λ q. good (Grows-nil errs e1 g1 q)) s1)
