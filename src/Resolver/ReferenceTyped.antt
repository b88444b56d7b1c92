-- ===== src/Resolver/ReferenceTyped.antt =====
-- resolver/resolver.go: what references resolve to.
use tascript.Common.{
  if-elim_eq, arith, true, not, ◌&&◌, Option, none, some, [], ◌∷◌, Str, codes, ◌≡◌, ◌≢◌, refl, inl,
  inr, Option-cases, ◌==◌, str_eq, arith,
}
use tascript.Token.{contains, Token, token_type_eq}
use tascript.Registry.Value.{World}
use tascript.Resolved.{SlotHead, expr_type}
use tascript.Resolved
use tascript.Ast
use tascript.Resolver.Scope.{Binding, Scope, find, namespaced_symbol, is_readable}
use tascript.Resolver.Check.{Errs, Check, Context}
use tascript.Resolver.Operand.{
  resolve_slot_ref, ref_slot, resolve_bound, bound_value, resolve_ident, receiver, module_or,
  is_input, is_module,
}
use tascript.Resolver.Report.{add_use_before_declaration, add_undefined_ident, add_slot_undeclared}
use tascript.Resolver.Post.{choice-IsCheck, Ensures, Clear, give-Post, fail-Post}
use tascript.Registry.Good.{has_dot}
use tascript.Resolver.Typing.{Reads, Typed, TypedArgs, GoodBinding, GoodScope, SlotNames}
use tascript.Resolver.Typing

pub namespaced_symbol-has_dot : (word name : Str) → has_dot (namespaced_symbol word name) ≡ true
unfolding has_dot
namespaced_symbol-has_dot [] name = refl
namespaced_symbol-has_dot (c ∷ cs) name = ground (arith, namespaced_symbol-has_dot cs name)

module _ {w : World} (x : Context w) (Γ : Scope) where
  abbrev Here : Resolved.Expr w → Errs → Type 0
  Here = Clear (Typed x.reg x.curr_fn Γ)

  bound_value-Typed :
      (t : Token) (b : Binding) (errs : Errs)
      → find t.literal Γ ≡ some b
      → Reads x.curr_fn b
      → Ensures errs Here (bound_value t b)
  bound_value-Typed t b errs e reads = elim (Option-cases b.slot) [
    | inl n ↦ rw n (give-Post _ errs (λ _. Typing.ident t b e reads))
    | inr (s, n) ↦ rw n (give-Post _ errs (λ _. Typing.slot_ref t t.literal b s e n))
  ]

  resolve_bound-Typed :
      (t : Token) (b : Binding) (errs : Errs)
      → find t.literal Γ ≡ some b
      → Ensures errs Here (resolve_bound x t b)
  unfolding resolve_bound
  resolve_bound-Typed t b errs e =
      if-elim_eq (Ensures errs Here) (not (is_readable b.kind)) (λ _. fail-Post _ _ errs refl)
        (λ p.
          if-elim_eq (Ensures errs Here) (is_input b.kind && not (x.curr_fn == codes "Run"))
            (λ _. fail-Post _ _ errs refl)
            (λ q. bound_value-Typed t b errs e (Typing.variable (ground arith) q)))

  pub resolve_ident-Typed : (t : Token) (errs : Errs) → Ensures errs Here (resolve_ident x Γ t)
  unfolding resolve_ident
  resolve_ident-Typed t errs = elim (Option-cases (find t.literal Γ)) [
    | inl n ↦
        rw (n, resolve_ident)
          (fail-Post _ _ errs (
            choice-IsCheck (x.curr_fn == [] && contains t.literal x.declared_names)
              (add_use_before_declaration t) (add_undefined_ident t) refl refl))
    | inr (b, n) ↦ rw (n, resolve_ident) (resolve_bound-Typed t b errs n)
  ]

  ref_slot-Typed :
      (t : Token) (key : Str) (b : Binding) (o : Option SlotHead) (errs : Errs)
      → find key Γ ≡ some b
      → b.slot ≡ o
      → o ≢ none
      → Ensures errs Here (ref_slot t o)
  unfolding ref_slot
  ref_slot-Typed t key b none errs e k n = absurd (n refl)
  ref_slot-Typed t key b (some s) errs e k n = give-Post _ errs (λ _. Typing.slot_ref t key b s e k)

  pub resolve_slot_ref-Typed :
      (word member : Token) (errs : Errs)
      → SlotNames Γ
      → Ensures errs Here (resolve_slot_ref x Γ word member)
  unfolding resolve_slot_ref
  resolve_slot_ref-Typed word member errs names =
      let key = namespaced_symbol word.literal member.literal in
      elim (Option-cases (find key Γ)) [
        | inl n ↦
            rw (n, resolve_slot_ref)
              (fail-Post _ _ errs (
                choice-IsCheck (x.curr_fn == [] && contains key x.declared_names)
                  (add_use_before_declaration member) (add_slot_undeclared member word.literal) refl
                  refl))
        | inr (b, n) ↦
            rw (n, resolve_slot_ref)
              (ref_slot-Typed member key b b.slot errs n refl
                (names key b n (namespaced_symbol-has_dot word.literal member.literal)))
      ]

  module_or-Typed :
      (t : Token) (m : Check (Resolved.Expr w)) (o : Option Binding) (errs : Errs)
      → find t.literal Γ ≡ o
      → Ensures errs Here m
      → Ensures errs Here (module_or t m o)
  module_or-Typed t m none errs e h = h
  module_or-Typed t m (some b) errs e h =
      if-elim_eq (Ensures errs Here) (is_module b.kind)
        (λ p. give-Post _ errs (λ _. Typing.ident t b e (Typing.module_name p))) (λ _. h)

  pub receiver-Typed :
      (e : Ast.Expr w) (m : Check (Resolved.Expr w)) (errs : Errs)
      → Ensures errs Here m
      → Ensures errs Here (receiver Γ e m)
  unfolding receiver
  receiver-Typed (Ast.ident t) m errs h = module_or-Typed t m (find t.literal Γ) errs refl h
  receiver-Typed _ m errs h = h
