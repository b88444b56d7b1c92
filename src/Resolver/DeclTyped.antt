-- ===== src/Resolver/DeclTyped.antt =====
-- resolver/resolver.go: what the declarations of constants and ports leave of the walk.
use tascript.Common.{
  ℕ, true, false, none, List, [], ◌∷◌, ◌++◌, Str, codes, ◌≡◌, ◌≢◌, refl, sym, ◌∙◌, ap, subst, inl,
  inr, Option-cases, length,
}
use tascript.Token.{Token}
use tascript.Registry.Value.{TypeId, World}
use tascript.Registry.Rule.{Registry}
use tascript.Registry.Good.{GoodReg, has_dot}
use tascript.Resolved.{SlotHead, SlotDecl, expr_type}
use tascript.Resolved
use tascript.Ast
use tascript.Evaluator.Machine.{slots_of}
use tascript.Executable.Reach.{Numbered}
use tascript.Resolver.Scope.{
  Symbol, Binding, BindingKind, kind_const, kind_input, kind_output, plain_binding, Scope, find,
  bind,
}
use tascript.Resolver.Check.{Errs, Check}
use tascript.Resolver.Decl.{
  Walk, unless_taken, port, declare_port, resolve_input, resolve_output, top_context, declare_const,
  resolve_const, const,
}
use tascript.Resolver.Plain.{PlainDecl, HasType}
use tascript.Resolver.Scope.{is_reserved}
use tascript.Resolver.Report.{add_reserved_name, add_duplicate_declaration}
use tascript.Resolver.Post.{
  choice-IsCheck, Grows, Grows-nil, Ensures, bind-Post, give-Post, fail_with-Post,
}
use tascript.Resolver.Typing.{GoodBinding, SlotNames}
use tascript.Resolver.ProgramTyping.{PortType, TypedDecl, TypedDecls}
use tascript.Resolver.ProgramTyping
use tascript.Resolver.OperandTyped.{ScopeOk, ScopeOk-Grows, Typed-NotError}
use tascript.Resolver.ScopeLaws.{bind-GoodScope, bind-SlotNames}
use tascript.Resolver.ExprTyped.{Setting, resolve_expr-Typed}
use tascript.Resolver.BlockTyped.{value_binding-Good}
use tascript.Resolver.Fields.{resolve_type_decl-Ok}

-- The declared slots are numbered from 0, and so many.
abbrev pub Counted : {w : World} → List (Resolved.Decl w) → ℕ → Type 0
Counted ds n = Numbered 0 (slots_of ds) × (length (slots_of ds) ≡ n)

-- The walk over the declarations, from the registry and the scope given, with the diagnostics so far.
pub record WalkOk {w : World} (r : Registry w) (Γ : Scope) (k : Walk w) (errs : Errs) : Type 0 where
  pub good : GoodReg k.reg
  pub names : SlotNames k.scope
  pub scope : ScopeOk errs k.scope
  pub counted : Counted k.decls k.slot_count
  pub typed : errs ≡ [] → TypedDecls r Γ k.decls k.reg k.scope

module _ {w : World} (r : Registry w) (Γ : Scope) where
  abbrev pub Ok : Walk w → Errs → Type 0
  Ok = WalkOk r Γ

  pub WalkOk-Grows : (k : Walk w) (a b : Errs) → Grows a b → Ok k a → Ok k b
  WalkOk-Grows k a b g h = record {
    good = h.good;
    names = h.names;
    scope = ScopeOk-Grows a b k.scope g h.scope;
    counted = h.counted;
    typed = λ q. h.typed (Grows-nil a b g q);
  }

  -- A declaration that is added.
  pub declare-Ok :
      (k : Walk w) (sym' : Symbol) (b : Binding) (d : Resolved.Decl w) (r' : Registry w) (n : ℕ)
      (errs : Errs)
      → Ok k errs
      → GoodReg r'
      → (has_dot sym' ≡ true → b.slot ≢ none)
      → (errs ≡ [] → GoodBinding b)
      → Counted (k.decls ++ d ∷ []) n
      → (errs ≡ [] → TypedDecl k.reg k.scope d r' (bind sym' b k.scope))
      → Ok
          (record {
            reg = r';
            scope = bind sym' b k.scope;
            decls = k.decls ++ d ∷ [];
            slot_count = n;
          })
          errs
  declare-Ok k sym' b d r' n errs h good dot binding counted typed = record {
    good = good;
    names = bind-SlotNames sym' b k.scope h.names dot;
    scope = λ q. bind-GoodScope sym' b k.scope (h.scope q) (binding q);
    counted = counted;
    typed = λ q. ProgramTyping.and_then k.decls d (h.typed q) (typed q);
  }

  -- A declaration that is no slot's.
  data Slotless : Resolved.Decl w → Type 0 where
    of_const : (d : Resolved.ConstDecl w) → Slotless (Resolved.const_decl d)
    of_input : (d : Resolved.PortDecl) → Slotless (Resolved.input_decl d)
    of_output : (d : Resolved.PortDecl) → Slotless (Resolved.output_decl d)

  slots_of-Slotless :
      (ds : List (Resolved.Decl w)) (d : Resolved.Decl w)
      → Slotless d
      → slots_of (ds ++ d ∷ []) ≡ slots_of ds
  unfolding slots_of
  slots_of-Slotless [] _ (of_const d) = refl
  slots_of-Slotless [] _ (of_input d) = refl
  slots_of-Slotless [] _ (of_output d) = refl
  slots_of-Slotless (Resolved.slot_decl s ∷ ds) d h = ap (λ l. s ∷ l) (slots_of-Slotless ds d h)
  slots_of-Slotless (Resolved.const_decl s ∷ ds) d h = slots_of-Slotless ds d h
  slots_of-Slotless (Resolved.input_decl s ∷ ds) d h = slots_of-Slotless ds d h
  slots_of-Slotless (Resolved.output_decl s ∷ ds) d h = slots_of-Slotless ds d h

  Counted-Slotless :
      (ds : List (Resolved.Decl w)) (d : Resolved.Decl w) (n : ℕ)
      → Slotless d
      → Counted ds n
      → Counted (ds ++ d ∷ []) n
  Counted-Slotless ds d n h c =
      subst (λ (l : List (SlotDecl w)). Numbered 0 l × (length l ≡ n))
        (sym (slots_of-Slotless ds d h)) c

  pub unless_taken-Ok :
      (keyword name : Token) (sym' : Symbol) (k : Walk w) (m : Check (Walk w)) (errs : Errs)
      → Ok k errs
      → (find sym' k.scope ≡ none → Ensures errs Ok m)
      → Ensures errs Ok (unless_taken keyword name sym' k m)
  unfolding unless_taken
  unless_taken-Ok keyword name sym' k m errs h f = elim (Option-cases (find sym' k.scope)) [
    | inl n ↦ rw (n, unless_taken) (f n)
    | inr (b, n) ↦
        rw (n, unless_taken)
          (fail_with-Post _ k errs
            (choice-IsCheck (is_reserved b.kind) (add_reserved_name name b.kind)
              (add_duplicate_declaration keyword name) refl refl)
            (λ errs' g _. WalkOk-Grows k errs errs' g h))
  ]

  no_dot-slot :
      (name : Str) (b : Binding) → has_dot name ≡ false → has_dot name ≡ true → b.slot ≢ none
  no_dot-slot name b h e = let both = sym e ∙ h in cc

  pub resolve_const-Ok :
      (symbols : List Symbol) (d : Ast.ConstDecl w) (k : Walk w) (errs : Errs)
      → Ok k errs
      → PlainDecl (Ast.const_decl d)
      → Ensures errs Ok (resolve_const symbols d k)
  unfolding resolve_const declare_const
  resolve_const-Ok symbols d k errs h p =
      unless_taken-Ok d.token d.identifier d.identifier.literal k _ errs h (λ free.
        let x = top_context symbols k in
        let s : Setting x k.scope = record { good = h.good; names = h.names } in
        bind-Post _ _ (resolve_expr-Typed x k.scope d.value errs s p.1 h.scope) (λ v e1 g1 t.
          let h1 = WalkOk-Grows k errs e1 g1 h in
          let name = d.identifier.literal in
          let b = plain_binding (expr_type v) kind_const in
          give-Post _ e1 (
            declare-Ok k name b (Resolved.const_decl (const d v)) k.reg k.slot_count e1 h1 h.good
              (no_dot-slot name b p.0)
              (λ q.
                value_binding-Good b (Typed-NotError k.reg [] k.scope v h.good (h1.scope q) (t q))
                  refl)
              (Counted-Slotless k.decls _ k.slot_count (of_const _) h.counted)
              (λ q. ProgramTyping.const_decl d.token name v free (t q)))))

  declare_port-Ok :
      (namespace : Str) (kind : BindingKind) (decl : Resolved.PortDecl → Resolved.Decl w)
      (d : Ast.PortDecl) (k : Walk w) (errs : Errs)
      → ((p : Resolved.PortDecl) → Slotless (decl p))
      → ((id : TypeId) (r' : Registry w)
          → PortType k.reg namespace d.identifier.literal id r'
          → TypedDecl k.reg k.scope
              (decl (port d id))
              r'
              (bind d.identifier.literal (plain_binding id kind) k.scope))
      → Ok k errs
      → has_dot d.identifier.literal ≡ false
      → HasType d.type
      → Ensures errs Ok (declare_port namespace kind decl d k)
  unfolding declare_port
  declare_port-Ok namespace kind decl d k errs slotless typed h dot has =
      bind-Post _ _
        (resolve_type_decl-Ok k.reg namespace d.identifier.literal d.type errs h.good has)
        (λ p e1 g1 t.
          let h1 = WalkOk-Grows k errs e1 g1 h in
          let name = d.identifier.literal in
          let b = plain_binding p.0 kind in
          give-Post _ e1 (
            declare-Ok k name b (decl (port d p.0)) p.1 k.slot_count e1 h1 t.0
              (no_dot-slot name b dot) (λ q. value_binding-Good b (t.1 q).0 refl)
              (Counted-Slotless k.decls _ k.slot_count (slotless _) h.counted)
              (λ q. typed p.0 p.1 (t.1 q).1)))

  pub resolve_input-Ok :
      (d : Ast.PortDecl) (k : Walk w) (errs : Errs)
      → Ok k errs
      → PlainDecl {w = w} (Ast.input_decl d)
      → Ensures errs Ok (resolve_input d k)
  unfolding resolve_input
  resolve_input-Ok d k errs h p =
      unless_taken-Ok d.token d.identifier d.identifier.literal k _ errs h (λ free.
        declare_port-Ok (codes "input") kind_input Resolved.input_decl d k errs (λ p. of_input p)
          (λ id r' t. ProgramTyping.input_decl d.token d.identifier.literal id r' free t) h p.0 p.1)

  pub resolve_output-Ok :
      (d : Ast.PortDecl) (k : Walk w) (errs : Errs)
      → Ok k errs
      → PlainDecl {w = w} (Ast.output_decl d)
      → Ensures errs Ok (resolve_output d k)
  unfolding resolve_output
  resolve_output-Ok d k errs h p =
      unless_taken-Ok d.token d.identifier d.identifier.literal k _ errs h (λ free.
        declare_port-Ok (codes "output") kind_output Resolved.output_decl d k errs
          (λ p. of_output p)
          (λ id r' t. ProgramTyping.output_decl d.token d.identifier.literal id r' free t) h p.0
          p.1)
