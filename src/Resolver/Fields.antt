-- ===== src/Resolver/Fields.antt =====
-- resolver/resolver.go: what `resolveTypeDecl` leaves.
use tascript.Common.{
  true, Option, none, some, List, [], ◌∷◌, ◌++◌, Str, codes, ◌≡◌, ◌≢◌, refl, ◌∙◌, ap, inl, inr,
  Option-cases, if-elim, if-elim_eq, lookup, has_key, str_eq, subst, arith,
}
use tascript.Token.{Token, contains}
use tascript.Registry.Value.{TypeId, error_type_id, FieldDef, World}
use tascript.Registry.Rule.{Registry, RegistryError}
use tascript.Registry.Register.{commit, Registered, lookup_type, check_open}
use tascript.Registry.Script.{register_script_type}
use tascript.Registry.Good.{GoodReg, GoodFields, All-lookup, passed}
use tascript.Registry.GoodSteps.{register_script_type-Good}
use tascript.Ast
use tascript.Resolver.Check.{Errs}
use tascript.Resolver.TypeDecl.{
  FieldState, resolve_field, resolve_fields, registered_type, register_fields_as, resolve_type_decl,
}
use tascript.Resolver.Plain.{HasType}
use tascript.Resolver.Post.{Ensures, Clear, bind-Post, give-Post, fail-Post, fail_with-Post}
use tascript.Resolver.ProgramTyping.{PortType}

module _ {w : World} where
  pub lookup_type-NotError :
      (r : Registry w) (text : Str) (id : TypeId)
      → GoodReg r
      → lookup_type r text ≡ some id
      → id ≢ error_type_id
  unfolding lookup_type
  lookup_type-NotError r text id good e = elim (Option-cases (lookup text r.types)) [
    | inl n ↦ let e' = rw (n, has_key) at e in cc
    | inr (d, n) ↦
        let ne =
          (All-lookup (λ p. (p.0 ≢ error_type_id) × GoodFields p.1.fields) text d r.types good.types
            n).0 in
        let e' = rw (n, has_key) at e in λ q. ne (same_name text id e' ∙ q)
  ]
    where
      same_name : (a b : Str) → some a ≡ some b → a ≡ b
      same_name a b h = cc

  commit-none :
      (o : Option RegistryError) (old new : Registry w) → (commit o old new).0 ≡ none → o ≡ none
  unfolding commit
  commit-none none old new h = refl
  commit-none (some e) old new h = cc

  register_script_type-NotError :
      (r : Registry w) (name : Str) (fields : List FieldDef)
      → (register_script_type r name fields).0 ≡ none
      → name ≢ error_type_id
  unfolding register_script_type
  register_script_type-NotError r name fields h =
      (passed (check_open r) (name ∷ []) _ (commit-none _ _ _ h)).0

  resolve_fields-Post :
      (r : Registry w) (t : Token) (fs : List Ast.Field) (st : FieldState) (errs : Errs)
      → (errs ≡ [] → st.ok ≡ true)
      → Ensures errs (Clear (λ st'. st'.ok ≡ true)) (resolve_fields r t fs st)
  unfolding resolve_fields resolve_field
  resolve_fields-Post r t [] st errs h = give-Post st errs h
  resolve_fields-Post r t (f ∷ fs) st errs h =
      bind-Post _ _ (resolve_field-Post f) (λ st' e1 g1 k. resolve_fields-Post r t fs st' e1 k)
    where
      resolve_field-Post :
          (f : Ast.Field) → Ensures errs (Clear (λ st'. st'.ok ≡ true)) (resolve_field r t f st)
      resolve_field-Post f =
          if-elim (Ensures errs (Clear (λ st'. st'.ok ≡ true))) (contains f.name.literal st.seen)
            (fail-Post _ _ errs refl)
            (elim (Option-cases (lookup_type r f.type.literal)) [
              | inl n ↦ rw n (fail-Post _ _ errs refl)
              | inr (id, n) ↦ rw n (give-Post _ errs h)
            ])

  abbrev pub TypeOk : Registry w → Str → Str → TypeId × Registry w → Errs → Type 0
  TypeOk r namespace name (id, r') errs =
      GoodReg r' × (errs ≡ [] → (id ≢ error_type_id) × PortType r namespace name id r')

  registered_type-Ok :
      (r : Registry w) (t : Token) (namespace name : Str) (fields : List FieldDef)
      (p : Registered w) (errs : Errs)
      → GoodReg r
      → register_script_type r (namespace ++ (codes "." ++ name)) fields ≡ p
      → Ensures errs
          (TypeOk r namespace name)
          (registered_type t (namespace ++ (codes "." ++ name)) p)
  unfolding registered_type
  registered_type-Ok r t namespace name fields (none, r') errs good e =
      let full = namespace ++ (codes "." ++ name) in
      let after =
        subst (λ (q : Registered w). GoodReg q.1) e
          (register_script_type-Good r full fields good) in
      give-Post _ errs (
        after,
        λ _. (
          register_script_type-NotError r full fields (ap (λ (q : Registered w). q.0) e),
          PortType.declared fields r' e,
        ),
      )
  registered_type-Ok r t namespace name fields (some d, r') errs good e =
      let full = namespace ++ (codes "." ++ name) in
      let after =
        subst (λ (q : Registered w). GoodReg q.1) e
          (register_script_type-Good r full fields good) in
      fail_with-Post _ _ errs refl (λ errs' g n. (after, λ q. absurd (n q)))

  pub resolve_type_decl-Ok :
      (r : Registry w) (namespace name : Str) (d : Ast.TypeDecl) (errs : Errs)
      → GoodReg r
      → HasType d
      → Ensures errs (TypeOk r namespace name) (resolve_type_decl r namespace name d)
  unfolding resolve_type_decl register_fields_as
  resolve_type_decl-Ok r namespace name (Ast.type_ident t) errs good h =
      elim (Option-cases (lookup_type r t.literal)) [
        | inl n ↦
            rw (n, resolve_type_decl)
              (fail_with-Post _ _ errs refl (λ errs' g k. (good, λ q. absurd (k q))))
        | inr (id, n) ↦
            rw (n, resolve_type_decl)
              (give-Post _ errs (
                good,
                λ _. (lookup_type-NotError r t.literal id good n, PortType.known t.literal id n),
              ))
      ]
  resolve_type_decl-Ok r namespace name (Ast.type_expr t fields) errs good h =
      bind-Post _ _ (resolve_fields-Post r t fields _ errs (λ _. refl)) (λ st e1 g1 k.
        if-elim_eq (Ensures e1 (TypeOk r namespace name)) st.ok
          (λ _. registered_type-Ok r t namespace name st.fields _ e1 good refl)
          (λ no. give-Post _ e1 (good, λ q. absurd (ground (arith, k q)))))
  resolve_type_decl-Ok r namespace name Ast.no_type errs good h = absurd h
