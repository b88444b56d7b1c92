-- ===== src/Registry/Widening.antt =====
-- registry/registry.go: what each registration adds to the tables.
use tascript.Common.{
  false, Option, none, some, List, [], ◌∷◌, Str, ◌≡◌, refl, sym, ap, subst, lookup, insert, has_key,
  str_eq, pair_eq, inl, inr, Option-cases,
}
use tascript.Token.{token_type_eq}
use tascript.Registry.Value.{
  TypeId, TypeShape, module_shape, FieldDef, TypeDef, World, Value, plain_module,
}
use tascript.Registry.Rule.{MemberAccessRule, CallRule, DeclKind, Registry, RegistryError}
use tascript.Registry.Register.{
  Registered, commit, check_open, add_type, add_module, register_type, register_coercion,
  register_module, register_binary, register_unary, register_member_access, register_call,
}
use tascript.Registry.Script.{field_rule, register_fields, register_script_type, register_decl_kind}
use tascript.Registry.Register.{add_module}
use tascript.Registry.Laws.{
  Step, types, coercion, module_named, binary, unary, member, call, script_type, kind, Entries,
  insert-Entries, has_key-some, orelse-none, refuse_if-none, third-passed, fourth-passed,
}
use tascript.Registry.Widens.{
  Widens, Widens-refl, Widens-binaries, Widens-unaries, Widens-members, Widens-calls,
  Widens-module_values, Widens-type_defs, Widens-coercions, Widens-kinds, Widens-trans,
  commit-Widens,
}

module _ {w : World} where
  add_type-Widens :
      (r : Registry w) (id : TypeId) (shape : TypeShape) → Widens r (add_type r id shape).1
  unfolding add_type
  add_type-Widens r id shape =
      commit-Widens _ r _
        λ h. Widens-type_defs r _ (insert-Entries id _ r.types (third-passed _ _ _ _ h))

  elim-Widens :
      (o : Option RegistryError) (r : Registry w) (x : Registered w)
      → Widens r x.1
      → Widens r (elim o as (λ _. Registered w) [ none ↦ x | some e ↦ (some e, r) ]).1
  elim-Widens none r x h = h
  elim-Widens (some e) r x h = Widens-refl r

  -- A module's name is a type.
  abbrev pub ModulesTyped : Registry w → Type 0
  ModulesTyped r =
      (name : Str) (v : Value w)
      → lookup name r.modules ≡ some v
      → (d : TypeDef) × (lookup name r.types ≡ some d)

  member-Widens :
      (r : Registry w) (a : TypeId) (name : Str) (x : MemberAccessRule w)
      → Widens r (register_member_access r a name x).1
  unfolding register_member_access
  member-Widens r a name x =
      commit-Widens _ r _ λ h.
        Widens-members r _ (insert-Entries (a, name) x r.member_access (third-passed _ _ _ _ h))

  fields-Widens :
      (id : TypeId) (fs : List FieldDef) (r : Registry w) → Widens r (register_fields id fs r)
  unfolding register_fields
  fields-Widens id [] r = Widens-refl r
  fields-Widens id (f ∷ fs) r =
      Widens-trans r _ _ (member-Widens r id f.name (field_rule f)) (fields-Widens id fs _)

  script_type-Widens :
      (r : Registry w) (name : Str) (fs : List FieldDef)
      → Widens r (register_script_type r name fs).1
  unfolding register_script_type
  script_type-Widens r name fs = commit-Widens _ r _ λ h.
      Widens-trans r (record r { types = insert name _ r.types }) _
        (Widens-type_defs r _ (
          insert-Entries name _ r.types
            (fourth-passed _ _ _ _ _ (orelse-none (check_open r) _ h).1)))
        (fields-Widens name fs _)

  kind-Widens : (r : Registry w) (k : DeclKind) → Widens r (register_decl_kind r k).1
  unfolding register_decl_kind
  kind-Widens r k = commit-Widens _ r _ λ h.
      let h₁ = (orelse-none _ _ (orelse-none _ _ h).1).1 in
      let h₂ = (orelse-none _ _ (orelse-none _ _ h₁).1).1 in
      Widens-kinds r _
        (insert-Entries k.word k r.decl_kinds (refuse_if-none _ _ (orelse-none _ _ h₂).0))

  untyped-free :
      (r : Registry w) (name : Str)
      → ModulesTyped r
      → has_key name r.types ≡ false
      → has_key name r.modules ≡ false
  untyped-free r name typed h = elim (Option-cases (lookup name r.modules)) [
    | inl e ↦ rw (e, has_key)
    | inr (v, e) ↦ let (d, k) = typed name v e in let taken = has_key-some name d r.types k in cc
  ]

  commit-none :
      (o : Option RegistryError) (old new : Registry w)
      → (commit o old new).0 ≡ none
      → (o ≡ none) × ((commit o old new).1 ≡ new)
  unfolding commit
  commit-none none old new h = (refl, refl)
  commit-none (some e) old new h = cc

  add_type-fresh :
      (r : Registry w) (id : TypeId) (shape : TypeShape)
      → (add_type r id shape).0 ≡ none
      → (has_key id r.types ≡ false) × ((add_type r id shape).1.modules ≡ r.modules)
  unfolding add_type
  add_type-fresh r id shape h =
      let (passed, same) = commit-none _ r _ h in
      (third-passed _ _ _ _ passed, ap (λ (x : Registry w). x.modules) same)

  add_module-Widens :
      (o : Option RegistryError) (name : Str) (new r : Registry w)
      → Widens r new
      → (o ≡ none → Entries new.modules (insert name (plain_module name) new.modules))
      → Widens r (add_module o name new r).1.1
  add_module-Widens none name new r h k =
      Widens-trans r new _ h (Widens-module_values new _ (k refl))
  add_module-Widens (some e) name new r h k = Widens-refl r

  module-Widens :
      (r : Registry w) (name : Str) → ModulesTyped r → Widens r (register_module r name).1.1
  unfolding register_module
  module-Widens r name typed =
      add_module-Widens _ name _ r (add_type-Widens r name module_shape) λ h.
        let (free, same) = add_type-fresh r name module_shape (orelse-none (check_open r) _ h).1 in
        insert-Entries name _ _
          (subst (λ m. has_key name m ≡ false) (sym same) (untyped-free r name typed free))

  call-Widens :
      (r : Registry w) (a : TypeId) (name : Str) (x : CallRule w)
      → Widens r (register_call r a name x).1
  unfolding register_call
  call-Widens r a name x =
      commit-Widens _ r _
        λ h. Widens-calls r _ (insert-Entries (a, name) x r.call (fourth-passed _ _ _ _ _ h))

  -- Whatever a registration returns, every rule, type, module, coercion and declaration kind that was
  -- registered before it is found under its key after it, unchanged, if the registry's modules have
  -- types.
  pub Step-Widens :
      (r r' : Registry w) (e : Option RegistryError) → ModulesTyped r → Step r e r' → Widens r r'
  unfolding register_type register_coercion register_binary register_unary
  Step-Widens r r' e typed (types id shape) = elim-Widens _ r _ (add_type-Widens r id shape)
  Step-Widens r r' e typed (coercion a b x) =
      commit-Widens _ r _
        λ h. Widens-coercions r _ (insert-Entries (a, b) x r.coerces (third-passed _ _ _ _ h))
  Step-Widens r r' e typed (module_named name) = module-Widens r name typed
  Step-Widens r r' e typed (binary t a b x) =
      commit-Widens _ r _
        λ h. Widens-binaries r _ (insert-Entries (t, (a, b)) x r.binary (third-passed _ _ _ _ h))
  Step-Widens r r' e typed (unary t a x) =
      commit-Widens _ r _
        λ h. Widens-unaries r _ (insert-Entries (t, a) x r.unary (third-passed _ _ _ _ h))
  Step-Widens r r' e typed (member a name x) = member-Widens r a name x
  Step-Widens r r' e typed (call a name x) = call-Widens r a name x
  Step-Widens r r' e typed (script_type name fs) = script_type-Widens r name fs
  Step-Widens r r' e typed (kind k) = kind-Widens r k
