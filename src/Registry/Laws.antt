-- ===== src/Registry/Laws.antt =====
-- registry/registry.go: what a registration leaves, as a step relation on the registry.
use tascript.Common.{
  Bool, true, false, Option, none, some, List, Str, Map, ◌≡◌, refl, ◌∙◌, lookup, insert, has_key,
  ◌==◌, eq_iff, Eq, lookup-insert_ne, str_eq, pair_eq, inl, inr, Bool-cases, if_true,
}
use tascript.Token.{TokenType, token_type_eq}
use tascript.Registry.Value.{TypeId, TypeShape, FieldDef, World}
use tascript.Registry.Rule.{
  BinaryRule, UnaryRule, MemberAccessRule, CallRule, CoerceRule, DeclKind, Registry, RegistryError,
  registry_sealed,
}
use tascript.Registry.Register.{
  ◌orelse◌, refuse_if, Registered, commit, check_open, add_module, register_type, register_coercion,
  register_module, register_binary, register_unary, register_member_access, register_call,
}
use tascript.Registry.Script.{register_script_type, register_decl_kind}

-- The second of two checks passed, and the first too.
pub orelse-none : (a b : Option RegistryError) → (a orelse b) ≡ none → (a ≡ none) × (b ≡ none)
unfolding ◌orelse◌
orelse-none none b h = (refl, h)
orelse-none (some e) b h = cc

pub refuse_if-none : (b : Bool) (e : RegistryError) → refuse_if b e ≡ none → b ≡ false
refuse_if-none true e h = cc
refuse_if-none false e h = refl

-- The last of three checks, and of four.
pub third-passed :
    (o a : Option RegistryError) (b : Bool) (e : RegistryError)
    → (o orelse a orelse refuse_if b e) ≡ none
    → b ≡ false
third-passed o a b e h = refuse_if-none b e (orelse-none a _ (orelse-none o _ h).1).1

pub fourth-passed :
    (o a c : Option RegistryError) (b : Bool) (e : RegistryError)
    → (o orelse a orelse c orelse refuse_if b e) ≡ none
    → b ≡ false
fourth-passed o a c b e h = third-passed a c b e (orelse-none o _ h).1

module _ {K V : Type 0} ⦃e : Eq K⦄ where
  -- Each entry of the first map is one of the second.
  abbrev pub Entries : Map K V → Map K V → Type 0
  Entries m n = (k : K) (v : V) → lookup k m ≡ some v → lookup k n ≡ some v

  pub has_key-some : (k : K) (v : V) (m : Map K V) → lookup k m ≡ some v → has_key k m ≡ true
  has_key-some k v m h = rw (h, has_key)

  pub insert-Entries :
      (k : K) (v : V) (m : Map K V) → has_key k m ≡ false → Entries m (insert k v m)
  insert-Entries k v m fresh j x h = elim (Bool-cases (k == j)) [
    | inl e ↦ let same = (eq_iff k j).0 e in let taken = has_key-some k x m (rw (← same) at h) in cc
    | inr e ↦ lookup-insert_ne k j v m e ∙ h
  ]

module _ {w : World} where
  -- One call of a registration, with the error that it returns.
  pub data Step (r : Registry w) : Option RegistryError → Registry w → Type 0 where
    types :
        (id : TypeId) (shape : TypeShape)
        → Step r (register_type r id shape).0 (register_type r id shape).1
    coercion :
        (a b : TypeId) (x : CoerceRule w)
        → Step r (register_coercion r a b x).0 (register_coercion r a b x).1
    module_named : (name : Str) → Step r (register_module r name).1.0 (register_module r name).1.1
    binary :
        (t : TokenType) (a b : TypeId) (x : BinaryRule w)
        → Step r (register_binary r t a b x).0 (register_binary r t a b x).1
    unary :
        (t : TokenType) (a : TypeId) (x : UnaryRule w)
        → Step r (register_unary r t a x).0 (register_unary r t a x).1
    member :
        (a : TypeId) (name : Str) (x : MemberAccessRule w)
        → Step r (register_member_access r a name x).0 (register_member_access r a name x).1
    call :
        (a : TypeId) (name : Str) (x : CallRule w)
        → Step r (register_call r a name x).0 (register_call r a name x).1
    script_type :
        (name : Str) (fs : List FieldDef)
        → Step r (register_script_type r name fs).0 (register_script_type r name fs).1
    kind : (k : DeclKind) → Step r (register_decl_kind r k).0 (register_decl_kind r k).1

  abbrev Refused : Registry w → Registered w → Type 0
  Refused r p = (p.0 ≡ some registry_sealed) × (p.1 ≡ r)

  check_open-sealed : (r : Registry w) → r.sealed ≡ true → check_open r ≡ some registry_sealed
  unfolding check_open
  check_open-sealed r h = if_true _ _ h

  commit-sealed :
      (r new : Registry w) (o rest : Option RegistryError)
      → o ≡ some registry_sealed
      → Refused r (commit (o orelse rest) r new)
  unfolding commit ◌orelse◌
  commit-sealed r new none rest h = cc
  commit-sealed r new (some e) rest h = (h, refl)

  elim-sealed :
      (o rest : Option RegistryError) (r : Registry w) (x : Registered w)
      → o ≡ some registry_sealed
      → Refused r (elim (o orelse rest) [ none ↦ x | some e ↦ (some e, r) ])
  unfolding ◌orelse◌
  elim-sealed none rest r x h = cc
  elim-sealed (some e) rest r x h = (h, refl)

  add_module-sealed :
      (o rest : Option RegistryError) (name : Str) (new r : Registry w)
      → o ≡ some registry_sealed
      → Refused r (add_module (o orelse rest) name new r).1
  unfolding ◌orelse◌
  add_module-sealed none rest name new r h = cc
  add_module-sealed (some e) rest name new r h = (h, refl)

  -- A sealed registry refuses every registration, with the error that says so, and is left as it is.
  pub sealed-refuses :
      (r r' : Registry w) (e : Option RegistryError)
      → r.sealed ≡ true
      → Step r e r'
      → (e ≡ some registry_sealed) × (r' ≡ r)
  unfolding register_type register_coercion register_module register_binary register_unary
      register_member_access register_call register_script_type register_decl_kind
  sealed-refuses r r' e h (types id shape) = elim-sealed _ _ r _ (check_open-sealed r h)
  sealed-refuses r r' e h (coercion a b x) = commit-sealed r _ _ _ (check_open-sealed r h)
  sealed-refuses r r' e h (module_named name) =
      add_module-sealed _ _ name _ r (check_open-sealed r h)
  sealed-refuses r r' e h (binary t a b x) = commit-sealed r _ _ _ (check_open-sealed r h)
  sealed-refuses r r' e h (unary t a x) = commit-sealed r _ _ _ (check_open-sealed r h)
  sealed-refuses r r' e h (member a name x) = commit-sealed r _ _ _ (check_open-sealed r h)
  sealed-refuses r r' e h (call a name x) = commit-sealed r _ _ _ (check_open-sealed r h)
  sealed-refuses r r' e h (script_type name fs) = commit-sealed r _ _ _ (check_open-sealed r h)
  sealed-refuses r r' e h (kind k) = commit-sealed r _ _ _ (check_open-sealed r h)
