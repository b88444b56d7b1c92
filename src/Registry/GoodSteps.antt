-- ===== src/Registry/GoodSteps.antt =====
-- registry/registry.go: each registration, and the registry's rules, types and words.
use tascript.Common.{
  false, not, Option, none, some, List, [], ◌∷◌, Str, ◌≡◌, ◌≢◌, refl, insert, str_eq, pair_eq,
  arith,
}
use tascript.Token.{TokenType, token_type_eq, is_ident}
use tascript.Registry.Value.{
  TypeId, error_type_id, TypeShape, FieldDef, TypeDef, World, module_shape,
}
use tascript.Registry.Rule.{
  BinaryRule, UnaryRule, MemberAccessRule, CallRule, CoerceRule, DeclKind, Registry, RegistryError,
  empty_registry, word_not_ident,
}
use tascript.Registry.Register.{
  refuse_if, reject_reserved, Registered, commit, check_open, param_types, add_module, add_type,
  register_type, register_coercion, register_module, register_binary, register_unary,
  register_member_access, register_call, reject_decl_kind_word,
}
use tascript.Registry.Script.{
  register_script_type, register_decl_kind, register_fields, field_types, field_rule,
}
use tascript.Registry.Laws.{orelse-none, refuse_if-none, Step}
use tascript.Registry.Good.{
  All-insert, GoodReg, GoodBinary, GoodUnary, GoodMember, GoodCall, GoodCoercion, GoodFields,
  reject_reserved-none, params-Good, fields-Good, is_ident-no_dot, passed, has_dot,
}

module _ {w : World} where
  pub empty_registry-Good : GoodReg {w = w} empty_registry
  empty_registry-Good = record {
    binary = tt;
    unary = tt;
    member_access = tt;
    call = tt;
    coerces = tt;
    types = tt;
    words = tt;
  }

  commit-Good :
      (o : Option RegistryError) (r new : Registry w)
      → GoodReg r
      → (o ≡ none → GoodReg new)
      → GoodReg (commit o r new).1
  unfolding commit
  commit-Good none r new h k = k refl
  commit-Good (some e) r new h k = h

  -- A type id that is added to the registry.
  pub types-Good :
      (r : Registry w) (id : TypeId) (d : TypeDef)
      → GoodReg r
      → id ≢ error_type_id
      → GoodFields d.fields
      → GoodReg (record r { types = insert id d r.types })
  types-Good r id d good h k = record {
    binary = good.binary;
    unary = good.unary;
    member_access = good.member_access;
    call = good.call;
    coerces = good.coerces;
    types =
        All-insert (λ p. (p.0 ≢ error_type_id) × GoodFields p.1.fields) id d r.types good.types
          (h, k);
    words = good.words;
  }

  pub register_binary-Good :
      (r : Registry w) (t : TokenType) (a b : TypeId) (x : BinaryRule w)
      → GoodReg r
      → GoodReg (register_binary r t a b x).1
  unfolding register_binary
  register_binary-Good r t a b x good = commit-Good _ r _ good (λ e.
      let ids = passed (check_open r) (a ∷ b ∷ x.eval_type ∷ []) _ e in
      record {
        binary =
            All-insert GoodBinary (t, (a, b)) x r.binary good.binary (ids.1.1.0, (ids.0, ids.1.0));
        unary = good.unary;
        member_access = good.member_access;
        call = good.call;
        coerces = good.coerces;
        types = good.types;
        words = good.words;
      })

  pub register_unary-Good :
      (r : Registry w) (t : TokenType) (a : TypeId) (x : UnaryRule w)
      → GoodReg r
      → GoodReg (register_unary r t a x).1
  unfolding register_unary
  register_unary-Good r t a x good = commit-Good _ r _ good (λ e.
      let ids = passed (check_open r) (a ∷ x.eval_type ∷ []) _ e in
      record {
        binary = good.binary;
        unary = All-insert GoodUnary (t, a) x r.unary good.unary (ids.1.0, ids.0);
        member_access = good.member_access;
        call = good.call;
        coerces = good.coerces;
        types = good.types;
        words = good.words;
      })

  pub register_member_access-Good :
      (r : Registry w) (a : TypeId) (name : Str) (x : MemberAccessRule w)
      → GoodReg r
      → GoodReg (register_member_access r a name x).1
  unfolding register_member_access
  register_member_access-Good r a name x good = commit-Good _ r _ good (λ e.
      let ids = passed (check_open r) (a ∷ x.eval_type ∷ []) _ e in
      record {
        binary = good.binary;
        unary = good.unary;
        member_access =
            All-insert GoodMember (a, name) x r.member_access good.member_access (ids.1.0, ids.0);
        call = good.call;
        coerces = good.coerces;
        types = good.types;
        words = good.words;
      })

  register_call-Good :
      (r : Registry w) (a : TypeId) (name : Str) (x : CallRule w)
      → GoodReg r
      → GoodReg (register_call r a name x).1
  unfolding register_call
  register_call-Good r a name x good = commit-Good _ r _ good (λ e.
      let ids = passed (check_open r) (a ∷ x.eval_type ∷ []) _ e in
      let later = (orelse-none (check_open r) _ e).1 in
      let params = passed (reject_reserved (a ∷ x.eval_type ∷ [])) (param_types x.args) _ later in
      record {
        binary = good.binary;
        unary = good.unary;
        member_access = good.member_access;
        call =
            All-insert GoodCall (a, name) x r.call good.call
              ((ids.1.0, params-Good x.args params), ids.0);
        coerces = good.coerces;
        types = good.types;
        words = good.words;
      })

  pub register_coercion-Good :
      (r : Registry w) (a b : TypeId) (x : CoerceRule w)
      → GoodReg r
      → GoodReg (register_coercion r a b x).1
  unfolding register_coercion
  register_coercion-Good r a b x good = commit-Good _ r _ good (λ e.
      let ids = passed (check_open r) (a ∷ b ∷ x.eval_type ∷ []) _ e in
      record {
        binary = good.binary;
        unary = good.unary;
        member_access = good.member_access;
        call = good.call;
        coerces =
            All-insert GoodCoercion (a, b) x r.coerces good.coerces (ids.1.1.0, (ids.0, ids.1.0));
        types = good.types;
        words = good.words;
      })

  register_decl_kind-Good :
      (r : Registry w) (k : DeclKind) → GoodReg r → GoodReg (register_decl_kind r k).1
  unfolding register_decl_kind
  register_decl_kind-Good r k good = commit-Good _ r _ good (λ e.
      let later = (orelse-none (check_open r) _ e).1 in
      let first = (orelse-none (refuse_if (not (is_ident k.word)) word_not_ident) _ later).0 in
      let ident = refuse_if-none (not (is_ident k.word)) word_not_ident first in
      record {
        binary = good.binary;
        unary = good.unary;
        member_access = good.member_access;
        call = good.call;
        coerces = good.coerces;
        types = good.types;
        words =
            All-insert (λ p. has_dot p.1.word ≡ false) k.word k r.decl_kinds good.words
              (is_ident-no_dot k.word (ground arith));
      })

  add_type-Good :
      (r : Registry w) (id : TypeId) (shape : TypeShape)
      → GoodReg r
      → GoodReg (add_type r id shape).1
  unfolding add_type
  add_type-Good r id shape good = commit-Good _ r _ good (λ e.
      let first = (orelse-none (reject_reserved (id ∷ [])) _ e).0 in
      types-Good r id _ good (reject_reserved-none (id ∷ []) first).0 tt)

  abbrev GoodAfter : Registered w → Type 0
  GoodAfter p = GoodReg p.1

  elim-Good :
      (o : Option RegistryError) (r : Registry w) (x : Registered w)
      → GoodReg r
      → GoodReg x.1
      → GoodAfter (elim o [ none ↦ x | some e ↦ (some e, r) ])
  elim-Good none r x h k = k
  elim-Good (some e) r x h k = h

  register_type-Good :
      (r : Registry w) (id : TypeId) (shape : TypeShape)
      → GoodReg r
      → GoodReg (register_type r id shape).1
  unfolding register_type
  register_type-Good r id shape good = elim-Good _ r _ good (add_type-Good r id shape good)

  modules-Good :
      (o : Option RegistryError) (name : Str) (new old : Registry w)
      → GoodReg new
      → GoodReg old
      → GoodReg (add_module o name new old).1.1
  modules-Good none name new old h k = record {
    binary = h.binary;
    unary = h.unary;
    member_access = h.member_access;
    call = h.call;
    coerces = h.coerces;
    types = h.types;
    words = h.words;
  }
  modules-Good (some e) name new old h k = k

  register_module-Good :
      (r : Registry w) (name : Str) → GoodReg r → GoodReg (register_module r name).1.1
  unfolding register_module
  register_module-Good r name good =
      modules-Good _ name _ r (add_type-Good r name module_shape good) good

  register_fields-Good :
      (id : TypeId) (fs : List FieldDef) (r : Registry w)
      → GoodReg r
      → GoodReg (register_fields id fs r)
  unfolding register_fields
  register_fields-Good id [] r good = good
  register_fields-Good id (f ∷ fs) r good =
      register_fields-Good id fs _ (register_member_access-Good r id f.name (field_rule f) good)

  pub register_script_type-Good :
      (r : Registry w) (name : Str) (fs : List FieldDef)
      → GoodReg r
      → GoodReg (register_script_type r name fs).1
  unfolding register_script_type
  register_script_type-Good r name fs good = commit-Good _ r _ good (λ e.
      let ids = passed (check_open r) (name ∷ []) _ e in
      let later =
        (orelse-none (reject_reserved (name ∷ [])) _ (orelse-none (check_open r) _ e).1).1 in
      let types = passed (reject_decl_kind_word r name) (field_types fs) _ later in
      register_fields-Good name fs _ (types-Good r name _ good ids.0 (fields-Good fs types)))

  -- A registration, whether it is accepted or refused, keeps the registry so that no binary, unary, member,
  -- call or coercion rule has the type that stands for an error as an operand, a parameter or the result,
  -- no type has it as its id or the type of a field, and no word of a declaration kind has a dot.
  pub Step-Good :
      (r r' : Registry w) (e : Option RegistryError) → GoodReg r → Step r e r' → GoodReg r'
  Step-Good r r' e good (Step.types id shape) = register_type-Good r id shape good
  Step-Good r r' e good (Step.coercion a b x) = register_coercion-Good r a b x good
  Step-Good r r' e good (Step.module_named name) = register_module-Good r name good
  Step-Good r r' e good (Step.binary t a b x) = register_binary-Good r t a b x good
  Step-Good r r' e good (Step.unary t a x) = register_unary-Good r t a x good
  Step-Good r r' e good (Step.member a name x) = register_member_access-Good r a name x good
  Step-Good r r' e good (Step.call a name x) = register_call-Good r a name x good
  Step-Good r r' e good (Step.script_type name fs) = register_script_type-Good r name fs good
  Step-Good r r' e good (Step.kind k) = register_decl_kind-Good r k good
