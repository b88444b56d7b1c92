-- ===== src/Registry/Good.antt =====
-- registry/registry.go: what `rejectReserved` keeps out of the registry, and what `IsIdent` keeps out of
-- the words of declaration kinds.
use tascript.Common.{
  Bool, true, false, ◌||◌, Option, none, some, List, [], ◌∷◌, Str, Map, ◌≡◌, ◌≢◌, refl, sym, ◌∙◌,
  subst, lookup, insert, ◌==◌, eq_iff, Eq, str_eq, pair_eq, str_beq, str_beq_iff, inl, inr,
  Bool-cases, All, arith, nat_beq, if_true, if_false,
}
use tascript.Token.{
  TokenType, token_type_eq, is_ident, is_ident_part, is_ident_start, all_ident_part,
}
use tascript.Registry.Value.{TypeId, error_type_id, FieldDef, World}
use tascript.Registry.Rule.{
  BinaryRule, UnaryRule, MemberAccessRule, CallRule, CoerceRule, ParamRule, Registry, RegistryError,
  type_reserved,
}
use tascript.Registry.Register.{◌orelse◌, refuse_if, reject_reserved, param_types}
use tascript.Registry.Script.{field_types}
use tascript.Registry.Laws.{orelse-none, refuse_if-none}

module _ {K V : Type 0} ⦃e : Eq K⦄ where
  pub All-lookup :
      (P : K × V → Type 0) (key : K) (v : V) (m : Map K V)
      → All P m
      → lookup key m ≡ some v
      → P (key, v)
  unfolding lookup
  All-lookup P key v [] h q = cc
  All-lookup P key v ((k, u) ∷ m) h q = elim (Bool-cases (k == key)) [
    | inl t ↦
        let same = (eq_iff k key).0 t in
        let value = sym (if_true (some u) (lookup key m) t) ∙ q in
        subst (λ j. P (j, v)) same (subst (λ c. P (k, c)) (the_same u v value) h.0)
    | inr n ↦ All-lookup P key v m h.1 (sym (if_false (some u) (lookup key m) n) ∙ q)
  ]
    where
      the_same : (a b : V) → some a ≡ some b → a ≡ b
      the_same a b h = cc

  pub All-insert :
      (P : K × V → Type 0) (key : K) (v : V) (m : Map K V)
      → All P m
      → P (key, v)
      → All P (insert key v m)
  unfolding insert
  All-insert P key v [] h p = (p, tt)
  All-insert P key v ((k, u) ∷ m) h p = elim (Bool-cases (k == key)) [
    | inl t ↦ rw (t, insert) (p, h.1)
    | inr n ↦ rw (n, insert) (h.0, All-insert P key v m h.1 p)
  ]

pub differ : (a b : Str) → str_beq a b ≡ false → a ≢ b
differ a b h e = let same = (str_beq_iff a b).1 e in cc

unfoldable pub has_dot : Str → Bool
has_dot [] = false
has_dot (c ∷ cs) = nat_beq c b'.' || has_dot cs

abbrev pub GoodParams : List ParamRule → Type 0
GoodParams = All (λ p. p.type ≢ error_type_id)

abbrev pub GoodFields : List FieldDef → Type 0
GoodFields = All (λ f. f.type ≢ error_type_id)

-- The rules that name the error type neither as an operand nor as a result, with their keys.
abbrev pub GoodBinary : {w : World} → (TokenType × (TypeId × TypeId)) × BinaryRule w → Type 0
GoodBinary p =
    (p.1.eval_type ≢ error_type_id) × ((p.0.1.0 ≢ error_type_id) × (p.0.1.1 ≢ error_type_id))

abbrev pub GoodUnary : {w : World} → (TokenType × TypeId) × UnaryRule w → Type 0
GoodUnary p = (p.1.eval_type ≢ error_type_id) × (p.0.1 ≢ error_type_id)

abbrev pub GoodMember : {w : World} → (TypeId × Str) × MemberAccessRule w → Type 0
GoodMember p = (p.1.eval_type ≢ error_type_id) × (p.0.0 ≢ error_type_id)

abbrev pub GoodCall : {w : World} → (TypeId × Str) × CallRule w → Type 0
GoodCall p = ((p.1.eval_type ≢ error_type_id) × GoodParams p.1.args) × (p.0.0 ≢ error_type_id)

abbrev pub GoodCoercion : {w : World} → (TypeId × TypeId) × CoerceRule w → Type 0
GoodCoercion p =
    (p.1.eval_type ≢ error_type_id) × ((p.0.0 ≢ error_type_id) × (p.0.1 ≢ error_type_id))

-- No rule, coercion or type names the type that stands for an error, and no word has a dot.
pub record GoodReg {w : World} (r : Registry w) : Type 0 where
  pub binary : All GoodBinary r.binary
  pub unary : All GoodUnary r.unary
  pub member_access : All GoodMember r.member_access
  pub call : All GoodCall r.call
  pub coerces : All GoodCoercion r.coerces
  pub types : All (λ p. (p.0 ≢ error_type_id) × GoodFields p.1.fields) r.types
  pub words : All (λ p. has_dot p.1.word ≡ false) r.decl_kinds

pub reject_reserved-none :
    (ids : List TypeId) → reject_reserved ids ≡ none → All (λ id. id ≢ error_type_id) ids
unfolding reject_reserved
reject_reserved-none [] h = tt
reject_reserved-none (id ∷ ids) h =
    let both =
      orelse-none (refuse_if (id == error_type_id) type_reserved) (reject_reserved ids) h in
    let ne = refuse_if-none (id == error_type_id) type_reserved both.0 in
    (λ e. let t = (eq_iff id error_type_id).1 e in cc, reject_reserved-none ids both.1)

pub params-Good :
    (ps : List ParamRule) → All (λ id. id ≢ error_type_id) (param_types ps) → GoodParams ps
params-Good [] h = tt
params-Good (p ∷ ps) h = (h.0, params-Good ps h.1)

pub fields-Good :
    (fs : List FieldDef) → All (λ id. id ≢ error_type_id) (field_types fs) → GoodFields fs
fields-Good [] h = tt
fields-Good (f ∷ fs) h = (h.0, fields-Good fs h.1)

all_ident_part-no_dot : (cs : Str) → all_ident_part cs ≡ true → has_dot cs ≡ false
unfolding all_ident_part has_dot is_ident_part is_ident_start
all_ident_part-no_dot [] h = refl
all_ident_part-no_dot (c ∷ cs) h = ground (arith, all_ident_part-no_dot cs)

pub is_ident-no_dot : (cs : Str) → is_ident cs ≡ true → has_dot cs ≡ false
unfolding is_ident has_dot is_ident_start
is_ident-no_dot [] h = cc
is_ident-no_dot (c ∷ cs) h = ground (arith, all_ident_part-no_dot cs)

-- The ids that the second of the checks let pass.
pub passed :
    (o : Option RegistryError) (ids : List TypeId) (rest : Option RegistryError)
    → (o orelse reject_reserved ids orelse rest) ≡ none
    → All (λ id. id ≢ error_type_id) ids
passed o ids rest h =
    let later = (orelse-none o (reject_reserved ids orelse rest) h).1 in
    reject_reserved-none ids (orelse-none (reject_reserved ids) rest later).0
