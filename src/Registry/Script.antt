-- ===== src/Registry/Script.antt =====
-- registry/registry.go: the types that a script declares inline, the call signature of `emit`, and
-- declaration kinds.
use tascript.Common.{
  false, not, Option, none, some, List, [], ◌∷◌, Str, codes, Outcome, ok, panic, wrong_type, insert,
  has_key, if◌then◌else◌, str_eq, ◌>>=◌, ◌==◌,
}
use tascript.Token.{is_ident, is_keyword, is_reserved_ident}
use tascript.Registry.Value.{
  TypeId, no_shape, FieldDef, World, Value, nil, structure, Fields, empty, field,
}
use tascript.Registry.Rule.{
  MemberAccessRule, ParamRule, DeclKind, Registry, RegistryError, id_taken, word_not_ident,
  word_is_keyword, word_is_reserved, word_taken, word_is_type, word_is_module, allowed_type_unknown,
  RuleError,
}
use tascript.Registry.Register.{
  ◌orelse◌, refuse_if, reject_reserved, Registered, commit, check_open, reject_decl_kind_word,
  register_member_access, lookup_type_def,
}

abbrev pub field_types : List FieldDef → List TypeId
field_types [] = []
field_types (f ∷ fs) = f.type ∷ field_types fs

abbrev pub field_params : List FieldDef → List ParamRule
field_params [] = []
field_params (f ∷ fs) = record { type = f.type; name = f.name; exact = false } ∷ field_params fs

-- The parameters of `emit` for an output of the type, and the type itself.
unfoldable pub emit_params : List FieldDef → TypeId → List ParamRule
emit_params [] id = record { type = id; name = codes "value"; exact = false } ∷ []
emit_params (f ∷ fs) id = field_params (f ∷ fs)

module _ {w : World} where
  -- Reading a Go map: a missing key gives the nil interface.
  unfoldable pub fields_get : Str → Fields w → Value w
  fields_get name empty = nil
  fields_get name (field n v fs) = if n == name then v else fields_get name fs

  -- Writing a Go map.
  unfoldable pub fields_set : Str → Value w → Fields w → Fields w
  fields_set name v empty = field name v empty
  fields_set name v (field n x fs) =
      if n == name then field name v fs else field n x (fields_set name v fs)

  unfoldable pub as_record : Value w → Outcome RuleError (Fields w)
  as_record (structure _ fs) = ok fs
  as_record _ = panic wrong_type

  unfoldable pub field_rule : FieldDef → MemberAccessRule w
  field_rule f = record {
    eval_fn = λ receiver. as_record receiver >>= λ fs. ok (fields_get f.name fs);
    eval_type = f.type;
  }

  unfoldable pub register_fields : TypeId → List FieldDef → Registry w → Registry w
  register_fields id [] r = r
  register_fields id (f ∷ fs) r =
      register_fields id fs (register_member_access r id f.name (field_rule f)).1

  unfoldable pub register_script_type : Registry w → Str → List FieldDef → Registered w
  register_script_type r name fields =
      commit
        (check_open r
          orelse reject_reserved (name ∷ [])
          orelse reject_decl_kind_word r name
          orelse reject_reserved (field_types fields)
          orelse refuse_if (has_key name r.types) id_taken)
        r
        (register_fields name fields
          (record r { types = insert name (record { shape = no_shape; fields = fields }) r.types }))

  unfoldable pub type_fields : Registry w → TypeId → List FieldDef
  type_fields r id = elim (lookup_type_def r id) [ some d ↦ d.fields | none ↦ [] ]

  unfoldable pub emit_rule : Registry w → TypeId → List ParamRule
  emit_rule r id = emit_params (type_fields r id) id

  unfoldable pub all_known : Registry w → List TypeId → Option RegistryError
  all_known r [] = none
  all_known r (id ∷ ids) =
      refuse_if (not (has_key id r.types)) allowed_type_unknown orelse all_known r ids

  unfoldable pub register_decl_kind : Registry w → DeclKind → Registered w
  register_decl_kind r k =
      commit
        (check_open r
          orelse refuse_if (not (is_ident k.word)) word_not_ident
          orelse refuse_if (is_keyword k.word) word_is_keyword
          orelse refuse_if (is_reserved_ident k.word) word_is_reserved
          orelse refuse_if (has_key k.word r.decl_kinds) word_taken
          orelse refuse_if (has_key k.word r.types) word_is_type
          orelse refuse_if (has_key k.word r.modules) word_is_module
          orelse reject_reserved k.allowed_types
          orelse all_known r k.allowed_types)
        r (record r { decl_kinds = insert k.word k r.decl_kinds })
