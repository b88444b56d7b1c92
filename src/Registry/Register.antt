-- ===== src/Registry/Register.antt =====
-- registry/registry.go: registration and lookup. A registration returns Go's `error` (`none` for
-- nil) and the registry as the call leaves it.
use tascript.Common.{
  Bool, true, false, Option, none, some, List, [], ◌∷◌, Str, lookup, insert, has_key, ◌==◌,
  if◌then◌else◌, str_eq, pair_eq,
}
use tascript.Token.{TokenType, token_type_eq}
use tascript.Registry.Value.{
  TypeId, error_type_id, TypeShape, module_shape, TypeDef, World, Value, nil, plain_module,
}
use tascript.Registry.Rule.{
  BinaryRule, UnaryRule, MemberAccessRule, ParamRule, CallRule, CoerceRule, DeclKind, Registry,
  RegistryError, registry_sealed, type_reserved, module_shape_refused, id_taken, name_is_decl_kind,
  already_registered,
}

-- The first error of two checks.
infixr 20 ◌orelse◌
unfoldable pub ◌orelse◌ : Option RegistryError → Option RegistryError → Option RegistryError
none orelse e = e
some e orelse _ = some e

abbrev pub refuse_if : Bool → RegistryError → Option RegistryError
refuse_if b e = if b then some e else none

unfoldable pub reject_reserved : List TypeId → Option RegistryError
reject_reserved [] = none
reject_reserved (id ∷ ids) =
    refuse_if (id == error_type_id) type_reserved orelse reject_reserved ids

unfoldable pub is_module_shape : TypeShape → Bool
is_module_shape module_shape = true
is_module_shape _ = false

abbrev pub param_types : List ParamRule → List TypeId
param_types [] = []
param_types (p ∷ ps) = p.type ∷ param_types ps

abbrev pub Registered : World → Type 0
Registered w = Option RegistryError × Registry w

module _ {w : World} where
  -- The registry changes only if no check returned an error.
  unfoldable pub commit : Option RegistryError → Registry w → Registry w → Registered w
  commit none old new = (none, new)
  commit (some e) old new = (some e, old)

  unfoldable pub seal : Registry w → Registry w
  seal r = record r { sealed = true }

  unfoldable pub check_open : Registry w → Option RegistryError
  check_open r = refuse_if r.sealed registry_sealed

  unfoldable pub lookup_decl_kind : Registry w → Str → Option DeclKind
  lookup_decl_kind r word = lookup word r.decl_kinds

  unfoldable pub lookup_type : Registry w → Str → Option TypeId
  lookup_type r name = if has_key name r.types then some name else none

  unfoldable pub lookup_type_def : Registry w → TypeId → Option TypeDef
  lookup_type_def r id = lookup id r.types

  unfoldable pub reject_decl_kind_word : Registry w → Str → Option RegistryError
  reject_decl_kind_word r name = refuse_if (has_key name r.decl_kinds) name_is_decl_kind

  -- `registerType`
  unfoldable pub add_type : Registry w → TypeId → TypeShape → Registered w
  add_type r id shape =
      commit
        (reject_reserved (id ∷ [])
          orelse reject_decl_kind_word r id
          orelse refuse_if (has_key id r.types) id_taken)
        r (record r { types = insert id (record { shape = shape; fields = [] }) r.types })

  unfoldable pub register_type : Registry w → TypeId → TypeShape → Registered w
  register_type r id shape =
      elim (check_open r orelse refuse_if (is_module_shape shape) module_shape_refused) [
        | none ↦ add_type r id shape
        | some e ↦ (some e, r)
      ]

  unfoldable pub lookup_coerce : Registry w → TypeId → TypeId → Option (CoerceRule w)
  lookup_coerce r from to = lookup (from, to) r.coerces

  unfoldable pub register_coercion : Registry w → TypeId → TypeId → CoerceRule w → Registered w
  register_coercion r from to rule =
      commit
        (check_open r
          orelse reject_reserved (from ∷ to ∷ rule.eval_type ∷ [])
          orelse refuse_if (has_key (from, to) r.coerces) already_registered)
        r (record r { coerces = insert (from, to) rule r.coerces })

  -- The module's value is returned beside the error; Go returns nil with an error.
  abbrev pub add_module :
      Option RegistryError → Str → Registry w → Registry w → Value w × Registered w
  add_module none name new old = (
    plain_module name,
    (none, record new { modules = insert name (plain_module name) new.modules }),
  )
  add_module (some e) name new old = (nil, (some e, old))

  unfoldable pub register_module : Registry w → Str → Value w × Registered w
  register_module r name =
      let (e, r') = add_type r name module_shape in add_module (check_open r orelse e) name r' r

  unfoldable pub lookup_binary : Registry w → TokenType → TypeId → TypeId → Option (BinaryRule w)
  lookup_binary r tok left right = lookup (tok, (left, right)) r.binary

  unfoldable pub register_binary :
      Registry w → TokenType → TypeId → TypeId → BinaryRule w → Registered w
  register_binary r tok left right rule =
      commit
        (check_open r
          orelse reject_reserved (left ∷ right ∷ rule.eval_type ∷ [])
          orelse refuse_if (has_key (tok, (left, right)) r.binary) already_registered)
        r (record r { binary = insert (tok, (left, right)) rule r.binary })

  unfoldable pub lookup_unary : Registry w → TokenType → TypeId → Option (UnaryRule w)
  lookup_unary r tok right = lookup (tok, right) r.unary

  unfoldable pub register_unary : Registry w → TokenType → TypeId → UnaryRule w → Registered w
  register_unary r tok right rule =
      commit
        (check_open r
          orelse reject_reserved (right ∷ rule.eval_type ∷ [])
          orelse refuse_if (has_key (tok, right) r.unary) already_registered)
        r (record r { unary = insert (tok, right) rule r.unary })

  unfoldable pub lookup_member_access : Registry w → TypeId → Str → Option (MemberAccessRule w)
  lookup_member_access r owner member = lookup (owner, member) r.member_access

  unfoldable pub register_member_access :
      Registry w → TypeId → Str → MemberAccessRule w → Registered w
  register_member_access r owner member rule =
      commit
        (check_open r
          orelse reject_reserved (owner ∷ rule.eval_type ∷ [])
          orelse refuse_if (has_key (owner, member) r.member_access) already_registered)
        r (record r { member_access = insert (owner, member) rule r.member_access })

  unfoldable pub lookup_call : Registry w → TypeId → Str → Option (CallRule w)
  lookup_call r owner member = lookup (owner, member) r.call

  unfoldable pub register_call : Registry w → TypeId → Str → CallRule w → Registered w
  register_call r owner member rule =
      commit
        (check_open r
          orelse reject_reserved (owner ∷ rule.eval_type ∷ [])
          orelse reject_reserved (param_types rule.args)
          orelse refuse_if (has_key (owner, member) r.call) already_registered)
        r (record r { call = insert (owner, member) rule r.call })
