-- ===== src/Registry/Rule.antt =====
-- registry/registry.go and registry/error.go: the rules, the keys under which they are registered,
-- and the registry.
use tascript.Common.{Bool, List, [], Str, Map, Outcome, String, false}
use tascript.Token.{TokenType}
use tascript.Registry.Value.{TypeId, TypeDef, World, Value, Fields}

pub data ErrorKind : Type 0 where
  division_by_zero invalid_argument out_of_range uninitialized_slot unknown_kind : ErrorKind

-- What a rule returns as its error: a `registry.Error`, or any other error of a host rule.
pub data RuleError : Type 0 where
  registry_error : ErrorKind → String → RuleError
  plain_error : String → RuleError

abbrev pub Call : World → Type 0
Call w = Outcome RuleError (Value w)

pub record BinaryRule (w : World) : Type 0 where
  pub eval_fn : Value w → Value w → Call w
  pub eval_type : TypeId

pub record UnaryRule (w : World) : Type 0 where
  pub eval_fn : Value w → Call w
  pub eval_type : TypeId

pub record MemberAccessRule (w : World) : Type 0 where
  pub eval_fn : Value w → Call w
  pub eval_type : TypeId

pub record ParamRule : Type 0 where
  pub type : TypeId
  pub name : Str
  pub exact : Bool

pub record CallRule (w : World) : Type 0 where
  pub args : List ParamRule
  pub eval_fn : Value w → Fields w → Call w
  pub eval_type : TypeId

-- A coercion returns no error, and may panic.
pub record CoerceRule (w : World) : Type 0 where
  pub eval_type : TypeId
  pub eval_fn : Value w → Outcome ⊥ (Value w)

-- `(token, (left, right))`
abbrev pub BinaryKey : Type 0
BinaryKey = TokenType × (TypeId × TypeId)

abbrev pub UnaryKey : Type 0
UnaryKey = TokenType × TypeId

-- `(owner, method)`
abbrev pub MemberAccessKey : Type 0
MemberAccessKey = TypeId × Str

abbrev pub CallKey : Type 0
CallKey = TypeId × Str

-- `(from, to)`
abbrev pub CoerceKey : Type 0
CoerceKey = TypeId × TypeId

pub data InitializerRule : Type 0 where
  initializer_required initializer_optional initializer_forbidden : InitializerRule

pub record DeclKind : Type 0 where
  pub word : Str
  pub initializer : InitializerRule
  pub assignable : Bool
  pub namespaced : Bool
  pub allowed_types : List TypeId

-- A module is registered under its name, with the type id of that name.
pub record Registry (w : World) : Type 0 where
  pub binary : Map BinaryKey (BinaryRule w)
  pub unary : Map UnaryKey (UnaryRule w)
  pub member_access : Map MemberAccessKey (MemberAccessRule w)
  pub call : Map CallKey (CallRule w)
  pub modules : Map Str (Value w)
  pub types : Map TypeId TypeDef
  pub coerces : Map CoerceKey (CoerceRule w)
  pub decl_kinds : Map Str DeclKind
  pub sealed : Bool

-- The errors of registration, by the check that returns them.
pub data RegistryError : Type 0 where
  registry_sealed type_reserved module_shape_refused id_taken name_is_decl_kind : RegistryError
  already_registered word_not_ident word_is_keyword word_is_reserved : RegistryError
  word_taken word_is_type word_is_module allowed_type_unknown : RegistryError

abbrev pub empty_registry : {w : World} → Registry w
empty_registry = record {
  binary = [];
  unary = [];
  member_access = [];
  call = [];
  modules = [];
  types = [];
  coerces = [];
  decl_kinds = [];
  sealed = false;
}
