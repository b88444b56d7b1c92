-- ===== src/Resolver/Scope.antt =====
-- resolver/env.go: bindings and scopes. A scope is a stack of maps, the innermost first and the
-- top-level one last. A child is made when a block is entered and dropped when it is left.
use tascript.Common.{
  Bool, true, false, Option, none, some, List, [], ◌∷◌, ◌++◌, Str, codes, Map, lookup, insert,
  str_eq, if◌then◌else◌,
}
use tascript.Token.{reserved_idents}
use tascript.Registry.Value.{TypeId, TypeShape, TypeDef, no_type_id, World}
use tascript.Registry.Rule.{DeclKind, Registry}
use tascript.Registry.Register.{is_module_shape}
use tascript.Resolved.{SlotHead}

-- `KindDeclWord` is the kind of a declaration keyword.
pub data BindingKind : Type 0 where
  kind_let kind_const kind_input kind_output kind_module : BindingKind
  kind_function kind_type kind_slot kind_decl_word : BindingKind

unfoldable pub kind_text : BindingKind → Str
kind_text kind_let = codes "let"
kind_text kind_const = codes "const"
kind_text kind_input = codes "input"
kind_text kind_output = codes "output"
kind_text kind_module = codes "module"
kind_text kind_function = codes "function"
kind_text kind_type = codes "type"
kind_text kind_slot = codes "slot"
kind_text kind_decl_word = codes "declaration keyword"

-- The pointer to a slot's declaration gives what a reference to the slot reads of it.
pub record Binding : Type 0 where
  pub type : TypeId
  pub kind : BindingKind
  pub slot : Option SlotHead
  pub assignable : Bool

-- `KindLabel`
unfoldable pub kind_label : Binding → Str
kind_label b = elim b.slot [ some s ↦ s.kind | none ↦ kind_text b.kind ]

unfoldable pub is_readable : BindingKind → Bool
is_readable kind_let = true
is_readable kind_const = true
is_readable kind_input = true
is_readable kind_slot = true
is_readable _ = false

unfoldable pub is_reserved : BindingKind → Bool
is_reserved kind_module = true
is_reserved kind_function = true
is_reserved kind_type = true
is_reserved kind_decl_word = true
is_reserved _ = false

abbrev pub Symbol : Type 0
Symbol = Str

abbrev pub namespaced_symbol : Str → Str → Symbol
namespaced_symbol word name = word ++ (codes "." ++ name)

unfoldable pub slot_symbol : DeclKind → Str → Symbol
slot_symbol kind name = if kind.namespaced then namespaced_symbol kind.word name else name

abbrev pub Names : Type 0
Names = Map Symbol Binding

abbrev pub Scope : Type 0
Scope = List Names

-- `Env.Get`
unfoldable pub find : Symbol → Scope → Option Binding
find key [] = none
find key (f ∷ fs) = elim (lookup key f) [ some b ↦ some b | none ↦ find key fs ]

-- `Env.Set`. A scope has an innermost map.
unfoldable pub bind : Symbol → Binding → Scope → Scope
bind key b [] = []
bind key b (f ∷ fs) = insert key b f ∷ fs

abbrev pub enclosed : Scope → Scope
enclosed Γ = [] ∷ Γ

abbrev pub plain_binding : TypeId → BindingKind → Binding
plain_binding t kind = record { type = t; kind = kind; slot = none; assignable = false }

abbrev pub type_kind : TypeShape → BindingKind
type_kind shape = if is_module_shape shape then kind_module else kind_type

unfoldable pub add_types : Map TypeId TypeDef → Names → Names
add_types [] names = names
add_types ((id, d) ∷ ds) names =
    add_types ds (insert id (plain_binding id (type_kind d.shape)) names)

unfoldable pub add_decl_words : Map Str DeclKind → Names → Names
add_decl_words [] names = names
add_decl_words ((_, k) ∷ ks) names =
    add_decl_words ks (
      if k.namespaced then insert k.word (plain_binding no_type_id kind_decl_word) names else names)

unfoldable pub add_reserved : List Str → Names → Names
add_reserved [] names = names
add_reserved (w ∷ ws) names =
    add_reserved ws (insert w (plain_binding no_type_id kind_function) names)

-- `EnvFromRegistry`. Go walks the registry's maps in no fixed order; no two of their keys are bound here
-- to different things, since a registration refuses a type named like a declaration keyword.
unfoldable pub env_from_registry : {w : World} → Registry w → Scope
env_from_registry r =
    add_reserved reserved_idents (add_decl_words r.decl_kinds (add_types r.types [])) ∷ []
