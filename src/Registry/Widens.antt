-- ===== src/Registry/Widens.antt =====
-- registry/registry.go: the relation of a registry to one that has more, table by table.
use tascript.Common.{Option, none, some, Str, Map, ◌≡◌, refl, Eq, str_eq, pair_eq}
use tascript.Token.{token_type_eq}
use tascript.Registry.Value.{TypeId, TypeDef, World, Value}
use tascript.Registry.Rule.{
  BinaryKey, UnaryKey, MemberAccessKey, CallKey, CoerceKey, BinaryRule, UnaryRule, MemberAccessRule,
  CallRule, CoerceRule, DeclKind, Registry, RegistryError,
}
use tascript.Registry.Register.{commit}
use tascript.Registry.Laws.{Entries}

-- A map's entries are its own.
keep : {K V : Type 0} ⦃e : Eq K⦄ (m : Map K V) → Entries m m
keep m k v h = h

module _ {w : World} where
  -- Nothing that is registered is lost or replaced.
  pub record Widens (r r' : Registry w) : Type 0 where
    pub binaries : Entries r.binary r'.binary
    pub unaries : Entries r.unary r'.unary
    pub members : Entries r.member_access r'.member_access
    pub calls : Entries r.call r'.call
    pub module_values : Entries r.modules r'.modules
    pub type_defs : Entries r.types r'.types
    pub coercions : Entries r.coerces r'.coerces
    pub kinds : Entries r.decl_kinds r'.decl_kinds

  pub Widens-refl : (r : Registry w) → Widens r r
  Widens-refl r = record {
    binaries = keep r.binary;
    unaries = keep r.unary;
    members = keep r.member_access;
    calls = keep r.call;
    module_values = keep r.modules;
    type_defs = keep r.types;
    coercions = keep r.coerces;
    kinds = keep r.decl_kinds;
  }

  pub Widens-binaries :
      (r : Registry w) (m : Map BinaryKey (BinaryRule w))
      → Entries r.binary m
      → Widens r (record r { binary = m })
  Widens-binaries r m h = record {
    binaries = h;
    unaries = keep r.unary;
    members = keep r.member_access;
    calls = keep r.call;
    module_values = keep r.modules;
    type_defs = keep r.types;
    coercions = keep r.coerces;
    kinds = keep r.decl_kinds;
  }

  pub Widens-unaries :
      (r : Registry w) (m : Map UnaryKey (UnaryRule w))
      → Entries r.unary m
      → Widens r (record r { unary = m })
  Widens-unaries r m h = record {
    binaries = keep r.binary;
    unaries = h;
    members = keep r.member_access;
    calls = keep r.call;
    module_values = keep r.modules;
    type_defs = keep r.types;
    coercions = keep r.coerces;
    kinds = keep r.decl_kinds;
  }

  pub Widens-members :
      (r : Registry w) (m : Map MemberAccessKey (MemberAccessRule w))
      → Entries r.member_access m
      → Widens r (record r { member_access = m })
  Widens-members r m h = record {
    binaries = keep r.binary;
    unaries = keep r.unary;
    members = h;
    calls = keep r.call;
    module_values = keep r.modules;
    type_defs = keep r.types;
    coercions = keep r.coerces;
    kinds = keep r.decl_kinds;
  }

  pub Widens-calls :
      (r : Registry w) (m : Map CallKey (CallRule w))
      → Entries r.call m
      → Widens r (record r { call = m })
  Widens-calls r m h = record {
    binaries = keep r.binary;
    unaries = keep r.unary;
    members = keep r.member_access;
    calls = h;
    module_values = keep r.modules;
    type_defs = keep r.types;
    coercions = keep r.coerces;
    kinds = keep r.decl_kinds;
  }

  pub Widens-module_values :
      (r : Registry w) (m : Map Str (Value w))
      → Entries r.modules m
      → Widens r (record r { modules = m })
  Widens-module_values r m h = record {
    binaries = keep r.binary;
    unaries = keep r.unary;
    members = keep r.member_access;
    calls = keep r.call;
    module_values = h;
    type_defs = keep r.types;
    coercions = keep r.coerces;
    kinds = keep r.decl_kinds;
  }

  pub Widens-type_defs :
      (r : Registry w) (m : Map TypeId TypeDef)
      → Entries r.types m
      → Widens r (record r { types = m })
  Widens-type_defs r m h = record {
    binaries = keep r.binary;
    unaries = keep r.unary;
    members = keep r.member_access;
    calls = keep r.call;
    module_values = keep r.modules;
    type_defs = h;
    coercions = keep r.coerces;
    kinds = keep r.decl_kinds;
  }

  pub Widens-coercions :
      (r : Registry w) (m : Map CoerceKey (CoerceRule w))
      → Entries r.coerces m
      → Widens r (record r { coerces = m })
  Widens-coercions r m h = record {
    binaries = keep r.binary;
    unaries = keep r.unary;
    members = keep r.member_access;
    calls = keep r.call;
    module_values = keep r.modules;
    type_defs = keep r.types;
    coercions = h;
    kinds = keep r.decl_kinds;
  }

  pub Widens-kinds :
      (r : Registry w) (m : Map Str DeclKind)
      → Entries r.decl_kinds m
      → Widens r (record r { decl_kinds = m })
  Widens-kinds r m h = record {
    binaries = keep r.binary;
    unaries = keep r.unary;
    members = keep r.member_access;
    calls = keep r.call;
    module_values = keep r.modules;
    type_defs = keep r.types;
    coercions = keep r.coerces;
    kinds = h;
  }

  pub Widens-trans : (a b c : Registry w) → Widens a b → Widens b c → Widens a c
  Widens-trans a b c h k = record {
    binaries = λ i v e. k.binaries i v (h.binaries i v e);
    unaries = λ i v e. k.unaries i v (h.unaries i v e);
    members = λ i v e. k.members i v (h.members i v e);
    calls = λ i v e. k.calls i v (h.calls i v e);
    module_values = λ i v e. k.module_values i v (h.module_values i v e);
    type_defs = λ i v e. k.type_defs i v (h.type_defs i v e);
    coercions = λ i v e. k.coercions i v (h.coercions i v e);
    kinds = λ i v e. k.kinds i v (h.kinds i v e);
  }

  pub commit-Widens :
      (o : Option RegistryError) (old new : Registry w)
      → (o ≡ none → Widens old new)
      → Widens old (commit o old new).1
  unfolding commit
  commit-Widens none old new h = h refl
  commit-Widens (some e) old new h = Widens-refl old
