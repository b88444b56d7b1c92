-- ===== src/Resolver/ProgramTyping.antt =====
-- resolver/resolver.go: the rules for declarations and programs, stated of the resolved program.
use tascript.Common.{
  ℕ, false, Option, none, some, List, [], ◌∷◌, ◌++◌, Str, codes, ◌≡◌, ◌≢◌, str_eq,
}
use tascript.Token.{Token}
use tascript.Registry.Value.{TypeId, error_type_id, FieldDef, World}
use tascript.Registry.Rule.{
  InitializerRule, initializer_required, initializer_forbidden, DeclKind, Registry,
}
use tascript.Registry.Register.{lookup_type, lookup_decl_kind}
use tascript.Registry.Script.{register_script_type}
use tascript.Resolved.{SlotHead, expr_type}
use tascript.Resolved
use tascript.Resolver.Scope.{
  kind_const, kind_input, kind_output, plain_binding, slot_symbol, Scope, find, bind, enclosed,
  env_from_registry,
}
use tascript.Resolver.Decl.{slot_head, slot_binding, type_refused}
use tascript.Resolver.Typing.{Typed, Fits, TypedStmts}

-- The type of a port: one that the registry has, or one that it takes, under the port's own name.
pub data PortType {w : World} (r : Registry w) (namespace name : Str)
    : TypeId → Registry w → Type 0 where
  known : (text : Str) (id : TypeId) → lookup_type r text ≡ some id → PortType r namespace name id r
  declared :
      (fields : List FieldDef) (r' : Registry w)
      → register_script_type r (namespace ++ (codes "." ++ name)) fields ≡ (none, r')
      → PortType r namespace name (namespace ++ (codes "." ++ name)) r'

-- An initializer, or none, where the kind of the declaration allows it, of the slot's type.
pub data TypedInit {w : World} (r : Registry w) (fn : Str) (Γ : Scope) (t : TypeId)
    : InitializerRule → Option (Resolved.Expr w) → Type 0 where
  no_init :
      (rule : InitializerRule)
      → rule ≢ initializer_required
      → t ≢ error_type_id
      → TypedInit r fn Γ t rule none
  init :
      (rule : InitializerRule) (v : Resolved.Expr w)
      → rule ≢ initializer_forbidden
      → Fits r fn Γ t false v
      → TypedInit r fn Γ t rule (some v)

-- A declaration of a name that was free, with the registry and the scope before it and after it.
pub data TypedDecl {w : World} (r : Registry w) (Γ : Scope)
    : Resolved.Decl w → Registry w → Scope → Type 0 where
  const_decl :
      (t : Token) (name : Str) (v : Resolved.Expr w)
      → find name Γ ≡ none
      → Typed r [] Γ v
      → TypedDecl r Γ
          (Resolved.const_decl (record { token = t; name = name; value = v; type = expr_type v }))
          r
          (bind name (plain_binding (expr_type v) kind_const) Γ)
  input_decl :
      (t : Token) (name : Str) (id : TypeId) (r' : Registry w)
      → find name Γ ≡ none
      → PortType r (codes "input") name id r'
      → TypedDecl r Γ
          (Resolved.input_decl (record { token = t; name = name; type = id }))
          r'
          (bind name (plain_binding id kind_input) Γ)
  output_decl :
      (t : Token) (name : Str) (id : TypeId) (r' : Registry w)
      → find name Γ ≡ none
      → PortType r (codes "output") name id r'
      → TypedDecl r Γ
          (Resolved.output_decl (record { token = t; name = name; type = id }))
          r'
          (bind name (plain_binding id kind_output) Γ)
  slot_decl :
      (keyword : Str) (kind : DeclKind) (name : Token) (t : TypeId) (i : ℕ)
      (v : Option (Resolved.Expr w))
      → lookup_decl_kind r keyword ≡ some kind
      → find (slot_symbol kind name.literal) Γ ≡ none
      → TypedInit r [] Γ t kind.initializer v
      → type_refused kind t ≡ false
      → TypedDecl r Γ
          (Resolved.slot_decl (record { head = slot_head kind name t i; init = v }))
          r
          (bind (slot_symbol kind name.literal) (slot_binding kind (slot_head kind name t i)) Γ)

-- Declarations, each in the registry and the scope that the ones before it leave.
pub data TypedDecls {w : World} (r : Registry w) (Γ : Scope)
    : List (Resolved.Decl w) → Registry w → Scope → Type 0 where
  no_decls : TypedDecls r Γ [] r Γ
  and_then :
      {r' r'' : Registry w} {Γ' Γ'' : Scope} (ds : List (Resolved.Decl w)) (d : Resolved.Decl w)
      → TypedDecls r Γ ds r' Γ'
      → TypedDecl r' Γ' d r'' Γ''
      → TypedDecls r Γ (ds ++ d ∷ []) r'' Γ''

-- The function of the name, in a scope of its own.
pub data TypedFn {w : World} (r : Registry w) (Γ : Scope) (fn : Str)
    : Option (Resolved.Stmts w) → Type 0 where
  absent : TypedFn r Γ fn none
  present : (ss : Resolved.Stmts w) → TypedStmts r fn (enclosed Γ) ss → TypedFn r Γ fn (some ss)

-- A program with `Run`, resolved from the registry, which it leaves as the last argument.
pub data TypedProgram {w : World} (r : Registry w) : Resolved.Program w → Registry w → Type 0 where
  program :
      {r' : Registry w} {Γ : Scope} (ds : List (Resolved.Decl w)) (init : Option (Resolved.Stmts w))
      (run : Resolved.Stmts w)
      → TypedDecls r (env_from_registry r) ds r' Γ
      → TypedFn r' Γ (codes "Init") init
      → TypedFn r' Γ (codes "Run") (some run)
      → TypedProgram r (record { decls = ds; init_fn = init; run_fn = some run }) r'
