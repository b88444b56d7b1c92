-- ===== src/Resolver/TypeDecl.antt =====
-- resolver/resolver.go: `resolveTypeDecl`.
use tascript.Common.{
  Bool, true, false, none, some, List, [], ◌∷◌, ◌++◌, Str, codes, str_eq, if◌then◌else◌,
}
use tascript.Token.{Token, contains}
use tascript.Registry.Value.{TypeId, error_type_id, FieldDef, World}
use tascript.Registry.Rule.{Registry}
use tascript.Registry.Register.{Registered, lookup_type}
use tascript.Registry.Script.{register_script_type}
use tascript.Ast
use tascript.Resolver.Report.{
  add_duplicate_declaration, add_type_registration_fail, add_undefined_type,
}
use tascript.Resolver.Check.{Check, ◌>>=◌, give, fail}

-- What the loop over an inline type's fields collects.
pub record FieldState : Type 0 where
  pub fields : List FieldDef
  pub seen : List Str
  pub ok : Bool

abbrev pub not_ok : FieldState → FieldState
not_ok st = record st { ok = false }

abbrev pub see : Str → FieldState → FieldState
see name st = record st { seen = name ∷ st.seen }

abbrev pub add_field : Str → TypeId → FieldState → FieldState
add_field name t st = record st { fields = st.fields ++ record { name = name; type = t } ∷ [] }

module _ {w : World} where
  -- A step of the loop over the fields of an inline type, whose token is the first argument.
  unfoldable pub resolve_field : Registry w → Token → Ast.Field → FieldState → Check FieldState
  resolve_field r t f st =
      if contains f.name.literal st.seen
      then fail (add_duplicate_declaration t f.name) (not_ok st)
      else elim (lookup_type r f.type.literal) [
        | some id ↦ give (add_field f.name.literal id (see f.name.literal st))
        | none ↦ fail (add_undefined_type f.type) (not_ok (see f.name.literal st))
      ]

  unfoldable pub resolve_fields :
      Registry w → Token → List Ast.Field → FieldState → Check FieldState
  resolve_fields r t [] st = give st
  resolve_fields r t (f ∷ fs) st = do st' ← resolve_field r t f st; resolve_fields r t fs st'

  -- The end of an inline type, by what its registration returned.
  unfoldable pub registered_type : Token → Str → Registered w → Check (TypeId × Registry w)
  registered_type t name (none, r) = give (name, r)
  registered_type t name (some e, r) = fail (add_type_registration_fail t name e) (error_type_id, r)

  unfoldable pub register_fields_as :
      Registry w → Token → Str → FieldState → Check (TypeId × Registry w)
  register_fields_as r t name st =
      if st.ok
      then registered_type t name (register_script_type r name st.fields)
      else give (error_type_id, r)

  -- `resolveTypeDecl`, with the registry as it leaves it.
  unfoldable pub resolve_type_decl :
      Registry w → Str → Str → Ast.TypeDecl → Check (TypeId × Registry w)
  resolve_type_decl r namespace name (Ast.type_ident t) = elim (lookup_type r t.literal) [
    | some id ↦ give (id, r)
    | none ↦ fail (add_undefined_type t) (error_type_id, r)
  ]
  resolve_type_decl r namespace name (Ast.type_expr t fields) = do
    st ← resolve_fields r t fields (record { fields = []; seen = []; ok = true })
    register_fields_as r t (namespace ++ (codes "." ++ name)) st
  resolve_type_decl r namespace name Ast.no_type = give (error_type_id, r)
