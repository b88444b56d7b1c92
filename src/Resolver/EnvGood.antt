-- ===== src/Resolver/EnvGood.antt =====
-- resolver/env.go: the scope that `EnvFromRegistry` makes.
use tascript.Common.{
  false, List, [], ◌∷◌, Str, Map, ◌≡◌, ◌≢◌, refl, sym, ◌∙◌, All, str_beq, if-elim, lookup, insert,
  str_eq,
}
use tascript.Token.{reserved_idents}
use tascript.Registry.Value.{TypeId, TypeDef, no_type_id, error_type_id, World}
use tascript.Registry.Rule.{DeclKind, Registry}
use tascript.Registry.Good.{GoodReg, GoodFields, has_dot, differ}
use tascript.Resolver.Scope.{
  Symbol, BindingKind, Names, find, bind, plain_binding, type_kind, add_types, add_decl_words,
  add_reserved, env_from_registry, kind_decl_word, kind_function,
}
use tascript.Resolver.Typing.{GoodScope, SlotNames}
use tascript.Resolver.ScopeLaws.{bind-GoodScope, bind-SlotNames}
use tascript.Resolver.BlockTyped.{value_binding-Good}

-- The types that a host registers have no dot in their names.
abbrev pub UndottedTypes : {w : World} → Registry w → Type 0
UndottedTypes r = All (λ p. has_dot p.0 ≡ false) r.types

-- The top-level map, seen as a scope.
abbrev NamesOk : Names → Type 0
NamesOk names = GoodScope (names ∷ []) × SlotNames (names ∷ [])

insert-NamesOk :
    (key : Symbol) (t : TypeId) (kind : BindingKind) (names : Names)
    → has_dot key ≡ false
    → t ≢ error_type_id
    → NamesOk names
    → NamesOk (insert key (plain_binding t kind) names)
unfolding bind
insert-NamesOk key t kind names dot ne h = (
  bind-GoodScope key (plain_binding t kind) (names ∷ []) h.0
      (value_binding-Good (plain_binding t kind) ne refl),
  bind-SlotNames key (plain_binding t kind) (names ∷ []) h.1 (λ e. let both = sym e ∙ dot in cc),
)

add_types-NamesOk :
    (ds : Map TypeId TypeDef) (names : Names)
    → All (λ p. (p.0 ≢ error_type_id) × GoodFields p.1.fields) ds
    → All (λ p. has_dot p.0 ≡ false) ds
    → NamesOk names
    → NamesOk (add_types ds names)
unfolding add_types
add_types-NamesOk [] names good dots h = h
add_types-NamesOk ((id, d) ∷ ds) names good dots h =
    add_types-NamesOk ds _ good.1 dots.1
      (insert-NamesOk id id (type_kind d.shape) names dots.0 good.0.0 h)

no_type_id-NotError : no_type_id ≢ error_type_id
unfolding str_beq
no_type_id-NotError = differ _ _ refl

add_decl_words-NamesOk :
    (ks : Map Str DeclKind) (names : Names)
    → All (λ p. has_dot p.1.word ≡ false) ks
    → NamesOk names
    → NamesOk (add_decl_words ks names)
unfolding add_decl_words
add_decl_words-NamesOk [] names dots h = h
add_decl_words-NamesOk ((_, k) ∷ ks) names dots h = add_decl_words-NamesOk ks _ dots.1 (
    if-elim NamesOk k.namespaced
      (insert-NamesOk k.word no_type_id kind_decl_word names dots.0 no_type_id-NotError h) h)

add_reserved-NamesOk :
    (ws : List Str) (names : Names)
    → All (λ word. has_dot word ≡ false) ws
    → NamesOk names
    → NamesOk (add_reserved ws names)
unfolding add_reserved
add_reserved-NamesOk [] names dots h = h
add_reserved-NamesOk (word ∷ ws) names dots h =
    add_reserved-NamesOk ws _ dots.1
      (insert-NamesOk word no_type_id kind_function names dots.0 no_type_id-NotError h)

reserved_idents-no_dot : All (λ word. has_dot word ≡ false) reserved_idents
unfolding has_dot
reserved_idents-no_dot = (refl, (refl, (refl, tt)))

no_names-Ok : NamesOk []
unfolding find lookup
no_names-Ok = (λ key b e. cc, λ key b e. cc)

pub env_from_registry-Good :
    {w : World} (r : Registry w)
    → GoodReg r
    → UndottedTypes r
    → GoodScope (env_from_registry r) × SlotNames (env_from_registry r)
unfolding env_from_registry
env_from_registry-Good r good dots = add_reserved-NamesOk reserved_idents _ reserved_idents-no_dot (
    add_decl_words-NamesOk r.decl_kinds _ good.words
      (add_types-NamesOk r.types [] good.types dots no_names-Ok))
