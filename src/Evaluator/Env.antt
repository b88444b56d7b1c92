-- ===== src/Evaluator/Env.antt =====
-- evaluator/env.go: the chain of environments. A child is made when a block is entered and dropped
-- when it is left, and no value keeps a reference to it, so the chain is a stack of maps: the
-- innermost first, the top-level one last.
use tascript.Common.{
  Option, none, some, List, [], ◌∷◌, Str, Map, lookup, insert, has_key, if◌then◌else◌, str_eq,
}
use tascript.Registry.Value.{World, Value}

abbrev pub Frame : World → Type 0
Frame w = Map Str (Value w)

abbrev pub Env : World → Type 0
Env w = List (Frame w)

module _ {w : World} where
  unfoldable pub get : Str → Env w → Option (Value w)
  get name [] = none
  get name (f ∷ fs) = elim (lookup name f) [ some v ↦ some v | none ↦ get name fs ]

  -- `Set` writes the innermost map. The empty stack, which has none, does not occur.
  unfoldable pub set_name : Str → Value w → Env w → Env w
  set_name name v [] = []
  set_name name v (f ∷ fs) = insert name v f ∷ fs

  -- `none` where the name is not bound.
  unfoldable pub assign : Str → Value w → Env w → Option (Env w)
  assign name v [] = none
  assign name v (f ∷ fs) =
      let rest = assign name v fs in
      if has_key name f
      then some (insert name v f ∷ fs)
      else elim rest [ some fs' ↦ some (f ∷ fs') | none ↦ none ]
