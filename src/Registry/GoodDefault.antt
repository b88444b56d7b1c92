-- ===== src/Registry/GoodDefault.antt =====
-- registry/std_math.go: the rules and types of `DefaultRegistry`.
use tascript.Common.{List, [], ◌∷◌, ◌≢◌, refl, All, str_beq}
use tascript.Token.{TokenType, eq, neq, minus, plus, bang}
use tascript.Registry.Value.{TypeId, error_type_id, integer_id, float_id, string_id, bool_id, World}
use tascript.Registry.Rule.{BinaryRule, Registry}
use tascript.Registry.Default.{
  NumericPair, register_numeric, register_operators, register_equality, register_negate,
  add_scalars, builtin_scalars, register_std_math, default_registry,
}
use tascript.Registry.Good.{GoodReg, differ}
use tascript.Registry.GoodSteps.{
  empty_registry-Good, types-Good, register_binary-Good, register_unary-Good,
  register_coercion-Good,
}

builtin_scalars-NotError : All (λ t. t ≢ error_type_id) builtin_scalars
unfolding str_beq
builtin_scalars-NotError =
    (differ _ _ refl, (differ _ _ refl, (differ _ _ refl, (differ _ _ refl, tt))))

module _ {w : World} where
  register_numeric-Good :
      (ps : List NumericPair) (op : TokenType) (rule : NumericPair → BinaryRule w) (r : Registry w)
      → GoodReg r
      → GoodReg (register_numeric ps op rule r)
  unfolding register_numeric
  register_numeric-Good [] op rule r good = good
  register_numeric-Good (p ∷ ps) op rule r good =
      register_numeric-Good ps op rule _ (register_binary-Good r op p.left p.right (rule p) good)

  register_operators-Good :
      (ops : List TokenType) (rule : TokenType → NumericPair → BinaryRule w) (r : Registry w)
      → GoodReg r
      → GoodReg (register_operators ops rule r)
  unfolding register_operators
  register_operators-Good [] rule r good = good
  register_operators-Good (op ∷ ops) rule r good =
      register_operators-Good ops rule _ (register_numeric-Good _ op (rule op) r good)

  register_equality-Good :
      (t : TypeId) (r : Registry w) → GoodReg r → GoodReg (register_equality t r)
  unfolding register_equality
  register_equality-Good t r good =
      register_binary-Good _ neq t t _ (register_binary-Good r eq t t _ good)

  register_negate-Good : (t : TypeId) (r : Registry w) → GoodReg r → GoodReg (register_negate t r)
  unfolding register_negate
  register_negate-Good t r good = register_unary-Good r minus t _ good

  add_scalars-Good :
      (ts : List TypeId) (r : Registry w)
      → All (λ t. t ≢ error_type_id) ts
      → GoodReg r
      → GoodReg (add_scalars ts r)
  add_scalars-Good [] r h good = good
  add_scalars-Good (t ∷ ts) r h good = add_scalars-Good ts _ h.1 (types-Good r t _ good h.0 tt)

  register_std_math-Good : (r : Registry w) → GoodReg r → GoodReg (register_std_math r)
  unfolding register_std_math
  register_std_math-Good r good =
      let g1 =
        register_operators-Good _ _ _
          (add_scalars-Good builtin_scalars r builtin_scalars-NotError good) in
      let g3 =
        register_equality-Good bool_id _
          (register_equality-Good string_id _ (register_operators-Good _ _ _ g1)) in
      let g4 = register_binary-Good _ plus string_id string_id _ g3 in
      register_unary-Good _ bang bool_id _
        (register_negate-Good float_id _ (register_negate-Good integer_id _ g4))

  pub default_registry-Good : GoodReg {w = w} default_registry
  unfolding default_registry
  default_registry-Good = register_coercion-Good _ integer_id float_id _ (
      register_std_math-Good _
        (add_scalars-Good builtin_scalars _ builtin_scalars-NotError empty_registry-Good))
