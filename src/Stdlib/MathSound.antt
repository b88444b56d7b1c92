-- ===== src/Stdlib/MathSound.antt =====
-- stdlib/math.go: what the functions of the module `math` take and return.
use tascript.Common.{
  Bool, none, some, Option, List, [], ◌∷◌, Str, String, codes, ◌≡◌, refl, ok, err, All, lookup,
  insert, str_beq, str_eq, pair_eq, if-elim,
}
use tascript.Token.{token_beq, token_type_eq}
use tascript.Registry.Value.{float_id, World, Value, float, Fields}
use tascript.Registry.Rule.{CallRule, ParamRule, Call, registry_error, invalid_argument}
use tascript.Registry.Register.{
  lookup_call, register_module, register_call, register_member_access, register_binary,
  register_unary, register_coercion, add_type, check_open, reject_reserved, reject_decl_kind_word,
  commit, ◌orelse◌,
}
use tascript.Registry.Script.{fields_get}
use tascript.Registry.StdMath.{as_float, int_to_float}
use tascript.Registry.Default.{
  default_registry, register_std_math, register_numeric, register_operators, register_equality,
  register_negate, arithmetic_rule, comparison_rule,
}
use tascript.Registry.Sound.{Num, HasNum, int_value, float_value}
use tascript.Stdlib.Math.{
  GoMath, math_id, unary_rule, binary_rule, outside, math_round, math_sign, is_non_negative,
  is_positive, register_math_const, register_unary_in_domain, register_unary_math,
  register_binary_math, register_functions, register_math,
}

-- The functions, with the names of their parameters.
pub data MathFunction : Str → List Str → Type 0 where
  abs_fn : MathFunction (codes "abs") (codes "number" ∷ [])
  sqrt_fn : MathFunction (codes "sqrt") (codes "number" ∷ [])
  floor_fn : MathFunction (codes "floor") (codes "number" ∷ [])
  ceil_fn : MathFunction (codes "ceil") (codes "number" ∷ [])
  round_fn : MathFunction (codes "round") (codes "number" ∷ [])
  trunc_fn : MathFunction (codes "trunc") (codes "number" ∷ [])
  sign_fn : MathFunction (codes "sign") (codes "number" ∷ [])
  log_fn : MathFunction (codes "log") (codes "number" ∷ [])
  max_fn : MathFunction (codes "max") (codes "a" ∷ codes "b" ∷ [])
  min_fn : MathFunction (codes "min") (codes "a" ∷ codes "b" ∷ [])
  pow_fn : MathFunction (codes "pow") (codes "base" ∷ codes "exponent" ∷ [])

abbrev pub param_names : List ParamRule → List Str
param_names [] = []
param_names (p ∷ ps) = p.name ∷ param_names ps

-- A call ends with a float, or with an invalid argument.
pub data ReturnsFloat {w : World} : Call w → Type 0 where
  returns : (x : w.Float) → ReturnsFloat (ok (float x))
  invalid : (m : String) → ReturnsFloat (err (registry_error invalid_argument m))

module _ {w : World} where
  abbrev pub IsNumber : Value w → Type 0
  IsNumber v = (n : Num) × HasNum n v

  as_float-number : (v : Value w) → IsNumber v → (x : w.Float) × (as_float v ≡ ok x)
  unfolding as_float
  as_float-number _ (_, int_value n h) = (w.float_of_int n, refl)
  as_float-number _ (_, float_value x) = (x, refl)

  unary-ReturnsFloat :
      (fn : w.Float → w.Float) (domain : Option (w.Float → Bool)) (m : String) (receiver : Value w)
      (args : Fields w)
      → IsNumber (fields_get (codes "number") args)
      → ReturnsFloat ((unary_rule fn domain m).eval_fn receiver args)
  unary-ReturnsFloat fn domain m receiver args h =
      let (x, e) = as_float-number (fields_get (codes "number") args) h in
      rw e (if-elim (ReturnsFloat {w = w}) (outside domain x) (invalid m) (returns (fn x)))

  binary-ReturnsFloat :
      (left right : Str) (fn : w.Float → w.Float → w.Float) (receiver : Value w) (args : Fields w)
      → IsNumber (fields_get left args)
      → IsNumber (fields_get right args)
      → ReturnsFloat ((binary_rule left right fn).eval_fn receiver args)
  binary-ReturnsFloat left right fn receiver args h k =
      let (x, e) = as_float-number (fields_get left args) h in
      let (y, d) = as_float-number (fields_get right args) k in rw (e, d) (returns (fn x y))

  -- The rule of a function.
  abbrev rule_of : GoMath w → {name : Str} {ps : List Str} → MathFunction name ps → CallRule w
  rule_of go abs_fn = unary_rule go.abs none ""
  rule_of go sqrt_fn = unary_rule go.sqrt (some (is_non_negative w)) "sqrt of a negative number"
  rule_of go floor_fn = unary_rule go.floor none ""
  rule_of go ceil_fn = unary_rule go.ceil none ""
  rule_of go round_fn = unary_rule (math_round go) none ""
  rule_of go trunc_fn = unary_rule go.trunc none ""
  rule_of go sign_fn = unary_rule (math_sign go) none ""
  rule_of go log_fn = unary_rule go.log (some (is_positive w)) "log of a non-positive number"
  rule_of go max_fn = binary_rule (codes "a") (codes "b") go.max
  rule_of go min_fn = binary_rule (codes "a") (codes "b") go.min
  rule_of go pow_fn = binary_rule (codes "base") (codes "exponent") go.pow

  math_entry :
      (go : GoMath w) {name : Str} {ps : List Str} (f : MathFunction name ps)
      → lookup_call (register_math go default_registry).1 math_id name ≡ some (rule_of go f)
  unfolding lookup_call register_math register_functions register_math_const
      register_unary_in_domain register_unary_math register_binary_math register_module
      register_call register_member_access add_type reject_decl_kind_word default_registry
      register_std_math register_negate register_equality register_operators comparison_rule
      arithmetic_rule register_numeric register_binary register_unary register_coercion check_open
      reject_reserved commit ◌orelse◌ lookup insert str_beq token_beq int_to_float
  math_entry go abs_fn = refl
  math_entry go sqrt_fn = refl
  math_entry go floor_fn = refl
  math_entry go ceil_fn = refl
  math_entry go round_fn = refl
  math_entry go trunc_fn = refl
  math_entry go sign_fn = refl
  math_entry go log_fn = refl
  math_entry go max_fn = refl
  math_entry go min_fn = refl
  math_entry go pow_fn = refl

  rule_of-ReturnsFloat :
      (go : GoMath w) {name : Str} {ps : List Str} (f : MathFunction name ps) (receiver : Value w)
      (args : Fields w)
      → All (λ p. IsNumber (fields_get p args)) ps
      → ReturnsFloat ((rule_of go f).eval_fn receiver args)
  rule_of-ReturnsFloat go abs_fn receiver args h = unary-ReturnsFloat _ none "" receiver args h.0
  rule_of-ReturnsFloat go sqrt_fn receiver args h =
      unary-ReturnsFloat go.sqrt (some (is_non_negative w)) _ receiver args h.0
  rule_of-ReturnsFloat go floor_fn receiver args h = unary-ReturnsFloat _ none "" receiver args h.0
  rule_of-ReturnsFloat go ceil_fn receiver args h = unary-ReturnsFloat _ none "" receiver args h.0
  rule_of-ReturnsFloat go round_fn receiver args h =
      unary-ReturnsFloat (math_round go) none "" receiver args h.0
  rule_of-ReturnsFloat go trunc_fn receiver args h = unary-ReturnsFloat _ none "" receiver args h.0
  rule_of-ReturnsFloat go sign_fn receiver args h =
      unary-ReturnsFloat (math_sign go) none "" receiver args h.0
  rule_of-ReturnsFloat go log_fn receiver args h =
      unary-ReturnsFloat go.log (some (is_positive w)) _ receiver args h.0
  rule_of-ReturnsFloat go max_fn receiver args h =
      binary-ReturnsFloat _ _ go.max receiver args h.0 h.1.0
  rule_of-ReturnsFloat go min_fn receiver args h =
      binary-ReturnsFloat _ _ go.min receiver args h.0 h.1.0
  rule_of-ReturnsFloat go pow_fn receiver args h =
      binary-ReturnsFloat _ _ go.pow receiver args h.0 h.1.0

  rule_of-params :
      (go : GoMath w) {name : Str} {ps : List Str} (f : MathFunction name ps)
      → (param_names (rule_of go f).args ≡ ps) × ((rule_of go f).eval_type ≡ float_id)
  rule_of-params go abs_fn = (refl, refl)
  rule_of-params go sqrt_fn = (refl, refl)
  rule_of-params go floor_fn = (refl, refl)
  rule_of-params go ceil_fn = (refl, refl)
  rule_of-params go round_fn = (refl, refl)
  rule_of-params go trunc_fn = (refl, refl)
  rule_of-params go sign_fn = (refl, refl)
  rule_of-params go log_fn = (refl, refl)
  rule_of-params go max_fn = (refl, refl)
  rule_of-params go min_fn = (refl, refl)
  rule_of-params go pow_fn = (refl, refl)

  -- On the default registry, `RegisterMath` registers each of the eleven functions of `math`, with the
  -- parameters named and the type Float. Whatever Go's math package returns, and given a number for each
  -- parameter, a call ends with a float or with an invalid argument: it never panics.
  pub register_math-ReturnsFloat :
      (go : GoMath w) {name : Str} {ps : List Str} (f : MathFunction name ps) (receiver : Value w)
      (args : Fields w)
      → All (λ p. IsNumber (fields_get p args)) ps
      → (rule : CallRule w) × (lookup_call (register_math go default_registry).1 math_id name
          ≡ some rule)
        × ((param_names rule.args ≡ ps) × (rule.eval_type ≡ float_id))
        × ReturnsFloat (rule.eval_fn receiver args)
  register_math-ReturnsFloat go f receiver args h = (
    rule_of go f,
    math_entry go f,
    rule_of-params go f,
    rule_of-ReturnsFloat go f receiver args h,
  )
