-- ===== src/Stdlib/Math.antt =====
-- stdlib/math.go: the module `math`. Go's package math is a record of operations, of which nothing is
-- assumed; `as_float` is that of registry/std_math.go, which stdlib/cast.go repeats.
use tascript.Common.{
  Bool, false, not, ◌&&◌, ◌||◌, Option, none, some, [], ◌∷◌, Str, String, codes, ok, err, pos,
  negsuc, if◌then◌else◌, ◌>>=◌,
}
use tascript.Registry.Value.{TypeId, float_id, World, float}
use tascript.Registry.Rule.{CallRule, ParamRule, Registry, registry_error, invalid_argument}
use tascript.Registry.Register.{Registered, register_module, register_member_access, register_call}
use tascript.Registry.Script.{fields_get}
use tascript.Registry.StdMath.{as_float}

-- What is used of Go's package math, and the constant 0.5.
pub record GoMath (w : World) : Type 0 where
  pub pi : w.Float
  pub e : w.Float
  pub half : w.Float
  pub abs : w.Float → w.Float
  pub sqrt : w.Float → w.Float
  pub floor : w.Float → w.Float
  pub ceil : w.Float → w.Float
  pub trunc : w.Float → w.Float
  pub log : w.Float → w.Float
  pub max : w.Float → w.Float → w.Float
  pub min : w.Float → w.Float → w.Float
  pub pow : w.Float → w.Float → w.Float
  pub copysign : w.Float → w.Float → w.Float
  pub is_nan : w.Float → Bool
  pub is_inf : w.Float → Bool

abbrev pub float_param : Str → ParamRule
float_param name = record { type = float_id; name = name; exact = false }

-- The module's type id.
abbrev pub math_id : TypeId
math_id = codes "math"

abbrev pub zero_float : (w : World) → w.Float
zero_float w = w.float_of_int (pos 0)

abbrev pub minus_one : (w : World) → w.Float
minus_one w = w.float_of_int (negsuc 0)

unfoldable pub is_non_negative : (w : World) → w.Float → Bool
is_non_negative w x = w.float_le (zero_float w) x

unfoldable pub is_positive : (w : World) → w.Float → Bool
is_positive w x = w.float_lt (zero_float w) x

-- `domainCheckFn != nil && !domainCheckFn(number)`
abbrev pub outside : {A : Type 0} → Option (A → Bool) → A → Bool
outside none x = false
outside (some domain) x = not (domain x)

module _ {w : World} where
  unfoldable pub math_round : GoMath w → w.Float → w.Float
  math_round go x =
      if go.is_nan x || go.is_inf x || w.float_eq x (zero_float w)
      then x
      else if w.float_lt x (zero_float w) && w.float_le (w.float_neg go.half) x
      then go.copysign (zero_float w) (minus_one w)
      else go.floor (w.float_add x go.half)

  unfoldable pub math_sign : GoMath w → w.Float → w.Float
  math_sign go x =
      if go.is_nan x || w.float_eq x (zero_float w)
      then x
      else if w.float_lt x (zero_float w)
      then minus_one w
      else w.float_of_int (pos 1)

  unfoldable pub register_math_const : Str → w.Float → Registry w → Registry w
  register_math_const name x r =
      (register_member_access r math_id name
        (record { eval_fn = λ _. ok (float x); eval_type = float_id })).1

  abbrev pub unary_rule : (w.Float → w.Float) → Option (w.Float → Bool) → String → CallRule w
  unary_rule fn domain message = record {
    args = float_param (codes "number") ∷ [];
    eval_fn = λ _ args. as_float (fields_get (codes "number") args) >>= λ x.
        if outside domain x
        then err (registry_error invalid_argument message)
        else ok (float (fn x));
    eval_type = float_id;
  }

  unfoldable pub register_unary_in_domain :
      Str → (w.Float → w.Float) → Option (w.Float → Bool) → String → Registry w → Registry w
  register_unary_in_domain name fn domain message r =
      (register_call r math_id name (unary_rule fn domain message)).1

  unfoldable pub register_unary_math : Str → (w.Float → w.Float) → Registry w → Registry w
  register_unary_math name fn r = register_unary_in_domain name fn none "" r

  abbrev pub binary_rule : Str → Str → (w.Float → w.Float → w.Float) → CallRule w
  binary_rule left right fn = record {
    args = float_param left ∷ float_param right ∷ [];
    eval_fn = λ _ args. as_float (fields_get left args) >>= λ x.
        as_float (fields_get right args) >>= λ y. ok (float (fn x y));
    eval_type = float_id;
  }

  unfoldable pub register_binary_math :
      Str → Str → Str → (w.Float → w.Float → w.Float) → Registry w → Registry w
  register_binary_math name left right fn r =
      (register_call r math_id name (binary_rule left right fn)).1

  unfoldable pub register_functions : GoMath w → Registry w → Registry w
  register_functions go r =
      let r₁ = register_math_const (codes "E") go.e (register_math_const (codes "PI") go.pi r) in
      let r₂ = register_unary_math (codes "abs") go.abs r₁ in
      let r₃ =
        register_unary_in_domain (codes "sqrt") go.sqrt (some (is_non_negative w))
          "sqrt of a negative number" r₂ in
      let r₄ =
        register_unary_math (codes "ceil") go.ceil
          (register_unary_math (codes "floor") go.floor r₃) in
      let r₅ =
        register_unary_math (codes "trunc") go.trunc
          (register_unary_math (codes "round") (math_round go) r₄) in
      let r₆ = register_unary_math (codes "sign") (math_sign go) r₅ in
      let r₇ =
        register_unary_in_domain (codes "log") go.log (some (is_positive w))
          "log of a non-positive number" r₆ in
      let r₈ = register_binary_math (codes "max") (codes "a") (codes "b") go.max r₇ in
      let r₉ = register_binary_math (codes "min") (codes "a") (codes "b") go.min r₈ in
      register_binary_math (codes "pow") (codes "base") (codes "exponent") go.pow r₉

  abbrev pub with_functions : GoMath w → Registered w → Registered w
  with_functions go (some e, r) = (some e, r)
  with_functions go (none, r) = (none, register_functions go r)

  -- `RegisterMath`
  unfoldable pub register_math : GoMath w → Registry w → Registered w
  register_math go r = with_functions go (register_module r (codes "math")).1
