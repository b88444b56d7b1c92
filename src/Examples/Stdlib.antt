-- ===== src/Examples/Stdlib.antt =====
-- stdlib/: the theorems at small arguments.
use tascript.Common.{false, some, [], ◌∷◌, codes, ◌≡◌, pos, arith, str_beq}
use tascript.Registry.Value.{float_id, Value, nil, integer, Fields, empty, field}
use tascript.Registry.Rule.{CallRule}
use tascript.Registry.Register.{lookup_call}
use tascript.Registry.Default.{default_registry}
use tascript.Registry.Sound.{int_num, int_value}
use tascript.Registry.Script.{fields_get}
use tascript.Stdlib.Math.{GoMath, math_id, register_math}
use tascript.Stdlib.MathSound.{
  sqrt_fn, param_names, ReturnsFloat, IsNumber, register_math-ReturnsFloat,
}
use tascript.Examples.World.{small_world}

abbrev small_math : GoMath small_world
small_math = record {
  pi = pos 3;
  e = pos 2;
  half = pos 0;
  abs = λ x. x;
  sqrt = λ x. x;
  floor = λ x. x;
  ceil = λ x. x;
  trunc = λ x. x;
  log = λ x. x;
  max = λ x y. x;
  min = λ x y. y;
  pow = λ x y. x;
  copysign = λ x y. x;
  is_nan = λ _. false;
  is_inf = λ _. false;
}

abbrev number_nine : Fields small_world
number_nine = field (codes "number") (integer (pos 9)) empty

abbrev no_receiver : Value small_world
no_receiver = nil

number_nine-IsNumber : IsNumber (fields_get (codes "number") number_nine)
unfolding fields_get str_beq
number_nine-IsNumber = (int_num, int_value (pos 9) (omega arith, omega arith))

register_math-ReturnsFloat_example :
    (rule : CallRule small_world) × (lookup_call
        (register_math small_math default_registry).1
        math_id
        (codes "sqrt")
      ≡ some rule)
    × ((param_names rule.args ≡ codes "number" ∷ []) × (rule.eval_type ≡ float_id))
    × ReturnsFloat (rule.eval_fn no_receiver number_nine)
register_math-ReturnsFloat_example =
    register_math-ReturnsFloat small_math sqrt_fn no_receiver number_nine (number_nine-IsNumber, tt)
