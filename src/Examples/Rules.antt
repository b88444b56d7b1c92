-- ===== src/Examples/Rules.antt =====
-- registry/: the theorems at the default registry.
use tascript.Common.{
  some, ◌≡◌, refl, pos, negsuc, true, false, ◌+◌, ◌*◌, ok, ◌+ℤ◌, ◌*ℤ◌, ◌^◌, ℤ, arith, lookup,
  str_eq,
}
use tascript.Token.{plus, percent, and}
use tascript.Registry.Value.{Value, integer, bool_id, integer_id}
use tascript.Registry.Rule.{BinaryRule, Registry, empty_registry}
use tascript.Registry.Register.{register_binary, lookup_binary}
use tascript.Registry.StdMath.{eval_scalar_eq, numeric_binary}
use tascript.Registry.Default.{default_registry}
use tascript.Registry.Laws.{binary}
use tascript.Registry.Widens.{Widens}
use tascript.Registry.Widening.{ModulesTyped, Step-Widens}
use tascript.Registry.Sound.{remains, int_num, HasNum, int_value, Returns, arithmetic-Returns}
use tascript.Registry.Integers.{signed, sum, numeric_binary-wraps, numeric_binary-truncates}
use tascript.Examples.World.{small_world}

abbrev seven : Value small_world
seven = integer (pos 7)

seven-HasNum : HasNum int_num seven
seven-HasNum = int_value (pos 7) (omega arith, omega arith)

arithmetic-Returns_example :
    (rule : BinaryRule small_world) × (lookup_binary default_registry percent integer_id integer_id
      ≡ some rule)
    × (rule.eval_type ≡ integer_id)
    × Returns int_num (rule.eval_fn seven seven)
arithmetic-Returns_example =
    arithmetic-Returns remains int_num int_num seven seven seven-HasNum seven-HasNum

abbrev both_bools : BinaryRule small_world
both_bools = record { eval_fn = eval_scalar_eq; eval_type = bool_id }

abbrev plain_registry : Registry small_world
plain_registry = empty_registry

no_modules : ModulesTyped plain_registry
unfolding lookup
no_modules name v h = cc

Step-Widens_example :
    Widens plain_registry (register_binary plain_registry and bool_id bool_id both_bools).1
Step-Widens_example =
    Step-Widens plain_registry _ _ no_modules (binary and bool_id bool_id both_bools)

-- 2^63 - 1 and -2^63.
abbrev max_int : ℤ
max_int = pos 9223372036854775807

abbrev min_int : ℤ
min_int = negsuc 9223372036854775807

max_int-next : max_int +ℤ pos 1 ≡ min_int +ℤ pos 1 *ℤ pos (2 ^ 64)
unfolding ◌+ℤ◌ ◌*ℤ◌
max_int-next = refl

numeric_binary-wraps_example :
    numeric_binary {w = small_world} plus (integer max_int) (integer (pos 1)) ≡ ok (integer min_int)
numeric_binary-wraps_example =
    numeric_binary-wraps sum max_int (pos 1) min_int (pos 1) (omega arith, omega arith) max_int-next

numeric_binary-truncates_example :
    numeric_binary {w = small_world} percent
      (integer (signed true (2 * 3 + 1)))
      (integer (signed false 3))
    ≡ ok (integer (signed true 1))
numeric_binary-truncates_example = numeric_binary-truncates true false 2 3 1 (omega arith)
