-- ===== src/Registry/Default.antt =====
-- registry/std_math.go and registry/registry.go: the tables of the built-in operators, their
-- registration, and `DefaultRegistry`.
use tascript.Common.{List, [], ◌∷◌, insert, str_eq, pair_eq}
use tascript.Token.{
  token_type_eq, TokenType, plus, minus, asterisk, slash, percent, eq, neq, lt, gt, lteq, gteq,
  bang,
}
use tascript.Registry.Value.{TypeId, integer_id, float_id, string_id, bool_id, scalar_shape, World}
use tascript.Registry.Rule.{BinaryRule, Registry, empty_registry}
use tascript.Registry.Register.{register_binary, register_unary, register_coercion}
use tascript.Registry.StdMath.{
  numeric_binary, numeric_compare, eval_scalar_eq, eval_scalar_neq, eval_numeric_negate,
  eval_string_concat, eval_bool_not, int_to_float,
}

abbrev pub arithmetic_operators : List TokenType
arithmetic_operators = plus ∷ minus ∷ asterisk ∷ slash ∷ percent ∷ []

abbrev pub builtin_scalars : List TypeId
builtin_scalars = integer_id ∷ float_id ∷ string_id ∷ bool_id ∷ []

abbrev pub comparison_operators : List TokenType
comparison_operators = eq ∷ neq ∷ lt ∷ gt ∷ lteq ∷ gteq ∷ []

pub record NumericPair : Type 0 where
  pub left : TypeId
  pub right : TypeId
  pub result : TypeId

abbrev pub numeric_type_pairs : List NumericPair
numeric_type_pairs =
    record { left = integer_id; right = integer_id; result = integer_id }
    ∷ record { left = integer_id; right = float_id; result = float_id }
    ∷ record { left = float_id; right = integer_id; result = float_id }
    ∷ record { left = float_id; right = float_id; result = float_id }
    ∷ []

abbrev pub arithmetic_type : TokenType → TypeId → TypeId
arithmetic_type slash t = float_id
arithmetic_type _ t = t

module _ {w : World} where
  unfoldable pub register_numeric :
      List NumericPair → TokenType → (NumericPair → BinaryRule w) → Registry w → Registry w
  register_numeric [] op rule r = r
  register_numeric (p ∷ ps) op rule r =
      register_numeric ps op rule (register_binary r op p.left p.right (rule p)).1

  unfoldable pub arithmetic_rule : TokenType → NumericPair → BinaryRule w
  arithmetic_rule op p = record {
    eval_fn = numeric_binary op;
    eval_type = arithmetic_type op p.result;
  }

  unfoldable pub comparison_rule : TokenType → NumericPair → BinaryRule w
  comparison_rule op p = record { eval_fn = numeric_compare op; eval_type = bool_id }

  unfoldable pub register_operators :
      List TokenType → (TokenType → NumericPair → BinaryRule w) → Registry w → Registry w
  register_operators [] rule r = r
  register_operators (op ∷ ops) rule r =
      register_operators ops rule (register_numeric numeric_type_pairs op (rule op) r)

  unfoldable pub register_equality : TypeId → Registry w → Registry w
  register_equality t r =
      let r₁ =
        (register_binary r eq t t (record { eval_fn = eval_scalar_eq; eval_type = bool_id })).1 in
      (register_binary r₁ neq t t (record { eval_fn = eval_scalar_neq; eval_type = bool_id })).1

  unfoldable pub register_negate : TypeId → Registry w → Registry w
  register_negate t r =
      (register_unary r minus t (record { eval_fn = eval_numeric_negate; eval_type = t })).1

  abbrev pub add_scalars : List TypeId → Registry w → Registry w
  add_scalars [] r = r
  add_scalars (t ∷ ts) r =
      add_scalars ts
        (record r { types = insert t (record { shape = scalar_shape; fields = [] }) r.types })

  unfoldable pub register_std_math : Registry w → Registry w
  register_std_math r =
      let r₁ =
        register_operators arithmetic_operators arithmetic_rule (add_scalars builtin_scalars r) in
      let r₂ = register_operators comparison_operators comparison_rule r₁ in
      let r₃ = register_equality bool_id (register_equality string_id r₂) in
      let r₄ =
        (register_binary r₃ plus string_id string_id
          (record { eval_fn = eval_string_concat; eval_type = string_id })).1 in
      let r₅ = register_negate float_id (register_negate integer_id r₄) in
      (register_unary r₅ bang bool_id (record { eval_fn = eval_bool_not; eval_type = bool_id })).1

  unfoldable pub default_registry : Registry w
  default_registry =
      (register_coercion (register_std_math (add_scalars builtin_scalars empty_registry)) integer_id
        float_id int_to_float).1
