-- ===== src/Examples/World.antt =====
-- A concrete choice of what the engine does not implement, and small values, tokens and expressions.
use tascript.Common.{none, some, [], ◌∷◌, Str, codes, ℤ, pos, beq_ℤ, ltb_ℤ, not, true}
use tascript.Token.{Token, ident, percent}
use tascript.Registry.Value.{World, Value, integer, integer_id}
use tascript.Registry.StdMath.{numeric_binary}
use tascript.Resolved.{
  Expr, infix_expr, slot_ref, SlotHead, SlotDecl, PortDecl, slot_decl, output_decl, input_decl,
  Stmts, then_do, done, assign_slot, Program,
}
use tascript.Evaluator.Stmt.{Sink}

-- Floats that are integers, and no host types.
abbrev pub small_world : World
small_world = record {
  Float = ℤ;
  float_add = λ a b. a;
  float_sub = λ a b. a;
  float_mul = λ a b. a;
  float_div = λ a b. a;
  float_mod = λ a b. a;
  float_neg = λ a. a;
  float_eq = beq_ℤ;
  float_lt = ltb_ℤ;
  float_le = λ a b. not (ltb_ℤ b a);
  float_of_int = λ n. n;
  Host = Unit;
  host_type = λ _. codes "Candle";
  host_eq = λ _ _. some true;
}

abbrev pub at_token : Str → Token
at_token name = record { pos = record { line = 1; col = 1 }; type = ident; literal = name }

-- `state count = 1`
abbrev pub count_head : SlotHead
count_head = record {
  token = at_token (codes "count");
  kind = codes "state";
  name = codes "count";
  type = integer_id;
  index = 0;
}

abbrev pub one_value : Value small_world
one_value = integer (pos 1)

abbrev pub number : ℤ → Expr small_world
number n = Expr.integer (at_token (codes "1")) n integer_id

abbrev pub count_decl : SlotDecl small_world
count_decl = record { head = count_head; init = some (number (pos 1)) }

abbrev pub price : PortDecl
price = record { token = at_token (codes "price"); name = codes "price"; type = integer_id }

abbrev pub signal : PortDecl
signal = record { token = at_token (codes "signal"); name = codes "signal"; type = integer_id }

-- `count % 0`
abbrev pub failing : Expr small_world
failing =
    infix_expr (at_token (codes "%")) (slot_ref (at_token (codes "count")) count_head)
      (number (pos 0)) integer_id (numeric_binary percent)

-- `count = 2`, then `count = count % 0`.
abbrev pub run_steps : Stmts small_world
run_steps =
    then_do (assign_slot (at_token (codes "=")) count_head (number (pos 2)) integer_id)
      (then_do (assign_slot (at_token (codes "=")) count_head failing integer_id) done)

abbrev pub program : Program small_world
program = record { decls = slot_decl count_decl ∷ []; init_fn = none; run_fn = some run_steps }

-- The same with an input and an output that the host must bind.
abbrev pub wired_program : Program small_world
wired_program = record program {
  decls = slot_decl count_decl ∷ input_decl price ∷ output_decl signal ∷ [];
}

abbrev pub any_sink : Sink small_world
any_sink = record { type = integer_id; accepts = λ _. true }
