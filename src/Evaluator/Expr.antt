-- ===== src/Evaluator/Expr.antt =====
-- evaluator/evaluator.go: `evalExpr` and what it calls. An expression changes no state.
use tascript.Common.{
  Bool, true, false, Option, none, some, List, ok, err, panic, ◌>>=◌, get_elem?, unhandled_node,
  operand_not_bool, unknown_identifier, out_of_range, ◌==◌, if◌then◌else◌,
}
use tascript.Token.{Token, TokenType, and, or, token_type_eq}
use tascript.Registry.Value.{World, Value, Fields, empty}
use tascript.Registry.Rule.{uninitialized_slot}
use tascript.Registry.Script.{fields_set}
use tascript.Resolved.{
  Expr, bad, ident, infix_expr, logical, prefix_expr, member_access, slot_ref, index_expr,
  method_call, coerce, Args, no_args, arg, SlotHead,
}
use tascript.Evaluator.Env.{Env, get}
use tascript.Evaluator.Failure.{Eval, trap, lift, runtime_failure, read_before_filled}

-- A cell is filled if it holds a value.
abbrev pub Slots : World → Type 0
Slots w = List (Option (Value w))

-- The `switch` of `evalLogical` on the left operand: the value that it returns early, if any.
unfoldable pub short_circuit : TokenType → Bool → Option Bool
short_circuit op left =
    if op == and
    then if left then none else some false
    else if op == or
    then if left then some true else none
    else none

module _ {w : World} where
  unfoldable pub to_bool : Value w → Eval Bool
  to_bool (Value.boolean b) = ok b
  to_bool _ = panic operand_not_bool

  unfoldable pub eval_ident : Token → Env w → Eval (Value w)
  eval_ident tok env = elim (get tok.literal env) [
    | some v ↦ ok v
    | none ↦ panic unknown_identifier
  ]

  unfoldable pub eval_slot_ref : Token → SlotHead → Slots w → Eval (Value w)
  eval_slot_ref tok slot slots = elim (get_elem? slots slot.index) [
    | some (some v) ↦ ok v
    | some none ↦
        err (runtime_failure tok.pos uninitialized_slot (read_before_filled slot.kind slot.name))
    | none ↦ panic out_of_range
  ]

unfoldable mutual
  pub eval_expr : {w : World} → Slots w → Env w → Expr w → Eval (Value w)
  eval_expr slots env (Expr.integer _ n _) = ok (Value.integer n)
  eval_expr slots env (Expr.float _ x _) = ok (Value.float x)
  eval_expr slots env (Expr.string _ s _) = ok (Value.string s)
  eval_expr slots env (Expr.boolean _ b _) = ok (Value.boolean b)
  eval_expr slots env (ident tok _) = eval_ident tok env
  eval_expr slots env (infix_expr tok left right _ eval_fn) = do
    l ← eval_expr slots env left
    r ← eval_expr slots env right
    trap tok (eval_fn l r)
  eval_expr slots env (logical tok left right) = do
    l ← eval_expr slots env left
    b ← to_bool l
    elim (short_circuit tok.type b) [
      | some early ↦ ok (Value.boolean early)
      | none ↦ eval_expr slots env right >>= λ r. to_bool r >>= λ c. ok (Value.boolean c)
    ]
  eval_expr slots env (prefix_expr tok right eval_fn _) = do
    r ← eval_expr slots env right
    trap tok (eval_fn r)
  eval_expr slots env (coerce inner _ eval_fn) = do v ← eval_expr slots env inner; lift (eval_fn v)
  eval_expr slots env (member_access tok object _ _ eval_fn) = do
    o ← eval_expr slots env object
    trap tok (eval_fn o)
  eval_expr slots env (method_call tok receiver _ args _ eval_fn) = do
    v ← eval_expr slots env receiver
    fields ← eval_args slots env args empty
    trap tok (eval_fn v fields)
  eval_expr slots env (slot_ref tok slot) = eval_slot_ref tok slot slots
  eval_expr slots env (index_expr _ _ _ _) = panic unhandled_node
  eval_expr slots env (bad _) = panic unhandled_node

  -- The loops over `expr.Args` and `stmt.Args`, which fill a map.
  pub eval_args : {w : World} → Slots w → Env w → Args w → Fields w → Eval (Fields w)
  eval_args slots env no_args fields = ok fields
  eval_args slots env (arg _ name value rest) fields = do
    v ← eval_expr slots env value
    eval_args slots env rest (fields_set name v fields)
