-- ===== src/Examples/Compile.antt =====
-- resolver/ and tascript.go: the theorems at small syntax trees, and what the resolver makes of them.
use tascript.Common.{
  some, codes, false, none, [], ◌≡◌, refl, ok, err, panic, lookup, insert, str_eq, pair_eq, str_beq,
  nil_dereference, Outcome,
}
use tascript.Token.{plus, token_type_eq, token_beq, contains}
use tascript.Registry.Value.{integer_id, bool_id, scalar_shape}
use tascript.Registry.Rule.{BinaryRule, registry_sealed, division_by_zero}
use tascript.Registry.Register.{
  register_type, seal, lookup_binary, lookup_decl_kind, register_binary,
}
use tascript.Registry.StdMath.{numeric_binary, int_binary}
use tascript.Registry.Default.{default_registry}
use tascript.Registry.Good.{GoodReg, has_dot}
use tascript.Registry.GoodSteps.{Step-Good}
use tascript.Registry.GoodDefault.{default_registry-Good}
use tascript.Registry.Laws.{binary, types}
use tascript.Resolver.Plain.{Plain, PlainExprs, PlainKwargs, PlainStmt, PlainStmts, PlainProgram}
use tascript.Resolver.Post.{Post}
use tascript.Resolver.WholeTyped.{ResolvedOk, resolve-ResolvedOk}
use tascript.Resolver.Whole.{resolve}
use tascript.Resolver.Whole.{
  declared_symbols, resolve_decls, resolve_init_fn, resolve_run_fn, resolve_func,
}
use tascript.Resolver.Decl.{
  resolve_decl, resolve_kind_decl, unless_taken, declare_kind, check_initializer, declared_type,
  resolve_init, fit_init, declare_slot,
}
use tascript.Resolver.Stmt.{
  resolve_let, resolve_stmts, resolve_stmt, resolve_assign, resolve_assign_target, assign_target,
  assign_fitting,
}
use tascript.Resolver.Expr.{resolve_expr}
use tascript.Resolver.Operand.{
  resolve_infix, resolve_binary, resolve_slot_ref, ref_slot, decl_word, is_decl_word,
}
use tascript.Resolver.Scope.{
  env_from_registry, add_types, add_decl_words, add_reserved, find, bind, slot_symbol,
}
use tascript.Resolver.Check.{◌>>=◌, ◌>>◌, give, report, report_if, fail, error_count}
use tascript.Resolved.{expr_type}
use tascript.Evaluator.Failure.{Failure, runtime_failure, rule_message, to_failure, trap}
use tascript.Evaluator.Expr.{eval_expr, eval_slot_ref}
use tascript.Evaluator.Stmt.{exec, write_slot}
use tascript.Evaluator.Full.{IsEmptyRead}
use tascript.Executable.Laws.{inits, here, onward}
use tascript.Evaluator.Machine.{
  new_evaluator, slots_of, inputs_of, outputs_of, check_outputs, run_init, init_cell, init_slot,
  load_decl, load_decls, check_filled, call_init_fn, init_body, bind_inputs, call_run_fn, run_body,
  finish, activate, eval_run,
}
use tascript.Executable.{
  init_nested, init_nested_at, activate_nested, host_calls, Executable, compiled, run, run_at,
  engine, stage_initialized,
}
use tascript.Builder.{
  Builder, CompileError, Compiled, built, builder_spent, compile, compile_parsed,
}
use tascript.Builder.Laws.{
  compile-once, compile-closes, CompileOk, compile-CompileOk, compile-run-no-IsEmptyRead,
}
use tascript.Examples.World.{small_world}
use tascript.Examples.Scripts.{
  small_registry, script, failing_script, dotted_registry, dotted_script, small_registry-Good,
  small_registry-Undotted,
}

abbrev fresh : Builder small_world
fresh = record { reg = small_registry; spent = false }

script-Plain : PlainProgram script
unfolding Plain PlainExprs PlainKwargs PlainStmt PlainStmts has_dot
script-Plain = (
  (tt, ((refl, tt), tt)),
  (tt, (((refl, (tt, tt)), ((tt, ((tt, tt), (tt, tt))), ((tt, tt), tt))), λ h. cc)),
)

resolve-ResolvedOk_example : Post [] (ResolvedOk small_registry) (resolve small_registry script [])
resolve-ResolvedOk_example =
    resolve-ResolvedOk small_registry script small_registry-Good small_registry-Undotted
      script-Plain

compile-CompileOk_example : CompileOk small_registry (compile fresh script [])
compile-CompileOk_example =
    compile-CompileOk fresh script refl small_registry-Good small_registry-Undotted script-Plain

compile-once_example :
    compile (compile fresh script []).1 script [] ≡ (err builder_spent, (compile fresh script []).1)
compile-once_example = compile-once fresh script script [] []

compile-closes_example :
    ((register_type (compile fresh script []).1.reg (codes "Candle") scalar_shape).0
      ≡ some registry_sealed)
    × ((register_type (compile fresh script []).1.reg (codes "Candle") scalar_shape).1
        ≡ (compile fresh script []).1.reg)
compile-closes_example =
    compile-closes fresh script _ _ refl small_registry-Good small_registry-Undotted script-Plain
      (types (codes "Candle") scalar_shape)

abbrev integer_sum : BinaryRule small_world
integer_sum = record { eval_fn = numeric_binary plus; eval_type = integer_id }

Step-Good_example :
    GoodReg
      (register_binary {w = small_world} default_registry plus integer_id bool_id integer_sum).1
Step-Good_example =
    Step-Good default_registry _ _ default_registry-Good
      (binary plus integer_id bool_id integer_sum)

abbrev if_built :
    Executable small_world → Outcome CompileError (Compiled small_world) → Executable small_world
if_built x (ok (built y)) = y
if_built x _ = x

abbrev nothing : Executable small_world
nothing = compiled (record { decls = []; init_fn = none; run_fn = none }) small_registry

abbrev failing_executable : Executable small_world
failing_executable = if_built nothing (compile fresh failing_script []).0

abbrev failing_initialized : Executable small_world
failing_initialized = (init_nested [] failing_executable).1

failing_script-Plain : PlainProgram failing_script
unfolding Plain PlainStmt PlainStmts
failing_script-Plain = ((tt, tt), (tt, (((tt, (tt, tt)), tt), λ h. cc)))

failing-built : (compile fresh failing_script []).0 ≡ ok (built failing_executable)
unfolding compile compile_parsed resolve resolve_decls resolve_decl resolve_kind_decl
    lookup_decl_kind unless_taken declare_kind check_initializer declared_type resolve_init fit_init
    declare_slot resolve_init_fn resolve_run_fn resolve_func resolve_stmts resolve_stmt
    resolve_assign resolve_assign_target assign_target assign_fitting resolve_expr resolve_infix
    resolve_binary resolve_slot_ref ref_slot decl_word lookup_binary seal env_from_registry
    add_types add_decl_words add_reserved find bind slot_symbol ◌>>=◌ ◌>>◌ give report report_if
    fail error_count is_decl_word insert lookup str_beq token_beq expr_type compiled new_evaluator
    slots_of inputs_of outputs_of declared_symbols contains
failing-built = refl

compile-run-initialized : failing_initialized.stage ≡ stage_initialized
unfolding compile compile_parsed resolve resolve_decls resolve_decl resolve_kind_decl
    lookup_decl_kind unless_taken declare_kind check_initializer declared_type resolve_init fit_init
    declare_slot resolve_init_fn resolve_run_fn resolve_func resolve_stmts resolve_stmt
    resolve_assign resolve_assign_target assign_target assign_fitting resolve_expr resolve_infix
    resolve_binary resolve_slot_ref ref_slot decl_word lookup_binary seal env_from_registry
    add_types add_decl_words add_reserved find bind slot_symbol ◌>>=◌ ◌>>◌ give report report_if
    fail error_count is_decl_word insert lookup str_beq token_beq expr_type compiled new_evaluator
    slots_of inputs_of outputs_of declared_symbols contains init_nested init_nested_at
    activate_nested host_calls activate finish init_body check_outputs load_decls load_decl
    init_slot init_cell run_init eval_expr write_slot call_init_fn check_filled
compile-run-initialized = refl

abbrev modulo_failure : Failure
modulo_failure =
    runtime_failure (record { line = 1; col = 1 }) division_by_zero
      (rule_message "integer modulo by zero")

compile-run-fails : (run failing_initialized).0 ≡ err (engine modulo_failure)
unfolding compile compile_parsed resolve resolve_decls resolve_decl resolve_kind_decl
    lookup_decl_kind unless_taken declare_kind check_initializer declared_type resolve_init fit_init
    declare_slot resolve_init_fn resolve_run_fn resolve_func resolve_stmts resolve_stmt
    resolve_assign resolve_assign_target assign_target assign_fitting resolve_expr resolve_infix
    resolve_binary resolve_slot_ref ref_slot decl_word lookup_binary seal env_from_registry
    add_types add_decl_words add_reserved find bind slot_symbol ◌>>=◌ ◌>>◌ give report report_if
    fail error_count is_decl_word insert lookup str_beq token_beq expr_type compiled new_evaluator
    slots_of inputs_of outputs_of declared_symbols contains init_nested init_nested_at
    activate_nested host_calls activate finish init_body check_outputs load_decls load_decl
    init_slot init_cell run_init eval_expr write_slot call_init_fn check_filled run run_at eval_run
    run_body bind_inputs call_run_fn exec trap to_failure eval_slot_ref numeric_binary int_binary
compile-run-fails = refl

compile-run-no-IsEmptyRead_example : ¬ IsEmptyRead modulo_failure
compile-run-no-IsEmptyRead_example =
    compile-run-no-IsEmptyRead fresh failing_script failing_executable failing_initialized
      modulo_failure refl small_registry-Good small_registry-Undotted failing_script-Plain
      failing-built (onward _ _ _ (inits [] failing_executable) (here failing_initialized))
      compile-run-initialized compile-run-fails

dotted-panics : resolve dotted_registry dotted_script [] ≡ panic nil_dereference
unfolding compile compile_parsed resolve resolve_decls resolve_decl resolve_kind_decl
    lookup_decl_kind unless_taken declare_kind check_initializer declared_type resolve_init fit_init
    declare_slot resolve_init_fn resolve_run_fn resolve_func resolve_stmts resolve_stmt
    resolve_assign resolve_assign_target assign_target assign_fitting resolve_expr resolve_infix
    resolve_binary resolve_slot_ref ref_slot decl_word lookup_binary seal env_from_registry
    add_types add_decl_words add_reserved find bind slot_symbol ◌>>=◌ ◌>>◌ give report report_if
    fail error_count is_decl_word insert lookup str_beq token_beq expr_type compiled new_evaluator
    slots_of inputs_of outputs_of declared_symbols contains resolve_let
dotted-panics = refl
