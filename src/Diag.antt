-- ===== src/Diag.antt =====
-- diag/diag.go: the diagnostics of the parser and of the resolver, with the code, the phase and the
-- position that each reports. Their messages are left out.
use tascript.Common.{ℕ, String, Str}
use tascript.Token.{Pos, TokenType}
use tascript.Registry.Value.{TypeId}
use tascript.Registry.Rule.{RegistryError}

pub data Phase : Type 0 where
  phase_parse phase_check phase_runtime : Phase

-- The fields in the order of the source, the position first. A binding kind is its text; the reason of
-- a failed registration is the registry's error.
pub data Diagnostic : Type 0 where
  unexpected_token : Pos → TokenType → TokenType → Diagnostic
  expression_expected : Pos → TokenType → Diagnostic
  number_out_of_range : Pos → TokenType → Str → Diagnostic
  type_expected : Pos → Diagnostic
  empty_custom_type : Pos → Diagnostic
  forbidden_function : Pos → Diagnostic
  empty_function : Pos → Diagnostic
  arg_order_invalid : Pos → Diagnostic
  missing_run : Pos → Diagnostic
  top_decl_unexpected : Pos → Diagnostic
  top_decl_misplaced : Pos → TokenType → Diagnostic
  nesting_too_deep : Pos → Diagnostic
  duplicate_declaration : Pos → Str → Str → Diagnostic
  reserved_name : Pos → Str → Str → Diagnostic
  slot_undeclared : Pos → Str → Str → Diagnostic
  unknown_decl_keyword : Pos → Str → Diagnostic
  initializer_required : Pos → Str → Str → Diagnostic
  initializer_forbidden : Pos → Str → Str → Diagnostic
  type_required : Pos → Str → Str → Diagnostic
  decl_type_not_allowed : Pos → Str → TypeId → Diagnostic
  use_before_declaration : Pos → Str → Diagnostic
  input_in_init : Pos → Str → Diagnostic
  invalid_binary_operation : Pos → Str → TypeId → TypeId → Diagnostic
  invalid_unary_operation : Pos → Str → TypeId → Diagnostic
  undefined_ident : Pos → Str → Diagnostic
  undefined_var : Pos → Str → Diagnostic
  not_readable : Pos → Str → Str → Diagnostic
  invalid_emit_target : Pos → Diagnostic
  not_assignable : Pos → Str → Str → Diagnostic
  invalid_assign_target : Pos → Diagnostic
  undefined_type : Pos → Str → Diagnostic
  undefined_attribute : Pos → Str → Diagnostic
  undefined_method : Pos → Str → Diagnostic
  not_indexable : Pos → TypeId → Diagnostic
  undefined_func : Pos → Str → Diagnostic
  not_callable : Pos → Diagnostic
  emit_not_expression : Pos → Diagnostic
  emit_outside_run : Pos → Diagnostic
  arg_count_mismatch : Pos → ℕ → ℕ → Diagnostic
  arg_missing : Pos → Str → Diagnostic
  arg_duplicate : Pos → Str → Diagnostic
  arg_unknown : Pos → Str → Diagnostic
  type_mismatch : Pos → TypeId → TypeId → Diagnostic
  type_registration_fail : Pos → Str → RegistryError → Diagnostic

unfoldable pub code : Diagnostic → String
code (unexpected_token _ _ _) = "UNEXPECTED_TOKEN"
code (expression_expected _ _) = "EXPRESSION_EXPECTED"
code (number_out_of_range _ _ _) = "NUMBER_OUT_OF_RANGE"
code (type_expected _) = "TYPE_EXPECTED"
code (empty_custom_type _) = "EMPTY_CUSTOM_TYPE"
code (forbidden_function _) = "FORBIDDEN_FUNCTION"
code (empty_function _) = "EMPTY_FUNCTION"
code (arg_order_invalid _) = "ARG_ORDER_INVALID"
code (missing_run _) = "MISSING_RUN"
code (top_decl_unexpected _) = "TOP_DECL_UNEXPECTED"
code (top_decl_misplaced _ _) = "TOP_DECL_MISPLACED"
code (nesting_too_deep _) = "NESTING_TOO_DEEP"
code (duplicate_declaration _ _ _) = "DUPLICATE_DECLARATION"
code (reserved_name _ _ _) = "RESERVED_NAME"
code (slot_undeclared _ _ _) = "SLOT_UNDECLARED"
code (unknown_decl_keyword _ _) = "UNKNOWN_DECL_KEYWORD"
code (initializer_required _ _ _) = "INITIALIZER_REQUIRED"
code (initializer_forbidden _ _ _) = "INITIALIZER_FORBIDDEN"
code (type_required _ _ _) = "TYPE_REQUIRED"
code (decl_type_not_allowed _ _ _) = "DECL_TYPE_NOT_ALLOWED"
code (use_before_declaration _ _) = "USE_BEFORE_DECLARATION"
code (input_in_init _ _) = "INPUT_IN_INIT"
code (invalid_binary_operation _ _ _ _) = "INVALID_OPERATION"
code (invalid_unary_operation _ _ _) = "INVALID_OPERATION"
code (undefined_ident _ _) = "UNDEFINED_IDENT"
code (undefined_var _ _) = "UNDEFINED_VAR"
code (not_readable _ _ _) = "NOT_READABLE"
code (invalid_emit_target _) = "INVALID_EMIT_TARGET"
code (not_assignable _ _ _) = "NOT_ASSIGNABLE"
code (invalid_assign_target _) = "INVALID_ASSIGN_TARGET"
code (undefined_type _ _) = "UNDEFINED_TYPE"
code (undefined_attribute _ _) = "UNDEFINED_ATTRIBUTE"
code (undefined_method _ _) = "UNDEFINED_METHOD"
code (not_indexable _ _) = "NOT_INDEXABLE"
code (undefined_func _ _) = "UNDEFINED_FUNC"
code (not_callable _) = "NOT_CALLABLE"
code (emit_not_expression _) = "EMIT_NOT_EXPRESSION"
code (emit_outside_run _) = "EMIT_OUTSIDE_RUN"
code (arg_count_mismatch _ _ _) = "ARG_COUNT_MISMATCH"
code (arg_missing _ _) = "ARG_MISSING"
code (arg_duplicate _ _) = "ARG_DUPLICATE"
code (arg_unknown _ _) = "ARG_UNKNOWN"
code (type_mismatch _ _ _) = "TYPE_MISMATCH"
code (type_registration_fail _ _ _) = "TYPE_REGISTRATION_FAILED"

abbrev pub phase : Diagnostic → Phase
phase (unexpected_token _ _ _) = phase_parse
phase (expression_expected _ _) = phase_parse
phase (number_out_of_range _ _ _) = phase_parse
phase (type_expected _) = phase_parse
phase (empty_custom_type _) = phase_parse
phase (forbidden_function _) = phase_parse
phase (empty_function _) = phase_parse
phase (arg_order_invalid _) = phase_parse
phase (missing_run _) = phase_parse
phase (top_decl_unexpected _) = phase_parse
phase (top_decl_misplaced _ _) = phase_parse
phase (nesting_too_deep _) = phase_parse
phase (duplicate_declaration _ _ _) = phase_check
phase (reserved_name _ _ _) = phase_check
phase (slot_undeclared _ _ _) = phase_check
phase (unknown_decl_keyword _ _) = phase_check
phase (initializer_required _ _ _) = phase_check
phase (initializer_forbidden _ _ _) = phase_check
phase (type_required _ _ _) = phase_check
phase (decl_type_not_allowed _ _ _) = phase_check
phase (use_before_declaration _ _) = phase_check
phase (input_in_init _ _) = phase_check
phase (invalid_binary_operation _ _ _ _) = phase_check
phase (invalid_unary_operation _ _ _) = phase_check
phase (undefined_ident _ _) = phase_check
phase (undefined_var _ _) = phase_check
phase (not_readable _ _ _) = phase_check
phase (invalid_emit_target _) = phase_check
phase (not_assignable _ _ _) = phase_check
phase (invalid_assign_target _) = phase_check
phase (undefined_type _ _) = phase_check
phase (undefined_attribute _ _) = phase_check
phase (undefined_method _ _) = phase_check
phase (not_indexable _ _) = phase_check
phase (undefined_func _ _) = phase_check
phase (not_callable _) = phase_check
phase (emit_not_expression _) = phase_check
phase (emit_outside_run _) = phase_check
phase (arg_count_mismatch _ _ _) = phase_check
phase (arg_missing _ _) = phase_check
phase (arg_duplicate _ _) = phase_check
phase (arg_unknown _ _) = phase_check
phase (type_mismatch _ _ _) = phase_check
phase (type_registration_fail _ _ _) = phase_check

unfoldable pub position : Diagnostic → Pos
position (unexpected_token p _ _) = p
position (expression_expected p _) = p
position (number_out_of_range p _ _) = p
position (type_expected p) = p
position (empty_custom_type p) = p
position (forbidden_function p) = p
position (empty_function p) = p
position (arg_order_invalid p) = p
position (missing_run p) = p
position (top_decl_unexpected p) = p
position (top_decl_misplaced p _) = p
position (nesting_too_deep p) = p
position (duplicate_declaration p _ _) = p
position (reserved_name p _ _) = p
position (slot_undeclared p _ _) = p
position (unknown_decl_keyword p _) = p
position (initializer_required p _ _) = p
position (initializer_forbidden p _ _) = p
position (type_required p _ _) = p
position (decl_type_not_allowed p _ _) = p
position (use_before_declaration p _) = p
position (input_in_init p _) = p
position (invalid_binary_operation p _ _ _) = p
position (invalid_unary_operation p _ _) = p
position (undefined_ident p _) = p
position (undefined_var p _) = p
position (not_readable p _ _) = p
position (invalid_emit_target p) = p
position (not_assignable p _ _) = p
position (invalid_assign_target p) = p
position (undefined_type p _) = p
position (undefined_attribute p _) = p
position (undefined_method p _) = p
position (not_indexable p _) = p
position (undefined_func p _) = p
position (not_callable p) = p
position (emit_not_expression p) = p
position (emit_outside_run p) = p
position (arg_count_mismatch p _ _) = p
position (arg_missing p _) = p
position (arg_duplicate p _) = p
position (arg_unknown p _) = p
position (type_mismatch p _ _) = p
position (type_registration_fail p _ _) = p
