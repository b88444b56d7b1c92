-- ===== src/Resolver/Report.antt =====
-- resolver/helpers.go: the diagnostic that each `add…` method appends.
use tascript.Common.{ℕ, Str}
use tascript.Token.{Token}
use tascript.Registry.Value.{TypeId}
use tascript.Registry.Rule.{RegistryError}
use tascript.Resolver.Scope.{BindingKind, kind_text}
use tascript.Diag.{Diagnostic}
use tascript.Diag

abbrev pub add_duplicate_declaration : Token → Token → Diagnostic
add_duplicate_declaration keyword ident =
    Diag.duplicate_declaration ident.pos keyword.literal ident.literal

abbrev pub add_reserved_name : Token → BindingKind → Diagnostic
add_reserved_name ident kind = Diag.reserved_name ident.pos ident.literal (kind_text kind)

abbrev pub add_invalid_binary_op : Token → TypeId → TypeId → Diagnostic
add_invalid_binary_op op left right = Diag.invalid_binary_operation op.pos op.literal left right

abbrev pub add_invalid_unary_op : Token → TypeId → Diagnostic
add_invalid_unary_op op right = Diag.invalid_unary_operation op.pos op.literal right

abbrev pub add_undefined_ident : Token → Diagnostic
add_undefined_ident t = Diag.undefined_ident t.pos t.literal

abbrev pub add_undefined_var : Token → Diagnostic
add_undefined_var t = Diag.undefined_var t.pos t.literal

abbrev pub add_invalid_assign_target : Token → Diagnostic
add_invalid_assign_target t = Diag.invalid_assign_target t.pos

abbrev pub add_not_readable : Token → BindingKind → Diagnostic
add_not_readable t kind = Diag.not_readable t.pos t.literal (kind_text kind)

abbrev pub add_invalid_emit_target : Token → Diagnostic
add_invalid_emit_target t = Diag.invalid_emit_target t.pos

abbrev pub add_not_assignable : Token → Str → Diagnostic
add_not_assignable t kind = Diag.not_assignable t.pos t.literal kind

abbrev pub add_undefined_type : Token → Diagnostic
add_undefined_type t = Diag.undefined_type t.pos t.literal

abbrev pub add_type_registration_fail : Token → Str → RegistryError → Diagnostic
add_type_registration_fail t name reason = Diag.type_registration_fail t.pos name reason

abbrev pub add_undefined_attribute : Token → Diagnostic
add_undefined_attribute t = Diag.undefined_attribute t.pos t.literal

abbrev pub add_undefined_method : Token → Diagnostic
add_undefined_method t = Diag.undefined_method t.pos t.literal

abbrev pub add_not_indexable : Token → TypeId → Diagnostic
add_not_indexable t left = Diag.not_indexable t.pos left

abbrev pub add_undefined_func : Token → Diagnostic
add_undefined_func t = Diag.undefined_func t.pos t.literal

abbrev pub add_not_callable : Token → Diagnostic
add_not_callable t = Diag.not_callable t.pos

abbrev pub add_emit_not_expression : Token → Diagnostic
add_emit_not_expression t = Diag.emit_not_expression t.pos

abbrev pub add_emit_outside_run : Token → Diagnostic
add_emit_outside_run t = Diag.emit_outside_run t.pos

abbrev pub add_arg_count_mismatch : Token → ℕ → ℕ → Diagnostic
add_arg_count_mismatch t expected got = Diag.arg_count_mismatch t.pos expected got

abbrev pub add_args_missing : Token → Str → Diagnostic
add_args_missing t expected = Diag.arg_missing t.pos expected

abbrev pub add_duplicate_arg : Token → Str → Diagnostic
add_duplicate_arg t name = Diag.arg_duplicate t.pos name

abbrev pub add_unknown_kwarg : Token → Str → Diagnostic
add_unknown_kwarg t name = Diag.arg_unknown t.pos name

abbrev pub add_type_mismatch : Token → TypeId → TypeId → Diagnostic
add_type_mismatch t expected got = Diag.type_mismatch t.pos expected got

abbrev pub add_slot_undeclared : Token → Str → Diagnostic
add_slot_undeclared t kind = Diag.slot_undeclared t.pos kind t.literal

abbrev pub add_unknown_decl_keyword : Token → Diagnostic
add_unknown_decl_keyword t = Diag.unknown_decl_keyword t.pos t.literal

abbrev pub add_initializer_required : Token → Str → Diagnostic
add_initializer_required t kind = Diag.initializer_required t.pos kind t.literal

abbrev pub add_initializer_forbidden : Token → Str → Diagnostic
add_initializer_forbidden t kind = Diag.initializer_forbidden t.pos kind t.literal

abbrev pub add_type_required : Token → Str → Str → Diagnostic
add_type_required t kind name = Diag.type_required t.pos kind name

abbrev pub add_decl_type_not_allowed : Token → Str → TypeId → Diagnostic
add_decl_type_not_allowed t kind type = Diag.decl_type_not_allowed t.pos kind type

abbrev pub add_use_before_declaration : Token → Diagnostic
add_use_before_declaration t = Diag.use_before_declaration t.pos t.literal

abbrev pub add_input_in_init : Token → Diagnostic
add_input_in_init t = Diag.input_in_init t.pos t.literal
