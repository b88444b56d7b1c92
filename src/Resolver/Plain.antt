-- ===== src/Resolver/Plain.antt =====
-- ast/ast.go: syntax trees without the nodes that stand for what could not be parsed. The names that a
-- script binds have no dot, as the lexer reads identifiers.
use tascript.Common.{false, Option, none, some, ◌≡◌, ◌≢◌, All}
use tascript.Registry.Value.{World}
use tascript.Ast
use tascript.Registry.Good.{has_dot}

unfoldable mutual
  pub Plain : {w : World} → Ast.Expr w → Type 0
  Plain (Ast.bad _) = ⊥
  Plain (Ast.infix_expr _ a b) = Plain a × Plain b
  Plain (Ast.prefix_expr _ a) = Plain a
  Plain (Ast.member_access _ a _) = Plain a
  Plain (Ast.index_expr _ a b) = Plain a × Plain b
  Plain (Ast.call _ callee args named) = Plain callee × (PlainExprs args × PlainKwargs named)
  Plain _ = Unit

  pub PlainExprs : {w : World} → Ast.Exprs w → Type 0
  PlainExprs Ast.no_exprs = Unit
  PlainExprs (Ast.expr e es) = Plain e × PlainExprs es

  pub PlainKwargs : {w : World} → Ast.Kwargs w → Type 0
  PlainKwargs Ast.no_kwargs = Unit
  PlainKwargs (Ast.kwarg _ _ e ks) = Plain e × PlainKwargs ks

unfoldable mutual
  pub PlainStmt : {w : World} → Ast.Stmt w → Type 0
  PlainStmt (Ast.let_stmt _ name e) = (has_dot name.literal ≡ false) × Plain e
  PlainStmt (Ast.assign_stmt _ to e) = Plain to × Plain e
  PlainStmt (Ast.expr_stmt _ e) = Plain e
  PlainStmt (Ast.block _ ss) = PlainStmts ss
  PlainStmt (Ast.if_stmt _ e _ ss els) = Plain e × (PlainStmts ss × PlainElse els)
  PlainStmt (Ast.bad_stmt _ _) = ⊥

  pub PlainStmts : {w : World} → Ast.Stmts w → Type 0
  PlainStmts Ast.done = Unit
  PlainStmts (Ast.then_do s ss) = PlainStmt s × PlainStmts ss

  pub PlainElse : {w : World} → Ast.Else w → Type 0
  PlainElse Ast.no_else = Unit
  PlainElse (Ast.otherwise s) = PlainStmt s

abbrev pub HasType : Ast.TypeDecl → Type 0
HasType Ast.no_type = ⊥
HasType _ = Unit

module _ {w : World} where
  abbrev pub PlainInit : Option (Ast.Expr w) → Type 0
  PlainInit none = Unit
  PlainInit (some e) = Plain e

  abbrev pub PlainDecl : Ast.Decl w → Type 0
  PlainDecl (Ast.const_decl d) = (has_dot d.identifier.literal ≡ false) × Plain d.value
  PlainDecl (Ast.input_decl d) = (has_dot d.identifier.literal ≡ false) × HasType d.type
  PlainDecl (Ast.output_decl d) = (has_dot d.identifier.literal ≡ false) × HasType d.type
  PlainDecl (Ast.kind_decl d) = PlainInit d.value
  PlainDecl (Ast.other_decl _) = ⊥

  abbrev pub PlainFn : Option (Ast.FunctionDecl w) → Type 0
  PlainFn none = Unit
  PlainFn (some f) = PlainStmts f.body

  -- A program with `Run`.
  abbrev pub PlainProgram : Ast.Program w → Type 0
  PlainProgram prog =
      All PlainDecl prog.decls
      × (PlainFn prog.init_fn × (PlainFn prog.run_fn × (prog.run_fn ≢ none)))
