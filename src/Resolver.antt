-- ===== src/Resolver.antt =====
-- resolver/: the scopes, and the resolution of expressions, statements and declarations.
pub mod Scope
pub mod Report
pub mod Check
pub mod Operand
pub mod Args
pub mod Expr
pub mod Stmt
pub mod TypeDecl
pub mod Decl
pub mod Whole
pub mod Post
pub mod Plain
pub mod Typing
pub mod OperandTyped
pub mod ReferenceTyped
pub mod ScopeLaws
pub mod ArgsTyped
pub mod ExprTyped
pub mod StmtTyped
pub mod BlockTyped
pub mod ProgramTyping
pub mod EnvGood
pub mod Fields
pub mod DeclTyped
pub mod SlotTyped
pub mod WholeTyped
