-- ===== src/Evaluator.antt =====
-- evaluator/: the environment, the evaluation of expressions and statements, and the evaluator
-- behind the host's calls.
pub mod Env
pub mod Failure
pub mod Expr
pub mod Stmt
pub mod Machine
pub mod Host
pub mod Names
pub mod Effects
pub mod Activation
pub mod Laws
pub mod Ready
pub mod Refused
pub mod Full
pub mod FullRun
pub mod Lookup
