-- ===== src/Registry.antt =====
-- registry/: the values of the language, the rules that type and evaluate its operations, the
-- registry that holds them, and the rules of the built-in numeric types.
pub mod Value
pub mod Rule
pub mod Register
pub mod Script
pub mod StdMath
pub mod Default
pub mod Laws
pub mod Good
pub mod GoodSteps
pub mod GoodDefault
pub mod Widens
pub mod Widening
pub mod Sound
pub mod Integers
