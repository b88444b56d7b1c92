-- ===== src/Examples.antt =====
-- Concrete scripts, programs and registries at which the theorems are applied, and runs of the code
-- on them.
mod World
mod Machine
mod Stdlib
mod Scripts
mod Compile
mod Rules
mod Tokens
