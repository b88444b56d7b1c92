-- ===== src/Stdlib.antt =====
-- stdlib/: the modules of the standard library. The module `time` is left out.
pub mod Math
pub mod MathSound
