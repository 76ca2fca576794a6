-- ===== src/Emit.antt =====
-- The parts of src/emit_support.cc, the names, literals and constants of the emitted C++.
pub mod Assign
pub mod Bits
pub mod Primitives
pub mod Const
pub mod Literals
pub mod Names
pub mod Shift
