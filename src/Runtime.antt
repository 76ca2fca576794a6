-- ===== src/Runtime.antt =====
-- The runtime that translated programs are linked with: include/tp2cc_rt/prelude.h.
pub mod Integers
pub mod Shifts
pub mod ShortStrings
pub mod Val
pub mod FileTime
