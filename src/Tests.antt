-- ===== src/Tests.antt =====
-- The theorems at concrete inputs, and runs of the code.
mod Samples
mod Lexing
mod Rtl
mod Conditions
mod Build
