-- ===== src/Common/Bits.antt =====
-- The bit operations of the source on native numbers, with their laws in the child modules:
-- `&` and `|` digit by digit, `__builtin_ffsll` and `__builtin_clzll`.
pub mod Digits
pub mod Masks
pub mod Scan
