-- ===== src/Libc.antt =====
-- The parts of the C library that the source calls on numbers and texts: `strtol`, `strncmp`, and
-- the `%lu` and `%ld` of formatted output. Proofs about them are in the child modules.
pub mod Decimal
pub mod Compare
pub mod RoundTrip
pub mod Find
