-- ===== src/Ecc.antt =====
-- modules/nand/nand.c: the error-correcting codes, one child each.
pub mod Hamming
pub mod Bch
pub mod Ldpc
mod Tests
