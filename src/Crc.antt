-- ===== src/Crc.antt =====
-- The checksum routines: `utils_crc32` and `utils_crc16` of utils/utils.c, `nand_crc32_calculate` of
-- modules/nand/nand.c, `dif_crc16` of modules/host_if/host_if.c. Data are a list of bytes; the empty
-- list stands for a null pointer or a length of 0, at which each of them returns 0.
pub mod Tables
pub mod Reference
pub mod Detection
pub mod Guard
mod Tests
use Prim.Native.Nat.{bit_and}
use ftl_firmware.Common.{
  ℕ, zero, suc, ◌%◌, ◌^◌, Bool, false, List, [], ◌∷◌, ◌==◌, if◌then◌else◌, ◌⊕◌, shl, shr, low_bits,
  entry,
}
use ftl_firmware.Crc.Tables.{g_crc32_table, crc32_table, crc16_t10pi_table}

unfoldable pub utils_crc32_from : ℕ → List ℕ → ℕ
utils_crc32_from crc [] = crc
utils_crc32_from crc (b ∷ bs) =
    utils_crc32_from (entry g_crc32_table (low_bits (crc ⊕ b) 8) ⊕ shr crc 8) bs

unfoldable pub utils_crc32 : List ℕ → ℕ
unfolding utils_crc32_from
utils_crc32 [] = 0
utils_crc32 (b ∷ bs) = utils_crc32_from 0xffffffff (b ∷ bs) ⊕ 0xffffffff

-- The index is the sum cast to a byte.
unfoldable pub nand_crc32_from : ℕ → List ℕ → ℕ
nand_crc32_from crc [] = crc
nand_crc32_from crc (b ∷ bs) =
    nand_crc32_from (shr crc 8 ⊕ entry crc32_table ((crc ⊕ b) % 2 ^ 8)) bs

unfoldable pub nand_crc32_calculate : List ℕ → ℕ
unfolding nand_crc32_from
nand_crc32_calculate [] = 0
nand_crc32_calculate (b ∷ bs) = nand_crc32_from 0xffffffff (b ∷ bs) ⊕ 0xffffffff

unfoldable pub nand_crc32_verify : List ℕ → ℕ → Bool
unfolding nand_crc32_calculate
nand_crc32_verify [] crc = false
nand_crc32_verify (b ∷ bs) crc = nand_crc32_calculate (b ∷ bs) == crc

-- The inner loop of `utils_crc16`, one bit a round.
unfoldable pub crc16_bits : ℕ → ℕ → ℕ
crc16_bits zero crc = crc
crc16_bits (suc left) crc =
    crc16_bits left (if bit_and crc 0x0001 == 0 then shr crc 1 else shr crc 1 ⊕ 0xa001)

unfoldable pub utils_crc16_from : ℕ → List ℕ → ℕ
unfolding crc16_bits
utils_crc16_from crc [] = crc
utils_crc16_from crc (b ∷ bs) = utils_crc16_from (crc16_bits 8 (crc ⊕ b)) bs

unfoldable pub utils_crc16 : List ℕ → ℕ
unfolding utils_crc16_from
utils_crc16 [] = 0
utils_crc16 (b ∷ bs) = utils_crc16_from 0xffff (b ∷ bs)

-- `crc` is a `uint16_t`: the shift to the left is cut at 16 bits.
unfoldable pub dif_crc16_from : ℕ → List ℕ → ℕ
dif_crc16_from crc [] = crc
dif_crc16_from crc (b ∷ bs) =
    dif_crc16_from ((shl crc 8 ⊕ entry crc16_t10pi_table (low_bits (shr crc 8 ⊕ b) 8)) % 2 ^ 16) bs

unfoldable pub dif_crc16 : List ℕ → ℕ
unfolding dif_crc16_from
dif_crc16 [] = 0
dif_crc16 (b ∷ bs) = dif_crc16_from 0xffff (b ∷ bs)
