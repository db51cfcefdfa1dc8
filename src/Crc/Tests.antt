-- ===== src/Crc/Tests.antt =====
-- The checksums at concrete data, the check values of the standards among them, and the theorems at
-- inputs that meet their hypotheses.
use ftl_firmware.Common.{ℕ, ◌≡◌, ◌≢◌, refl, List, [], ◌∷◌, ◌++◌, arith}
use ftl_firmware.Crc.Tables.{g_crc32_table}
use ftl_firmware.Crc.{utils_crc32, utils_crc16, nand_crc32_calculate}
use ftl_firmware.Crc.Reference.{reference, crc32-reference}
use ftl_firmware.Crc.Detection.{utils_crc32-detects}

-- "123456789"
abbrev digits_text : List ℕ
digits_text = 0x31 ∷ 0x32 ∷ 0x33 ∷ 0x34 ∷ 0x35 ∷ 0x36 ∷ 0x37 ∷ 0x38 ∷ 0x39 ∷ []

crc32_check : utils_crc32 digits_text ≡ 0xcbf43926
unfolding utils_crc32 g_crc32_table
crc32_check = refl

crc16_check : utils_crc16 digits_text ≡ 0x4b37
unfolding utils_crc16
crc16_check = refl

crc32-reference_example :
    (utils_crc32 digits_text ≡ reference digits_text)
    × (nand_crc32_calculate digits_text ≡ reference digits_text)
crc32-reference_example = crc32-reference digits_text (omega arith)

utils_crc32-detects_example :
    utils_crc32 ((1 ∷ 2 ∷ []) ++ 7 ∷ 3 ∷ []) ≢ utils_crc32 ((1 ∷ 2 ∷ []) ++ 8 ∷ 3 ∷ [])
utils_crc32-detects_example =
    utils_crc32-detects (1 ∷ 2 ∷ []) 7 8 (3 ∷ []) (omega arith) (omega arith) (λ e. omega arith)
