-- ===== src/Crc/Reference.antt =====
-- The table-driven CRC-32 of utils/utils.c and modules/nand/nand.c against the reference that works
-- bit by bit on the polynomial 0xedb88320.
use ftl_firmware.Common.{
  pow-suc_two, xor-shr, xor-zero, Bytes, ap₂, ℕ, zero, suc, ◌*◌, ◌/◌, ◌%◌, ◌^◌, ◌<◌, ◌≡◌, refl, sym,
  ap, ◌∙◌, List, [], ◌∷◌, ◌==◌, ==_iff, if◌then◌else◌, ◌⊕◌, low_bits, shr, entry, all_below,
  all_below_sound, xor_step, xor-half, xor_comm, xor_assoc, xor_both, xor_fields, arith, true,
}
use ftl_firmware.Crc.Tables.{g_crc32_table, crc32_table}
use ftl_firmware.Crc.{utils_crc32, utils_crc32_from, nand_crc32_calculate, nand_crc32_from}

abbrev pub poly32 : ℕ
poly32 = 0xedb88320

-- One bit of the division.
unfoldable pub crc_bit : ℕ → ℕ
crc_bit x = if x % 2 == 0 then x / 2 else x / 2 ⊕ poly32

unfoldable pub crc_bits : ℕ → ℕ → ℕ
crc_bits zero x = x
crc_bits (suc n) x = crc_bits n (crc_bit x)

unfoldable pub reference_from : ℕ → List ℕ → ℕ
reference_from crc [] = crc
reference_from crc (b ∷ bs) = reference_from (crc_bits 8 (crc ⊕ b)) bs

unfoldable pub reference : List ℕ → ℕ
reference [] = 0
reference (b ∷ bs) = reference_from 0xffffffff (b ∷ bs) ⊕ 0xffffffff

crc_bit-xor : (a b : ℕ) → crc_bit (a ⊕ b) ≡ crc_bit a ⊕ crc_bit b
unfolding crc_bit
crc_bit-xor a b = ground (
  arith,
  xor_step a b,
  xor-half a b,
  xor_both (a / 2) (b / 2) poly32,
  xor_assoc (a / 2) poly32 (b / 2),
  xor_assoc (a / 2) (b / 2) poly32,
  xor_comm poly32 (b / 2),
)

pub crc_bits-xor : (n a b : ℕ) → crc_bits n (a ⊕ b) ≡ crc_bits n a ⊕ crc_bits n b
unfolding crc_bits
crc_bits-xor zero a b = refl
crc_bits-xor (suc n) a b =
    ap (crc_bits n) (crc_bit-xor a b) ∙ crc_bits-xor n (crc_bit a) (crc_bit b)

crc_bit-even : (y : ℕ) → crc_bit (y * 2) ≡ y
unfolding crc_bit
crc_bit-even y = ground arith

-- `n` steps on a number with `n` zero bits at the end only shift it.
crc_bits-shift : (n y : ℕ) → crc_bits n (y * 2 ^ n) ≡ y
unfolding crc_bits
crc_bits-shift zero y = omega arith
crc_bits-shift (suc n) y =
    ap (λ t. crc_bits n (crc_bit t)) (pow-suc_two y n)
    ∙ ap (crc_bits n) (crc_bit-even (y * 2 ^ n))
    ∙ crc_bits-shift n y

table_entries : all_below 256 (λ i. entry g_crc32_table i == crc_bits 8 i) ≡ true
unfolding all_below crc_bits crc_bit g_crc32_table
table_entries = refl

same_tables : g_crc32_table ≡ crc32_table
unfolding g_crc32_table crc32_table
same_tables = refl

table_entry : (i : ℕ) → i < 256 → entry g_crc32_table i ≡ crc_bits 8 i
table_entry i h = (==_iff _ _).0 (all_below_sound 256 _ i table_entries h)

-- Eight steps are one look-up and a shift by a byte.
crc_bits-table : (x : ℕ) → crc_bits 8 x ≡ entry g_crc32_table (low_bits x 8) ⊕ shr x 8
crc_bits-table x =
    ap (crc_bits 8) (omega (arith, xor_fields 8 (x / 2 ^ 8) (x % 2 ^ 8) (omega arith)))
    ∙ crc_bits-xor 8 (x / 2 ^ 8 * 2 ^ 8) (x % 2 ^ 8)
    ∙ xor_comm _ _
    ∙ ap₂ ◌⊕◌ (sym (table_entry (x % 2 ^ 8) (omega arith))) (crc_bits-shift 8 (x / 2 ^ 8))

shr-byte : (crc b : ℕ) → b < 256 → shr (crc ⊕ b) 8 ≡ shr crc 8
shr-byte crc b h = xor-shr 8 crc b ∙ ap (λ t. shr crc 8 ⊕ t) (omega arith) ∙ xor-zero (shr crc 8)

utils_step :
    (crc b : ℕ)
    → b < 256
    → entry g_crc32_table (low_bits (crc ⊕ b) 8) ⊕ shr crc 8 ≡ crc_bits 8 (crc ⊕ b)
utils_step crc b h =
    ap (λ t. entry g_crc32_table (low_bits (crc ⊕ b) 8) ⊕ t) (sym (shr-byte crc b h))
    ∙ sym (crc_bits-table (crc ⊕ b))

pub utils_crc32_from-reference :
    (bs : List ℕ) (crc : ℕ) → Bytes bs → utils_crc32_from crc bs ≡ reference_from crc bs
unfolding utils_crc32_from reference_from
utils_crc32_from-reference [] crc h = refl
utils_crc32_from-reference (b ∷ bs) crc (h, hs) =
    ap (λ t. utils_crc32_from t bs) (utils_step crc b h)
    ∙ utils_crc32_from-reference bs (crc_bits 8 (crc ⊕ b)) hs

nand_crc32_from-utils : (bs : List ℕ) (crc : ℕ) → nand_crc32_from crc bs ≡ utils_crc32_from crc bs
unfolding utils_crc32_from nand_crc32_from
nand_crc32_from-utils [] crc = refl
nand_crc32_from-utils (b ∷ bs) crc =
    ap (λ t. nand_crc32_from t bs)
      (ap (λ t. shr crc 8 ⊕ entry t ((crc ⊕ b) % 2 ^ 8)) (sym same_tables) ∙ xor_comm _ _)
    ∙ nand_crc32_from-utils bs _

-- On bytes, both table-driven routines, that of the utilities and that of the flash module, compute
-- the CRC-32 that divides bit by bit.
pub crc32-reference :
    (bs : List ℕ)
    → Bytes bs
    → (utils_crc32 bs ≡ reference bs) × (nand_crc32_calculate bs ≡ reference bs)
unfolding utils_crc32 nand_crc32_calculate reference
crc32-reference [] h = (refl, refl)
crc32-reference (b ∷ bs) h =
    let e = utils_crc32_from-reference (b ∷ bs) 0xffffffff h in
    (
      ap (λ t. t ⊕ 0xffffffff) e,
      ap (λ t. t ⊕ 0xffffffff) (nand_crc32_from-utils (b ∷ bs) 0xffffffff ∙ e),
    )
