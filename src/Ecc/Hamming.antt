-- ===== src/Ecc/Hamming.antt =====
-- modules/nand/nand.c: the (7,4) Hamming code and the page checksum built on it, which
-- `nand_page_write` stores and `nand_page_read` checks. A byte is a number below 256; the two
-- counters of `g_nand_dev` that the decoder moves are the record `Counters`.
pub mod Code
pub mod Page
pub mod Miscorrection
use Prim.Native.Nat.{bit_and, bit_or}
use ftl_firmware.Common.{
  ℕ, zero, suc, ◌+◌, ◌-◌, ◌^◌, Bool, Option, none, some, List, [], ◌∷◌, ◌++◌, leb, ◌==◌,
  if◌then◌else◌, ◌&&◌, RetCode, ret_ok, err_param, ◌⊕◌, shl, shr, ◌%◌,
}

pub data EccResult : Type 0 where
  clean corrected uncorrectable : EccResult

-- `ecc_corrected_count` and `ecc_uncorrectable_count`
pub record Counters : Type 0 where
  pub corrected_count : ℕ
  pub uncorrectable_count : ℕ

abbrev bit : ℕ → ℕ → ℕ
bit x k = bit_and (shr x k) 1

unfoldable pub hamming_encode_4bit : ℕ → ℕ
hamming_encode_4bit d =
    let d0 = bit d 0 in
    let d1 = bit d 1 in
    let d2 = bit d 2 in
    let d3 = bit d 3 in
    let p1 = d0 ⊕ d1 ⊕ d3 in
    let p2 = d0 ⊕ d2 ⊕ d3 in
    let p4 = d1 ⊕ d2 ⊕ d3 in
    bit_or
      (bit_or
        (bit_or (bit_or (bit_or (bit_or (shl p1 0) (shl p2 1)) (shl d0 2)) (shl p4 3)) (shl d1 4))
        (shl d2 5))
      (shl d3 6)

-- The status (0 clean, 1 corrected, 2 not correctable) and the word it leaves behind.
unfoldable pub hamming_decode_7bit : ℕ → ℕ × ℕ
hamming_decode_7bit c =
    let s1 = bit c 0 ⊕ bit c 2 ⊕ bit c 4 ⊕ bit c 6 in
    let s2 = bit c 1 ⊕ bit c 2 ⊕ bit c 5 ⊕ bit c 6 in
    let s4 = bit c 3 ⊕ bit c 4 ⊕ bit c 5 ⊕ bit c 6 in
    let syndrome = bit_or (bit_or (shl s4 2) (shl s2 1)) s1 in
    if syndrome == 0
    then (0, c)
    else if leb 1 syndrome && leb syndrome 7
    then (1, c ⊕ shl 1 (syndrome - 1))
    else (2, c)

-- What one byte adds to the page's value: its two code words, side by side.
unfoldable pub byte_code : ℕ → ℕ
unfolding hamming_encode_4bit
byte_code b =
    shl (hamming_encode_4bit (bit_and b 0x0f)) 0
    ⊕ shl (hamming_encode_4bit (bit_and (shr b 4) 0x0f)) 7

-- The loop of `nand_ecc_hamming_encode` over the bytes that are left.
unfoldable pub encode_from : ℕ → List ℕ → ℕ
unfolding hamming_encode_4bit
encode_from ecc_value [] = ecc_value
encode_from ecc_value (b ∷ bs) =
    encode_from
      (ecc_value
        ⊕ shl (hamming_encode_4bit (bit_and b 0x0f)) 0
        ⊕ shl (hamming_encode_4bit (bit_and (shr b 4) 0x0f)) 7)
      bs

-- With no data the output is not written; the caller's value stays, `ecc0`.
unfoldable pub nand_ecc_hamming_encode : List ℕ → ℕ → RetCode × ℕ
unfolding encode_from
nand_ecc_hamming_encode [] ecc0 = (err_param, ecc0)
nand_ecc_hamming_encode (b ∷ bs) ecc0 = (ret_ok, encode_from 0 (b ∷ bs))

-- Bits `k` to 7 of the byte `b` that stands between `pre` and `rest`, flipped one at a time.
unfoldable pub try_bits : ℕ → ℕ → List ℕ → ℕ → List ℕ → ℕ → Option (List ℕ)
try_bits zero k pre b rest ecc = none
try_bits (suc left) k pre b rest ecc =
    let flipped = pre ++ (b ⊕ shl 1 k) ∷ rest in
    let more = try_bits left (k + 1) pre b rest ecc in
    if (nand_ecc_hamming_encode flipped 0).1 == ecc then some flipped else more

-- Every byte in turn; one call a byte, and the first hit wins.
unfoldable pub try_bytes : List ℕ → List ℕ → ℕ → Option (List ℕ)
try_bytes pre [] ecc = none
try_bytes pre (b ∷ rest) ecc =
    let more = try_bytes (pre ++ b ∷ []) rest ecc in
    elim (try_bits 8 0 pre b rest ecc) [ some d ↦ some d | none ↦ more ]

unfoldable pub report : List ℕ → Counters → Option (List ℕ) → EccResult × List ℕ × Counters
report bytes c (some d) =
    (corrected, d, record c { corrected_count = (c.corrected_count + 1) % 2 ^ 32 })
report bytes c none =
    (uncorrectable, bytes, record c { uncorrectable_count = (c.uncorrectable_count + 1) % 2 ^ 32 })

-- `nand_ecc_hamming_decode`: the verdict, the data as it leaves them, the counters.
unfoldable pub nand_ecc_hamming_decode : List ℕ → ℕ → Counters → EccResult × List ℕ × Counters
unfolding report
nand_ecc_hamming_decode [] ecc c = (uncorrectable, [], c)
nand_ecc_hamming_decode (b ∷ bs) ecc c =
    if (nand_ecc_hamming_encode (b ∷ bs) 0).1 == ecc
    then (clean, b ∷ bs, c)
    else report (b ∷ bs) c (try_bytes [] (b ∷ bs) ecc)
