-- ===== src/Ecc/Bch.antt =====
-- modules/nand/nand.c: arithmetic in GF(2^4) and the BCH(15,7) code over it.
pub mod Field
pub mod Code
use Prim.Native.Nat.{bit_and, bit_or}
use ftl_firmware.Common.{
  ℕ, zero, suc, ◌+◌, ◌*◌, ◌%◌, ◌^◌, Bool, true, false, Option, none, some, ◌==◌, leb, ◌&&◌,
  if◌then◌else◌, ◌⊕◌, shl, shr,
}

abbrev pub gf_add : ℕ → ℕ → ℕ
gf_add a b = a ⊕ b

-- One round of the loop of `gf_mul`: the new `a`, with its shift in a `uint8_t`.
unfoldable pub gf_double : ℕ → ℕ
gf_double a =
    let shifted = shl a 1 % 2 ^ 8 in if bit_and a 0x08 == 0 then shifted else shifted ⊕ 0x13

unfoldable pub gf_mul_from : ℕ → ℕ → ℕ → ℕ → ℕ
unfolding gf_double
gf_mul_from zero a b result = bit_and result 0x0f
gf_mul_from (suc left) a b result =
    gf_mul_from left (gf_double a) (shr b 1) (if bit_and b 1 == 0 then result else result ⊕ a)

unfoldable pub gf_mul : ℕ → ℕ → ℕ
unfolding gf_mul_from
gf_mul a b = gf_mul_from 4 a b 0

-- `n` more factors of `a`.
unfoldable pub gf_pow_from : ℕ → ℕ → ℕ → ℕ
unfolding gf_mul
gf_pow_from a zero result = result
gf_pow_from a (suc n) result = gf_pow_from a n (gf_mul result a)

unfoldable pub gf_pow : ℕ → ℕ → ℕ
unfolding gf_pow_from
gf_pow a n = gf_pow_from a n 1

-- The shift register of `bch_encode_7bit`, in a `uint16_t`.
unfoldable pub lfsr : ℕ → ℕ → ℕ
lfsr zero codeword = bit_and codeword 0x7fff
lfsr (suc left) codeword =
    let shifted = shl codeword 1 % 2 ^ 16 in
    lfsr left (if bit_and (shr codeword 14) 1 == 0 then shifted else shifted ⊕ 0x01d1)

unfoldable pub bch_encode_7bit : ℕ → ℕ
unfolding lfsr
bch_encode_7bit d = lfsr 7 (shl (bit_and d 0x7f) 8)

-- The sum of `f i` over the bits `i` that are set in `r`, from bit `i` on.
unfoldable pub syndrome_from : (ℕ → ℕ) → ℕ → ℕ → ℕ → ℕ → ℕ
syndrome_from f zero i r s = s
syndrome_from f (suc left) i r s =
    syndrome_from f left (i + 1) r (if shr r i % 2 == 0 then s else s ⊕ f i)

unfoldable pub s1_of : ℕ → ℕ
unfolding syndrome_from gf_pow
s1_of r = syndrome_from (λ i. gf_pow 2 i) 15 0 r 0

unfoldable pub s3_of : ℕ → ℕ
unfolding syndrome_from gf_pow
s3_of r = syndrome_from (λ i. gf_pow (gf_pow 2 i) 3) 15 0 r 0

-- The mask of the one position whose power of 2 is `s1`; 0 if there is none.
unfoldable pub locate_one : ℕ → ℕ → ℕ → ℕ
unfolding gf_pow
locate_one zero i s1 = 0
locate_one (suc left) i s1 =
    let later = locate_one left (i + 1) s1 in if gf_pow 2 i == s1 then shl 1 i else later

unfoldable pub locate_second : ℕ → ℕ → ℕ → ℕ → ℕ → Option ℕ
unfolding gf_pow
locate_second zero i j s1 s3 = none
locate_second (suc left) i j s1 s3 =
    let later = locate_second left i (j + 1) s1 s3 in
    if (gf_add (gf_pow 2 i) (gf_pow 2 j) == s1)
      && (gf_add (gf_pow (gf_pow 2 i) 3) (gf_pow (gf_pow 2 j) 3) == s3)
    then some (bit_or (shl 1 i) (shl 1 j))
    else later

-- The first pair of positions `i < j` that explains both sums; `left` positions start at `i`.
unfoldable pub locate_two : ℕ → ℕ → ℕ → ℕ → Option ℕ
unfolding locate_second
locate_two zero i s1 s3 = none
locate_two (suc left) i s1 s3 =
    let later = locate_two left (i + 1) s1 s3 in
    elim (locate_second left i (i + 1) s1 s3) [ some m ↦ some m | none ↦ later ]

-- The second half of `bch_decode_15bit`, from its two sums on.
unfoldable pub bch_correct : ℕ → ℕ → ℕ → ℕ × ℕ
bch_correct r s1 s3 =
    let pair = locate_two 15 0 s1 s3 in
    if (s1 == 0) && (s3 == 0)
    then (0, r)
    else if s3 == gf_pow s1 3
    then (1, r ⊕ locate_one 15 0 s1)
    else elim pair [ some m ↦ (2, r ⊕ m) | none ↦ (3, r) ]

-- The number of corrected errors (3: more than two) and the word that is left.
unfoldable pub bch_decode_15bit : ℕ → ℕ × ℕ
bch_decode_15bit r = bch_correct r (s1_of r) (s3_of r)
