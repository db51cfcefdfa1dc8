-- ===== src/Ecc/Bch/Code.antt =====
-- modules/nand/nand.c: `bch_encode_7bit` and `bch_decode_15bit` on every word.
use ftl_firmware.Common.{
  ℕ, Bool, ◌<◌, ◌≡◌, refl, ◌⊕◌, shl, zero, suc, ◌+◌, ◌==◌, ◌&&◌, all_below, all_below_sound, arith,
  true, is_pair, xor_assoc, xor_comm, xor_both, zero-xor, xor-zero, Option-cases, inl, inr,
  xor-shr-parity, is_pair_sound,
}
use ftl_firmware.Ecc.Bch.{
  bch_encode_7bit, bch_decode_15bit, syndrome_from, s1_of, s3_of, bch_correct, locate_one,
  locate_two, gf_pow,
}

abbrev decodes_to : ℕ → ℕ → ℕ → Bool
decodes_to d mask errors =
    is_pair (bch_decode_15bit (bch_encode_7bit d ⊕ mask)) errors (bch_encode_7bit d)

clean_table :
    all_below 128 (λ d. is_pair (bch_decode_15bit (bch_encode_7bit d)) 0 (bch_encode_7bit d)) ≡ true
unfolding all_below bch_encode_7bit bch_decode_15bit bch_correct s1_of s3_of locate_one locate_two
    gf_pow
clean_table = refl

one_table : all_below 128 (λ d. all_below 15 (λ i. decodes_to d (shl 1 i) 1)) ≡ true
unfolding all_below bch_encode_7bit bch_decode_15bit bch_correct s1_of s3_of locate_one locate_two
    gf_pow
one_table = refl

-- Two errors are decoded by the sums of the code word's bits, which are those of the errors alone.
two_mask_table :
    all_below 15 (λ j. all_below j (λ i. is_pair (bch_decode_15bit (shl 1 i ⊕ shl 1 j)) 2 0)) ≡ true
unfolding all_below bch_decode_15bit bch_correct s1_of s3_of locate_one locate_two gf_pow
two_mask_table = refl

sums_table :
    all_below 128 (λ d. s1_of (bch_encode_7bit d) == 0 && s3_of (bch_encode_7bit d) == 0) ≡ true
unfolding all_below bch_encode_7bit s1_of s3_of
sums_table = refl

syndrome-xor :
    (f : ℕ → ℕ) (left i a b s t : ℕ)
    → syndrome_from f left i (a ⊕ b) (s ⊕ t)
      ≡ syndrome_from f left i a s ⊕ syndrome_from f left i b t
unfolding syndrome_from
syndrome-xor f zero i a b s t = refl
syndrome-xor f (suc left) i a b s t = ground (
  arith,
  xor-shr-parity i a b,
  syndrome-xor f left (i + 1) a b s t,
  syndrome-xor f left (i + 1) a b (s ⊕ f i) t,
  syndrome-xor f left (i + 1) a b s (t ⊕ f i),
  syndrome-xor f left (i + 1) a b (s ⊕ f i) (t ⊕ f i),
  xor_assoc s t (f i),
  xor_assoc s (f i) t,
  xor_comm t (f i),
  xor_both s t (f i),
)

s1_of-xor : (a b : ℕ) → s1_of (a ⊕ b) ≡ s1_of a ⊕ s1_of b
unfolding s1_of
s1_of-xor a b = syndrome-xor (λ i. gf_pow 2 i) 15 0 a b 0 0

s3_of-xor : (a b : ℕ) → s3_of (a ⊕ b) ≡ s3_of a ⊕ s3_of b
unfolding s3_of
s3_of-xor a b = syndrome-xor (λ i. gf_pow (gf_pow 2 i) 3) 15 0 a b 0 0

-- Where the decoder removes the whole mask from it, it removes it from any word.
bch_correct-mask :
    (c m s1 s3 : ℕ) → bch_correct m s1 s3 ≡ (2, 0) → bch_correct (c ⊕ m) s1 s3 ≡ (2, c)
unfolding bch_correct
bch_correct-mask c m s1 s3 h = elim (Option-cases (locate_two 15 0 s1 s3)) [
  | inl e ↦ ground arith
  | inr (found, e) ↦ ground (arith, xor_assoc c m found, xor-zero c)
]

-- So two errors that are located in the zero word are located in every code word.
located-word :
    (c m : ℕ)
    → s1_of c ≡ 0
    → s3_of c ≡ 0
    → bch_decode_15bit m ≡ (2, 0)
    → bch_decode_15bit (c ⊕ m) ≡ (2, c)
unfolding bch_decode_15bit
located-word c m e1 e3 h =
    rw (s1_of-xor c m, s3_of-xor c m, e1, e3, zero-xor, zero-xor)
      (bch_correct-mask c m (s1_of m) (s3_of m) h)

code_sums : (d : ℕ) → d < 128 → (s1_of (bch_encode_7bit d) ≡ 0) × (s3_of (bch_encode_7bit d) ≡ 0)
code_sums d h = split _ _ (all_below_sound 128 _ d sums_table h)
  where
    split : (x y : ℕ) → (x == 0 && y == 0) ≡ true → (x ≡ 0) × (y ≡ 0)
    split x y e = ground arith

-- The decoder passes every code word with count 0, repairs any one flipped bit with count 1, and
-- any two flipped bits with count 2.
pub bch_decode-encode :
    (d : ℕ)
    → d < 128
    → (bch_decode_15bit (bch_encode_7bit d) ≡ (0, bch_encode_7bit d))
      × ((i : ℕ) → i < 15 → bch_decode_15bit (bch_encode_7bit d ⊕ shl 1 i) ≡ (1, bch_encode_7bit d))
      × ((i j : ℕ)
          → i < j
          → j < 15
          → bch_decode_15bit (bch_encode_7bit d ⊕ (shl 1 i ⊕ shl 1 j)) ≡ (2, bch_encode_7bit d))
bch_decode-encode d h = (
  is_pair_sound _ _ _ (all_below_sound 128 _ d clean_table h),
  λ i k. is_pair_sound _ _ _ (all_below_sound 15 _ i (all_below_sound 128 _ d one_table h) k),
  λ i j k l.
      located-word (bch_encode_7bit d) (shl 1 i ⊕ shl 1 j) (code_sums d h).0 (code_sums d h).1
        (is_pair_sound _ _ _ (all_below_sound j _ i (all_below_sound 15 _ j two_mask_table l) k)),
)
