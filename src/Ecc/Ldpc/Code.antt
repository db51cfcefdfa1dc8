-- ===== src/Ecc/Ldpc/Code.antt =====
-- modules/nand/nand.c: `ldpc_encode_6bit` and `ldpc_decode_12bit` on every word.
use ftl_firmware.Common.{
  ℕ, ◌+◌, ◌<◌, ◌≡◌, refl, ◌⊕◌, shl, all_below, all_below_sound, is_pair, is_pair_sound, true,
}
use ftl_firmware.Ecc.Ldpc.{ldpc_encode_6bit, ldpc_decode_12bit}

clean_table :
    all_below 64 (λ d. is_pair (ldpc_decode_12bit (ldpc_encode_6bit d)) 0 (ldpc_encode_6bit d))
    ≡ true
unfolding all_below ldpc_encode_6bit ldpc_decode_12bit
clean_table = refl

low_table :
    all_below 64 (λ d.
      all_below 6
        (λ i. is_pair (ldpc_decode_12bit (ldpc_encode_6bit d ⊕ shl 1 i)) 1 (ldpc_encode_6bit d)))
    ≡ true
unfolding all_below ldpc_encode_6bit ldpc_decode_12bit
low_table = refl

high_table :
    all_below 64 (λ d. all_below 6 (λ i.
      is_pair
        (ldpc_decode_12bit (ldpc_encode_6bit d ⊕ shl 1 (6 + i)))
        4
        (ldpc_encode_6bit d ⊕ shl 1 (6 + i))))
    ≡ true
unfolding all_below ldpc_encode_6bit ldpc_decode_12bit
high_table = refl

-- The decoder passes every code word with count 0 and repairs any one flipped data bit (the low
-- six) with count 1; a single flipped check bit (the high six) it gives up on, with count 4 and the
-- word as it came.
pub ldpc_decode-encode :
    (d : ℕ)
    → d < 64
    → (ldpc_decode_12bit (ldpc_encode_6bit d) ≡ (0, ldpc_encode_6bit d))
      × ((i : ℕ)
          → i < 6
          → (ldpc_decode_12bit (ldpc_encode_6bit d ⊕ shl 1 i) ≡ (1, ldpc_encode_6bit d))
            × (ldpc_decode_12bit (ldpc_encode_6bit d ⊕ shl 1 (6 + i))
                ≡ (4, ldpc_encode_6bit d ⊕ shl 1 (6 + i))))
ldpc_decode-encode d h = (
  is_pair_sound _ _ _ (all_below_sound 64 _ d clean_table h),
  λ i k. (
    is_pair_sound _ _ _ (all_below_sound 6 _ i (all_below_sound 64 _ d low_table h) k),
    is_pair_sound _ _ _ (all_below_sound 6 _ i (all_below_sound 64 _ d high_table h) k),
  ),
)
