-- ===== src/Ecc/Hamming/Code.antt =====
-- modules/nand/nand.c: `hamming_encode_4bit` and `hamming_decode_7bit` on every word.
use ftl_firmware.Common.{
  ℕ, ◌<◌, ◌≡◌, refl, true, ◌⊕◌, shl, all_below, all_below_sound, is_pair, is_pair_sound,
}
use ftl_firmware.Ecc.Hamming.{hamming_encode_4bit, hamming_decode_7bit}

clean_table :
    all_below 16
      (λ d. is_pair (hamming_decode_7bit (hamming_encode_4bit d)) 0 (hamming_encode_4bit d))
    ≡ true
unfolding hamming_encode_4bit hamming_decode_7bit all_below
clean_table = refl

flip_table :
    all_below 16 (λ d. all_below 7 (λ i.
      is_pair (hamming_decode_7bit (hamming_encode_4bit d ⊕ shl 1 i)) 1 (hamming_encode_4bit d)))
    ≡ true
unfolding hamming_encode_4bit hamming_decode_7bit all_below
flip_table = refl

-- The decoder passes every code word unchanged with status 0, and gives back the code word with
-- status 1 when any one of its seven bits has been flipped.
pub hamming_decode-encode :
    (d : ℕ)
    → d < 16
    → (hamming_decode_7bit (hamming_encode_4bit d) ≡ (0, hamming_encode_4bit d))
      × ((i : ℕ)
          → i < 7
          → hamming_decode_7bit (hamming_encode_4bit d ⊕ shl 1 i) ≡ (1, hamming_encode_4bit d))
hamming_decode-encode d h = (
  is_pair_sound _ _ _ (all_below_sound 16 _ d clean_table h),
  λ i k. is_pair_sound _ _ _ (all_below_sound 7 _ i (all_below_sound 16 _ d flip_table h) k),
)
