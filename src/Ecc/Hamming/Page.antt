-- ===== src/Ecc/Hamming/Page.antt =====
-- modules/nand/nand.c: the page value of `nand_ecc_hamming_encode` as a sum over the bytes.
use ftl_firmware.Common.{
  ℕ, ◌<◌, ◌≡◌, refl, sym, ap, ◌∙◌, List, [], ◌∷◌, ◌==◌, ==_refl, ==_iff, ◌⊕◌, shl, all_below,
  all_below_sound, zero-xor, xor_assoc, xor-zero, true,
}
use ftl_firmware.Ecc.Hamming.{
  byte_code, encode_from, nand_ecc_hamming_encode, nand_ecc_hamming_decode, Counters,
}

-- Every byte's code, added up: the order of the bytes leaves no trace.
unfoldable pub total : List ℕ → ℕ
total [] = 0
total (b ∷ bs) = byte_code b ⊕ total bs

encode_from-cons :
    (acc b : ℕ) (bs : List ℕ) → encode_from acc (b ∷ bs) ≡ encode_from (acc ⊕ byte_code b) bs
unfolding encode_from byte_code
encode_from-cons acc b bs = ap (λ t. encode_from t bs) (xor_assoc acc _ _)

encode_from-nil : (acc : ℕ) → encode_from acc [] ≡ acc
unfolding encode_from
encode_from-nil acc = refl

encode_from-total : (acc : ℕ) (bs : List ℕ) → encode_from acc bs ≡ acc ⊕ total bs
unfolding total
encode_from-total acc [] = encode_from-nil acc ∙ sym (xor-zero acc)
encode_from-total acc (b ∷ bs) =
    encode_from-cons acc b bs
    ∙ encode_from-total (acc ⊕ byte_code b) bs
    ∙ xor_assoc acc (byte_code b) (total bs)

pub encode-total :
    (b : ℕ) (bs : List ℕ) (ecc0 : ℕ) → (nand_ecc_hamming_encode (b ∷ bs) ecc0).1 ≡ total (b ∷ bs)
unfolding nand_ecc_hamming_encode
encode-total b bs ecc0 = encode_from-total 0 (b ∷ bs) ∙ zero-xor _

flip_code_table :
    all_below 256
      (λ b. all_below 8 (λ k. byte_code (b ⊕ shl 1 k) == (byte_code b ⊕ byte_code (shl 1 k))))
    ≡ true
unfolding all_below byte_code
flip_code_table = refl

-- Flipping bit `k` of a byte changes its code by the code of that bit, whatever the byte.
pub byte_code-flip :
    (b k : ℕ) → b < 256 → k < 8 → byte_code (b ⊕ shl 1 k) ≡ byte_code b ⊕ byte_code (shl 1 k)
byte_code-flip b k h j =
    (==_iff _ _).0 (all_below_sound 8 _ k (all_below_sound 256 _ b flip_code_table h) j)

-- What decoding gives back for data as they were encoded, the empty list included.
pub decode-stored :
    (bytes : List ℕ) (c : Counters)
    → (nand_ecc_hamming_decode bytes (nand_ecc_hamming_encode bytes 0).1 c).1 ≡ bytes
unfolding nand_ecc_hamming_decode nand_ecc_hamming_encode
decode-stored [] c = refl
decode-stored (x ∷ xs) c = rw (==_refl (encode_from 0 (x ∷ xs)))
