-- ===== src/Ecc/Tests.antt =====
-- modules/nand/nand.c, the codes at concrete words and pages.
use ftl_firmware.Common.{ℕ, ◌+◌, ◌%◌, ◌^◌, ◌<◌, ◌≡◌, [], ◌∷◌, ◌++◌, arith, shl, ◌⊕◌}
use ftl_firmware.Ecc.Hamming.{
  nand_ecc_hamming_encode, nand_ecc_hamming_decode, Counters, clean, corrected,
}
use ftl_firmware.Ecc.Hamming.Miscorrection.{decode-encode, decode-miscorrects}
use ftl_firmware.Ecc.Bch.{bch_encode_7bit, bch_decode_15bit}
use ftl_firmware.Ecc.Bch.Code.{bch_decode-encode}
use ftl_firmware.Ecc.Ldpc.{ldpc_encode_6bit, ldpc_decode_12bit}
use ftl_firmware.Ecc.Ldpc.Code.{ldpc_decode-encode}

abbrev unused : Counters
unused = record { corrected_count = 0; uncorrectable_count = 0 }

decode-encode_example :
    (nand_ecc_hamming_decode (7 ∷ 9 ∷ []) (nand_ecc_hamming_encode (7 ∷ 9 ∷ []) 0).1 unused
      ≡ (clean, 7 ∷ 9 ∷ [], unused))
    × ((k : ℕ)
        → 7 < 256
        → k < 8
        → nand_ecc_hamming_decode
            ((7 ⊕ shl 1 k) ∷ 9 ∷ [])
            (nand_ecc_hamming_encode (7 ∷ 9 ∷ []) 0).1
            unused
          ≡ (corrected, 7 ∷ 9 ∷ [], record unused { corrected_count = (0 + 1) % 2 ^ 32 }))
decode-encode_example = decode-encode 7 (9 ∷ []) unused

decode-miscorrects_example :
    nand_ecc_hamming_decode
      (7 ∷ ((1 ∷ []) ++ (9 ⊕ shl 1 3) ∷ 4 ∷ []))
      (nand_ecc_hamming_encode (7 ∷ ((1 ∷ []) ++ 9 ∷ 4 ∷ [])) 0).1
      unused
    ≡ (
      corrected,
      (7 ⊕ shl 1 3) ∷ ((1 ∷ []) ++ (9 ⊕ shl 1 3) ∷ 4 ∷ []),
      record unused { corrected_count = (0 + 1) % 2 ^ 32 },
    )
decode-miscorrects_example =
    decode-miscorrects 7 9 3 (1 ∷ []) (4 ∷ []) unused (omega arith) (omega arith) (omega arith)

bch_decode-encode_example :
    (bch_decode_15bit (bch_encode_7bit 85) ≡ (0, bch_encode_7bit 85))
    × ((i : ℕ) → i < 15 → bch_decode_15bit (bch_encode_7bit 85 ⊕ shl 1 i) ≡ (1, bch_encode_7bit 85))
    × ((i j : ℕ)
        → i < j
        → j < 15
        → bch_decode_15bit (bch_encode_7bit 85 ⊕ (shl 1 i ⊕ shl 1 j)) ≡ (2, bch_encode_7bit 85))
bch_decode-encode_example = bch_decode-encode 85 (omega arith)

ldpc_decode-encode_example :
    (ldpc_decode_12bit (ldpc_encode_6bit 44) ≡ (0, ldpc_encode_6bit 44))
    × ((i : ℕ)
        → i < 6
        → (ldpc_decode_12bit (ldpc_encode_6bit 44 ⊕ shl 1 i) ≡ (1, ldpc_encode_6bit 44))
          × (ldpc_decode_12bit (ldpc_encode_6bit 44 ⊕ shl 1 (6 + i))
              ≡ (4, ldpc_encode_6bit 44 ⊕ shl 1 (6 + i))))
ldpc_decode-encode_example = ldpc_decode-encode 44 (omega arith)
