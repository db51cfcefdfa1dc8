-- ===== src/Crc/Guard.antt =====
-- `dif_crc16` of modules/host_if/host_if.c, the guard tag of the end-to-end protection, against the
-- division by the polynomial 0x8bb7 that its table is meant to hold.
use ftl_firmware.Common.{
  ℕ, zero, suc, ◌%◌, ◌^◌, List, [], ◌∷◌, ◌==◌, if◌then◌else◌, ◌⊕◌, shl, shr, Bool,
}
use ftl_firmware.Crc.{dif_crc16}

-- One bit of the division, from the top.
unfoldable pub t10_bits : ℕ → ℕ → ℕ
t10_bits zero c = c
t10_bits (suc n) c =
    t10_bits n (if shr c 15 % 2 == 0 then shl c 1 % 2 ^ 16 else (shl c 1 % 2 ^ 16) ⊕ 0x8bb7)

unfoldable pub t10_from : ℕ → List ℕ → ℕ
unfolding t10_bits
t10_from crc [] = crc
t10_from crc (b ∷ bs) = t10_from (t10_bits 8 (crc ⊕ shl b 8)) bs

abbrev agrees : ℕ → Bool
agrees b = dif_crc16 (b ∷ []) == t10_from 0xffff (b ∷ [])
