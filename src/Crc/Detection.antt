-- ===== src/Crc/Detection.antt =====
-- What the CRC-32 of the firmware detects.
use ftl_firmware.Common.{
  ℕ, zero, suc, ◌/◌, ◌%◌, ◌^◌, ◌<◌, ◌≡◌, ◌≢◌, refl, sym, ap, ◌∙◌, List, [], ◌∷◌, ◌++◌, Bytes, ◌⊕◌,
  shr, xor-lt, xor_left_cancel, xor_comm, xor-shr-parity, arith,
}
use ftl_firmware.Crc.Reference.{
  poly32, crc_bit, crc_bits, reference_from, reference, crc32-reference,
}
use ftl_firmware.Crc.{utils_crc32}

crc_bit-lt : (x : ℕ) → x < 2 ^ 32 → crc_bit x < 2 ^ 32
unfolding crc_bit
crc_bit-lt x h = ground (arith, xor-lt 32 (x / 2) poly32)

-- The top bit of the outcome is the bit that was shifted out.
crc_bit-top : (x : ℕ) → x < 2 ^ 32 → shr (crc_bit x) 31 % 2 ≡ x % 2
unfolding crc_bit
crc_bit-top x h = ground (arith, xor-shr-parity 31 (x / 2) poly32)

crc_bit-half : (x y : ℕ) → x % 2 ≡ y % 2 → crc_bit x ≡ crc_bit y → x / 2 ≡ y / 2
unfolding crc_bit
crc_bit-half x y h e = ground (
  arith,
  xor_left_cancel poly32 (x / 2) (y / 2),
  xor_comm poly32 (x / 2),
  xor_comm poly32 (y / 2),
)

crc_bit-injective : (x y : ℕ) → x < 2 ^ 32 → y < 2 ^ 32 → crc_bit x ≡ crc_bit y → x ≡ y
crc_bit-injective x y h j e =
    let parity : x % 2 ≡ y % 2 =
      sym (crc_bit-top x h) ∙ ap (λ t. shr t 31 % 2) e ∙ crc_bit-top y j in
    omega (arith, crc_bit-half x y parity e)

crc_bits-lt : (n x : ℕ) → x < 2 ^ 32 → crc_bits n x < 2 ^ 32
unfolding crc_bits
crc_bits-lt zero x h = h
crc_bits-lt (suc n) x h = crc_bits-lt n (crc_bit x) (crc_bit-lt x h)

crc_bits-injective : (n x y : ℕ) → x < 2 ^ 32 → y < 2 ^ 32 → crc_bits n x ≡ crc_bits n y → x ≡ y
unfolding crc_bits
crc_bits-injective zero x y h j e = e
crc_bits-injective (suc n) x y h j e =
    crc_bit-injective x y h j
      (crc_bits-injective n (crc_bit x) (crc_bit y) (crc_bit-lt x h) (crc_bit-lt y j) e)

byte_in-lt : (crc b : ℕ) → crc < 2 ^ 32 → b < 256 → crc ⊕ b < 2 ^ 32
byte_in-lt crc b h j = xor-lt 32 crc b h (omega arith)

reference_from-lt :
    (bs : List ℕ) (crc : ℕ) → Bytes bs → crc < 2 ^ 32 → reference_from crc bs < 2 ^ 32
unfolding reference_from
reference_from-lt [] crc h j = j
reference_from-lt (b ∷ bs) crc (h, hs) j =
    reference_from-lt bs (crc_bits 8 (crc ⊕ b)) hs (crc_bits-lt 8 (crc ⊕ b) (byte_in-lt crc b j h))

reference_from-injective :
    (bs : List ℕ) (x y : ℕ)
    → Bytes bs
    → x < 2 ^ 32
    → y < 2 ^ 32
    → reference_from x bs ≡ reference_from y bs
    → x ≡ y
unfolding reference_from
reference_from-injective [] x y h j k e = e
reference_from-injective (b ∷ bs) x y (h, hs) j k e = xor_left_cancel b x y (
    xor_comm b x
    ∙ crc_bits-injective 8 (x ⊕ b) (y ⊕ b) (byte_in-lt x b j h) (byte_in-lt y b k h) (
        reference_from-injective bs _ _ hs (crc_bits-lt 8 _ (byte_in-lt x b j h))
          (crc_bits-lt 8 _ (byte_in-lt y b k h)) e)
    ∙ xor_comm y b)

reference_from-append :
    (pre rest : List ℕ) (crc : ℕ)
    → reference_from crc (pre ++ rest) ≡ reference_from (reference_from crc pre) rest
unfolding reference_from
reference_from-append [] rest crc = refl
reference_from-append (p ∷ pre) rest crc = reference_from-append pre rest _

reference-middle :
    (pre : List ℕ) (b : ℕ) (post : List ℕ)
    → reference (pre ++ b ∷ post)
      ≡ reference_from (crc_bits 8 (reference_from 0xffffffff pre ⊕ b)) post ⊕ 0xffffffff
unfolding reference reference_from
reference-middle [] b post = refl
reference-middle (p ∷ pre) b post =
    ap (λ t. t ⊕ 0xffffffff) (reference_from-append pre (b ∷ post) _)

Bytes-append : (pre rest : List ℕ) → Bytes (pre ++ rest) → Bytes pre × Bytes rest
Bytes-append [] rest h = (tt, h)
Bytes-append (p ∷ pre) rest (h, hs) = let (a, b) = Bytes-append pre rest hs in ((h, a), b)

Bytes-replace :
    (pre : List ℕ) (b c : ℕ) (post : List ℕ)
    → c < 256
    → Bytes (pre ++ b ∷ post)
    → Bytes (pre ++ c ∷ post)
Bytes-replace [] b c post j (h, hs) = (j, hs)
Bytes-replace (p ∷ pre) b c post j (h, hs) = (h, Bytes-replace pre b c post j hs)

utils-middle :
    (pre : List ℕ) (b : ℕ) (post : List ℕ)
    → Bytes (pre ++ b ∷ post)
    → utils_crc32 (pre ++ b ∷ post)
      ≡ 0xffffffff ⊕ reference_from (crc_bits 8 (reference_from 0xffffffff pre ⊕ b)) post
utils-middle pre b post h =
    (crc32-reference (pre ++ b ∷ post) h).0 ∙ reference-middle pre b post ∙ xor_comm _ _

utils_crc32-injective :
    (pre : List ℕ) (b c : ℕ) (post : List ℕ)
    → Bytes (pre ++ b ∷ post)
    → c < 256
    → utils_crc32 (pre ++ b ∷ post) ≡ utils_crc32 (pre ++ c ∷ post)
    → b ≡ c
utils_crc32-injective pre b c post h hc e =
    let (hp, hbq) = Bytes-append pre (b ∷ post) h in
    let (hb, hq) = hbq in
    let start : reference_from 0xffffffff pre < 2 ^ 32 =
      reference_from-lt pre 0xffffffff hp (omega arith) in
    xor_left_cancel (reference_from 0xffffffff pre) b c (
      crc_bits-injective 8 _ _ (byte_in-lt _ b start hb) (byte_in-lt _ c start hc) (
        reference_from-injective post _ _ hq (crc_bits-lt 8 _ (byte_in-lt _ b start hb))
          (crc_bits-lt 8 _ (byte_in-lt _ c start hc))
          (xor_left_cancel 0xffffffff _ _ (
            sym (utils-middle pre b post h)
            ∙ e
            ∙ utils-middle pre c post (Bytes-replace pre b c post hc h)))))

-- Two messages of bytes that differ in one byte only have different CRC-32 values.
pub utils_crc32-detects :
    (pre : List ℕ) (b c : ℕ) (post : List ℕ)
    → Bytes (pre ++ b ∷ post)
    → c < 256
    → b ≢ c
    → utils_crc32 (pre ++ b ∷ post) ≢ utils_crc32 (pre ++ c ∷ post)
utils_crc32-detects pre b c post h hc ne e = ne (utils_crc32-injective pre b c post h hc e)
