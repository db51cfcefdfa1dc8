-- ===== src/Ecc/Hamming/Miscorrection.antt =====
-- modules/nand/nand.c: what `nand_ecc_hamming_decode` does with a page that has one flipped bit.
use ftl_firmware.Common.{
  ℕ, zero, suc, ◌+◌, ◌%◌, ◌^◌, ◌≤◌, ◌<◌, ◌≡◌, ◌≢◌, refl, sym, ap, ◌∙◌, List, [], ◌∷◌, ◌++◌, some,
  ◌==◌, ==_iff, ==_ne, ==_refl, ◌⊕◌, shl, all_below, all_below_sound, xor_assoc, xor_left_comm,
  xor_cancel, xor-zero, xor_self, ltb, ltb→lt, xor_comm, xor_left_cancel, true, false, not, ◌||◌,
  Bool-cases, inl, inr, arith,
}
use ftl_firmware.Ecc.Hamming.{
  clean, corrected, Counters, byte_code, nand_ecc_hamming_encode, nand_ecc_hamming_decode, try_bits,
  try_bytes,
}
use ftl_firmware.Ecc.Hamming.Page.{total, encode-total, byte_code-flip}

bit_codes_table :
    all_below 8 (λ j. all_below 8 (λ k. not (byte_code (shl 1 j) == byte_code (shl 1 k)) || j == k))
    ≡ true
unfolding all_below byte_code
bit_codes_table = refl

or_elim : (x y j k : ℕ) → (not (x == y) || j == k) ≡ true → x ≡ y → j ≡ k
or_elim x y j k h e = ground arith

-- The eight bits of a byte have different codes.
bit_codes_differ : (j k : ℕ) → j < 8 → k < 8 → byte_code (shl 1 j) ≡ byte_code (shl 1 k) → j ≡ k
bit_codes_differ j k hj hk =
    or_elim _ _ j k (all_below_sound 8 _ k (all_below_sound 8 _ j bit_codes_table hj) hk)

bit_codes_table_ne : all_below 8 (λ k. not (byte_code (shl 1 k) == 0)) ≡ true
unfolding all_below byte_code
bit_codes_table_ne = refl

not_elim : (x y : ℕ) → not (x == y) ≡ true → x ≢ y
not_elim x y h e = absurd (ground arith)

bit_code-ne-zero : (k : ℕ) → k < 8 → byte_code (shl 1 k) ≢ 0
bit_code-ne-zero k h = not_elim _ 0 (all_below_sound 8 _ k bit_codes_table_ne h)

total-cons : (b : ℕ) (bs : List ℕ) → total (b ∷ bs) ≡ byte_code b ⊕ total bs
unfolding total
total-cons b bs = refl

total-flip_head :
    (b k : ℕ) (bs : List ℕ)
    → b < 256
    → k < 8
    → total ((b ⊕ shl 1 k) ∷ bs) ≡ byte_code (shl 1 k) ⊕ total (b ∷ bs)
total-flip_head b k bs h j =
    total-cons (b ⊕ shl 1 k) bs
    ∙ ap (λ t. t ⊕ total bs) (byte_code-flip b k h j ∙ xor_comm (byte_code b) _)
    ∙ xor_assoc (byte_code (shl 1 k)) (byte_code b) (total bs)
    ∙ ap (λ t. byte_code (shl 1 k) ⊕ t) (sym (total-cons b bs))

-- Flipping one bit anywhere changes the page's value by the code of that bit.
total-flip :
    (pre : List ℕ) (b k : ℕ) (post : List ℕ)
    → b < 256
    → k < 8
    → total (pre ++ (b ⊕ shl 1 k) ∷ post) ≡ byte_code (shl 1 k) ⊕ total (pre ++ b ∷ post)
total-flip [] b k post h j = total-flip_head b k post h j
total-flip (p ∷ pre) b k post h j =
    total-cons p (pre ++ (b ⊕ shl 1 k) ∷ post)
    ∙ ap (λ t. byte_code p ⊕ t) (total-flip pre b k post h j)
    ∙ xor_left_comm (byte_code p) (byte_code (shl 1 k)) (total (pre ++ b ∷ post))
    ∙ ap (λ t. byte_code (shl 1 k) ⊕ t) (sym (total-cons p (pre ++ b ∷ post)))

-- One bit of the first byte of a page whose stored value is off by the code of bit `k`.
module _ (x k : ℕ) (rest : List ℕ) (ecc : ℕ) (hx : x < 256) (hk : k < 8)
    (off : ecc ≡ byte_code (shl 1 k) ⊕ total (x ∷ rest)) where
  value :
      (j : ℕ)
      → j < 8
      → (nand_ecc_hamming_encode ((x ⊕ shl 1 j) ∷ rest) 0).1
        ≡ byte_code (shl 1 j) ⊕ total (x ∷ rest)
  value j h = encode-total (x ⊕ shl 1 j) rest 0 ∙ total-flip_head x j rest hx h

  hit : ((nand_ecc_hamming_encode ((x ⊕ shl 1 k) ∷ rest) 0).1 == ecc) ≡ true
  hit = (==_iff _ _).1 (value k hk ∙ sym off)

  miss :
      (j : ℕ)
      → j < 8
      → j ≢ k
      → ((nand_ecc_hamming_encode ((x ⊕ shl 1 j) ∷ rest) 0).1 == ecc) ≡ false
  miss j h ne = ==_ne _ _ (λ e. ne (
      bit_codes_differ j k h hk (
        xor_left_cancel (total (x ∷ rest)) _ _
          (xor_comm _ _ ∙ sym (value j h) ∙ e ∙ off ∙ xor_comm _ _))))

  -- The search stops at the bit whose code explains the difference.
  try_bits-first :
      (left j : ℕ)
      → j ≤ k
      → k < j + left
      → j + left ≤ 8
      → try_bits left j [] x rest ecc ≡ some ((x ⊕ shl 1 k) ∷ rest)
  unfolding try_bits
  try_bits-first zero j low high in8 = absurd (omega arith)
  try_bits-first (suc left) j low high in8 = elim (Bool-cases (j == k)) [
    | inl same ↦ rw ((==_iff j k).0 same, hit)
    | inr other ↦
        rw (miss j (omega arith) (ground arith))
          (try_bits-first left (j + 1) (ground arith) (omega arith) (omega arith))
  ]

  not_clean : ((nand_ecc_hamming_encode (x ∷ rest) 0).1 == ecc) ≡ false
  not_clean = ==_ne _ _ (λ e. bit_code-ne-zero k hk (
      xor_left_cancel (total (x ∷ rest)) _ 0
        (xor_comm _ _ ∙ sym off ∙ sym e ∙ encode-total x rest 0 ∙ sym (xor-zero _))))

  try_bytes-first : try_bytes [] (x ∷ rest) ecc ≡ some ((x ⊕ shl 1 k) ∷ rest)
  unfolding try_bytes
  try_bytes-first = rw (try_bits-first 8 0 (omega arith) (omega arith) (omega arith), try_bytes)

  decode-flips_head :
      (c : Counters)
      → nand_ecc_hamming_decode (x ∷ rest) ecc c ≡ (
        corrected,
        (x ⊕ shl 1 k) ∷ rest,
        record c { corrected_count = (c.corrected_count + 1) % 2 ^ 32 },
      )
  unfolding nand_ecc_hamming_decode
  decode-flips_head c = rw (not_clean, try_bytes-first)

-- The value stored for a page, in terms of the page with one bit flipped.
stored-off :
    (pre : List ℕ) (b k : ℕ) (post : List ℕ) (x : ℕ)
    → b < 256
    → k < 8
    → (nand_ecc_hamming_encode (x ∷ (pre ++ b ∷ post)) 0).1
      ≡ byte_code (shl 1 k) ⊕ total (x ∷ (pre ++ (b ⊕ shl 1 k) ∷ post))
stored-off pre b k post x h j =
    encode-total x (pre ++ b ∷ post) 0
    ∙ sym (xor_cancel (byte_code (shl 1 k)) _)
    ∙ ap (λ t. byte_code (shl 1 k) ⊕ t) (sym (total-flip (x ∷ pre) b k post h j))

flip_bounds : all_below 256 (λ x. all_below 8 (λ k. ltb (x ⊕ shl 1 k) 256)) ≡ true
unfolding all_below
flip_bounds = refl

flip-lt : (x k : ℕ) → x < 256 → k < 8 → (x ⊕ shl 1 k) < 256
flip-lt x k h j = ltb→lt _ _ (all_below_sound 8 _ k (all_below_sound 256 _ x flip_bounds h) j)

stored :
    (x k : ℕ) (rest : List ℕ)
    → x < 256
    → k < 8
    → (nand_ecc_hamming_encode (x ∷ rest) 0).1 ≡ byte_code (shl 1 k) ⊕ total ((x ⊕ shl 1 k) ∷ rest)
stored x k rest h j =
    encode-total x rest 0
    ∙ sym (xor_cancel (byte_code (shl 1 k)) _)
    ∙ ap (λ t. byte_code (shl 1 k) ⊕ t) (sym (total-flip_head x k rest h j))

-- A page of bytes decodes unchanged, and as clean, against the value that was encoded from it. If
-- one bit of its first byte is flipped, the decoder reports a correction and gives the page back.
pub decode-encode :
    (x : ℕ) (rest : List ℕ) (c : Counters)
    → (nand_ecc_hamming_decode (x ∷ rest) (nand_ecc_hamming_encode (x ∷ rest) 0).1 c
        ≡ (clean, x ∷ rest, c))
      × ((k : ℕ)
          → x < 256
          → k < 8
          → nand_ecc_hamming_decode
              ((x ⊕ shl 1 k) ∷ rest)
              (nand_ecc_hamming_encode (x ∷ rest) 0).1
              c
            ≡ (
              corrected,
              x ∷ rest,
              record c { corrected_count = (c.corrected_count + 1) % 2 ^ 32 },
            ))
unfolding nand_ecc_hamming_decode
decode-encode x rest c = (
  rw (==_refl (nand_ecc_hamming_encode (x ∷ rest) 0).1),
  λ k h j.
      decode-flips_head (x ⊕ shl 1 k) k rest _ (flip-lt x k h j) j (stored x k rest h j) c
      ∙ ap
          (λ t.
            (corrected, t ∷ rest, record c { corrected_count = (c.corrected_count + 1) % 2 ^ 32 }))
          (xor_assoc x _ _ ∙ ap (λ t. x ⊕ t) (xor_self _) ∙ xor-zero x),
)

-- If instead one bit of a later byte is flipped, the decoder still reports a correction, but it
-- flips that bit of the first byte: the damaged byte stays damaged and a sound one is spoilt.
pub decode-miscorrects :
    (x b k : ℕ) (pre post : List ℕ) (c : Counters)
    → x < 256
    → b < 256
    → k < 8
    → nand_ecc_hamming_decode
        (x ∷ (pre ++ (b ⊕ shl 1 k) ∷ post))
        (nand_ecc_hamming_encode (x ∷ (pre ++ b ∷ post)) 0).1
        c
      ≡ (
        corrected,
        (x ⊕ shl 1 k) ∷ (pre ++ (b ⊕ shl 1 k) ∷ post),
        record c { corrected_count = (c.corrected_count + 1) % 2 ^ 32 },
      )
decode-miscorrects x b k pre post c hx hb hk =
    decode-flips_head x k (pre ++ (b ⊕ shl 1 k) ∷ post) _ hx hk (stored-off pre b k post x hb hk) c
