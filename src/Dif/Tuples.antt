-- ===== src/Dif/Tuples.antt =====
-- modules/host_if/host_if.c: what the DIF tuples say of the pages.
use Prim.Native.Nat.{bit_and}
use mathlib.Core.Bool.{true≢false}
use ftl_firmware.Crc.{dif_crc16}
use ftl_firmware.Common.{
  ℕ, zero, suc, ◌+◌, ◌≤◌, ◌<◌, ◌≡◌, ◌≢◌, refl, sym, ap, ◌∙◌, Bool, true, false, Option, none, some,
  List, ◌==◌, ==_iff, ◌%◌, ◌^◌, ==_ne, if◌then◌else◌, update, update_self, update-ne, RetCode,
  ret_ok, is_ok, Bool-cases, arith, inl, inr,
}
use ftl_firmware.Dif.{
  Dif, DifConfig, Tuple, is_disabled, is_type1, lba_count, lba_data, tuple_of, generate_from,
  dif_generate, check_tuple, verify_from, dif_verify,
}

generate_from_before :
    (left i : ℕ) (c : DifConfig) (bytes : List ℕ) (data_len lba : ℕ) (ts : ℕ → Tuple) (j : ℕ)
    → j < i
    → generate_from left i c bytes data_len lba ts j ≡ ts j
unfolding generate_from
generate_from_before zero i c bytes data_len lba ts j lt = refl
generate_from_before (suc left) i c bytes data_len lba ts j lt =
    generate_from_before left (i + 1) c bytes data_len lba _ j (omega (arith, lt))
    ∙ update-ne ts i j (tuple_of c bytes data_len lba i) (λ e. omega (arith, e, lt))

generate_from-lem :
    (left i : ℕ) (c : DifConfig) (bytes : List ℕ) (data_len lba : ℕ) (ts : ℕ → Tuple) (j : ℕ)
    → i ≤ j
    → j < i + left
    → generate_from left i c bytes data_len lba ts j ≡ tuple_of c bytes data_len lba j
unfolding generate_from
generate_from-lem zero i c bytes data_len lba ts j le lt = absurd (omega (arith, le, lt))
generate_from-lem (suc left) i c bytes data_len lba ts j le lt = elim (Bool-cases (i == j)) [
  | inl e ↦
      let at : i ≡ j = ground (arith, e) in
      generate_from_before left (i + 1) c bytes data_len lba _ j (omega (arith, at))
      ∙ ap (update ts i (tuple_of c bytes data_len lba i)) (sym at)
      ∙ update_self ts i (tuple_of c bytes data_len lba i)
      ∙ ap (tuple_of c bytes data_len lba) at
  | inr e ↦
      generate_from-lem left (i + 1) c bytes data_len lba _ j (ground (arith, e, le))
        (omega (arith, lt))
]

check_tuple_made :
    (c : DifConfig) (bytes : List ℕ) (data_len lba i : ℕ)
    → check_tuple c bytes data_len lba i (tuple_of c bytes data_len lba i) ≡ ret_ok
unfolding check_tuple tuple_of
check_tuple_made c bytes data_len lba i = ground arith

verify_from_made :
    (left i : ℕ) (c : DifConfig) (bytes : List ℕ) (data_len lba : ℕ) (ts : ℕ → Tuple)
    → ((j : ℕ) → j < i + left → ts j ≡ tuple_of c bytes data_len lba j)
    → verify_from left i c bytes data_len lba ts ≡ (ret_ok, none)
unfolding verify_from
verify_from_made zero i c bytes data_len lba ts h = refl
verify_from_made (suc left) i c bytes data_len lba ts h =
    let ok =
      ap (check_tuple c bytes data_len lba i) (h i (omega arith))
      ∙ check_tuple_made c bytes data_len lba i in
    rw ok (verify_from_made left (i + 1) c bytes data_len lba ts (λ j lt. h j (omega (arith, lt))))

-- What `dif_generate` makes for some data and an address, `dif_verify` accepts for the same data and
-- address, with every check that the configuration has, if the data are not empty, and the layer is
-- ready and not disabled.
pub dif_verify-dif_generate :
    (s : Dif) (bytes : List ℕ) (data_len lba : ℕ) (ts : ℕ → Tuple)
    → data_len ≢ 0
    → s.is_initialized ≡ true
    → is_disabled s.config.dif_type ≡ false
    → let (made, ts') = dif_generate s bytes data_len lba ts in
      let (ret, failed, s') = dif_verify s bytes data_len lba ts' in
      (made ≡ ret_ok) × (ret ≡ ret_ok) × (failed ≡ none)
unfolding dif_generate dif_verify
dif_verify-dif_generate s bytes data_len lba ts some_data ready enabled =
    let made =
      verify_from_made (lba_count data_len) 0 s.config bytes data_len lba
        (generate_from (lba_count data_len) 0 s.config bytes data_len lba ts)
        (λ j lt.
          generate_from-lem (lba_count data_len) 0 s.config bytes data_len lba ts j (omega arith)
            lt) in
    simp (==_ne data_len 0 some_data, ready, enabled)
      (refl, ap (λ (r : RetCode × Option ℕ). r.0) made, ap (λ (r : RetCode × Option ℕ). r.1) made)

verify_from_sound :
    (left i : ℕ) (c : DifConfig) (bytes : List ℕ) (data_len lba : ℕ) (ts : ℕ → Tuple)
    → is_ok (verify_from left i c bytes data_len lba ts).0 ≡ true
    → (j : ℕ) → i ≤ j
    → j < i + left
    → is_ok (check_tuple c bytes data_len lba j (ts j)) ≡ true
unfolding verify_from
verify_from_sound zero i c bytes data_len lba ts ok j le lt = absurd (omega (arith, le, lt))
verify_from_sound (suc left) i c bytes data_len lba ts ok j le lt =
    elim (Bool-cases (is_ok (check_tuple c bytes data_len lba i (ts i)))) [
      | inl e ↦
          let rest = verify_from_sound left (i + 1) c bytes data_len lba ts (
            sym (
              ap
                (λ (b : Bool).
                  is_ok
                    (if b then verify_from left (i + 1) c bytes data_len lba ts else (
                      check_tuple c bytes data_len lba i (ts i),
                      some ((lba + i) % 2 ^ 64),
                    )).0)
                e)
            ∙ ok) in
          elim (Bool-cases (i == j)) [
            | inl k ↦
                ap (λ (a : ℕ). is_ok (check_tuple c bytes data_len lba a (ts a)))
                  (sym ((==_iff _ _).0 k))
                ∙ e
            | inr k ↦ rest j (ground (arith, k, le)) (omega (arith, lt))
          ]
      | inr e ↦ absurd (
          true≢false (
            sym ok
            ∙ ap
                (λ (b : Bool).
                  is_ok
                    (if b then verify_from left (i + 1) c bytes data_len lba ts else (
                      check_tuple c bytes data_len lba i (ts i),
                      some ((lba + i) % 2 ^ 64),
                    )).0)
                e
            ∙ e))
    ]

-- What an accepted tuple says of its page.
abbrev pub Protects : DifConfig → List ℕ → ℕ → ℕ → ℕ → Tuple → Type 0
Protects c bytes data_len lba i t =
    (c.guard_check_enable ≡ true → dif_crc16 (lba_data bytes data_len i) ≡ t.crc)
    × (c.app_tag_check_enable ≡ true
        → bit_and t.app_tag c.app_tag_mask ≡ bit_and c.app_tag c.app_tag_mask)
    × (c.ref_tag_check_enable ≡ true → is_type1 c.dif_type ≡ true → t.ref_tag ≡ (lba + i) % 2 ^ 32)

check_tuple-Protects :
    (c : DifConfig) (bytes : List ℕ) (data_len lba i : ℕ) (t : Tuple)
    → is_ok (check_tuple c bytes data_len lba i t) ≡ true
    → Protects c bytes data_len lba i t
unfolding check_tuple
check_tuple-Protects c bytes data_len lba i t ok = (
  λ on. ground (arith, ok, on),
  λ on. ground (arith, ok, on),
  λ on one. ground (arith, ok, on, one),
)

-- If `dif_verify` accepts data with their tuples, then the tuple of each page has the checksum of the
-- page if the guard check is on, the configured application tag under the mask if the check of that
-- tag is on, and the address of the page if the check of the reference tag is on and the type is 1.
-- The application tag is checked whatever the type: for type 3 too, where the header's comment says
-- that it is not.
pub dif_verify-Protects :
    (s : Dif) (bytes : List ℕ) (data_len lba : ℕ) (ts : ℕ → Tuple)
    → (dif_verify s bytes data_len lba ts).0 ≡ ret_ok
    → (i : ℕ) → i < lba_count data_len
    → Protects s.config bytes data_len lba i (ts i)
unfolding dif_verify
dif_verify-Protects s bytes data_len lba ts ok i lt =
    check_tuple-Protects s.config bytes data_len lba i (ts i) (
      verify_from_sound (lba_count data_len) 0 s.config bytes data_len lba ts (ground (arith, ok)) i
        (omega arith) (omega (arith, lt)))
