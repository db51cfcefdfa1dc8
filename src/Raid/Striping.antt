-- ===== src/Raid/Striping.antt =====
-- modules/raid/raid.c: no two logical pages share a place.
use ftl_firmware.Common.{
  ℕ, ◌+◌, ◌*◌, ◌/◌, ◌%◌, ◌^◌, ◌≤◌, ◌<◌, ◌≡◌, ◌≢◌, sym, ap, ap₂, ◌∙◌, subst, arith,
}
use native.Mathlib.Nat.{
  mod-lt, mod-eq_of_lt, div-eq_of_lt, div-add-mod, div-le_self, mul-add-div_right, mul_comm,
  mul-add-mod_self_right, mod-mod, mul-le-mul_right,
}
use ftl_firmware.Raid.{RaidConfig, raid0_map}

-- The logical page at page `l` of member `m`.
abbrev page_at : ℕ → ℕ → ℕ × ℕ → ℕ
page_at n k (m, l) = k * (n * (l / k) + m) + l % k

module _ (n k : ℕ) (n_pos : 0 < n) (k_pos : 0 < k) where
  inner : ℕ → ℕ
  inner a = a / k / n * k + a % k

  inner-div : (a : ℕ) → inner a / k ≡ a / k / n
  unfolding inner
  inner-div a =
      mul-add-div_right k_pos (a / k / n) (a % k)
      ∙ ap (λ r. a / k / n + r) (div-eq_of_lt (mod-lt a k_pos))
      ∙ omega arith

  inner-mod : (a : ℕ) → inner a % k ≡ a % k
  unfolding inner
  inner-mod a = mul-add-mod_self_right (a / k / n) k (a % k) ∙ mod-mod a k

  page_at-inner : (a : ℕ) → page_at n k (a / k % n, inner a) ≡ a
  page_at-inner a =
      ap₂ (λ q r. k * (n * q + a / k % n) + r) (inner-div a) (inner-mod a)
      ∙ ap (λ q. k * q + a % k) (div-add-mod (a / k) n)
      ∙ div-add-mod a k

  inner-le : (a : ℕ) → inner a ≤ a
  unfolding inner
  inner-le a =
      let shrunk = mul-le-mul_right k (div-le_self (a / k) n) in
      let whole = div-add-mod a k in
      let turned = mul_comm k (a / k) in omega (arith, shrunk, whole, turned)

module _ (n k : ℕ) (n_pos : 0 < n) (n_low : n < 2 ^ 32) (k_pos : 0 < k) where
  member-mod : (a : ℕ) → a / k % n % 2 ^ 32 ≡ a / k % n
  member-mod a = let low = mod-lt (a / k) n_pos in mod-eq_of_lt (omega (arith, low, n_low))

  raid0_map-page_at :
      (a : ℕ) → a < 2 ^ 64 → page_at n k (a / k % n % 2 ^ 32, (a / k / n * k + a % k) % 2 ^ 64) ≡ a
  unfolding inner
  raid0_map-page_at a low =
      let small = inner-le n k n_pos k_pos a in
      ap₂ (λ m l. page_at n k (m, l)) (member-mod a) (mod-eq_of_lt (omega (arith, small, low)))
      ∙ page_at-inner n k n_pos k_pos a

-- The map of RAID 0 gives a member of the array, and two different logical pages never the same page
-- of the same member, for a stripe size and a member count that are not 0, a 32-bit member count and
-- 64-bit page numbers.
pub raid0_map-apart :
    (c : RaidConfig) (a b : ℕ)
    → 0 < c.member_count
    → c.member_count < 2 ^ 32
    → 0 < c.stripe_size
    → a < 2 ^ 64
    → b < 2 ^ 64
    → ((raid0_map c a).0 < c.member_count) × (a ≢ b → raid0_map c a ≢ raid0_map c b)
unfolding raid0_map
raid0_map-apart c a b n_pos n_low k_pos a_low b_low =
    let n = c.member_count in
    let k = c.stripe_size in
    let home = raid0_map-page_at n k n_pos n_low k_pos in
    (
      subst (λ (m : ℕ). m < n) (sym (member-mod n k n_pos n_low k_pos a)) (mod-lt (a / k) n_pos),
      λ ne e. ne (sym (home a a_low) ∙ ap (page_at n k) e ∙ home b b_low),
    )
