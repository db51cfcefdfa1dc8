-- ===== src/Raid/Shown/Stripe.antt =====
-- modules/raid/raid.c: writes and reads of a striped array, as one array of pages.
use ftl_firmware.Common.{
  ℕ, ◌^◌, ◌≤◌, ◌<◌, ◌≡◌, ◌≢◌, sym, ap, ap₂, ◌∙◌, subst, true, false, Option, some, List, ◌==◌,
  ==_iff, if_cases, update, update-cases, RetCode, ret_ok, is_ok, Bool-cases, arith, ◌⊎◌, inl, inr,
}
use mathlib.Core.Bool.{true≢false}
use ftl_firmware.Raid.{
  Raid, RaidConfig, RaidLevel, level_0, count_error, max_members, usable, raid0_map, member_read,
  member_write, read_level, write_level, raid_read, raid_write,
}
use ftl_firmware.Raid.Striping.{raid0_map-apart}
use ftl_firmware.Raid.Shown.{page_of}
use ftl_firmware.Raid.Shown.Mirror.{member_write-IsWritten, written_at, raid_write-written_at}
use ftl_firmware.Raid.Shown.MirrorRead.{read_at, raid_read-read_at}

-- The shape of a striped array.
pub record IsStriped (s : Raid) : Type 0 where
  pub ready : s.is_initialized ≡ true
  pub mode : s.config.level ≡ level_0
  pub some_members : 0 < s.config.member_count
  pub count_in : s.config.member_count ≤ max_members
  pub some_stripe : 0 < s.config.stripe_size
  pub capacity_in : s.logical_capacity < 2 ^ 64

-- Each page lies where the map says.
abbrev pub Stripes : Raid → (ℕ → List ℕ) → Type 0
Stripes s content =
    IsStriped s
    × ((p : ℕ)
        → p < s.logical_capacity
        → page_of s (raid0_map s.config p).0 (raid0_map s.config p).1 ≡ content p)

-- The shape and the pages that a write of page `q` of member `i` leaves.
abbrev Changed : ℕ → ℕ → List ℕ → Raid → RetCode × Raid → Type 0
Changed i q buf s (ret, t) =
    (t.is_initialized ≡ s.is_initialized)
    × (t.config ≡ s.config)
    × (t.logical_capacity ≡ s.logical_capacity)
    × (is_ok ret ≡ true → page_of t i q ≡ buf)
    × ((j p : ℕ) → (j ≢ i) ⊎ (p ≢ q) → page_of t j p ≡ page_of s j p)
    × (is_ok ret ≡ false → t ≡ s)

member_write-Changed :
    (s : Raid) (i q : ℕ) (buf : List ℕ) → Changed i q buf s (member_write s i q buf)
unfolding member_write
member_write-Changed s i q buf = (
  ground arith,
  ground arith,
  ground arith,
  λ ok. ground arith,
  λ j p o. ground arith,
  λ bad. ground arith,
)

-- Two pages lie apart.
apart :
    (s : Raid) (a b : ℕ)
    → IsStriped s
    → a < s.logical_capacity
    → b < s.logical_capacity
    → a ≢ b
    → ((raid0_map s.config a).0 ≢ (raid0_map s.config b).0)
      ⊎ ((raid0_map s.config a).1 ≢ (raid0_map s.config b).1)
apart s a b h a_in b_in ne =
    let m = raid0_map s.config a in
    let n = raid0_map s.config b in
    let count = h.count_in in
    let whole = h.capacity_in in
    let (in_array, differ) =
      raid0_map-apart s.config a b h.some_members (omega (arith, count)) h.some_stripe
        (omega (arith, a_in, whole)) (omega (arith, b_in, whole)) in
    elim (Bool-cases (m.0 == n.0)) [
      | inl e ↦ inr (λ k. differ ne (ap₂ (λ (x y : ℕ). (x, y)) ((==_iff _ _).0 e) k))
      | inr e ↦ inl (λ k. true≢false (sym ((==_iff _ _).1 k) ∙ e))
    ]

IsStriped-kept :
    (s t : Raid)
    → t.is_initialized ≡ s.is_initialized
    → t.config ≡ s.config
    → t.logical_capacity ≡ s.logical_capacity
    → IsStriped s
    → IsStriped t
IsStriped-kept s t g e f h = record {
  ready = g ∙ h.ready;
  mode = ap (λ (c : RaidConfig). c.level) e ∙ h.mode;
  some_members = subst (λ (c : RaidConfig). 0 < c.member_count) (sym e) h.some_members;
  count_in = subst (λ (c : RaidConfig). c.member_count ≤ max_members) (sym e) h.count_in;
  some_stripe = subst (λ (c : RaidConfig). 0 < c.stripe_size) (sym e) h.some_stripe;
  capacity_in = subst (λ (n : ℕ). n < 2 ^ 64) (sym f) h.capacity_in;
}

-- With `ret_ok` the page has the new data, with any other answer nothing changes.
abbrev pub Stored : (ℕ → List ℕ) → ℕ → List ℕ → RetCode × Raid → Type 0
Stored content lpn buf (ret, t) =
    (is_ok ret ≡ true → Stripes t (update content lpn buf))
    × (is_ok ret ≡ false → Stripes t content)

Changed-Stored :
    (s : Raid) (content : ℕ → List ℕ) (lpn : ℕ) (buf : List ℕ) (r : RetCode × Raid)
    → lpn < s.logical_capacity
    → Stripes s content
    → Changed (raid0_map s.config lpn).0 (raid0_map s.config lpn).1 buf s r
    → Stored content lpn buf r
Changed-Stored s content lpn buf (ret, t) low (h, held) (g, e, f, new, others, nothing) = (
  λ ok. (
    IsStriped-kept s t g e f h,
    λ p p_in.
        let p_in' : p < s.logical_capacity = omega (arith, p_in, f) in
        ap (λ (c : RaidConfig). page_of t (raid0_map c p).0 (raid0_map c p).1) e
        ∙ elim (update-cases content lpn buf p) [
          | inl (k, u) ↦
              ap (λ (a : ℕ). page_of t (raid0_map s.config a).0 (raid0_map s.config a).1) k
              ∙ new ok
              ∙ sym u
          | inr (ne, u) ↦ others _ _ (apart s p lpn h p_in' low ne) ∙ held p p_in' ∙ sym u
        ],
  ),
  λ bad. subst (λ (x : Raid). Stripes x content) (sym (nothing bad)) (h, held),
)

Stripes-count_error :
    (s : Raid) (content : ℕ → List ℕ) (ret : RetCode)
    → Stripes s content
    → Stripes (count_error ret s) content
Stripes-count_error s content ret (h, held) =
    if_cases (λ (t : Raid). Stripes t content) (is_ok ret) (λ _. (h, held))
      (λ _. (
        record {
          ready = h.ready;
          mode = h.mode;
          some_members = h.some_members;
          count_in = h.count_in;
          some_stripe = h.some_stripe;
          capacity_in = h.capacity_in;
        },
        held,
      ))

Stored-count_error :
    (content : ℕ → List ℕ) (lpn : ℕ) (buf : List ℕ) (r : RetCode × Raid)
    → Stored content lpn buf r
    → Stored content lpn buf (r.0, count_error r.0 r.1)
Stored-count_error content lpn buf (ret, t) (good, bad) = (
  λ ok. Stripes-count_error t _ ret (good ok),
  λ failed. Stripes-count_error t content ret (bad failed),
)

-- The member that stores the page is usable and has it.
abbrev pub Reaches : Raid → ℕ → Type 0
Reaches s lpn =
    let (i, q) = raid0_map s.config lpn in
    (usable (s.members i) ≡ true) × (q < (s.members i).total_lpns)

member_in :
    (s : Raid) (lpn : ℕ)
    → lpn < s.logical_capacity
    → IsStriped s
    → (raid0_map s.config lpn).0 < max_members
member_in s lpn low h =
    let count = h.count_in in
    let whole = h.capacity_in in
    let (in_array, differ) =
      raid0_map-apart s.config lpn lpn h.some_members (omega (arith, count)) h.some_stripe
        (omega (arith, low, whole)) (omega (arith, low, whole)) in
    omega (arith, in_array, count)

-- On a striped array that stores `content`, a write of a page below the capacity changes that page and
-- no other if it succeeds, and changes no page if it fails; it succeeds if the member that stores the
-- page is usable and has it.
pub raid_write-Stripes :
    (s : Raid) (content : ℕ → List ℕ) (lpn : ℕ) (buf : List ℕ)
    → lpn < s.logical_capacity
    → Stripes s content
    → let r = raid_write s lpn (some buf) in
      (Reaches s lpn → r.0 ≡ ret_ok) × Stored content lpn buf r
unfolding write_level
raid_write-Stripes s content lpn buf low h =
    let m = raid0_map s.config lpn in
    let w = member_write s m.0 m.1 buf in
    subst (λ (r : RetCode × Raid). (Reaches s lpn → r.0 ≡ ret_ok) × Stored content lpn buf r)
      (sym (
        raid_write-written_at s lpn buf h.0.ready low
        ∙ ap (λ (l : RaidLevel). written_at l s lpn buf) h.0.mode))
      (
        λ (u, q_in). (member_write-IsWritten s m.0 m.1 buf (member_in s lpn low h.0) u q_in).0,
        Stored-count_error content lpn buf w
            (Changed-Stored s content lpn buf w low h (member_write-Changed s m.0 m.1 buf)),
      )

-- A read of one member.
abbrev Fetched : ℕ → ℕ → Raid → RetCode × List ℕ × Raid → Type 0
Fetched i q s (ret, out, t) =
    (t.is_initialized ≡ s.is_initialized)
    × (t.config ≡ s.config)
    × (t.logical_capacity ≡ s.logical_capacity)
    × (is_ok ret ≡ true → out ≡ page_of s i q)
    × ((j p : ℕ) → page_of t j p ≡ page_of s j p)

member_read-Fetched : (s : Raid) (i q : ℕ) (buf : List ℕ) → Fetched i q s (member_read s i q buf)
unfolding member_read
member_read-Fetched s i q buf =
    (ground arith, ground arith, ground arith, λ ok. ground arith, λ j p. ground arith)

member_read-ok :
    (s : Raid) (i q : ℕ) (buf : List ℕ)
    → i < max_members
    → usable (s.members i) ≡ true
    → q < (s.members i).total_lpns
    → (member_read s i q buf).0 ≡ ret_ok
unfolding member_read
member_read-ok s i q buf i_in u q_in = ground arith

abbrev pub Gives : (ℕ → List ℕ) → ℕ → RetCode × Option (List ℕ) × Raid → Type 0
Gives content lpn (ret, out, t) = (is_ok ret ≡ true → out ≡ some (content lpn)) × Stripes t content

Fetched-Gives :
    (s : Raid) (content : ℕ → List ℕ) (lpn : ℕ) (r : RetCode × List ℕ × Raid)
    → lpn < s.logical_capacity
    → Stripes s content
    → Fetched (raid0_map s.config lpn).0 (raid0_map s.config lpn).1 s r
    → Gives content lpn (r.0, some r.1, count_error r.0 r.2)
Fetched-Gives s content lpn (ret, out, t) low (h, held) (g, e, f, got, same) = (
  λ ok. ap some (got ok ∙ held lpn low),
  Stripes-count_error t content ret (
    IsStriped-kept s t g e f h,
    λ p p_in.
        ap (λ (c : RaidConfig). page_of t (raid0_map c p).0 (raid0_map c p).1) e
        ∙ same _ _
        ∙ held p (omega (arith, p_in, f)),
  ),
)

-- On a striped array that stores `content`, a read of a page below the capacity that succeeds gives
-- `content` of the page, and the array stores `content` still, whether it succeeds or fails; it succeeds
-- if the member that stores the page is usable and has it.
pub raid_read-Stripes :
    (s : Raid) (content : ℕ → List ℕ) (lpn : ℕ) (buf : List ℕ)
    → lpn < s.logical_capacity
    → Stripes s content
    → let r = raid_read s lpn (some buf) in (Reaches s lpn → r.0 ≡ ret_ok) × Gives content lpn r
unfolding read_level
raid_read-Stripes s content lpn buf low h =
    let m = raid0_map s.config lpn in
    let r = member_read s m.0 m.1 buf in
    subst
      (λ (r : RetCode × Option (List ℕ) × Raid).
        (Reaches s lpn → r.0 ≡ ret_ok) × Gives content lpn r)
      (sym (
        raid_read-read_at s lpn buf h.0.ready low
        ∙ ap (λ (l : RaidLevel). read_at l s lpn buf) h.0.mode))
      (
        λ (u, q_in). member_read-ok s m.0 m.1 buf (member_in s lpn low h.0) u q_in,
        Fetched-Gives s content lpn r low h (member_read-Fetched s m.0 m.1 buf),
      )
