-- ===== src/Raid/Shown/Mirror.antt =====
-- modules/raid/raid.c: writes and reads of a mirror.
use ftl_firmware.Common.{
  ℕ, zero, suc, ◌+◌, ◌≤◌, ◌<◌, ◌≡◌, refl, sym, ap, ◌∙◌, subst, true, false, some, List, not, leb,
  ◌==◌, ==_iff, if_false, lt→leb-false, update, RetCode, ret_ok, Bool-cases, arith, ◌⊎◌, inl, inr,
}
use mathlib.Core.Bool.{true≢false}
use ftl_firmware.Raid.{
  Raid, RaidConfig, RaidLevel, count_error, max_members, usable, member_write, mirror_write,
  write_level, write_page_at, raid_write,
}
use ftl_firmware.Raid.Shown.{Mirrors, page_of}

-- What a write of page `lpn` to the usable ones of `left` members from `i` on changes.
pub record IsWritten (lpn : ℕ) (buf : List ℕ) (i left : ℕ) (s t : Raid) : Type 0 where
  ready_kept : t.is_initialized ≡ s.is_initialized
  config_kept : t.config ≡ s.config
  capacity_kept : t.logical_capacity ≡ s.logical_capacity
  usable_kept : (j : ℕ) → usable (t.members j) ≡ usable (s.members j)
  total_kept : (j : ℕ) → (t.members j).total_lpns ≡ (s.members j).total_lpns
  inside :
      (j p : ℕ)
      → i ≤ j
      → j < i + left
      → usable (s.members j) ≡ true
      → page_of t j p ≡ update (page_of s j) lpn buf p
  outside : (j p : ℕ) → (j < i) ⊎ (i + left ≤ j) → page_of t j p ≡ page_of s j p

pub member_write-IsWritten :
    (s : Raid) (i lpn : ℕ) (buf : List ℕ)
    → i < max_members
    → usable (s.members i) ≡ true
    → lpn < (s.members i).total_lpns
    → ((member_write s i lpn buf).0 ≡ ret_ok) × IsWritten lpn buf i 1 s (member_write s i lpn buf).1
unfolding member_write
member_write-IsWritten s i lpn buf i_in ready low = (
  ground arith,
  record {
    ready_kept = ground arith;
    config_kept = ground arith;
    capacity_kept = ground arith;
    usable_kept = λ j. ground arith;
    total_kept = λ j. ground arith;
    inside = λ j p le lt u. ground arith;
    outside = λ j p o. ground arith;
  },
)

update_at :
    (f g : ℕ → List ℕ) (i : ℕ) (v : List ℕ) (p : ℕ) → f p ≡ g p → update f i v p ≡ update g i v p
update_at f g i v p e = ground arith

-- One member, then the others.
IsWritten-then :
    {lpn : ℕ} {buf : List ℕ} {i left : ℕ} {r s t : Raid}
    → IsWritten lpn buf i 1 r s
    → IsWritten lpn buf (i + 1) left s t
    → IsWritten lpn buf i (suc left) r t
IsWritten-then {lpn} {buf} {i} {left} {r} {s} {t} a b = record {
  ready_kept = b.ready_kept ∙ a.ready_kept;
  config_kept = b.config_kept ∙ a.config_kept;
  capacity_kept = b.capacity_kept ∙ a.capacity_kept;
  usable_kept = λ j. b.usable_kept j ∙ a.usable_kept j;
  total_kept = λ j. b.total_kept j ∙ a.total_kept j;
  inside = λ j p le lt u. elim (Bool-cases (leb j i)) [
    | inl e ↦
        let low : j ≤ i = ground (arith, e) in
        b.outside j p (inl (omega (arith, low))) ∙ a.inside j p le (omega (arith, low)) u
    | inr e ↦
        let high : i < j = ground (arith, e) in
        b.inside j p (omega (arith, high)) (omega (arith, lt)) (a.usable_kept j ∙ u)
        ∙ update_at (page_of s j) (page_of r j) lpn buf p
            (a.outside j p (inr (omega (arith, high))))
  ];
  outside = λ j p o.
      b.outside j p (elim o [ inl q ↦ inl (omega (arith, q)) | inr q ↦ inr (omega (arith, q)) ])
      ∙ a.outside j p (elim o [ inl q ↦ inl q | inr q ↦ inr (omega (arith, q)) ]);
}

IsWritten-skip :
    {lpn : ℕ} {buf : List ℕ} {i left : ℕ} {s t : Raid}
    → usable (s.members i) ≡ false
    → IsWritten lpn buf (i + 1) left s t
    → IsWritten lpn buf i (suc left) s t
IsWritten-skip {lpn} {buf} {i} {left} {s} unready b = record {
  ready_kept = b.ready_kept;
  config_kept = b.config_kept;
  capacity_kept = b.capacity_kept;
  usable_kept = b.usable_kept;
  total_kept = b.total_kept;
  inside = λ j p le lt u. elim (Bool-cases (j == i)) [
    | inl e ↦
        absurd
          (true≢false (sym u ∙ ap (λ (k : ℕ). usable (s.members k)) ((==_iff _ _).0 e) ∙ unready))
    | inr e ↦ b.inside j p (ground (arith, e, le)) (omega (arith, lt)) u
  ];
  outside = λ j p o.
      b.outside j p (elim o [ inl q ↦ inl (omega (arith, q)) | inr q ↦ inr (omega (arith, q)) ]);
}

abbrev Done : ℕ → List ℕ → ℕ → ℕ → Raid → RetCode × Raid → Type 0
Done lpn buf i left s (ret, t) = (ret ≡ ret_ok) × IsWritten lpn buf i left s t

mirror_write-Done :
    (left i : ℕ) (s : Raid) (lpn : ℕ) (buf : List ℕ)
    → i + left ≤ max_members
    → ((j : ℕ) → j < i + left → usable (s.members j) ≡ true → lpn < (s.members j).total_lpns)
    → Done lpn buf i left s (mirror_write left i s lpn buf)
unfolding mirror_write
mirror_write-Done zero i s lpn buf le wide = (
  refl,
  record {
    ready_kept = refl;
    config_kept = refl;
    capacity_kept = refl;
    usable_kept = λ j. refl;
    total_kept = λ j. refl;
    inside = λ j p a b u. absurd (omega (arith, a, b));
    outside = λ j p o. refl;
  },
)
mirror_write-Done (suc left) i s lpn buf le wide = elim (Bool-cases (usable (s.members i))) [
  | inl u ↦
      let w = member_write s i lpn buf in
      let (ok, one) =
        member_write-IsWritten s i lpn buf (omega (arith, le)) u (wide i (omega arith) u) in
      let (ok', rest) = mirror_write-Done left (i + 1) w.1 lpn buf (omega (arith, le)) (λ j lt v.
        subst (λ (n : ℕ). lpn < n) (sym (one.total_kept j))
          (wide j (omega (arith, lt)) (sym (one.usable_kept j) ∙ v))) in
      rw (u, ok) (ok', IsWritten-then one rest)
  | inr n ↦
      let (ok', rest) =
        mirror_write-Done left (i + 1) s lpn buf (omega (arith, le))
          (λ j lt v. wide j (omega (arith, lt)) v) in
      rw n (ok', IsWritten-skip n rest)
]

mirror_write-Mirrors :
    (s : Raid) (content : ℕ → List ℕ) (lpn : ℕ) (buf : List ℕ)
    → lpn < s.logical_capacity
    → Mirrors s content
    → let (ret, t) = mirror_write s.config.member_count 0 s lpn buf in
      (ret ≡ ret_ok) × Mirrors t (update content lpn buf)
mirror_write-Mirrors s content lpn buf low h =
    let n = s.config.member_count in
    let in_all : n ≤ max_members = h.count_in in
    let (ok, w) =
      mirror_write-Done n 0 s lpn buf (omega (arith, in_all))
        (λ j lt u. let wide = h.wide j (omega (arith, lt)) u in omega (arith, wide, low)) in
    let same_count = ap (λ (c : RaidConfig). c.member_count) w.config_kept in
    (
      ok,
      record {
        ready = w.ready_kept ∙ h.ready;
        mode = ap (λ (c : RaidConfig). c.level) w.config_kept ∙ h.mode;
        count_in = omega (arith, same_count, in_all);
        wide = λ i lt u.
            let wide = h.wide i (omega (arith, lt, same_count)) (sym (w.usable_kept i) ∙ u) in
            omega (arith, wide, w.capacity_kept, w.total_kept i);
        same = λ i p lt u p_in.
            let i_in : i < n = omega (arith, lt, same_count) in
            let u' = sym (w.usable_kept i) ∙ u in
            w.inside i p (omega arith) (omega (arith, i_in)) u'
            ∙ update_at (page_of s i) content lpn buf p
                (h.same i p i_in u' (omega (arith, p_in, w.capacity_kept)));
      },
    )

-- What a write gives once the level is known.
abbrev pub written_at : RaidLevel → Raid → ℕ → List ℕ → RetCode × Raid
written_at l s lpn buf = let (ret, t) = write_level l s lpn buf in (ret, count_error ret t)

pub raid_write-written_at :
    (s : Raid) (lpn : ℕ) (buf : List ℕ)
    → s.is_initialized ≡ true
    → lpn < s.logical_capacity
    → raid_write s lpn (some buf) ≡ written_at s.config.level s lpn buf
unfolding raid_write write_page_at
raid_write-written_at s lpn buf ready low =
    if_false (not s.is_initialized) _ _ (ap not ready)
    ∙ if_false (leb s.logical_capacity lpn) _ _ (lt→leb-false _ _ low)

-- On an array that is a mirror of `content`, a write of a page below the capacity succeeds, and the
-- array is then a mirror of `content` with the page's new data.
pub raid_write-Mirrors :
    (s : Raid) (content : ℕ → List ℕ) (lpn : ℕ) (buf : List ℕ)
    → lpn < s.logical_capacity
    → Mirrors s content
    → let (ret, t) = raid_write s lpn (some buf) in
      (ret ≡ ret_ok) × Mirrors t (update content lpn buf)
unfolding write_level
raid_write-Mirrors s content lpn buf low h =
    let Goal = λ (r : RetCode × Raid). (r.0 ≡ ret_ok) × Mirrors r.1 (update content lpn buf) in
    let (ok, mirrored) = mirror_write-Mirrors s content lpn buf low h in
    subst Goal
      (sym (
        raid_write-written_at s lpn buf h.ready low
        ∙ ap (λ (l : RaidLevel). written_at l s lpn buf) h.mode))
      (
        ok,
        subst
            (λ (ret : RetCode).
              Mirrors (count_error ret (mirror_write s.config.member_count 0 s lpn buf).1)
                (update content lpn buf))
            (sym ok) mirrored,
      )
