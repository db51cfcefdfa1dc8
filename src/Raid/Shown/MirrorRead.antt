-- ===== src/Raid/Shown/MirrorRead.antt =====
-- modules/raid/raid.c: reads of a mirror.
use ftl_firmware.Common.{
  ℕ, zero, suc, ◌+◌, ◌≤◌, ◌<◌, ◌≡◌, refl, sym, ap, ◌∙◌, subst, true, false, Option, some, List,
  ◌==◌, ==_iff, if_cases, lt→leb-false, RetCode, ret_ok, err_internal, is_ok, Bool-cases, arith,
  ◌⊎◌, inl, inr,
}
use mathlib.Core.Bool.{true≢false}
use ftl_firmware.Raid.{
  Raid, RaidLevel, count_error, max_members, usable, member_read, mirror_read, read_level,
  read_page_at, raid_read,
}
use ftl_firmware.Raid.Shown.{Mirrors}

-- A read of a member that has the page.
pub member_read-Mirrors :
    (s : Raid) (content : ℕ → List ℕ) (i lpn : ℕ) (buf : List ℕ)
    → i < s.config.member_count
    → usable (s.members i) ≡ true
    → lpn < s.logical_capacity
    → Mirrors s content
    → let (ret, out, t) = member_read s i lpn buf in
      (ret ≡ ret_ok) × (out ≡ content lpn) × Mirrors t content
unfolding member_read
member_read-Mirrors s content i lpn buf i_in u low h =
    let in_all : s.config.member_count ≤ max_members = h.count_in in
    let wide = h.wide i i_in u in
    let held = h.same i lpn i_in u low in
    (
      ground (arith, in_all, wide),
      ground (arith, in_all, wide, held),
      record {
        ready = ground (arith, h.ready);
        mode = ground (arith, h.mode);
        count_in = ground (arith, in_all);
        wide = λ j lt v. let wide' = h.wide j in ground (arith, wide');
        same = λ j p lt v p_in. let same' = h.same j p in ground (arith, same');
      },
    )

-- Page `lpn` was read from a member from `i` on, or none of those is usable.
abbrev Tried : (ℕ → List ℕ) → ℕ → ℕ → Raid → RetCode × List ℕ × Raid → Type 0
Tried content lpn i s (ret, out, t) =
    (((k : ℕ) × (k < s.config.member_count) × (usable (s.members k) ≡ true))
      × (ret ≡ ret_ok)
      × (out ≡ content lpn)
      × Mirrors t content)
    ⊎ (((j : ℕ) → i ≤ j → j < s.config.member_count → usable (s.members j) ≡ false)
        × (ret ≡ err_internal)
        × (t ≡ s))

Tried-skip :
    (content : ℕ → List ℕ) (lpn i : ℕ) (s : Raid) (r : RetCode × List ℕ × Raid)
    → usable (s.members i) ≡ false
    → Tried content lpn (i + 1) s r
    → Tried content lpn i s r
Tried-skip content lpn i s (ret, out, t) unready (inl found) = inl found
Tried-skip content lpn i s (ret, out, t) unready (inr (no_more, failed, same)) = inr (
  λ j le lt. elim (Bool-cases (j == i)) [
    | inl e ↦ ap (λ (k : ℕ). usable (s.members k)) ((==_iff _ _).0 e) ∙ unready
    | inr e ↦ no_more j (ground (arith, e, le)) lt
  ],
  failed,
  same,
)

mirror_read-Tried :
    (left i : ℕ) (s : Raid) (content : ℕ → List ℕ) (lpn : ℕ) (buf : List ℕ)
    → i + left ≡ s.config.member_count
    → lpn < s.logical_capacity
    → Mirrors s content
    → Tried content lpn i s (mirror_read left i s lpn buf)
unfolding mirror_read
mirror_read-Tried zero i s content lpn buf e low h =
    inr (λ j le lt. absurd (omega (arith, e, le, lt)), refl, refl)
mirror_read-Tried (suc left) i s content lpn buf e low h =
    elim (Bool-cases (usable (s.members i))) [
      | inl u ↦
          let (ok, data_read, kept) =
            member_read-Mirrors s content i lpn buf (omega (arith, e)) u low h in
          rw (u, ok) (inl ((i, omega (arith, e), u), refl, data_read, kept))
      | inr n ↦ rw n (
          Tried-skip content lpn i s _ n
            (mirror_read-Tried left (i + 1) s content lpn buf (omega (arith, e)) low h))
    ]

-- What a read gives once the level is known.
abbrev pub read_at : RaidLevel → Raid → ℕ → List ℕ → RetCode × Option (List ℕ) × Raid
read_at l s lpn buf =
    let (ret, out, t) = read_level l s lpn buf in (ret, some out, count_error ret t)

pub raid_read-read_at :
    (s : Raid) (lpn : ℕ) (buf : List ℕ)
    → s.is_initialized ≡ true
    → lpn < s.logical_capacity
    → raid_read s lpn (some buf) ≡ read_at s.config.level s lpn buf
unfolding raid_read read_page_at
raid_read-read_at s lpn buf ready low =
    ground (arith, ready, lt→leb-false s.logical_capacity lpn low)

-- What the host sees of a read.
abbrev pub Answers : (ℕ → List ℕ) → ℕ → Raid → RetCode × Option (List ℕ) × Raid → Type 0
Answers content lpn s (ret, out, t) =
    (((i : ℕ) × (i < s.config.member_count) × (usable (s.members i) ≡ true))
      → (ret ≡ ret_ok) × (out ≡ some (content lpn)))
    × (((i : ℕ) → i < s.config.member_count → usable (s.members i) ≡ false) → ret ≡ err_internal)
    × (is_ok ret ≡ true → out ≡ some (content lpn))
    × Mirrors t content

Mirrors-count_error :
    (s : Raid) (content : ℕ → List ℕ) (ret : RetCode)
    → Mirrors s content
    → Mirrors (count_error ret s) content
Mirrors-count_error s content ret h =
    if_cases (λ (t : Raid). Mirrors t content) (is_ok ret) (λ _. h)
      (λ _. record {
        ready = h.ready;
        mode = h.mode;
        count_in = h.count_in;
        wide = h.wide;
        same = h.same;
      })

Tried-Answers :
    (content : ℕ → List ℕ) (lpn : ℕ) (s : Raid) (r : RetCode × List ℕ × Raid)
    → Mirrors s content
    → Tried content lpn 0 s r
    → Answers content lpn s (r.0, some r.1, count_error r.0 r.2)
Tried-Answers content lpn s (ret, out, t) h (inl ((k, k_in, u), ok, same, kept)) = (
  λ _. (ok, ap some same),
  λ none_usable. absurd (true≢false (sym u ∙ none_usable k k_in)),
  λ _. ap some same,
  Mirrors-count_error t content ret kept,
)
Tried-Answers content lpn s (ret, out, t) h (inr (no_more, failed, same)) = (
  λ (i, i_in, u). absurd (true≢false (sym u ∙ no_more i (omega arith) i_in)),
  λ _. failed,
  λ ok. absurd (true≢false (sym ok ∙ ap is_ok failed)),
  Mirrors-count_error t content ret (subst (λ (x : Raid). Mirrors x content) (sym same) h),
)

-- On an array that is a mirror of `content`, a read of a page below the capacity gives `content` of the
-- page if any member is usable, and fails if none is; the array stays a mirror of `content` either way.
pub raid_read-Mirrors :
    (s : Raid) (content : ℕ → List ℕ) (lpn : ℕ) (buf : List ℕ)
    → lpn < s.logical_capacity
    → Mirrors s content
    → Answers content lpn s (raid_read s lpn (some buf))
unfolding read_level
raid_read-Mirrors s content lpn buf low h =
    let r = mirror_read s.config.member_count 0 s lpn buf in
    subst (Answers content lpn s)
      (sym (
        raid_read-read_at s lpn buf h.ready low
        ∙ ap (λ (l : RaidLevel). read_at l s lpn buf) h.mode))
      (Tried-Answers content lpn s r h
        (mirror_read-Tried s.config.member_count 0 s content lpn buf (omega arith) low h))
