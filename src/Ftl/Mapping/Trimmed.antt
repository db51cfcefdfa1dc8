-- ===== src/Ftl/Mapping/Trimmed.antt =====
-- modules/ftl/ftl.c: what `ftl_trim` does to the tables and to the pages it leaves.
use ftl_firmware.Common.{
  ℕ, zero, suc, ◌+◌, ◌^◌, ◌≤◌, ◌<◌, ◌≡◌, ◌≢◌, refl, sym, ap, ap₂, ◌∙◌, subst, true, List, ◌==◌,
  ==_iff, ==_ne, lt→leb-false, update, update-cases, update-ne, ret_ok, Bool-cases, arith, ◌⊎◌, inl,
  inr,
}
use mathlib.Core.Bool.{true≢false}
use ftl_firmware.Nand.{Nand, nand_mark_page_invalid}
use ftl_firmware.Nand.Pages.{Holds, Holds-mark_page_invalid}
use ftl_firmware.Ftl.State.{
  Ftl, invalid, total_lpns, ppn_to_block, ppn_to_page, block_page_to_ppn, wal_log_trim,
}
use ftl_firmware.Ftl.State.Alloc.{ppn_unique}
use ftl_firmware.Ftl.Trim.{trim_page, trim_pages_from, clamp_count, ftl_trim}
use ftl_firmware.Ftl.Mapping.{Serves}
use ftl_firmware.Ftl.Mapping.Logged.{wal_log_trim-IsLogged}

-- What the log does not touch.
abbrev tables : Ftl → Nand × (ℕ → ℕ) × (ℕ → ℕ)
tables s = (s.nand, s.l2p_table, s.reverse_map)

wal_log_trim-tables : (s : Ftl) (lpn : ℕ) → tables (wal_log_trim s lpn).1 ≡ tables s
wal_log_trim-tables s lpn = ap tables (wal_log_trim-IsLogged s lpn).kept

-- The tables and the device once `lpn`, mapped to `ppn`, is dropped.
abbrev dropped : Ftl → Nand × (ℕ → ℕ) × (ℕ → ℕ) → ℕ → ℕ → Ftl
dropped s (n, l2p, rev) lpn ppn = record s {
  nand = (nand_mark_page_invalid n (ppn_to_block ppn) (ppn_to_page ppn)).1;
  l2p_table = update l2p lpn invalid;
  reverse_map = update rev ppn invalid;
}

-- Two pages of the device with one block and one page are one.
pub split-apart :
    (a b : ℕ)
    → a < 2 ^ 32
    → b < 2 ^ 32
    → a ≢ b
    → (ppn_to_block a ≢ ppn_to_block b) ⊎ (ppn_to_page a ≢ ppn_to_page b)
split-apart a b ha hb ne = elim (Bool-cases (ppn_to_block a == ppn_to_block b)) [
  | inl e ↦ inr (λ q.
      ne (sym (ppn_unique a ha) ∙ ap₂ block_page_to_ppn ((==_iff _ _).0 e) q ∙ ppn_unique b hb))
  | inr e ↦ inl (λ q. true≢false (sym ((==_iff _ _).1 q) ∙ e))
]

module _ {s : Ftl} {content : ℕ → List ℕ} (h : Serves s content) (lpn : ℕ) (low : lpn < total_lpns)
    (mapped : s.l2p_table lpn ≢ invalid) (s1 : Ftl) where
  abbrev ppn : ℕ
  ppn = s.l2p_table lpn

  abbrev after : Ftl
  after = dropped s1 (tables s) lpn ppn

  small : (l : ℕ) → l < total_lpns → s.l2p_table l ≢ invalid → s.l2p_table l < 2 ^ 32
  small l i m = let b = (h.placed l i m).block_in in omega (arith, b)

  others : (l : ℕ) → l < total_lpns → s.l2p_table l ≢ invalid → l ≢ lpn → s.l2p_table l ≢ ppn
  others l i m ne e = ne (sym (h.named l i m) ∙ ap s.reverse_map e ∙ h.named lpn low mapped)

  after-placed :
      (l : ℕ)
      → l < total_lpns
      → after.l2p_table l ≢ invalid
      → Holds after.nand
          (ppn_to_block (after.l2p_table l))
          (ppn_to_page (after.l2p_table l))
          (content l)
  after-placed l i m = elim (update-cases s.l2p_table lpn invalid l) [
    | inl (e, u) ↦ absurd (m u)
    | inr (ne, u) ↦
        let m' = λ (k : s.l2p_table l ≡ invalid). m (u ∙ k) in
        subst (λ (a : ℕ). Holds after.nand (ppn_to_block a) (ppn_to_page a) (content l)) (sym u)
          (Holds-mark_page_invalid (ppn_to_block ppn) (ppn_to_page ppn)
            (split-apart _ _ (small l i m') (small lpn low mapped) (others l i m' ne))
            (h.placed l i m'))
  ]

  after-named :
      (l : ℕ)
      → l < total_lpns
      → after.l2p_table l ≢ invalid
      → after.reverse_map (after.l2p_table l) ≡ l
  after-named l i m = elim (update-cases s.l2p_table lpn invalid l) [
    | inl (e, u) ↦ absurd (m u)
    | inr (ne, u) ↦
        let m' = λ (k : s.l2p_table l ≡ invalid). m (u ∙ k) in
        ap after.reverse_map u
        ∙ update-ne s.reverse_map ppn (s.l2p_table l) invalid (others l i m' ne)
        ∙ h.named l i m'
  ]

  after-backed :
      (a : ℕ)
      → after.reverse_map a ≢ invalid
      → (after.reverse_map a < total_lpns) × (after.l2p_table (after.reverse_map a) ≡ a)
  after-backed a m = elim (update-cases s.reverse_map ppn invalid a) [
    | inl (e, u) ↦ absurd (m u)
    | inr (ne, u) ↦
        let (i, back) = h.backed a (λ k. m (u ∙ k)) in
        subst (λ (l : ℕ). (l < total_lpns) × (after.l2p_table l ≡ a)) (sym u)
          (
            i,
            update-ne s.l2p_table lpn (s.reverse_map a) invalid
                  (λ k. ne (sym back ∙ ap s.l2p_table k))
                ∙ back,
          )
  ]

  after-outside : after.reverse_map invalid ≡ invalid
  after-outside = elim (update-cases s.reverse_map ppn invalid invalid) [
    | inl (e, u) ↦ u
    | inr (ne, u) ↦ u ∙ h.outside
  ]

  pub dropped-Serves : Serves after content
  dropped-Serves = record {
    placed = after-placed;
    named = after-named;
    backed = after-backed;
    outside = after-outside;
  }

-- One round of the loop.
trim_page-Serves :
    {s : Ftl} {content : ℕ → List ℕ} (lpn : ℕ)
    → Serves s content
    → lpn < total_lpns
    → Serves (trim_page s lpn).1 content
unfolding trim_page
trim_page-Serves {s} {content} lpn h low = elim (Bool-cases (s.l2p_table lpn == invalid)) [
  | inl e ↦ rw e h
  | inr e ↦
      let s1 = (wal_log_trim s lpn).1 in
      let mapped = λ (k : s.l2p_table lpn ≡ invalid). true≢false (sym ((==_iff _ _).1 k) ∙ e) in
      rw e (
        subst
          (λ (t : Nand × (ℕ → ℕ) × (ℕ → ℕ)). Serves (dropped s1 t lpn (s.l2p_table lpn)) content)
          (sym (wal_log_trim-tables s lpn)) (dropped-Serves {s = s} h lpn low mapped s1))
]

trim_page-l2p :
    (s : Ftl) (lpn l : ℕ) → (trim_page s lpn).1.l2p_table l ≡ update s.l2p_table lpn invalid l
unfolding trim_page
trim_page-l2p s lpn l = elim (Bool-cases (s.l2p_table lpn == invalid)) [
  | inl e ↦ rw e (elim (update-cases s.l2p_table lpn invalid l) [
    | inl (q, u) ↦ ap s.l2p_table q ∙ (==_iff _ _).0 e ∙ sym u
    | inr (ne, u) ↦ sym u
  ])
  | inr e ↦
      rw e (
        ap (λ (t : Nand × (ℕ → ℕ) × (ℕ → ℕ)). update t.1 lpn invalid l) (wal_log_trim-tables s lpn))
]

trim_pages_from-Serves :
    (left lpn trimmed : ℕ) (s : Ftl) {content : ℕ → List ℕ}
    → Serves s content
    → lpn + left ≤ total_lpns
    → Serves (trim_pages_from left lpn trimmed s).1 content
unfolding trim_pages_from
trim_pages_from-Serves zero lpn trimmed s h le = h
trim_pages_from-Serves (suc left) lpn trimmed s h le =
    trim_pages_from-Serves left (lpn + 1) _ _ (trim_page-Serves lpn h (omega arith)) (omega arith)

-- What the loop leaves of an entry of the table: it is cleared in the range, and kept outside.
abbrev pub Trimmed : ℕ → ℕ → (ℕ → ℕ) → (ℕ → ℕ) → ℕ → Type 0
Trimmed lpn count before after l =
    (lpn ≤ l → l < lpn + count → after l ≡ invalid)
    × ((l < lpn) ⊎ (lpn + count ≤ l) → after l ≡ before l)

pub trim_pages_from-Trimmed :
    (left lpn trimmed : ℕ) (s : Ftl) (l : ℕ)
    → Trimmed lpn left s.l2p_table (trim_pages_from left lpn trimmed s).1.l2p_table l
unfolding trim_pages_from
trim_pages_from-Trimmed zero lpn trimmed s l = (λ a b. absurd (omega arith), λ o. refl)
trim_pages_from-Trimmed (suc left) lpn trimmed s l =
    let s' = (trim_page s lpn).1 in
    let (inside, outside) = trim_pages_from-Trimmed left (lpn + 1) _ s' l in
    elim (update-cases s.l2p_table lpn invalid l) [
      | inl (e, u) ↦ (
        λ a b. outside (inl (omega (arith, e))) ∙ trim_page-l2p s lpn l ∙ u,
        λ o. absurd (omega arith),
      )
      | inr (ne, u) ↦ (
        λ a b. inside (omega arith) (omega arith),
        λ o. outside (omega arith) ∙ trim_page-l2p s lpn l ∙ u,
      )
    ]

-- The request as it is cut off at the end of the space, if the 32-bit sum does not wrap.
pub clamp_count-lem :
    (lpn count : ℕ)
    → lpn < total_lpns
    → lpn + count < 2 ^ 32
    → (lpn + clamp_count lpn count ≤ total_lpns)
      × ((l : ℕ) → l < total_lpns → l < lpn + count → l < lpn + clamp_count lpn count)
      × (clamp_count lpn count ≤ count)
unfolding clamp_count
clamp_count-lem lpn count low sum = ground arith

-- On a ready layer, a trim of `count` pages, at least one, from `lpn` on, in the space and with a sum below 2 ^ 32,
-- succeeds; it clears the entry of each page of the range that the space has, leaves every other
-- entry as it was, and keeps every page that is still mapped readable with its data, if the tables
-- agreed and each mapped page held its data before.
pub ftl_trim_lem :
    (s : Ftl) (content : ℕ → List ℕ) (lpn count : ℕ)
    → s.is_initialized ≡ true
    → count ≢ 0
    → lpn < total_lpns
    → lpn + count < 2 ^ 32
    → Serves s content
    → let (ret, s') = ftl_trim s lpn count in
      (ret ≡ ret_ok)
      × Serves s' content
      × ((l : ℕ) → l < total_lpns → Trimmed lpn count s.l2p_table s'.l2p_table l)
unfolding ftl_trim
ftl_trim_lem s content lpn count ready some_pages low sum h =
    let n = clamp_count lpn count in
    let (in_space, covers, at_most) = clamp_count-lem lpn count low sum in
    let s' = (trim_pages_from n lpn 0 s).1 in
    let h' = trim_pages_from-Serves n lpn 0 s h in_space in
    simp (ready, ==_ne count 0 some_pages, lt→leb-false total_lpns lpn low)
      (
        refl,
        record { placed = h'.placed; named = h'.named; backed = h'.backed; outside = h'.outside },
        λ l i.
            let (inside, outside) = trim_pages_from-Trimmed n lpn 0 s l in
            (
              λ a b. inside a (covers l i b),
              λ o. outside (elim o [ inl a ↦ inl a | inr b ↦ inr (omega (arith, b, at_most)) ]),
            ),
      )
