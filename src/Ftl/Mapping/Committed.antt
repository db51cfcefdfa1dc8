-- ===== src/Ftl/Mapping/Committed.antt =====
-- modules/ftl/ftl.c: the update of the tables once a page is written.
use ftl_firmware.Common.{
  ℕ, ◌^◌, ◌<◌, ◌≡◌, ◌≢◌, refl, sym, ap, ◌∙◌, subst, List, ◌==◌, ==_iff, ==_ne, update, update-cases,
  update-ne, update_self, inc32, Bool-cases, arith, inl, inr,
}
use mathlib.Core.Bool.{true≢false}
use mathlib.Core.Path.{fun_ext}
use ftl_firmware.Nand.{nand_mark_page_invalid}
use ftl_firmware.Nand.Pages.{Holds, Holds-mark_page_invalid, mark_page_invalid-valid}
use ftl_firmware.Nand.Invariant.{mark_page_invalid-IsCounted}
use ftl_firmware.Ftl.State.{Ftl, invalid, total_lpns, ppn_to_block, ppn_to_page}
use ftl_firmware.Ftl.Write.{map_page, drop_old, commit_page}
use ftl_firmware.Ftl.Mapping.{Serves}
use ftl_firmware.Ftl.Mapping.Tidy.{IsTidy}
use ftl_firmware.Ftl.Mapping.Trimmed.{dropped-Serves, split-apart}
use ftl_firmware.Ftl.Mapping.Written.{IsSound, IsWritten}

-- The data of all pages once `lpn` has `buf`.
abbrev pub put : (ℕ → List ℕ) → ℕ → List ℕ → ℕ → List ℕ
put content lpn buf = update content lpn buf

-- A page that holds data and is nobody's is given to `lpn`, which has none.
module _ {s : Ftl} {content : ℕ → List ℕ} (h : Serves s content) (lpn ppn : ℕ) (buf : List ℕ)
    (low : lpn < total_lpns) (empty : s.l2p_table lpn ≡ invalid)
    (held : Holds s.nand (ppn_to_block ppn) (ppn_to_page ppn) buf)
    (free_page : (l : ℕ) → l < total_lpns → s.l2p_table l ≢ invalid → s.l2p_table l ≢ ppn)
    (real : ppn ≢ invalid) where
  abbrev after : Ftl
  after = map_page s lpn ppn

  after-placed :
      (l : ℕ)
      → l < total_lpns
      → after.l2p_table l ≢ invalid
      → Holds s.nand
          (ppn_to_block (after.l2p_table l))
          (ppn_to_page (after.l2p_table l))
          (put content lpn buf l)
  after-placed l i m = elim (update-cases s.l2p_table lpn ppn l) [
    | inl (e, u) ↦
        subst (λ (a : ℕ). Holds s.nand (ppn_to_block a) (ppn_to_page a) (put content lpn buf l))
          (sym u)
          (subst (λ (d : List ℕ). Holds s.nand (ppn_to_block ppn) (ppn_to_page ppn) d)
            (sym (ap (put content lpn buf) e ∙ update_self content lpn buf)) held)
    | inr (ne, u) ↦
        subst (λ (a : ℕ). Holds s.nand (ppn_to_block a) (ppn_to_page a) (put content lpn buf l))
          (sym u)
          (subst
            (λ (d : List ℕ).
              Holds s.nand (ppn_to_block (s.l2p_table l)) (ppn_to_page (s.l2p_table l)) d)
            (sym (update-ne content lpn l buf ne)) (h.placed l i (λ k. m (u ∙ k))))
  ]

  after-named :
      (l : ℕ)
      → l < total_lpns
      → after.l2p_table l ≢ invalid
      → after.reverse_map (after.l2p_table l) ≡ l
  after-named l i m = elim (update-cases s.l2p_table lpn ppn l) [
    | inl (e, u) ↦ ap after.reverse_map u ∙ update_self s.reverse_map ppn lpn ∙ sym e
    | inr (ne, u) ↦
        let m' = λ (k : s.l2p_table l ≡ invalid). m (u ∙ k) in
        ap after.reverse_map u
        ∙ update-ne s.reverse_map ppn (s.l2p_table l) lpn (free_page l i m')
        ∙ h.named l i m'
  ]

  after-backed :
      (a : ℕ)
      → after.reverse_map a ≢ invalid
      → (after.reverse_map a < total_lpns) × (after.l2p_table (after.reverse_map a) ≡ a)
  after-backed a m =
      let Back = λ (l : ℕ). (l < total_lpns) × (after.l2p_table l ≡ a) in
      elim (update-cases s.reverse_map ppn lpn a) [
        | inl (e, u) ↦ subst Back (sym u) (low, update_self s.l2p_table lpn ppn ∙ sym e)
        | inr (ne, u) ↦
            let m' = λ (k : s.reverse_map a ≡ invalid). m (u ∙ k) in
            let (i, back) = h.backed a m' in
            subst Back (sym u) (
              i,
              update-ne s.l2p_table lpn (s.reverse_map a) ppn
                    (λ k. m' (ap s.reverse_map (sym back ∙ ap s.l2p_table k ∙ empty) ∙ h.outside))
                  ∙ back,
            )
      ]

  map_page-Serves : Serves after (put content lpn buf)
  map_page-Serves = record {
    placed = after-placed;
    named = after-named;
    backed = after-backed;
    outside = update-ne s.reverse_map ppn invalid lpn (λ k. real (sym k)) ∙ h.outside;
  }

update_twice : (f : ℕ → ℕ) (i a b : ℕ) → update (update f i a) i b ≡ update f i b
update_twice f i a b = fun_ext (λ j. ground arith)

-- The old page is given up in the state with the counters `c`.
module _ {content : ℕ → List ℕ} {buf : List ℕ} {lpn ppn : ℕ} {s : Ftl}
    (w : IsWritten content buf ppn s) (low : lpn < total_lpns) where
  ppn_low : ppn < 2 ^ 32
  ppn_low = omega (arith, w.held.block_in)

  commit_page-kept :
      s.l2p_table lpn ≢ invalid → Serves (commit_page s lpn ppn) (put content lpn buf)
  unfolding commit_page drop_old
  commit_page-kept mapped =
      let old = s.l2p_table lpn in
      let d = dropped-Serves w.sound.serves lpn low mapped s in
      let n = (nand_mark_page_invalid s.nand (ppn_to_block old) (ppn_to_page old)).1 in
      let old_low : old < 2 ^ 32 = omega (arith, (w.sound.serves.placed lpn low mapped).block_in) in
      let held =
        Holds-mark_page_invalid (ppn_to_block old) (ppn_to_page old)
          (split-apart ppn old ppn_low old_low (λ e. w.unmapped lpn low mapped (sym e))) w.held in
      let m =
        map_page-Serves d lpn ppn buf low (update_self s.l2p_table lpn invalid) held
          (λ l i k. elim (update-cases s.l2p_table lpn invalid l) [
            | inl (e, u) ↦ absurd (k u)
            | inr (ne, u) ↦ λ q. w.unmapped l i (λ z. k (u ∙ z)) (sym u ∙ q)
          ])
          w.real in
      rw (==_ne _ _ mapped) (
        subst
          (λ (f : ℕ → ℕ).
            Serves
              (record s {
                nand = n;
                host_write_pages = inc32 s.host_write_pages;
                nand_write_pages = inc32 s.nand_write_pages;
                l2p_table = f;
                reverse_map = update (update s.reverse_map old invalid) ppn lpn;
              })
              (put content lpn buf))
          (update_twice s.l2p_table lpn invalid ppn)
          (record { placed = m.placed; named = m.named; backed = m.backed; outside = m.outside }))

  commit_page-new : s.l2p_table lpn ≡ invalid → Serves (commit_page s lpn ppn) (put content lpn buf)
  unfolding commit_page drop_old
  commit_page-new empty =
      let m = map_page-Serves w.sound.serves lpn ppn buf low empty w.held w.unmapped w.real in
      rw ((==_iff _ _).1 empty)
        (record { placed = m.placed; named = m.named; backed = m.backed; outside = m.outside })

  commit_page-IsTidy : IsTidy (commit_page s lpn ppn)
  unfolding commit_page drop_old
  commit_page-IsTidy =
      let t = w.sound.tidy in
      let old = s.l2p_table lpn in
      elim (Bool-cases (old == invalid)) [
        | inl e ↦ rw e (record { counted = t.counted; ahead = t.ahead })
        | inr e ↦ rw e (record {
          counted = λ c.
              mark_page_invalid-IsCounted s.nand (ppn_to_block old) (ppn_to_page old) c
                (t.counted _) (t.counted c);
          ahead = (
            t.ahead.0,
            λ q le lt one. t.ahead.1 q le lt (
                mark_page_invalid-valid s.nand (ppn_to_block old) (ppn_to_page old)
                  s.cur_write_block q one),
          );
        })
      ]

  -- Page `lpn` then has its data in the new page.
  pub commit_page-IsSound : IsSound (put content lpn buf) (commit_page s lpn ppn)
  commit_page-IsSound = record {
    serves = elim (Bool-cases (s.l2p_table lpn == invalid)) [
      | inl e ↦ commit_page-new ((==_iff _ _).0 e)
      | inr e ↦ commit_page-kept (λ k. true≢false (sym ((==_iff _ _).1 k) ∙ e))
    ];
    tidy = commit_page-IsTidy;
  }

  pub commit_page-l2p : (commit_page s lpn ppn).l2p_table ≡ update s.l2p_table lpn ppn
  unfolding commit_page drop_old
  commit_page-l2p = elim (Bool-cases (s.l2p_table lpn == invalid)) [
    | inl e ↦ rw e refl
    | inr e ↦ rw e refl
  ]
