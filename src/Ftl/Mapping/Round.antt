-- ===== src/Ftl/Mapping/Round.antt =====
-- modules/ftl/ftl.c: one round of the loop of garbage collection, and the whole loop.
use ftl_firmware.Common.{
  ℕ, zero, suc, ◌+◌, ◌<◌, ◌≡◌, ◌≢◌, sym, ap, ap₂, ◌∙◌, subst, Bool, true, List, ◌==◌, ==_iff,
  RetCode, is_ok, Bool-cases, arith, ◌⊎◌, inl, inr, Option, none, some,
}
use mathlib.Core.Bool.{true≢false}
use ftl_firmware.Nand.{
  pages_per_block, total_blocks, nand_is_page_valid, nand_get_block_state, is_free,
}
use ftl_firmware.Nand.Pages.{
  Holds, Holds-read, Holds-page_read, page_read-valid, page_read-state, is_page_valid-flag,
}
use ftl_firmware.Ftl.State.{Ftl, invalid, ppn_to_block, ppn_to_page, block_page_to_ppn}
use ftl_firmware.Ftl.State.Alloc.{ppn-address, IsPlaced, ftl_alloc_phy_page-IsPlaced}
use ftl_firmware.Ftl.Recycle.{
  read_page, write_page, store_given, copy_page, recycle_page, recycle_pages,
}
use ftl_firmware.Ftl.Mapping.{Serves}
use ftl_firmware.Ftl.Mapping.Copy.{Serves-nand, outcome, store_copy-Serves}
use ftl_firmware.Ftl.Mapping.Loop.{Clearing, not_valid-pass, not_named-pass, moved-Clearing}

-- What a step of the loop at page `p` of `v` gives: what was served is served, and a step that
-- succeeds leaves nothing mapped to the page.
abbrev Passed : (ℕ → List ℕ) → ℕ → ℕ → RetCode × Ftl → Type 0
Passed content v p (ret, s) = Serves s content × (is_ok ret ≡ true → Clearing s v (p + 1))

module _ {s : Ftl} {content : ℕ → List ℕ} (h : Serves s content) {v p : ℕ} (c : Clearing s v p)
    (v_in : v < total_blocks) (p_in : p < pages_per_block)
    (flag : (s.nand.blocks v).page_valid p ≡ 1)
    (named : s.reverse_map (block_page_to_ppn v p) ≢ invalid) where
  abbrev old : ℕ
  old = block_page_to_ppn v p

  abbrev buf : List ℕ
  buf = content (s.reverse_map old)

  abbrev stored : Option ℕ × Ftl → RetCode × Ftl
  stored r = store_given r (s.reverse_map old) old buf

  real : old ≢ invalid
  real e = omega (arith, v_in, p_in)

  store-Clearing :
      (b q : ℕ)
      → b < total_blocks
      → q < pages_per_block
      → ((b ≡ s.cur_write_block) × (q ≡ s.cur_write_page))
        ⊎ (is_free (nand_get_block_state s.nand b) ≡ true)
      → is_ok
          (stored (
            some (block_page_to_ppn b q),
            record s { cur_write_block = b; cur_write_page = q + 1 },
          )).0
        ≡ true
      → Clearing
          (stored (
            some (block_page_to_ppn b q),
            record s { cur_write_block = b; cur_write_page = q + 1 },
          )).1
          v
          (p + 1)
  unfolding store_given
  store-Clearing b q b_in q_in from =
      let new = block_page_to_ppn b q in
      let given = record s { cur_write_block = b; cur_write_page = q + 1 } in
      let w = write_page given new buf in
      let Goal = λ (ok : Bool).
        let r = outcome w.1 (s.reverse_map old) old new ok in
        is_ok r.0 ≡ true → Clearing r.1 v (p + 1) in
      elim (Bool-cases (is_ok w.0)) [
        | inl e ↦ subst Goal (sym e) (λ _. moved-Clearing h c v_in p_in flag b q b_in q_in from buf)
        | inr e ↦ subst Goal (sym e) (λ k. absurd (true≢false (sym k)))
      ]

  store-Passed :
      (b q : ℕ)
      → b < total_blocks
      → q < pages_per_block
      → ((b ≡ s.cur_write_block) × (q ≡ s.cur_write_page))
        ⊎ (is_free (nand_get_block_state s.nand b) ≡ true)
      → Passed content v p (
          stored (
            some (block_page_to_ppn b q),
            record s { cur_write_block = b; cur_write_page = q + 1 },
          ))
  unfolding store_given
  store-Passed b q b_in q_in from =
      let given = record s { cur_write_block = b; cur_write_page = q + 1 } in
      let same : Serves given content = record {
        placed = h.placed;
        named = h.named;
        backed = h.backed;
        outside = h.outside;
      } in
      (
        store_copy-Serves {s = given} old (block_page_to_ppn b q) real named same,
        store-Clearing b q b_in q_in from,
      )

  stored-Passed : (o : Option ℕ × Ftl) → IsPlaced s o → Passed content v p (stored o)
  unfolding store_given
  stored-Passed (none, s') e =
      (subst (λ t. Serves t content) (sym e) h, λ bad. absurd (true≢false (sym bad)))
  stored-Passed (some new, s') (b, q, b_in, q_in, en, es, from) =
      subst (λ (o : ℕ × Ftl). Passed content v p (stored (some o.0, o.1)))
        (sym (ap₂ (λ x y. (x, y)) en es)) (store-Passed b q b_in q_in from)

  copy_page-Passed : Passed content v p (copy_page s (s.reverse_map old) old buf)
  unfolding copy_page
  copy_page-Passed = stored-Passed _ (ftl_alloc_phy_page-IsPlaced s c.writes_in)

-- The read of the victim's page changes nothing that matters here.
read-Serves :
    {s : Ftl} {content : ℕ → List ℕ} (b q : ℕ) (buf : List ℕ)
    → Serves s content
    → Serves (read_page s b q buf).1 content
read-Serves b q buf h = Serves-nand _ (λ c r d. Holds-page_read b q buf) h

read-Clearing :
    {s : Ftl} {v p : ℕ} (b q : ℕ) (buf : List ℕ)
    → Clearing s v p
    → Clearing (read_page s b q buf).1 v p
read-Clearing {s} {v} b q buf c = record {
  in_use = page_read-state s.nand v b q buf ∙ c.in_use;
  writes_in = c.writes_in;
  ahead = λ e r le lt one.
      c.ahead e r le lt (sym (ap (λ f. f r) (page_read-valid s.nand v b q buf)) ∙ one);
  cleared = c.cleared;
}

page-real : (v p : ℕ) → v < total_blocks → p < pages_per_block → block_page_to_ppn v p ≢ invalid
page-real v p v_in p_in e = omega arith

-- What the read of a page in the reverse map gives.
read-content :
    {s : Ftl} {content : ℕ → List ℕ} {v p : ℕ} (buf : List ℕ)
    → Serves s content
    → v < total_blocks
    → p < pages_per_block
    → s.reverse_map (block_page_to_ppn v p) ≢ invalid
    → (read_page s v p buf).0 ≡ content (s.reverse_map (block_page_to_ppn v p))
read-content {s} {content} {v} {p} buf h v_in p_in m =
    let old = block_page_to_ppn v p in
    let (low, back) = h.backed old m in
    let (block, page) = ppn-address v p v_in p_in in
    let real =
      λ (e : s.l2p_table (s.reverse_map old) ≡ invalid). page-real v p v_in p_in (sym back ∙ e) in
    let held = h.placed (s.reverse_map old) low real in
    let at =
      subst (λ (o : ℕ × ℕ). Holds s.nand o.0 o.1 (content (s.reverse_map old)))
        (ap₂ (λ x y. (x, y)) (ap ppn_to_block back ∙ block) (ap ppn_to_page back ∙ page)) held in
    (Holds-read buf at).1

read-copied :
    {s : Ftl} {content : ℕ → List ℕ} {v p : ℕ} (buf : List ℕ)
    → Serves s content
    → Clearing s v p
    → v < total_blocks
    → p < pages_per_block
    → nand_is_page_valid s.nand v p ≡ true
    → s.reverse_map (block_page_to_ppn v p) ≢ invalid
    → let old = block_page_to_ppn v p in
      let (buf', s') = read_page s v p buf in
      Passed content v p (copy_page s' (s.reverse_map old) old buf')
read-copied {s} {content} {v} {p} buf h c v_in p_in e m =
    let old = block_page_to_ppn v p in
    let s' = (read_page s v p buf).1 in
    let flag =
      ap (λ (f : ℕ → ℕ). f p) (page_read-valid s.nand v v p buf)
      ∙ is_page_valid-flag s.nand v p e in
    subst (λ (b : List ℕ). Passed content v p (copy_page s' (s.reverse_map old) old b))
      (sym (read-content buf h v_in p_in m))
      (copy_page-Passed (read-Serves v p buf h) (read-Clearing v p buf c) v_in p_in flag m)

-- One round of the loop, what was in the buffer before it being of no account.
recycle_page-Passed :
    {s : Ftl} {content : ℕ → List ℕ} {v p : ℕ} (buf : List ℕ)
    → Serves s content
    → Clearing s v p
    → v < total_blocks
    → p < pages_per_block
    → let (ret, _, s') = recycle_page s v p buf in Passed content v p (ret, s')
unfolding recycle_page
recycle_page-Passed {s} {content} {v} {p} buf h c v_in p_in =
    elim (Bool-cases (nand_is_page_valid s.nand v p)) [
      | inr e ↦ rw e (h, λ _. not_valid-pass h e c)
      | inl e ↦ elim (Bool-cases (s.reverse_map (block_page_to_ppn v p) == invalid)) [
        | inl u ↦ rw (e, u) (h, λ _. not_named-pass h ((==_iff _ _).0 u) c)
        | inr n ↦
            rw (e, n)
              (read-copied buf h c v_in p_in e (λ k. true≢false (sym ((==_iff _ _).1 k) ∙ n)))
      ]
    ]

-- The loop over the last `left` pages.
pub recycle_pages-Passed :
    (left : ℕ) (s : Ftl) {content : ℕ → List ℕ} {v : ℕ} (p : ℕ) (buf : List ℕ)
    → Serves s content
    → Clearing s v p
    → v < total_blocks
    → p + left ≡ pages_per_block
    → let (ret, s') = recycle_pages s v left p buf in
      Serves s' content × (is_ok ret ≡ true → Clearing s' v pages_per_block)
unfolding recycle_pages
recycle_pages-Passed zero s {content} {v} p buf h c v_in end =
    (h, λ _. subst (Clearing s v) (omega (arith, end)) c)
recycle_pages-Passed (suc left) s {content} {v} p buf h c v_in end =
    let (ret, buf', s') = recycle_page s v p buf in
    let (h', c') = recycle_page-Passed buf h c v_in (omega (arith, end)) in
    elim (Bool-cases (is_ok ret)) [
      | inl e ↦ rw e (recycle_pages-Passed left s' (p + 1) buf' h' (c' e) v_in (omega (arith, end)))
      | inr e ↦ rw e (h', λ k. absurd (true≢false (sym k ∙ e)))
    ]
