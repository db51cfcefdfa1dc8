-- ===== src/Ftl/Mapping/Loop.antt =====
-- modules/ftl/ftl.c: the loop of `gc_do_recycle` over the pages of the victim.
use ftl_firmware.Common.{
  ℕ, ◌+◌, ◌≤◌, ◌<◌, ◌≡◌, ◌≢◌, sym, ap, ap₂, ◌∙◌, true, false, List, ltb, ltb→lt, ltb-false→le,
  update-cases, Bool-cases, arith, ◌⊎◌, inl, inr,
}
use ftl_firmware.Nand.{
  pages_per_block, total_blocks, nand_is_page_valid, nand_get_block_state, is_free, used,
}
use ftl_firmware.Nand.Pages.{Holds-is_page_valid, page_write-elsewhere, page_write-used}
use mathlib.Core.Bool.{true≢false}
use ftl_firmware.Ftl.State.{Ftl, invalid, total_lpns, ppn_to_block, ppn_to_page, block_page_to_ppn}
use ftl_firmware.Ftl.State.Alloc.{ppn-address, ppn_unique}
use ftl_firmware.Ftl.Recycle.{write_page, remap}
use ftl_firmware.Ftl.Mapping.{Serves}

-- The pages of the write block behind the write pointer are not valid.
abbrev pub IsAhead : Ftl → Type 0
IsAhead s =
    (s.cur_write_block < total_blocks)
    × ((q : ℕ)
        → s.cur_write_page ≤ q
        → q < pages_per_block
        → (s.nand.blocks s.cur_write_block).page_valid q ≢ 1)

-- The loop is at page `p` of the victim `v`, and nothing is mapped to the pages before `p`.
pub record Clearing (s : Ftl) (v p : ℕ) : Type 0 where
  pub in_use : nand_get_block_state s.nand v ≡ used
  pub writes_in : s.cur_write_block < total_blocks
  pub ahead :
      s.cur_write_block ≡ v
      → (q : ℕ) → s.cur_write_page ≤ q
      → q < pages_per_block
      → (s.nand.blocks v).page_valid q ≢ 1
  pub cleared :
      (lpn : ℕ)
      → lpn < total_lpns
      → s.l2p_table lpn ≢ invalid
      → ppn_to_block (s.l2p_table lpn) ≡ v
      → p ≤ ppn_to_page (s.l2p_table lpn)

-- Nothing is mapped to page `p`, so the loop may pass it.
Clearing-pass :
    {s : Ftl} {v p : ℕ}
    → ((lpn : ℕ)
        → lpn < total_lpns
        → s.l2p_table lpn ≢ invalid
        → ppn_to_block (s.l2p_table lpn) ≡ v
        → ppn_to_page (s.l2p_table lpn) ≢ p)
    → Clearing s v p
    → Clearing s v (p + 1)
Clearing-pass unmapped c = record {
  in_use = c.in_use;
  writes_in = c.writes_in;
  ahead = c.ahead;
  cleared = λ l i m b. omega (arith, c.cleared l i m b, unmapped l i m b);
}

-- The address of a mapped page, from its block and its page.
mapped-address :
    {s : Ftl} {content : ℕ → List ℕ} {v p : ℕ}
    → Serves s content
    → (l : ℕ) → l < total_lpns
    → s.l2p_table l ≢ invalid
    → ppn_to_block (s.l2p_table l) ≡ v
    → ppn_to_page (s.l2p_table l) ≡ p
    → s.l2p_table l ≡ block_page_to_ppn v p
mapped-address h l i m b q =
    let low = (h.placed l i m).block_in in
    sym (ppn_unique _ (omega (arith, low))) ∙ ap₂ block_page_to_ppn b q

pub invalid-high : (l : ℕ) → l < total_lpns → l ≢ invalid
invalid-high l i e = omega arith

-- A page that is not valid, or that is not in the reverse map, is not mapped.
pub not_valid-pass :
    {s : Ftl} {content : ℕ → List ℕ} {v p : ℕ}
    → Serves s content
    → nand_is_page_valid s.nand v p ≡ false
    → Clearing s v p
    → Clearing s v (p + 1)
not_valid-pass {s} {content} {v} {p} h e c =
    Clearing-pass
      (λ l i m b q.
        let known = Holds-is_page_valid (h.placed l i m) in
        true≢false (sym known ∙ ap₂ (nand_is_page_valid s.nand) b q ∙ e))
      c

pub not_named-pass :
    {s : Ftl} {content : ℕ → List ℕ} {v p : ℕ}
    → Serves s content
    → s.reverse_map (block_page_to_ppn v p) ≡ invalid
    → Clearing s v p
    → Clearing s v (p + 1)
not_named-pass {s} {content} {v} {p} h e c =
    Clearing-pass
      (λ l i m b q.
        let at = ap s.reverse_map (mapped-address h l i m b q) in
        invalid-high l i (sym (h.named l i m) ∙ at ∙ e))
      c

-- The copy of page `p` of the victim to page `q` of block `b`, which the allocator gave.
module _ {s : Ftl} {content : ℕ → List ℕ} (h : Serves s content) {v p : ℕ} (c : Clearing s v p)
    (v_in : v < total_blocks) (p_in : p < pages_per_block)
    (flag : (s.nand.blocks v).page_valid p ≡ 1) (b q : ℕ) (b_in : b < total_blocks)
    (q_in : q < pages_per_block)
    (from : ((b ≡ s.cur_write_block) × (q ≡ s.cur_write_page))
      ⊎ (is_free (nand_get_block_state s.nand b) ≡ true)) where
  -- A page given in the victim itself lies behind the page that is copied.
  given_ahead : b ≡ v → (s.cur_write_block ≡ v) × (q ≡ s.cur_write_page) × (p < q)
  given_ahead e = elim from [
    | inl (at, w) ↦
        let here = sym at ∙ e in
        elim (Bool-cases (ltb p q)) [
          | inl l ↦ (here, w, ltb→lt p q l)
          | inr l ↦ absurd (c.ahead here p (omega (arith, w, ltb-false→le p q l)) p_in flag)
        ]
    | inr is ↦ absurd (
        true≢false
          (sym is ∙ ap (λ k. is_free (nand_get_block_state s.nand k)) e ∙ ap is_free c.in_use))
  ]

  abbrev old : ℕ
  old = block_page_to_ppn v p

  abbrev lpn : ℕ
  lpn = s.reverse_map old

  abbrev new : ℕ
  new = block_page_to_ppn b q

  abbrev given : Ftl
  given = record s { cur_write_block = b; cur_write_page = q + 1 }

  abbrev moved : List ℕ → Ftl
  moved buf = remap (write_page given new buf).1 lpn old new

  abbrev new_at : (ppn_to_block new ≡ b) × (ppn_to_page new ≡ q)
  new_at = ppn-address b q (omega (arith, b_in)) q_in

  moved-cleared :
      (buf : List ℕ) (l : ℕ)
      → l < total_lpns
      → (moved buf).l2p_table l ≢ invalid
      → ppn_to_block ((moved buf).l2p_table l) ≡ v
      → p + 1 ≤ ppn_to_page ((moved buf).l2p_table l)
  moved-cleared buf l i m at = elim (update-cases s.l2p_table lpn new l) [
    | inl (e, u) ↦
        let to_v = sym new_at.0 ∙ ap ppn_to_block (sym u) ∙ at in
        let after = (given_ahead to_v).2 in
        let page = ap ppn_to_page u ∙ new_at.1 in omega (arith, after, page)
    | inr (ne, u) ↦
        let m' = λ (k : s.l2p_table l ≡ invalid). m (u ∙ k) in
        let at' = ap ppn_to_block (sym u) ∙ at in
        let page = ap ppn_to_page u in
        let low = c.cleared l i m' at' in
        let other = λ (k : ppn_to_page (s.l2p_table l) ≡ p).
          ne (sym (h.named l i m') ∙ ap s.reverse_map (mapped-address h l i m' at' k)) in
        omega (arith, page, low, other)
  ]

  moved-ahead :
      (buf : List ℕ)
      → b ≡ v
      → (r : ℕ) → q + 1 ≤ r
      → r < pages_per_block
      → ((moved buf).nand.blocks v).page_valid r ≢ 1
  moved-ahead buf e r le lt one =
      let (here, w, after) = given_ahead e in
      c.ahead here r (omega (arith, w)) lt (
        sym (
          page_write-elsewhere s.nand v r (ppn_to_block new) (ppn_to_page new) buf
            (inr (λ k. omega (arith, le, k, new_at.1))))
        ∙ one)

  pub moved-Clearing : (buf : List ℕ) → Clearing (moved buf) v (p + 1)
  moved-Clearing buf = record {
    in_use = page_write-used s.nand v (ppn_to_block new) (ppn_to_page new) buf c.in_use;
    writes_in = b_in;
    ahead = moved-ahead buf;
    cleared = moved-cleared buf;
  }
