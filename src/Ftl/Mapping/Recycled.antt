-- ===== src/Ftl/Mapping/Recycled.antt =====
-- modules/ftl/ftl.c: garbage collection loses no data.
use ftl_firmware.Common.{
  ℕ, ◌<◌, ◌≡◌, refl, ap, ◌∙◌, true, List, inc32, is_ok, Bool-cases, arith, inl, inr, Option, none,
  some,
}
use ftl_firmware.Nand.{pages_per_block, total_blocks, nand_get_block_state, used}
use ftl_firmware.Nand.Pages.{Holds-erase}
use ftl_firmware.Ftl.State.{Ftl, erase_block}
use ftl_firmware.Ftl.Select.{Floats, used_block}
use ftl_firmware.Ftl.Select.Choice.{IsUsed, gc_select_victim_block-IsUsed}
use ftl_firmware.Ftl.Recycle.{recycle_pages, gc_do_recycle, recycle_block, recycle_chosen}
use ftl_firmware.Ftl.Mapping.{Serves}
use ftl_firmware.Ftl.Mapping.Loop.{Clearing, IsAhead}
use ftl_firmware.Ftl.Mapping.Round.{recycle_pages-Passed}

-- An erasure loses nothing once the loop is through, whether the block wears out or not.
erase-Serves :
    {s : Ftl} {content : ℕ → List ℕ} {v : ℕ}
    → Serves s content
    → Clearing s v pages_per_block
    → Serves (erase_block s v).1 content
erase-Serves {s} {content} {v} h c = record {
  placed = λ l i m.
      let held = h.placed l i m in
      Holds-erase v (s.draws 0) (λ e. absurd (omega (arith, c.cleared l i m e, held.page_in))) held;
  named = h.named;
  backed = h.backed;
  outside = h.outside;
}

used-state :
    (s : Ftl) (v : ℕ)
    → used_block s.nand v ≡ true
    → (v < total_blocks) × (nand_get_block_state s.nand v ≡ used)
used-state s v e = (ground arith, ground arith)

recycle_block-Serves :
    (s : Ftl) (content : ℕ → List ℕ) (page_buf : List ℕ) (v : ℕ)
    → Serves s content
    → IsAhead s
    → used_block s.nand v ≡ true
    → Serves (recycle_block s v page_buf).1 content
unfolding recycle_block
recycle_block-Serves s content page_buf v h (w_in, ahead) e =
    let (v_in, in_use) = used-state s v e in
    let counted = record s { gc_count = inc32 s.gc_count } in
    let h0 : Serves counted content = record {
      placed = h.placed;
      named = h.named;
      backed = h.backed;
      outside = h.outside;
    } in
    let c0 : Clearing counted v 0 = record {
      in_use = in_use;
      writes_in = w_in;
      ahead = λ k q le lt one. ahead q le lt (ap (λ b. (s.nand.blocks b).page_valid q) k ∙ one);
      cleared = λ l i m b. omega arith;
    } in
    let looped = recycle_pages counted v pages_per_block 0 page_buf in
    let (h1, c1) = recycle_pages-Passed pages_per_block counted 0 page_buf h0 c0 v_in refl in
    elim (Bool-cases (is_ok looped.0)) [
      | inl ok ↦ rw ok (erase-Serves h1 (c1 ok))
      | inr failed ↦ rw failed h1
    ]

recycle_chosen-Serves :
    (s : Ftl) (content : ℕ → List ℕ) (page_buf : List ℕ) (o : Option ℕ)
    → Serves s content
    → IsAhead s
    → IsUsed s.nand o
    → Serves (recycle_chosen s page_buf o).1 content
unfolding recycle_chosen
recycle_chosen-Serves s content page_buf none h a u = h
recycle_chosen-Serves s content page_buf (some v) h a u =
    recycle_block-Serves s content page_buf v h a u

-- Garbage collection keeps every mapped page readable with its data, whichever algorithm chooses the
-- block and whether the collection succeeds or fails, if both tables agree, every mapped page holds
-- its data, and the pages of the write block behind the write pointer are not valid.
pub gc_do_recycle-Serves :
    (fl : Floats) (s : Ftl) (content : ℕ → List ℕ) (page_buf : List ℕ)
    → Serves s content
    → IsAhead s
    → Serves (gc_do_recycle fl s page_buf).1 content
unfolding gc_do_recycle
gc_do_recycle-Serves fl s content page_buf h a =
    recycle_chosen-Serves s content page_buf _ h a (gc_select_victim_block-IsUsed fl s)
