-- ===== src/Ftl/Mapping/Freed.antt =====
-- modules/ftl/ftl.c: a collection that succeeds has freed a block.
use ftl_firmware.Common.{
  ℕ, ◌≡◌, refl, sym, ap, ◌∙◌, Bool, true, false, Option, none, some, List, if◌then◌else◌, inc32,
  RetCode, ret_ok, is_ok,
}
use mathlib.Core.Bool.{true≢false}
use ftl_firmware.Nand.{free, pages_per_block, nand_get_block_state}
use ftl_firmware.Nand.Pages.{erase-frees}
use ftl_firmware.Ftl.State.{Ftl, erase_block}
use ftl_firmware.Ftl.Select.{Floats, gc_select_victim_block}
use ftl_firmware.Ftl.Recycle.{recycle_pages, recycle_block, recycle_chosen, gc_do_recycle}

-- Block `v` is free and has no valid page.
abbrev pub IsEmptied : Ftl → ℕ → Type 0
IsEmptied s v =
    (nand_get_block_state s.nand v ≡ free) × ((q : ℕ) → (s.nand.blocks v).page_valid q ≡ 0)

-- The end of a collection: an erasure, if the loop went well.
abbrev finish : Ftl → ℕ → RetCode → Bool → RetCode × Ftl
finish s v ret ok = if ok then erase_block s v else (ret, s)

finish-IsEmptied :
    (s : Ftl) (v : ℕ) (ret : RetCode) (ok : Bool)
    → is_ok ret ≡ ok
    → (finish s v ret ok).0 ≡ ret_ok
    → IsEmptied (finish s v ret ok).1 v
finish-IsEmptied s v ret true e done = erase-frees s.nand v (s.draws 0) done
finish-IsEmptied s v ret false e done = absurd (true≢false (sym (ap is_ok done) ∙ e))

recycle_chosen-IsEmptied :
    (s : Ftl) (page_buf : List ℕ) (o : Option ℕ)
    → (recycle_chosen s page_buf o).0 ≡ ret_ok
    → (v : ℕ) × (o ≡ some v) × IsEmptied (recycle_chosen s page_buf o).1 v
unfolding recycle_chosen recycle_block
recycle_chosen-IsEmptied s page_buf none done = absurd (true≢false (sym (ap is_ok done)))
recycle_chosen-IsEmptied s page_buf (some v) done =
    let counted = record s { gc_count = inc32 s.gc_count } in
    let r = recycle_pages counted v pages_per_block 0 page_buf in
    (v, refl, finish-IsEmptied r.1 v r.0 _ refl done)

-- A collection that answers `ret_ok` leaves the block that the selection chose free, with no valid
-- page.
pub gc_do_recycle-IsEmptied :
    (fl : Floats) (s : Ftl) (page_buf : List ℕ)
    → (gc_do_recycle fl s page_buf).0 ≡ ret_ok
    → (v : ℕ) × (gc_select_victim_block fl s ≡ some v) × IsEmptied (gc_do_recycle fl s page_buf).1 v
unfolding gc_do_recycle
gc_do_recycle-IsEmptied fl s page_buf done = recycle_chosen-IsEmptied s page_buf _ done
