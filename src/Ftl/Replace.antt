-- ===== src/Ftl/Replace.antt =====
-- modules/ftl/ftl.c: the replacement of a block that went bad, `ftl_replace_bad_block`.
use ftl_firmware.Common.{
  ℕ, zero, suc, ◌+◌, ◌==◌, Bool, true, false, List, not, if◌then◌else◌, leb, update, Option, none,
  some, inc32, add32, RetCode, ret_ok, err_param, err_not_init,
}
use ftl_firmware.Nand.{pages_per_block, total_blocks, nand_replace_bad_block}
use ftl_firmware.Ftl.State.{Ftl, invalid, block_page_to_ppn}

-- One round of the loop over the tables: is the page moved, and the state after it.
unfoldable pub remap_page : Ftl → ℕ → ℕ → ℕ → Bool × Ftl
remap_page s block new_block page =
    let old_ppn = block_page_to_ppn block page in
    let new_ppn = block_page_to_ppn new_block page in
    let lpn = s.reverse_map old_ppn in
    if lpn == invalid then (false, s) else (
      true,
      record s {
        l2p_table = update s.l2p_table lpn new_ppn;
        reverse_map = update (update s.reverse_map new_ppn lpn) old_ppn invalid;
      },
    )

-- The loop over `left` pages from `page` on, with the number of pages moved so far.
unfoldable pub remap_pages : ℕ → ℕ → Ftl → ℕ → ℕ → ℕ → ℕ × Ftl
unfolding remap_page
remap_pages zero page s block new_block moved = (moved, s)
remap_pages (suc left) page s block new_block moved =
    let (hit, s') = remap_page s block new_block page in
    remap_pages left (page + 1) s' block new_block (if hit then inc32 moved else moved)

-- What follows once the device has put `new_block` in place of `block`.
unfoldable pub replaced : Ftl → ℕ → ℕ → Ftl
unfolding remap_pages
replaced s block new_block =
    let (moved, s') = remap_pages pages_per_block 0 s block new_block 0 in
    record s' {
      bad_block_replace_count = inc32 s'.bad_block_replace_count;
      bad_block_moved_pages = add32 s'.bad_block_moved_pages moved;
      cur_write_block = if s'.cur_write_block == block then new_block else s'.cur_write_block;
    }

-- The device gives a new block exactly if it answers `ret_ok`.
unfoldable pub replace_answered : Ftl → ℕ → RetCode → Option ℕ → RetCode × Ftl
unfolding replaced
replace_answered s block ret none = (ret, s)
replace_answered s block ret (some new_block) = (ret_ok, replaced s block new_block)

-- `page_buf` is what the device's page buffer holds at the start.
unfoldable pub ftl_replace_bad_block : Ftl → ℕ → List ℕ → RetCode × Ftl
unfolding replace_answered
ftl_replace_bad_block s block page_buf =
    if not s.is_initialized
    then (err_not_init, s)
    else if leb total_blocks block
    then (err_param, s)
    else let (ret, new, n) = nand_replace_bad_block s.nand block page_buf in
      replace_answered (record s { nand = n }) block ret new
