-- ===== src/Ftl/Recycle.antt =====
-- modules/ftl/ftl.c: garbage collection of one block, `gc_do_recycle`.
use ftl_firmware.Common.{
  ℕ, zero, suc, ◌+◌, ◌==◌, Option, none, some, List, not, if◌then◌else◌, update, inc32, RetCode,
  ret_ok, err_no_space, err_internal, err_not_init, is_ok,
}
use ftl_firmware.Nand.{pages_per_block, page_read, page_write, nand_is_page_valid}
use ftl_firmware.Ftl.State.{
  Ftl, invalid, ppn_to_block, ppn_to_page, block_page_to_ppn, ftl_alloc_phy_page, erase_block,
}
use ftl_firmware.Ftl.Select.{Floats, gc_select_victim_block}

-- The page of the layer's device, read into `buf`; the status is not used.
abbrev pub read_page : Ftl → ℕ → ℕ → List ℕ → List ℕ × Ftl
read_page s block page buf =
    let (ret, buf', n) = page_read s.nand block page buf in (buf', record s { nand = n })

abbrev pub write_page : Ftl → ℕ → List ℕ → RetCode × Ftl
write_page s ppn buf =
    let (ret, n) = page_write s.nand (ppn_to_block ppn) (ppn_to_page ppn) buf in
    (ret, record s { nand = n })

-- The statistics and both tables, once `lpn` is copied from `old_ppn` to `new_ppn`.
abbrev pub remap : Ftl → ℕ → ℕ → ℕ → Ftl
remap s lpn old_ppn new_ppn = record s {
  nand_write_pages = inc32 s.nand_write_pages;
  gc_moved_pages = inc32 s.gc_moved_pages;
  l2p_table = update s.l2p_table lpn new_ppn;
  reverse_map = update (update s.reverse_map new_ppn lpn) old_ppn invalid;
}

-- The write of page `lpn` to `new_ppn`, its data being in the buffer, and what follows it.
unfoldable pub store_copy : Ftl → ℕ → ℕ → ℕ → List ℕ → RetCode × Ftl
store_copy s lpn old_ppn new_ppn buf =
    let (ret, s') = write_page s new_ppn buf in
    if is_ok ret then (ret_ok, remap s' lpn old_ppn new_ppn) else (err_internal, s')

-- The copy to what the allocator gave.
unfoldable pub store_given : Option ℕ × Ftl → ℕ → ℕ → List ℕ → RetCode × Ftl
unfolding store_copy
store_given (none, s) lpn old_ppn buf = (err_no_space, s)
store_given (some new_ppn, s) lpn old_ppn buf = store_copy s lpn old_ppn new_ppn buf

unfoldable pub copy_page : Ftl → ℕ → ℕ → List ℕ → RetCode × Ftl
unfolding ftl_alloc_phy_page store_given
copy_page s lpn old_ppn buf = store_given (ftl_alloc_phy_page s) lpn old_ppn buf

-- One round of the loop over the victim's pages.
unfoldable pub recycle_page : Ftl → ℕ → ℕ → List ℕ → RetCode × List ℕ × Ftl
unfolding copy_page
recycle_page s victim page buf =
    let old_ppn = block_page_to_ppn victim page in
    let lpn = s.reverse_map old_ppn in
    if not (nand_is_page_valid s.nand victim page)
    then (ret_ok, buf, s)
    else if lpn == invalid
    then (ret_ok, buf, s)
    else let (buf', s1) = read_page s victim page buf in
      let (ret, s2) = copy_page s1 lpn old_ppn buf' in (ret, buf', s2)

-- The loop, with `left` pages to go from `page` on.
unfoldable pub recycle_pages : Ftl → ℕ → ℕ → ℕ → List ℕ → RetCode × Ftl
unfolding recycle_page
recycle_pages s victim zero page buf = (ret_ok, s)
recycle_pages s victim (suc left) page buf =
    let (ret, buf', s') = recycle_page s victim page buf in
    let rest = recycle_pages s' victim left (page + 1) buf' in if is_ok ret then rest else (ret, s')

-- Garbage collection of the victim: the loop, then the erasure. `buf` is what the page buffer on the
-- stack holds at the start.
unfoldable pub recycle_block : Ftl → ℕ → List ℕ → RetCode × Ftl
unfolding recycle_pages
recycle_block s victim buf =
    let counted = record s { gc_count = inc32 s.gc_count } in
    let (ret, s') = recycle_pages counted victim pages_per_block 0 buf in
    if is_ok ret then erase_block s' victim else (ret, s')

unfoldable pub recycle_chosen : Ftl → List ℕ → Option ℕ → RetCode × Ftl
unfolding recycle_block
recycle_chosen s buf none = (err_no_space, s)
recycle_chosen s buf (some victim) = recycle_block s victim buf

module _ (fl : Floats) where
  unfoldable pub gc_do_recycle : Ftl → List ℕ → RetCode × Ftl
  unfolding recycle_chosen
  gc_do_recycle s buf = recycle_chosen s buf (gc_select_victim_block fl s)

  unfoldable pub ftl_trigger_gc : Ftl → List ℕ → RetCode × Ftl
  unfolding gc_do_recycle
  ftl_trigger_gc s buf = if not s.is_initialized then (err_not_init, s) else gc_do_recycle s buf
