-- ===== src/Ftl/Write.antt =====
-- modules/ftl/ftl.c: `ftl_write`. The page buffers on the stacks of its callees are one argument.
use ftl_firmware.Common.{
  ℕ, zero, suc, ◌/◌, ◌==◌, true, false, Option, none, some, List, not, ◌||◌, ltb, leb,
  if◌then◌else◌, update, inc32, RetCode, ret_ok, err_param, err_no_space, is_ok, is_bad_block,
}
use ftl_firmware.Nand.{nand_get_free_block_count, nand_mark_page_invalid}
use ftl_firmware.Ftl.State.{
  Ftl, is_hybrid, BlockMapEntry, invalid, total_lpns, ppn_to_block, ppn_to_page, ftl_alloc_phy_page,
  wal_log_write,
}
use ftl_firmware.Ftl.Select.{Floats}
use ftl_firmware.Ftl.Recycle.{write_page, gc_do_recycle}
use ftl_firmware.Ftl.Replace.{ftl_replace_bad_block}
use ftl_firmware.Ftl.Read.{lpn_to_logical_block, hybrid_update_access_count}
use ftl_firmware.Ftl.Wear.{wear_leveling_check}
use ftl_firmware.Ftl.StaticWear.{static_wear_leveling_check}
use ftl_firmware.Ftl.Hybrid.{set_entry, logical_block_pages, ftl_hot_cold_migration}

-- The second attempt, on a page that the allocator gives after the replacement.
unfoldable pub write_again : Option ℕ × Ftl → List ℕ → RetCode × ℕ × Ftl
write_again (none, s) buf = (err_no_space, 0, s)
write_again (some ppn, s) buf = let (ret, s') = write_page s ppn buf in (ret, ppn, s')

unfoldable pub replace_and_write : Ftl → ℕ → List ℕ → List ℕ → RetCode × ℕ × Ftl
unfolding write_again ftl_replace_bad_block
replace_and_write s ppn buf page_buf =
    let (ret, s') = ftl_replace_bad_block s (ppn_to_block ppn) page_buf in
    if is_ok ret then write_again (ftl_alloc_phy_page s') buf else (ret, ppn, s')

-- The write of the data to `ppn`, with one replacement of a bad block: the status, the page that
-- holds the data, the state.
unfoldable pub write_data : Ftl → ℕ → List ℕ → List ℕ → RetCode × ℕ × Ftl
unfolding replace_and_write
write_data s ppn buf page_buf =
    let (ret, s') = write_page s ppn buf in
    if is_bad_block ret then replace_and_write s' ppn buf page_buf else (ret, ppn, s')

-- The old page is given up, if there is one.
unfoldable pub drop_old : Ftl → ℕ → Ftl
drop_old s lpn =
    let ppn = s.l2p_table lpn in
    if ppn == invalid then s else record s {
      nand = (nand_mark_page_invalid s.nand (ppn_to_block ppn) (ppn_to_page ppn)).1;
      reverse_map = update s.reverse_map ppn invalid;
    }

abbrev pub map_page : Ftl → ℕ → ℕ → Ftl
map_page s lpn ppn = record s {
  l2p_table = update s.l2p_table lpn ppn;
  reverse_map = update s.reverse_map ppn lpn;
}

unfoldable pub commit_page : Ftl → ℕ → ℕ → Ftl
unfolding drop_old
commit_page s lpn ppn =
    let counted = record s {
      host_write_pages = inc32 s.host_write_pages;
      nand_write_pages = inc32 s.nand_write_pages;
    } in
    map_page (drop_old counted lpn) lpn ppn

-- The entry of a logical block that is written for the first time.
abbrev pub new_entry : ℕ → BlockMapEntry
new_entry block = record {
  physical_block = block;
  is_valid = true;
  is_hot = false;
  access_count = 0;
}

unfoldable pub track_access : Ftl → ℕ → ℕ → Ftl
unfolding hybrid_update_access_count
track_access s lpn ppn =
    let b = lpn_to_logical_block lpn in
    let known =
      if (s.block_map b).is_valid then s else set_entry s b (new_entry (ppn_to_block ppn)) in
    if ltb b (total_lpns / logical_block_pages) then hybrid_update_access_count known lpn else s

-- Every 1000th write checks the static wear.
unfoldable pub after_write : Ftl → List ℕ → Ftl
unfolding wear_leveling_check static_wear_leveling_check
after_write s page_buf =
    let s1 = wear_leveling_check s in
    let n = inc32 s1.write_since_last_check in
    if leb 1000 n
    then static_wear_leveling_check (record s1 { write_since_last_check = 0 }) page_buf
    else record s1 { write_since_last_check = n }

-- Every 100th write migrates.
unfoldable pub after_hybrid_write : Ftl → ℕ → ℕ → Ftl
unfolding track_access ftl_hot_cold_migration
after_hybrid_write s lpn ppn =
    let s1 = track_access s lpn ppn in
    let n = inc32 s1.hot_cold_check_count in
    if leb 100 n
    then (ftl_hot_cold_migration (record s1 { hot_cold_check_count = 0 })).1
    else record s1 { hot_cold_check_count = n }

-- What follows a write that succeeded.
unfoldable pub finish_write : Ftl → ℕ → ℕ → List ℕ → Ftl
unfolding commit_page after_write after_hybrid_write
finish_write s lpn ppn page_buf =
    let s1 = after_write (commit_page s lpn ppn) page_buf in
    if is_hybrid s1.map_mode then after_hybrid_write s1 lpn ppn else s1

-- From the page that the allocator gave: the log entry comes first.
unfoldable pub write_allocated : Option ℕ × Ftl → ℕ → List ℕ → List ℕ → RetCode × Ftl
unfolding write_data finish_write
write_allocated (none, s) lpn buf page_buf = (err_no_space, s)
write_allocated (some new_ppn, s) lpn buf page_buf =
    let (logged, s1) = wal_log_write s lpn (s.l2p_table lpn) new_ppn in
    let (ret, ppn, s2) = write_data s1 new_ppn buf page_buf in
    if not (is_ok logged)
    then (logged, s1)
    else if not (is_ok ret)
    then (ret, s2)
    else (ret_ok, finish_write s2 lpn ppn page_buf)

module _ (fl : Floats) where
  -- Collections until more than 5 blocks are free; `none` means that the fuel ran out.
  unfoldable pub make_space : ℕ → Ftl → List ℕ → Option (RetCode × Ftl)
  unfolding gc_do_recycle
  make_space zero s page_buf = none
  make_space (suc fuel) s page_buf =
      let (ret, s') = gc_do_recycle fl s page_buf in
      let again = make_space fuel s' page_buf in
      if ltb 5 (nand_get_free_block_count s.nand)
      then some (ret_ok, s)
      else if is_ok ret
      then again
      else some (err_no_space, s')

  unfoldable pub write_with_space :
      Option (RetCode × Ftl) → ℕ → List ℕ → List ℕ → Option (RetCode × Ftl)
  unfolding write_allocated
  write_with_space none lpn buf page_buf = none
  write_with_space (some (ret, s)) lpn buf page_buf =
      some (if is_ok ret then write_allocated (ftl_alloc_phy_page s) lpn buf page_buf else (ret, s))

  -- `ftl_write` with a buffer.
  unfoldable pub write_from : ℕ → Ftl → ℕ → List ℕ → List ℕ → Option (RetCode × Ftl)
  unfolding make_space write_with_space
  write_from fuel s lpn buf page_buf =
      let written = write_with_space (make_space fuel s page_buf) lpn buf page_buf in
      if not s.is_initialized || leb total_lpns lpn then some (err_param, s) else written

  unfoldable pub ftl_write : ℕ → Ftl → ℕ → Option (List ℕ) → List ℕ → Option (RetCode × Ftl)
  unfolding write_from
  ftl_write fuel s lpn none page_buf = some (err_param, s)
  ftl_write fuel s lpn (some buf) page_buf = write_from fuel s lpn buf page_buf
