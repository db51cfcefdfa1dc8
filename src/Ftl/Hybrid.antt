-- ===== src/Ftl/Hybrid.antt =====
-- modules/ftl/ftl.c: the hybrid map, which keeps hot logical blocks by page and cold ones by block.
use ftl_firmware.Common.{
  ℕ, zero, suc, ◌+◌, ◌*◌, ◌/◌, ◌%◌, ◌^◌, ◌==◌, true, false, Option, none, some, not, ◌&&◌, ltb, leb,
  if◌then◌else◌, update, inc32, RetCode, ret_ok, err_not_mapped, err_not_init,
}
use ftl_firmware.Nand.{pages_per_block, nand_is_page_valid}
use ftl_firmware.Ftl.State.{Ftl, BlockMapEntry, invalid, total_lpns, ppn_to_block}

-- `FTL_LOGICAL_BLOCK_PAGES`
abbrev pub logical_block_pages : ℕ
logical_block_pages = 64

abbrev pub set_entry : Ftl → ℕ → BlockMapEntry → Ftl
set_entry s b e = record s { block_map = update s.block_map b e }

-- Pages `i` and on of the block, `left` of them, get page mappings. The loop ends at the last page.
unfoldable pub upgrade_pages : ℕ → ℕ → ℕ → ℕ → Ftl → Ftl
upgrade_pages zero i physical_block base_lpn s = s
upgrade_pages (suc left) i physical_block base_lpn s =
    let lpn = base_lpn + i in
    let ppn = (physical_block * pages_per_block + i) % 2 ^ 32 in
    let valid = nand_is_page_valid s.nand physical_block i in
    let rest = upgrade_pages left (i + 1) physical_block base_lpn (record s {
      l2p_table = update s.l2p_table lpn (if valid then ppn else invalid);
      reverse_map = update s.reverse_map ppn (if valid then lpn else invalid);
    }) in
    if leb total_lpns lpn then s else rest

unfoldable pub hybrid_upgrade_to_hot : Ftl → ℕ → RetCode × Ftl
unfolding upgrade_pages
hybrid_upgrade_to_hot s logical_block =
    let entry = s.block_map logical_block in
    if not entry.is_valid
    then (err_not_mapped, s)
    else if entry.is_hot
    then (ret_ok, s)
    else let s1 =
        upgrade_pages logical_block_pages 0 entry.physical_block
          (logical_block * logical_block_pages) s in
      let s2 = set_entry s1 logical_block (record entry { is_hot = true }) in
      (ret_ok, record s2 { hot_cold_migration_count = inc32 s2.hot_cold_migration_count })

-- The physical block of the first mapped page among `left` from `lpn` on.
unfoldable pub first_mapped : ℕ → ℕ → Ftl → Option ℕ
first_mapped zero lpn s = none
first_mapped (suc left) lpn s =
    let later = first_mapped left (lpn + 1) s in
    if leb total_lpns lpn
    then none
    else if s.l2p_table lpn == invalid
    then later
    else some (ppn_to_block (s.l2p_table lpn))

unfoldable pub clear_pages : ℕ → ℕ → Ftl → Ftl
clear_pages zero lpn s = s
clear_pages (suc left) lpn s =
    let ppn = s.l2p_table lpn in
    let cleared = record s {
      reverse_map = update s.reverse_map ppn invalid;
      l2p_table = update s.l2p_table lpn invalid;
    } in
    let rest = clear_pages left (lpn + 1) (if ppn == invalid then s else cleared) in
    if leb total_lpns lpn then s else rest

-- The end of a downgrade, by the physical block that was found.
unfoldable pub downgrade_found : Ftl → ℕ → Option ℕ → Ftl
unfolding clear_pages
downgrade_found s b none =
    set_entry s b (record (s.block_map b) { is_valid = false; is_hot = false })
downgrade_found s b (some physical_block) =
    let s1 = set_entry s b (record (s.block_map b) { physical_block = physical_block }) in
    let s2 = clear_pages logical_block_pages (b * logical_block_pages) s1 in
    let s3 = set_entry s2 b (record (s2.block_map b) { is_hot = false }) in
    record s3 { hot_cold_migration_count = inc32 s3.hot_cold_migration_count }

unfoldable pub hybrid_downgrade_to_cold : Ftl → ℕ → RetCode × Ftl
unfolding first_mapped downgrade_found
hybrid_downgrade_to_cold s b =
    let entry = s.block_map b in
    if not entry.is_valid then (err_not_mapped, s) else if not entry.is_hot then (ret_ok, s) else (
      ret_ok,
      downgrade_found s b (first_mapped logical_block_pages (b * logical_block_pages) s),
    )

-- One round of the migration: hot from 10 accesses on, cold below 2, and the count is halved.
unfoldable pub migrate_block : Ftl → ℕ → Ftl
unfolding hybrid_upgrade_to_hot hybrid_downgrade_to_cold
migrate_block s b =
    let entry = s.block_map b in
    let warmer = leb 10 entry.access_count && not entry.is_hot in
    let colder = ltb entry.access_count 2 && entry.is_hot in
    let s1 =
      if warmer
      then (hybrid_upgrade_to_hot s b).1
      else if colder
      then (hybrid_downgrade_to_cold s b).1
      else s in
    let after = s1.block_map b in
    if not entry.is_valid
    then s
    else set_entry s1 b (record after { access_count = after.access_count / 2 })

unfoldable pub migrate_blocks : ℕ → ℕ → Ftl → Ftl
unfolding migrate_block
migrate_blocks zero b s = s
migrate_blocks (suc left) b s = migrate_blocks left (b + 1) (migrate_block s b)

unfoldable pub ftl_hot_cold_migration : Ftl → RetCode × Ftl
unfolding migrate_blocks
ftl_hot_cold_migration s =
    if not s.is_initialized
    then (err_not_init, s)
    else (ret_ok, migrate_blocks (total_lpns / logical_block_pages) 0 s)
