-- ===== src/Ftl/StaticWear.antt =====
-- modules/ftl/ftl.c: static wear levelling, `static_wear_leveling_check`.
use ftl_firmware.Common.{
  ℕ, zero, suc, ◌+◌, ◌==◌, Bool, true, false, Option, none, some, List, not, ◌&&◌, ltb,
  if◌then◌else◌, update, inc32, add32, sub32, is_ok,
}
use ftl_firmware.Nand.{
  Nand, is_bad, is_used, is_free, user_blocks, pages_per_block, nand_get_block_state,
  nand_get_block_erase_count, nand_is_page_valid, nand_mark_page_invalid,
}
use ftl_firmware.Ftl.State.{Ftl, invalid, block_page_to_ppn, erase_block}
use ftl_firmware.Ftl.Recycle.{read_page, write_page}

-- The variables of the scan: the most worn block in use and the least worn free one.
pub record Extremes : Type 0 where
  pub max_erase : ℕ
  pub min_erase : ℕ
  pub max_erase_block : Option ℕ
  pub min_erase_block : Option ℕ

unfoldable pub extremes_of : Nand → ℕ → Extremes → Extremes
extremes_of n i x =
    let state = nand_get_block_state n i in
    let erase_cnt = nand_get_block_erase_count n i in
    let most = is_used state && ltb x.max_erase erase_cnt in
    let least = is_free state && ltb erase_cnt x.min_erase in
    if is_bad state then x else record {
      max_erase = if most then erase_cnt else x.max_erase;
      max_erase_block = if most then some i else x.max_erase_block;
      min_erase = if least then erase_cnt else x.min_erase;
      min_erase_block = if least then some i else x.min_erase_block;
    }

unfoldable pub scan_extremes : Nand → ℕ → ℕ → Extremes → Extremes
unfolding extremes_of
scan_extremes n zero i x = x
scan_extremes n (suc left) i x = scan_extremes n left (i + 1) (extremes_of n i x)

-- The tables once `lpn` is copied to page `page` of `dst`, and the old page given up.
abbrev pub moved_page : Ftl → ℕ → ℕ → ℕ → Ftl
moved_page s src dst page =
    let old_ppn = block_page_to_ppn src page in
    let new_ppn = block_page_to_ppn dst page in
    let lpn = s.reverse_map old_ppn in
    record s {
      nand_write_pages = inc32 s.nand_write_pages;
      l2p_table = update s.l2p_table lpn new_ppn;
      reverse_map = update (update s.reverse_map new_ppn lpn) old_ppn invalid;
      nand = (nand_mark_page_invalid s.nand src page).1;
    }

-- One round of the loop over the source's pages: is the page moved, the buffer, the state.
unfoldable pub level_page : Ftl → ℕ → ℕ → ℕ → List ℕ → Bool × List ℕ × Ftl
level_page s src dst page buf =
    let lpn = s.reverse_map (block_page_to_ppn src page) in
    if not (nand_is_page_valid s.nand src page)
    then (false, buf, s)
    else if lpn == invalid
    then (false, buf, s)
    else let (buf', s1) = read_page s src page buf in
      let (ret, s2) = write_page s1 (block_page_to_ppn dst page) buf' in
      if is_ok ret then (true, buf', moved_page s2 src dst page) else (false, buf', s2)

unfoldable pub level_pages : Ftl → ℕ → ℕ → ℕ → ℕ → ℕ → List ℕ → ℕ × Ftl
unfolding level_page
level_pages s src dst zero page moved buf = (moved, s)
level_pages s src dst (suc left) page moved buf =
    let (hit, buf', s') = level_page s src dst page buf in
    level_pages s' src dst left (page + 1) (if hit then inc32 moved else moved) buf'

-- The move of `src` to `dst` and the erasure of `src`.
unfoldable pub level_block : Ftl → ℕ → ℕ → List ℕ → Ftl
unfolding level_pages
level_block s src dst buf =
    let (moved, s1) = level_pages s src dst pages_per_block 0 0 buf in
    let s2 = (erase_block s1 src).1 in
    record s2 {
      static_wear_count = inc32 s2.static_wear_count;
      static_wear_moved_pages = add32 s2.static_wear_moved_pages moved;
    }

unfoldable pub level_found : Ftl → Option ℕ → Option ℕ → List ℕ → Ftl
unfolding level_block
level_found s (some src) (some dst) buf = level_block s src dst buf
level_found s _ _ buf = s

-- The difference is one of 32-bit numbers.
unfoldable pub static_wear_leveling_check : Ftl → List ℕ → Ftl
unfolding scan_extremes level_found
static_wear_leveling_check s buf =
    let x = scan_extremes s.nand user_blocks 0 (record {
      max_erase = 0;
      min_erase = 0xffffffff;
      max_erase_block = none;
      min_erase_block = none;
    }) in
    if ltb 100 (sub32 x.max_erase x.min_erase)
    then level_found s x.max_erase_block x.min_erase_block buf
    else s
