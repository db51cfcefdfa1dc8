-- ===== src/Ftl/Wear.antt =====
-- modules/ftl/ftl.c: dynamic wear levelling, `wear_leveling_check`.
use ftl_firmware.Common.{
  ℕ, zero, suc, ◌+◌, Option, none, some, ltb, if◌then◌else◌, inc32, sub32, is_ok,
}
use ftl_firmware.Nand.{
  Nand, is_bad, is_used, user_blocks, nand_get_block_state, nand_get_block_erase_count,
  nand_mark_cold_block,
}
use ftl_firmware.Ftl.State.{Ftl}

-- The variables of the scan.
pub record Wear : Type 0 where
  pub max_erase : ℕ
  pub min_erase : ℕ
  pub cold_block : Option ℕ

-- One round: bad blocks are skipped; a block that is worn less than those before is the cold block if
-- it is in use.
unfoldable pub wear_of : Nand → ℕ → Wear → Wear
wear_of n i w =
    let erase_cnt = nand_get_block_erase_count n i in
    let lowest = ltb erase_cnt w.min_erase in
    let cold = if is_used (nand_get_block_state n i) then some i else w.cold_block in
    if is_bad (nand_get_block_state n i) then w else record {
      max_erase = if ltb w.max_erase erase_cnt then erase_cnt else w.max_erase;
      min_erase = if lowest then erase_cnt else w.min_erase;
      cold_block = if lowest then cold else w.cold_block;
    }

unfoldable pub scan_wear : Nand → ℕ → ℕ → Wear → Wear
unfolding wear_of
scan_wear n zero i w = w
scan_wear n (suc left) i w = scan_wear n left (i + 1) (wear_of n i w)

unfoldable pub mark_cold : Ftl → Option ℕ → Ftl
mark_cold s none = s
mark_cold s (some block) =
    let (ret, n) = nand_mark_cold_block s.nand block in
    record s {
      nand = n;
      wear_leveling_count =
          if is_ok ret then inc32 s.wear_leveling_count else s.wear_leveling_count;
    }

unfoldable pub wear_leveling_check : Ftl → Ftl
unfolding scan_wear mark_cold
wear_leveling_check s =
    let w =
      scan_wear s.nand user_blocks 0
        (record { max_erase = 0; min_erase = 0xffffffff; cold_block = none }) in
    if ltb 50 (sub32 w.max_erase w.min_erase) then mark_cold s w.cold_block else s
