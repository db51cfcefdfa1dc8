-- ===== src/Ftl/Tests.antt =====
-- modules/ftl/ftl.c at a concrete layer: logical page 3 lies in page 0 of block 5 of the test chip.
use ftl_firmware.Common.{
  ℕ, ◌/◌, ◌*◌, ◌≤◌, ◌<◌, ◌≡◌, ◌≢◌, refl, sym, ap, subst, ◌∙◌, [], ◌∷◌, true, false, List, none,
  some, ltb, update, update-cases, arith, inl, inr, RetCode, ◌∙◌, ret_ok, err_not_mapped,
}
use ftl_firmware.Nand.{
  page_write, page_read, nand_block_erase, nand_get_erase_threshold, user_blocks,
  nand_get_block_valid_page_count, nand_get_free_block_count, count_free,
}
use ftl_firmware.Nand.Pages.{Holds}
use ftl_firmware.Nand.Tests.{chip, chip_one, chip-Holds, chip-ahead, chip-IsCounted}
use ftl_firmware.Ftl.State.{
  ftl_find_next_free_block, scan_free, ftl_alloc_phy_page, wal_log_write, wal_log, Ftl, greedy,
  page_mode, invalid, total_lpns, ppn_to_block, ppn_to_page,
}
use ftl_firmware.Ftl.Select.{
  Floats, scan_least, select_by, used_block, gc_select_greedy, gc_select_victim_block,
}
use ftl_firmware.Ftl.Select.Choice.{gc_select_greedy_least}
use ftl_firmware.Ftl.Recycle.{gc_do_recycle}
use ftl_firmware.Ftl.Trim.{ftl_trim}
use ftl_firmware.Ftl.Mapping.Freed.{IsEmptied, gc_do_recycle-IsEmptied}
use ftl_firmware.Ftl.Read.{ftl_read}
use ftl_firmware.Ftl.Mapping.Reads.{ftl_read_lem}
use ftl_firmware.Ftl.Mapping.{Serves}
use ftl_firmware.Ftl.Mapping.Loop.{IsAhead}
use ftl_firmware.Ftl.Mapping.Written.{IsSound}
use ftl_firmware.Ftl.Mapping.Kept.{IsKept}
use ftl_firmware.Ftl.Mapping.Hosted.{IsAnsweredIf, gc_do_recycle-IsSound, ftl_write-IsAnswered}
use ftl_firmware.Ftl.Mapping.Returned.{ReadsAs, answer, ftl_write-answer, ftl_read-ftl_write}
use ftl_firmware.Ftl.Write.{write_data, write_allocated, ftl_write}
use ftl_firmware.Ftl.Mapping.Trimmed.{Trimmed, ftl_trim_lem}

-- Whole numbers in place of `double`.
abbrev pub wholes : Floats
wholes = record {
  Double = ℕ;
  of_ℕ = λ n. n;
  over = λ a b. a / b;
  times = λ a b. a * b;
  above = λ a b. ltb b a;
  minus_one = 0;
}

abbrev pub data_of : ℕ → List ℕ
data_of lpn = 1 ∷ 2 ∷ []

abbrev pub layer : Ftl
layer = record {
  nand = chip;
  l2p_table = update (λ _. invalid) 3 1280;
  reverse_map = update (λ _. invalid) 1280 3;
  cur_write_block = 5;
  cur_write_page = 2;
  host_write_pages = 1;
  nand_write_pages = 1;
  gc_count = 0;
  gc_moved_pages = 0;
  wear_leveling_count = 0;
  static_wear_count = 0;
  static_wear_moved_pages = 0;
  trim_count = 0;
  trim_pages = 0;
  bad_block_replace_count = 0;
  bad_block_moved_pages = 0;
  write_since_last_check = 1;
  gc_algo = greedy;
  map_mode = page_mode;
  wal_file = none;
  wal_sequence = 0;
  wal_entry_count = 0;
  wal_enabled = false;
  block_map =
      λ _. record { physical_block = invalid; is_valid = false; is_hot = false; access_count = 0 };
  hot_cold_check_count = 0;
  hot_cold_migration_count = 0;
  is_initialized = true;
  draws = λ _. 0;
  log_accepts = λ _. true;
}

-- The only mapped entry of each table.
only_entry :
    (i v j : ℕ)
    → update (λ _. invalid) i v j ≢ invalid
    → (j ≡ i) × (update (λ _. invalid) i v j ≡ v)
only_entry i v j m = elim (update-cases (λ _. invalid) i v j) [
  | inl found ↦ found
  | inr (ne, u) ↦ absurd (m u)
]

pub layer-Serves : Serves layer data_of
layer-Serves = record {
  placed = λ l low m.
      subst (λ (ppn : ℕ). Holds chip (ppn_to_block ppn) (ppn_to_page ppn) (1 ∷ 2 ∷ []))
        (sym (only_entry 3 1280 l m).1) chip-Holds;
  named =
      λ l low m. let (e, u) = only_entry 3 1280 l m in ap (update (λ _. invalid) 1280 3) u ∙ sym e;
  backed = λ a m.
      let (e, u) = only_entry 1280 3 a m in
      subst (λ (l : ℕ). (l < total_lpns) × (update (λ _. invalid) 3 1280 l ≡ a)) (sym u)
        (omega arith, sym e);
  outside = refl;
}

layer-IsAhead : IsAhead layer
layer-IsAhead = (omega arith, λ q le lt. chip-ahead q le)

ftl_read_lem_example :
    let (ret, out, s') = ftl_read layer 3 (some []) [] in
    (layer.l2p_table 3 ≢ invalid → (ret ≡ ret_ok) × (out ≡ some (data_of 3)))
    × (layer.l2p_table 3 ≡ invalid → ret ≡ err_not_mapped)
    × Serves s' data_of
ftl_read_lem_example = ftl_read_lem layer data_of 3 [] [] refl (omega arith) layer-Serves

ftl_trim_lem_example :
    let (ret, s') = ftl_trim layer 3 2 in
    (ret ≡ ret_ok)
    × Serves s' data_of
    × ((l : ℕ) → l < total_lpns → Trimmed 3 2 layer.l2p_table s'.l2p_table l)
ftl_trim_lem_example =
    ftl_trim_lem layer data_of 3 2 refl (λ e. omega arith) (omega arith) (omega arith) layer-Serves

greedy_choice : gc_select_greedy layer ≡ some 5
unfolding gc_select_greedy scan_least chip chip_one page_write
greedy_choice = refl

gc_select_greedy_least_example :
    (5 < user_blocks)
    × (used_block chip 5 ≡ true)
    × ((j : ℕ)
        → j < user_blocks
        → used_block chip j ≡ true
        → nand_get_block_valid_page_count chip 5 ≤ nand_get_block_valid_page_count chip j)
gc_select_greedy_least_example = gc_select_greedy_least layer greedy_choice

-- The collection succeeds: page 3 goes to the next pages of the block, one after the other, and last
-- to a free block, and block 5 is erased.
collected : ((gc_do_recycle wholes layer []).0 ≡ ret_ok)
unfolding gc_do_recycle gc_select_victim_block gc_select_greedy select_by scan_least chip chip_one
    page_write page_read ftl_find_next_free_block scan_free nand_block_erase
    nand_get_erase_threshold
collected = refl

gc_do_recycle-IsEmptied_example :
    (v : ℕ) × (gc_select_victim_block wholes layer ≡ some v)
    × IsEmptied (gc_do_recycle wholes layer []).1 v
gc_do_recycle-IsEmptied_example = gc_do_recycle-IsEmptied wholes layer [] collected

pub layer-IsSound : IsSound data_of layer
layer-IsSound = record {
  serves = layer-Serves;
  tidy = record { counted = chip-IsCounted; ahead = layer-IsAhead };
}

gc_do_recycle-IsSound_example :
    IsSound data_of (gc_do_recycle wholes layer []).1
    × IsKept layer (gc_do_recycle wholes layer []).1
gc_do_recycle-IsSound_example = gc_do_recycle-IsSound wholes layer data_of [] layer-IsSound

counted_free : nand_get_free_block_count chip ≡ 119
unfolding nand_get_free_block_count count_free chip chip_one page_write
counted_free = refl

pub many_free : 5 < nand_get_free_block_count chip
many_free = omega (arith, counted_free)

ftl_write-IsAnswered_example :
    IsAnsweredIf data_of 7 (9 ∷ []) layer (ftl_write wholes 1 layer 7 (some (9 ∷ [])) [])
ftl_write-IsAnswered_example =
    ftl_write-IsAnswered wholes 1 layer data_of 7 (9 ∷ []) [] layer-IsSound (omega arith, refl)

-- Page 3 is written again, to the next page of block 5.
rewritten : (answer layer 3 (9 ∷ []) []).0 ≡ ret_ok
unfolding write_allocated wal_log_write wal_log write_data ftl_alloc_phy_page page_write chip
    chip_one
rewritten = refl

write_returns :
    ftl_write wholes 1 layer 3 (some (9 ∷ [])) [] ≡ some (ret_ok, (answer layer 3 (9 ∷ []) []).1)
write_returns =
    ftl_write-answer wholes 0 layer 3 (9 ∷ []) [] refl (omega arith) many_free
    ∙ ap (λ (r : RetCode). some (r, (answer layer 3 (9 ∷ []) []).1)) rewritten

ftl_read-ftl_write_example :
    let t = (answer layer 3 (9 ∷ []) []).1 in
    ReadsAs t 3 (9 ∷ [])
    × ((l : ℕ) → l < total_lpns → l ≢ 3 → layer.l2p_table l ≢ invalid → ReadsAs t l (data_of l))
ftl_read-ftl_write_example =
    ftl_read-ftl_write wholes 1 layer (answer layer 3 (9 ∷ []) []).1 data_of 3 (9 ∷ []) [] refl
      (omega arith) layer-IsSound (omega arith, refl) write_returns
