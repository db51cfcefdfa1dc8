-- ===== src/Nand/Tests.antt =====
-- modules/nand/nand.c at a concrete chip: block 5 has two pages written.
use ftl_firmware.Common.{
  ℕ, ◌+◌, ◌*◌, ◌≤◌, ◌≡◌, ◌≢◌, refl, [], ◌∷◌, true, arith, ◌⊎◌, inr, ret_ok, err_overwrite, List,
}
use ftl_firmware.Nand.Retry.{
  condemned, condemned_read, read_once, nand_page_write_with_retry, nand_page_read_with_retry,
  with_retry_once,
}
use ftl_firmware.Nand.{nand_page_write}
use ftl_firmware.Common.{some}
use ftl_firmware.Nand.{
  Nand, PhyBlock, slc, free, wear, page_read, page_write, nand_mark_page_invalid,
  nand_mark_cold_block, page_size, oob_size, pages_per_block, total_blocks,
}
use ftl_firmware.Nand.Layout.{nand_calc_oob_offset, nand_calc_page_offset, pages_apart}
use ftl_firmware.Nand.Pages.{
  Holds, Holds-read, page_write-Holds, Holds-page_write, page_write_lem, Holds-mark_page_invalid,
}
use ftl_firmware.Nand.Invariant.{
  IsCounted, writes, invalidates, erases, run, step, valid_pages, run-IsCounted,
  mark_cold_block-frees,
}

-- A block as it is before its first use.
abbrev pub new_block : PhyBlock
new_block = record {
  state = free;
  erase_count = 0;
  valid_page_cnt = 0;
  read_count = 0;
  need_reclaim = 0;
  bad_type = wear;
  page_valid = λ _. 0;
}

abbrev pub new_chip : Nand
new_chip = record {
  blocks = λ _. new_block;
  media = λ _ _. [];
  oob = λ _ _. record { magic = 0; crc32 = 0; ecc = 0; bad_block_mark = 0xff };
  is_initialized = true;
  total_read_pages = 0;
  total_write_pages = 0;
  reserved_count = 8;
  ecc_counters = record { corrected_count = 0; uncorrectable_count = 0 };
  nand_type = slc;
  read_energy = 0;
  write_energy = 0;
  erase_energy = 0;
}

-- The chip with one page, and with two.
unfoldable pub chip_one : Nand
unfolding page_write
chip_one = (page_write new_chip 5 0 (1 ∷ 2 ∷ [])).1

unfoldable pub chip : Nand
unfolding chip_one page_write
chip = (page_write chip_one 5 1 (3 ∷ [])).1

new_block-IsCounted : IsCounted new_block
unfolding valid_pages
new_block-IsCounted = record {
  counted = refl;
  free_empty = λ _. refl;
  used_some = λ e. absurd (cc);
}

pub chip-IsCounted : (c : ℕ) → IsCounted (chip.blocks c)
unfolding chip chip_one run step
chip-IsCounted =
    run-IsCounted new_chip (writes 5 0 (1 ∷ 2 ∷ []) ∷ writes 5 1 (3 ∷ []) ∷ [])
      (λ _. new_block-IsCounted)

chip_one-Holds : Holds chip_one 5 0 (1 ∷ 2 ∷ [])
unfolding chip_one
chip_one-Holds = page_write-Holds new_chip 5 0 (1 ∷ 2 ∷ []) refl

pub chip-Holds : Holds chip 5 0 (1 ∷ 2 ∷ [])
unfolding chip
chip-Holds = Holds-page_write 5 1 (3 ∷ []) chip_one-Holds

-- The pages of block 5 from 2 on are not valid.
pub chip-ahead : (q : ℕ) → 2 ≤ q → (chip.blocks 5).page_valid q ≢ 1
unfolding chip chip_one page_write
chip-ahead q le = ground arith

run-IsCounted_example :
    IsCounted ((run chip (invalidates 5 1 ∷ invalidates 5 0 ∷ erases 5 7 ∷ [])).blocks 5)
run-IsCounted_example =
    run-IsCounted chip (invalidates 5 1 ∷ invalidates 5 0 ∷ erases 5 7 ∷ []) chip-IsCounted 5

mark_cold_block-frees_example :
    let s' = (nand_mark_page_invalid (nand_mark_cold_block chip 5).1 5 0).1 in
    ((s'.blocks 5).state ≡ free) × ((s'.blocks 5).page_valid 1 ≡ 1)
unfolding chip chip_one page_write
mark_cold_block-frees_example =
    mark_cold_block-frees chip 5 0 1 refl (chip-IsCounted 5) refl (omega arith) (omega arith)
      (λ e. omega arith) refl refl

Holds-read_example : ((page_read chip 5 0 []).0 ≡ ret_ok) × ((page_read chip 5 0 []).1 ≡ 1 ∷ 2 ∷ [])
Holds-read_example = Holds-read [] chip-Holds

page_write_lem_example :
    ((c q : ℕ) (e : List ℕ) → Holds (page_write chip c q e).1 5 0 (1 ∷ 2 ∷ []))
    × ((e : List ℕ) → page_write chip 5 0 e ≡ (err_overwrite, chip))
page_write_lem_example = page_write_lem chip-Holds

Holds-mark_page_invalid_example : Holds (nand_mark_page_invalid chip 5 1).1 5 0 (1 ∷ 2 ∷ [])
Holds-mark_page_invalid_example = Holds-mark_page_invalid 5 1 (inr (λ e. omega arith)) chip-Holds

pages_apart_example :
    (nand_calc_oob_offset 3 255 + oob_size
      ≤ total_blocks * pages_per_block * (page_size + oob_size))
    × ((◌≢◌ {A = ℕ} 3 4) ⊎ (◌≢◌ {A = ℕ} 255 0)
        → (nand_calc_oob_offset 3 255 + oob_size ≤ nand_calc_page_offset 4 0)
          ⊎ (nand_calc_oob_offset 4 0 + oob_size ≤ nand_calc_page_offset 3 255))
pages_apart_example = pages_apart 3 255 4 0 (omega arith) (omega arith) (omega arith) (omega arith)

with_retry_once_example :
    (nand_page_write_with_retry chip 5 0 (some (9 ∷ []))
      ≡ condemned 5 (nand_page_write chip 5 0 (some (9 ∷ []))))
    × (nand_page_read_with_retry chip 5 0 (some (9 ∷ []))
        ≡ condemned_read 5 (read_once 5 0 (some (9 ∷ []), chip)))
with_retry_once_example = with_retry_once chip 5 0 (some (9 ∷ []))
