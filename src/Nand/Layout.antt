-- ===== src/Nand/Layout.antt =====
-- modules/nand/nand.c: where a page and its spare area lie in the mapped file.
use ftl_firmware.Common.{ℕ, ◌+◌, ◌*◌, ◌%◌, ◌^◌, ◌≤◌, ◌<◌, ◌≢◌, ◌⊎◌, arith}
use ftl_firmware.Nand.{page_size, oob_size, pages_per_block, total_blocks}

-- The page's number is computed in 32 bits, the offset in a `long`.
pub nand_calc_page_offset : ℕ → ℕ → ℕ
nand_calc_page_offset block page =
    (block * pages_per_block + page) % 2 ^ 32 * (page_size + oob_size)

pub nand_calc_oob_offset : ℕ → ℕ → ℕ
unfolding nand_calc_page_offset
nand_calc_oob_offset block page = nand_calc_page_offset block page + page_size

-- The file that `nand_init` maps is large enough for every page with its spare area, and two
-- different pages, spare areas included, do not overlap.
pub pages_apart :
    (b p c q : ℕ)
    → b < total_blocks
    → p < pages_per_block
    → c < total_blocks
    → q < pages_per_block
    → (nand_calc_oob_offset b p + oob_size
        ≤ total_blocks * pages_per_block * (page_size + oob_size))
      × ((b ≢ c) ⊎ (p ≢ q)
          → (nand_calc_oob_offset b p + oob_size ≤ nand_calc_page_offset c q)
            ⊎ (nand_calc_oob_offset c q + oob_size ≤ nand_calc_page_offset b p))
unfolding nand_calc_oob_offset nand_calc_page_offset
pages_apart b p c q hb hp hc hq = (omega arith, λ apart. ground arith)
