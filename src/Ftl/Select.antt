-- ===== src/Ftl/Select.antt =====
-- modules/ftl/ftl.c: the choice of the block that garbage collection empties. `double` is the
-- interface `Floats`, of which nothing is assumed.
pub mod Choice
use ftl_firmware.Common.{
  ℕ, zero, suc, ◌+◌, ◌-◌, ◌*◌, ◌%◌, ◌^◌, Bool, true, false, Option, none, some, List, [], ◌∷◌, ltb,
  leb, ◌==◌, if◌then◌else◌, add32, sub32, inc32, length, entry,
}
use ftl_firmware.Nand.{
  Nand, is_used, user_blocks, pages_per_block, nand_get_block_state,
  nand_get_block_valid_page_count, nand_get_block_erase_count,
}
use ftl_firmware.Ftl.State.{Ftl, GcAlgo, greedy, cost_benefit, cat, windowed, d_choices, fra}

-- The operations of `double` that the scores use: a value of an integer, `/`, `*`, `>`, and -1.
pub record Floats : Type 1 where
  pub Double : Type 0
  pub of_ℕ : ℕ → Double
  pub over : Double → Double → Double
  pub times : Double → Double → Double
  pub above : Double → Double → Bool
  pub minus_one : Double

abbrev pub used_block : Nand → ℕ → Bool
used_block n i = is_used (nand_get_block_state n i)

-- Among `left` blocks from `i` on, the used one with the fewest valid pages below `least`.
unfoldable pub scan_least : Nand → ℕ → ℕ → ℕ → Option ℕ → Option ℕ
scan_least n zero i least victim = victim
scan_least n (suc left) i least victim =
    let v = nand_get_block_valid_page_count n i in
    let better = if used_block n i then ltb v least else false in
    scan_least n left (i + 1) (if better then v else least) (if better then some i else victim)

unfoldable pub gc_select_greedy : Ftl → Option ℕ
gc_select_greedy s = scan_least s.nand user_blocks 0 (pages_per_block + 1) none

unfoldable pub or_greedy : Ftl → Option ℕ → Option ℕ
unfolding gc_select_greedy
or_greedy s none = gc_select_greedy s
or_greedy s (some b) = some b

unfoldable pub gc_select_windowed : Ftl → Option ℕ
unfolding or_greedy
gc_select_windowed s =
    let start = if leb 32 s.cur_write_block then s.cur_write_block - 32 else 0 in
    or_greedy s (scan_least s.nand (s.cur_write_block + 1 - start) start (pages_per_block + 1) none)

unfoldable pub used_list : Nand → ℕ → ℕ → List ℕ
used_list n zero i = []
used_list n (suc left) i =
    let rest = used_list n left (i + 1) in if used_block n i then i ∷ rest else rest

-- Rounds `i` to 4 of the draw from the list of used blocks.
unfoldable pub scan_choices : Ftl → List ℕ → ℕ → ℕ → ℕ → Option ℕ → Option ℕ
scan_choices s blocks zero i least victim = victim
scan_choices s blocks (suc left) i least victim =
    let idx = add32 (s.gc_count * 7 % 2 ^ 32) (i * 13) % length blocks in
    let block = entry blocks idx in
    let v = nand_get_block_valid_page_count s.nand block in
    let better = ltb v least in
    scan_choices s blocks left (i + 1) (if better then v else least)
      (if better then some block else victim)

unfoldable pub gc_select_d_choices : Ftl → Option ℕ
unfolding scan_choices gc_select_greedy
gc_select_d_choices s =
    let blocks = used_list s.nand user_blocks 0 in
    if length blocks == 0
    then none
    else if ltb (length blocks) 5
    then gc_select_greedy s
    else scan_choices s blocks 5 0 (pages_per_block + 1) none

unfoldable pub scan_emptied : Nand → ℕ → ℕ → Option ℕ
scan_emptied n zero i = none
scan_emptied n (suc left) i =
    let later = scan_emptied n left (i + 1) in
    let emptied = if used_block n i then nand_get_block_valid_page_count n i == 0 else false in
    if emptied then some i else later

unfoldable pub gc_select_fra : Ftl → Option ℕ
unfolding or_greedy
gc_select_fra s = or_greedy s (scan_emptied s.nand user_blocks 0)

unfoldable pub max_used_erase : Nand → ℕ → ℕ → ℕ → ℕ
max_used_erase n zero i most = most
max_used_erase n (suc left) i most =
    let e = nand_get_block_erase_count n i in
    let more = if used_block n i then ltb most e else false in
    max_used_erase n left (i + 1) (if more then e else most)

module _ (fl : Floats) where
  open fl use {Double, of_ℕ, over, times, above, minus_one}

  -- Among `left` blocks from `i` on, the used one with the greatest score above `best`.
  unfoldable pub scan_score : Nand → (ℕ → Double) → ℕ → ℕ → Double → Option ℕ → Option ℕ
  scan_score n score zero i best victim = victim
  scan_score n score (suc left) i best victim =
      let better = if used_block n i then above (score i) best else false in
      scan_score n score left (i + 1) (if better then score i else best)
        (if better then some i else victim)

  unfoldable pub invalid_ratio : Nand → ℕ → Double
  invalid_ratio n i =
      over (of_ℕ (sub32 pages_per_block (nand_get_block_valid_page_count n i)))
        (of_ℕ pages_per_block)

  unfoldable pub benefit_score : Nand → ℕ → Double
  unfolding invalid_ratio
  benefit_score n i = over (invalid_ratio n i) (of_ℕ (inc32 (nand_get_block_erase_count n i)))

  unfoldable pub gc_select_cost_benefit : Ftl → Option ℕ
  unfolding scan_score benefit_score
  gc_select_cost_benefit s = scan_score s.nand (benefit_score s.nand) user_blocks 0 minus_one none

  unfoldable pub age_factor : Nand → ℕ → ℕ → Double
  age_factor n most i =
      if ltb 0 most
      then over (of_ℕ (add32 (sub32 most (nand_get_block_erase_count n i)) 100)) (of_ℕ most)
      else of_ℕ 1

  unfoldable pub cat_score : Nand → ℕ → ℕ → Double
  unfolding invalid_ratio age_factor
  cat_score n most i =
      over (times (invalid_ratio n i) (age_factor n most i))
        (of_ℕ (inc32 (nand_get_block_erase_count n i)))

  unfoldable pub gc_select_cat : Ftl → Option ℕ
  unfolding scan_score cat_score
  gc_select_cat s =
      scan_score s.nand (cat_score s.nand (max_used_erase s.nand user_blocks 0 0)) user_blocks 0
        minus_one none

  unfoldable pub select_by : GcAlgo → Ftl → Option ℕ
  select_by greedy s = gc_select_greedy s
  select_by cost_benefit s = gc_select_cost_benefit s
  select_by cat s = gc_select_cat s
  select_by windowed s = gc_select_windowed s
  select_by d_choices s = gc_select_d_choices s
  select_by fra s = gc_select_fra s

  unfoldable pub gc_select_victim_block : Ftl → Option ℕ
  unfolding select_by
  gc_select_victim_block s = select_by s.gc_algo s
