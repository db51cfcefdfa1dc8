-- ===== src/Ftl/Trim.antt =====
-- modules/ftl/ftl.c: `ftl_trim`, and the state's accessors.
use ftl_firmware.Common.{
  ℕ, zero, suc, ◌+◌, ◌-◌, ◌==◌, Bool, true, false, not, ltb, leb, if◌then◌else◌, update, inc32,
  add32, RetCode, ret_ok, err_param, err_not_init,
}
use ftl_firmware.Nand.{nand_mark_page_invalid}
use ftl_firmware.Ftl.State.{Ftl, invalid, total_lpns, ppn_to_block, ppn_to_page, wal_log_trim}

-- One round of the loop: is the page trimmed, and the state after it.
unfoldable pub trim_page : Ftl → ℕ → Bool × Ftl
trim_page s lpn =
    let ppn = s.l2p_table lpn in
    if ppn == invalid
    then (false, s)
    else let s1 = (wal_log_trim s lpn).1 in
      (
        true,
        record s1 {
          nand = (nand_mark_page_invalid s1.nand (ppn_to_block ppn) (ppn_to_page ppn)).1;
          l2p_table = update s1.l2p_table lpn invalid;
          reverse_map = update s1.reverse_map ppn invalid;
        },
      )

-- The loop over `left` pages from `lpn` on, with the number of pages trimmed so far.
unfoldable pub trim_pages_from : ℕ → ℕ → ℕ → Ftl → ℕ × Ftl
unfolding trim_page
trim_pages_from zero lpn trimmed s = (trimmed, s)
trim_pages_from (suc left) lpn trimmed s =
    let (hit, s') = trim_page s lpn in
    trim_pages_from left (lpn + 1) (if hit then inc32 trimmed else trimmed) s'

-- The pages of the request: what is past the end is cut off. The sum is a 32-bit one.
unfoldable pub clamp_count : ℕ → ℕ → ℕ
clamp_count lpn count = if ltb total_lpns (add32 lpn count) then total_lpns - lpn else count

unfoldable pub ftl_trim : Ftl → ℕ → ℕ → RetCode × Ftl
unfolding trim_pages_from clamp_count
ftl_trim s lpn count =
    if not s.is_initialized
    then (err_not_init, s)
    else if count == 0
    then (err_param, s)
    else if leb total_lpns lpn
    then (err_param, s)
    else let (trimmed, s') = trim_pages_from (clamp_count lpn count) lpn 0 s in
      (
        ret_ok,
        record s' { trim_count = inc32 s'.trim_count; trim_pages = add32 s'.trim_pages trimmed },
      )
