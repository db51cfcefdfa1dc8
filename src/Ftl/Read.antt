-- ===== src/Ftl/Read.antt =====
-- modules/ftl/ftl.c: `ftl_read`, and the access count of a logical block that it keeps.
use ftl_firmware.Common.{
  ℕ, ◌/◌, ◌==◌, Option, none, some, List, not, ◌||◌, ◌&&◌, if◌then◌else◌, leb, update, inc32,
  RetCode, err_param, err_bad_block, err_not_mapped, is_ok, is_bad_block,
}
use ftl_firmware.Nand.{page_read}
use ftl_firmware.Ftl.State.{Ftl, invalid, total_lpns, ppn_to_block, ppn_to_page, is_hybrid}
use ftl_firmware.Ftl.Replace.{ftl_replace_bad_block}

-- `lpn_to_logical_block`: 64 pages to a logical block.
abbrev pub lpn_to_logical_block : ℕ → ℕ
lpn_to_logical_block lpn = lpn / 64

-- 22937 / 64 logical blocks have an entry.
unfoldable pub hybrid_update_access_count : Ftl → ℕ → Ftl
hybrid_update_access_count s lpn =
    let b = lpn_to_logical_block lpn in
    let entry = s.block_map b in
    if leb (total_lpns / 64) b then s else if not entry.is_valid then s else record s {
      block_map = update s.block_map b (record entry { access_count = inc32 entry.access_count });
    }

-- What `ftl_read` does with the answer of the device for a page of `block`.
unfoldable pub read_done : Ftl → ℕ → ℕ → RetCode → List ℕ → List ℕ → RetCode × List ℕ × Ftl
unfolding hybrid_update_access_count ftl_replace_bad_block
read_done s lpn block ret buf page_buf =
    if is_bad_block ret then (err_bad_block, buf, (ftl_replace_bad_block s block page_buf).1) else (
      ret,
      buf,
      if is_ok ret && is_hybrid s.map_mode then hybrid_update_access_count s lpn else s,
    )

-- `ftl_read` with a buffer.
unfoldable pub read_into : Ftl → ℕ → List ℕ → List ℕ → RetCode × List ℕ × Ftl
unfolding read_done
read_into s lpn buf page_buf =
    let ppn = s.l2p_table lpn in
    if not s.is_initialized || leb total_lpns lpn
    then (err_param, buf, s)
    else if ppn == invalid
    then (err_not_mapped, buf, s)
    else let (ret, buf', n) = page_read s.nand (ppn_to_block ppn) (ppn_to_page ppn) buf in
      read_done (record s { nand = n }) lpn (ppn_to_block ppn) ret buf' page_buf

unfoldable pub ftl_read : Ftl → ℕ → Option (List ℕ) → List ℕ → RetCode × Option (List ℕ) × Ftl
unfolding read_into
ftl_read s lpn none page_buf = (err_param, none, s)
ftl_read s lpn (some buf) page_buf =
    let (ret, buf', s') = read_into s lpn buf page_buf in (ret, some buf', s')
