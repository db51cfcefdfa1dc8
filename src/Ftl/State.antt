-- ===== src/Ftl/State.antt =====
-- modules/ftl/ftl.h and ftl.c: the translation layer's state, the addresses of pages, the write
-- pointer and the write-ahead log. The device of `Nand` is a field of the state.
pub mod Alloc
use ftl_firmware.Common.{
  ℕ, zero, suc, ◌+◌, ◌-◌, ◌*◌, ◌/◌, ◌%◌, ◌^◌, Bool, true, false, Option, none, some, List, [], ◌∷◌,
  ◌++◌, not, ◌||◌, ltb, ◌==◌, if◌then◌else◌, update, inc32, RetCode, ret_ok, err_param,
  err_internal,
}
use ftl_firmware.Nand.{
  Nand, BlockState, free, is_free, pages_per_block, user_blocks, nand_block_erase,
  nand_get_block_state,
}

-- `FTL_TOTAL_LPNS`: seven tenths of all pages.
abbrev pub total_lpns : ℕ
total_lpns = 22937

abbrev pub total_ppns : ℕ
total_ppns = 32768

-- `FTL_INVALID_PPN`, `FTL_INVALID_LPN` and `FTL_INVALID_BLOCK`
abbrev pub invalid : ℕ
invalid = 0xffffffff

pub data GcAlgo : Type 0 where
  greedy cost_benefit cat windowed d_choices fra : GcAlgo

pub data MapMode : Type 0 where
  page_mode hybrid_mode : MapMode

abbrev pub is_hybrid : MapMode → Bool
is_hybrid page_mode = false
is_hybrid hybrid_mode = true

pub record BlockMapEntry : Type 0 where
  pub physical_block : ℕ
  pub is_valid : Bool
  pub is_hot : Bool
  pub access_count : ℕ

pub data WalOp : Type 0 where
  wal_write wal_erase wal_trim : WalOp

-- `wal_entry_t` as it is appended; magic and checksum are functions of the rest.
pub record WalEntry : Type 0 where
  pub op : WalOp
  pub lpn : ℕ
  pub old_ppn : ℕ
  pub new_ppn : ℕ
  pub sequence : ℕ

-- `g_ftl_dev`. An open log file is the list of its entries. `draws` and `log_accepts` are what the
-- C library will answer: the coming values of `rand()`, one for each erasure, and whether each
-- coming `fwrite` to the log succeeds.
pub record Ftl : Type 0 where
  pub nand : Nand
  pub l2p_table : ℕ → ℕ
  pub reverse_map : ℕ → ℕ
  pub cur_write_block : ℕ
  pub cur_write_page : ℕ
  pub host_write_pages : ℕ
  pub nand_write_pages : ℕ
  pub gc_count : ℕ
  pub gc_moved_pages : ℕ
  pub wear_leveling_count : ℕ
  pub static_wear_count : ℕ
  pub static_wear_moved_pages : ℕ
  pub trim_count : ℕ
  pub trim_pages : ℕ
  pub bad_block_replace_count : ℕ
  pub bad_block_moved_pages : ℕ
  pub write_since_last_check : ℕ
  pub gc_algo : GcAlgo
  pub map_mode : MapMode
  pub wal_file : Option (List WalEntry)
  pub wal_sequence : ℕ
  pub wal_entry_count : ℕ
  pub wal_enabled : Bool
  pub block_map : ℕ → BlockMapEntry
  pub hot_cold_check_count : ℕ
  pub hot_cold_migration_count : ℕ
  pub is_initialized : Bool
  pub draws : ℕ → ℕ
  pub log_accepts : ℕ → Bool

abbrev pub ppn_to_block : ℕ → ℕ
ppn_to_block ppn = ppn / pages_per_block

abbrev pub ppn_to_page : ℕ → ℕ
ppn_to_page ppn = ppn % pages_per_block

abbrev pub block_page_to_ppn : ℕ → ℕ → ℕ
block_page_to_ppn block page = (block * pages_per_block + page) % 2 ^ 32

-- The first block from `i` on, among `left`, whose state reads as free.
unfoldable pub scan_free : Nand → ℕ → ℕ → Option ℕ
scan_free n zero i = none
scan_free n (suc left) i =
    let later = scan_free n left (i + 1) in
    if is_free (nand_get_block_state n i) then some i else later

-- From `start_block` to the end of the user area, then from block 0 up to `start_block`.
unfoldable pub ftl_find_next_free_block : Ftl → ℕ → Option ℕ
ftl_find_next_free_block s start_block =
    elim (scan_free s.nand (user_blocks - start_block) start_block) [
      | some i ↦ some i
      | none ↦ scan_free s.nand start_block 0
    ]

unfoldable pub ftl_alloc_phy_page : Ftl → Option ℕ × Ftl
ftl_alloc_phy_page s =
    if ltb s.cur_write_page pages_per_block
    then (
      some (block_page_to_ppn s.cur_write_block s.cur_write_page),
      record s { cur_write_page = inc32 s.cur_write_page },
    )
    else elim (ftl_find_next_free_block s (inc32 s.cur_write_block)) [
      | none ↦ (none, s)
      | some next ↦
          (some (block_page_to_ppn next 0), record s { cur_write_block = next; cur_write_page = 1 })
    ]

-- `nand_block_erase` on the layer's device, with the next value of `rand()`.
abbrev pub erase_block : Ftl → ℕ → RetCode × Ftl
erase_block s block =
    let (ret, n) = nand_block_erase s.nand block (s.draws 0) in
    (ret, record s { nand = n; draws = λ i. s.draws (i + 1) })

-- `ftl_wal_append` to the open log `entries`.
unfoldable pub ftl_wal_append : Ftl → List WalEntry → WalEntry → RetCode × Ftl
ftl_wal_append s entries e =
    let numbered = record e { sequence = s.wal_sequence } in
    let later = λ (i : ℕ). s.log_accepts (i + 1) in
    if s.log_accepts 0
    then (
      ret_ok,
      record s {
        wal_file = some (entries ++ numbered ∷ []);
        wal_sequence = inc32 s.wal_sequence;
        wal_entry_count = inc32 s.wal_entry_count;
        log_accepts = later;
      },
    )
    else (err_internal, record s { wal_sequence = inc32 s.wal_sequence; log_accepts = later })

-- Nothing is logged if the log is off or not open.
unfoldable pub wal_log : Ftl → WalEntry → RetCode × Ftl
unfolding ftl_wal_append
wal_log s e =
    if not s.wal_enabled
    then (ret_ok, s)
    else elim s.wal_file [ none ↦ (ret_ok, s) | some entries ↦ ftl_wal_append s entries e ]

unfoldable pub wal_log_write : Ftl → ℕ → ℕ → ℕ → RetCode × Ftl
unfolding wal_log
wal_log_write s lpn old_ppn new_ppn =
    wal_log s
      (record { op = wal_write; lpn = lpn; old_ppn = old_ppn; new_ppn = new_ppn; sequence = 0 })

unfoldable pub wal_log_trim : Ftl → ℕ → RetCode × Ftl
unfolding wal_log
wal_log_trim s lpn = wal_log s (record {
  op = wal_trim;
  lpn = lpn;
  old_ppn = s.l2p_table lpn;
  new_ppn = invalid;
  sequence = 0;
})
