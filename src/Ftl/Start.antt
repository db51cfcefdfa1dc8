-- ===== src/Ftl/Start.antt =====
-- modules/ftl/ftl.c: start and end of the layer. A table that a loop clears is a constant function.
use ftl_firmware.Common.{ℕ, true, false, none, some, RetCode, ret_ok, err_no_space}
use ftl_firmware.Ftl.State.{Ftl, greedy, page_mode, invalid, ftl_find_next_free_block}

-- What `ftl_init` sets once the first write block is found.
abbrev pub started : Ftl → ℕ → Ftl
started s first_block = record s {
  l2p_table = λ _. invalid;
  reverse_map = λ _. invalid;
  cur_write_block = first_block;
  cur_write_page = 0;
  host_write_pages = 0;
  nand_write_pages = 0;
  gc_count = 0;
  gc_moved_pages = 0;
  wear_leveling_count = 0;
  static_wear_count = 0;
  static_wear_moved_pages = 0;
  trim_count = 0;
  trim_pages = 0;
  bad_block_replace_count = 0;
  bad_block_moved_pages = 0;
  write_since_last_check = 0;
  hot_cold_check_count = 0;
  hot_cold_migration_count = 0;
  wal_file = none;
  wal_sequence = 0;
  wal_entry_count = 0;
  wal_enabled = true;
  block_map =
      λ _. record { physical_block = invalid; is_valid = false; is_hot = false; access_count = 0 };
  gc_algo = greedy;
  map_mode = page_mode;
  is_initialized = true;
}

-- Without a free block the tables are cleared all the same.
unfoldable pub ftl_init : Ftl → RetCode × Ftl
ftl_init s = elim (ftl_find_next_free_block s 0) [
  | none ↦ (err_no_space, record s { l2p_table = λ _. invalid; reverse_map = λ _. invalid })
  | some first_block ↦ (ret_ok, started s first_block)
]

abbrev pub ftl_deinit : Ftl → Ftl
ftl_deinit s = record s { is_initialized = false }
