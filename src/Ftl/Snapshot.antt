-- ===== src/Ftl/Snapshot.antt =====
-- modules/ftl/ftl.c: snapshots of the mapping table. A file is what reading it gives.
use ftl_firmware.Common.{
  word_bytes, ℕ, zero, suc, ◌+◌, ◌==◌, Bool, true, Option, none, some, List, [], ◌∷◌, ◌++◌, not,
  ◌&&◌, ◌||◌, ltb, if◌then◌else◌, update, add32, RetCode, ret_ok, err_param, err_internal,
  err_checksum,
}
use ftl_firmware.Ftl.State.{Ftl, invalid, total_lpns, total_ppns}

-- `FTL_META_MAGIC` and `FTL_META_VERSION`
abbrev pub meta_magic : ℕ
meta_magic = 0x46544C31

abbrev pub meta_version : ℕ
meta_version = 0x00010000

unfoldable pub ftl_calc_checksum : List ℕ → ℕ
ftl_calc_checksum [] = 0
ftl_calc_checksum (b ∷ bs) = add32 (ftl_calc_checksum bs) b

-- `ftl_meta_header_t`
pub record MetaHeader : Type 0 where
  pub magic : ℕ
  pub version : ℕ
  pub checksum : ℕ
  pub host_write_pages : ℕ
  pub nand_write_pages : ℕ
  pub gc_count : ℕ
  pub cur_write_block : ℕ
  pub cur_write_page : ℕ

abbrev pub header_bytes : MetaHeader → List ℕ
header_bytes h =
    word_bytes h.magic
    ++ word_bytes h.version
    ++ word_bytes h.checksum
    ++ word_bytes h.host_write_pages
    ++ word_bytes h.nand_write_pages
    ++ word_bytes h.gc_count
    ++ word_bytes h.cur_write_block
    ++ word_bytes h.cur_write_page

-- A snapshot file: its header, if it is as long as one, and the first `table_len` entries of a table.
pub record SnapshotFile : Type 0 where
  pub header : Option MetaHeader
  pub table : ℕ → ℕ
  pub table_len : ℕ

abbrev pub blank_header : Ftl → MetaHeader
blank_header s = record {
  magic = meta_magic;
  version = meta_version;
  checksum = 0;
  host_write_pages = s.host_write_pages;
  nand_write_pages = s.nand_write_pages;
  gc_count = s.gc_count;
  cur_write_block = s.cur_write_block;
  cur_write_page = s.cur_write_page;
}

-- The file that a save leaves. `header_fits` and `table_fits` are what the disk takes, which the code
-- does not look at.
unfoldable pub saved_file : Ftl → Bool → ℕ → SnapshotFile
unfolding ftl_calc_checksum
saved_file s header_fits table_fits =
    let blank = blank_header s in
    record {
      header =
          if header_fits
          then some (record blank { checksum = ftl_calc_checksum (header_bytes blank) })
          else none;
      table = s.l2p_table;
      table_len = table_fits;
    }

-- `path` is whether a path is given, `opened` whether `fopen` succeeds.
unfoldable pub ftl_save_snapshot : Ftl → Bool → Bool → Bool → ℕ → RetCode × Option SnapshotFile
unfolding saved_file
ftl_save_snapshot s path opened header_fits table_fits =
    if not path || not s.is_initialized
    then (err_param, none)
    else if not opened
    then (err_internal, none)
    else (ret_ok, some (saved_file s header_fits table_fits))

-- The entries that `fread` finds replace those of the table.
abbrev pub read_table : (ℕ → ℕ) → SnapshotFile → ℕ → ℕ
read_table l2p file lpn = if ltb lpn file.table_len then file.table lpn else l2p lpn

-- The loop that names the page of each logical page from `lpn` on, `left` of them.
unfoldable pub rebuild_from : ℕ → ℕ → (ℕ → ℕ) → (ℕ → ℕ) → ℕ → ℕ
rebuild_from zero lpn l2p rev = rev
rebuild_from (suc left) lpn l2p rev =
    let ppn = l2p lpn in
    rebuild_from left (lpn + 1) l2p
      (if not (ppn == invalid) && ltb ppn total_ppns then update rev ppn lpn else rev)

-- The layer with what the file gives.
unfoldable pub restored : Ftl → SnapshotFile → MetaHeader → Ftl
unfolding rebuild_from
restored s file h =
    let l2p = read_table s.l2p_table file in
    record s {
      l2p_table = l2p;
      host_write_pages = h.host_write_pages;
      nand_write_pages = h.nand_write_pages;
      gc_count = h.gc_count;
      cur_write_block = h.cur_write_block;
      cur_write_page = h.cur_write_page;
      reverse_map = rebuild_from total_lpns 0 l2p (λ _. invalid);
      is_initialized = true;
    }

-- What a file with header `h` does.
unfoldable pub load_checked : Ftl → SnapshotFile → MetaHeader → RetCode × Ftl
unfolding restored ftl_calc_checksum
load_checked s file h =
    if not (h.magic == meta_magic)
    then (err_checksum, s)
    else if not (h.checksum == ftl_calc_checksum (header_bytes (record h { checksum = 0 })))
    then (err_checksum, s)
    else if ltb file.table_len total_lpns
    then (err_internal, record s { l2p_table = read_table s.l2p_table file })
    else (ret_ok, restored s file h)

unfoldable pub load_opened : Ftl → Option SnapshotFile → RetCode × Ftl
unfolding load_checked
load_opened s none = (err_internal, s)
load_opened s (some file) = elim file.header [
  | none ↦ (err_internal, s)
  | some h ↦ load_checked s file h
]

-- `path` is whether a path is given; no file is a failure of `fopen`.
unfoldable pub ftl_load_snapshot : Ftl → Bool → Option SnapshotFile → RetCode × Ftl
unfolding load_opened
ftl_load_snapshot s path file = if not path then (err_param, s) else load_opened s file
