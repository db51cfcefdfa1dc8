-- ===== src/Ftl/Replay.antt =====
-- modules/ftl/ftl.c: the replay of the write-ahead log.
use ftl_firmware.Common.{
  word_bytes, ℕ, ◌==◌, Bool, Option, none, some, List, [], ◌∷◌, ◌++◌, not, ◌&&◌, ◌||◌, ltb,
  if◌then◌else◌, update, RetCode, ret_ok, err_param,
}
use ftl_firmware.Ftl.State.{
  Ftl, WalOp, WalEntry, wal_write, wal_erase, wal_trim, invalid, total_lpns,
}
use ftl_firmware.Ftl.Snapshot.{ftl_calc_checksum}

-- `FTL_WAL_MAGIC`
abbrev pub wal_magic : ℕ
wal_magic = 0x57414C31

-- `wal_entry_t` as it lies in the file; the operation is any number.
pub record RawEntry : Type 0 where
  pub magic : ℕ
  pub op : ℕ
  pub lpn : ℕ
  pub old_ppn : ℕ
  pub new_ppn : ℕ
  pub sequence : ℕ
  pub checksum : ℕ

unfoldable pub wal_calculate_checksum : RawEntry → ℕ
unfolding ftl_calc_checksum
wal_calculate_checksum e = ftl_calc_checksum (
    word_bytes e.magic
    ++ word_bytes e.op
    ++ word_bytes e.lpn
    ++ word_bytes e.old_ppn
    ++ word_bytes e.new_ppn
    ++ word_bytes e.sequence)

-- `WAL_OP_WRITE`, `WAL_OP_ERASE` and `WAL_OP_TRIM`
abbrev pub op_number : WalOp → ℕ
op_number wal_write = 0
op_number wal_erase = 1
op_number wal_trim = 2

abbrev unchecked : WalEntry → RawEntry
unchecked e = record {
  magic = wal_magic;
  op = op_number e.op;
  lpn = e.lpn;
  old_ppn = e.old_ppn;
  new_ppn = e.new_ppn;
  sequence = e.sequence;
  checksum = 0;
}

-- The entry that `ftl_wal_append` writes.
unfoldable pub raw_of : WalEntry → RawEntry
unfolding wal_calculate_checksum
raw_of e = record (unchecked e) { checksum = wal_calculate_checksum (unchecked e) }

unfoldable pub replay_write : Ftl → RawEntry → Ftl
replay_write s e =
    let rev =
      if e.old_ppn == invalid then s.reverse_map else update s.reverse_map e.old_ppn invalid in
    if ltb e.lpn total_lpns && not (e.new_ppn == invalid)
    then record s {
      l2p_table = update s.l2p_table e.lpn e.new_ppn;
      reverse_map = update rev e.new_ppn e.lpn;
    }
    else s

unfoldable pub replay_trim : Ftl → RawEntry → Ftl
replay_trim s e =
    let ppn = s.l2p_table e.lpn in
    if ltb e.lpn total_lpns && not (ppn == invalid)
    then record s {
      reverse_map = update s.reverse_map ppn invalid;
      l2p_table = update s.l2p_table e.lpn invalid;
    }
    else s

-- One round of the loop: an entry that is damaged is passed over.
unfoldable pub replay_entry : Ftl → RawEntry → Ftl
unfolding replay_write replay_trim wal_calculate_checksum
replay_entry s e =
    if not (e.magic == wal_magic) || not (wal_calculate_checksum e == e.checksum)
    then s
    else if e.op == 0
    then replay_write s e
    else if e.op == 2
    then replay_trim s e
    else s

unfoldable pub replay_entries : Ftl → List RawEntry → Ftl
unfolding replay_entry
replay_entries s [] = s
replay_entries s (e ∷ es) = replay_entries (replay_entry s e) es

-- No file, or one that does not open, needs no replay.
unfoldable pub ftl_wal_replay : Ftl → Bool → Option (List RawEntry) → RetCode × Ftl
unfolding replay_entries
ftl_wal_replay s path none = (if not path then err_param else ret_ok, s)
ftl_wal_replay s path (some es) = if not path then (err_param, s) else (ret_ok, replay_entries s es)

unfoldable pub ftl_wal_clear : Ftl → RetCode × Ftl
ftl_wal_clear s = elim s.wal_file [
  | none ↦ (ret_ok, s)
  | some es ↦ (ret_ok, record s { wal_file = none; wal_sequence = 0; wal_entry_count = 0 })
]

abbrev pub ftl_wal_enable : Ftl → Bool → Ftl
ftl_wal_enable s enable = record s { wal_enabled = enable }
