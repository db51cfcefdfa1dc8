-- ===== src/Ftl/Mapping/Entries.antt =====
-- modules/ftl/ftl.c: the replay of one entry of the log.
use ftl_firmware.Common.{
  ℕ, ◌<◌, ◌==◌, ==_ne, ◌≡◌, ◌≢◌, refl, ap, ◌∙◌, Bool, false, not, ◌||◌, lt→ltb, if◌then◌else◌,
  if_false, ==_refl, update,
}
use ftl_firmware.Ftl.State.{Ftl, WalEntry, wal_write, wal_trim, invalid, total_lpns}
use ftl_firmware.Ftl.Replay.{
  wal_magic, RawEntry, raw_of, wal_calculate_checksum, replay_write, replay_trim, replay_entry,
}

-- The two tables.
abbrev pub Tables : Type 0
Tables = (ℕ → ℕ) × (ℕ → ℕ)

abbrev pub tables : Ftl → Tables
tables s = (s.l2p_table, s.reverse_map)

-- The tables after the entry of a write, and of a trim.
abbrev pub write_entry : ℕ → ℕ → ℕ → Tables → Tables
write_entry lpn old ppn (l2p, rev) =
    (update l2p lpn ppn, update (if old == invalid then rev else update rev old invalid) ppn lpn)

abbrev pub trim_entry : ℕ → Tables → Tables
trim_entry lpn (l2p, rev) = (update l2p lpn invalid, update rev (l2p lpn) invalid)

-- An entry that passes both checks.
passes :
    (e : RawEntry)
    → e.magic ≡ wal_magic
    → wal_calculate_checksum e ≡ e.checksum
    → (not (e.magic == wal_magic) || not (wal_calculate_checksum e == e.checksum)) ≡ false
passes e m c =
    ap (λ (x : Bool). not x || not (wal_calculate_checksum e == e.checksum))
      (ap (λ (n : ℕ). n == wal_magic) m)
    ∙ ap not (ap (λ (n : ℕ). n == e.checksum) c ∙ ==_refl e.checksum)

abbrev by_op : Ftl → RawEntry → ℕ → Ftl
by_op s e op = if op == 0 then replay_write s e else if op == 2 then replay_trim s e else s

replay_entry-write :
    (s : Ftl) (e : RawEntry)
    → e.magic ≡ wal_magic
    → wal_calculate_checksum e ≡ e.checksum
    → e.op ≡ 0
    → replay_entry s e ≡ replay_write s e
unfolding replay_entry
replay_entry-write s e m c o = if_false _ s (by_op s e e.op) (passes e m c) ∙ ap (by_op s e) o

replay_entry-trim :
    (s : Ftl) (e : RawEntry)
    → e.magic ≡ wal_magic
    → wal_calculate_checksum e ≡ e.checksum
    → e.op ≡ 2
    → replay_entry s e ≡ replay_trim s e
unfolding replay_entry
replay_entry-trim s e m c o = if_false _ s (by_op s e e.op) (passes e m c) ∙ ap (by_op s e) o

-- The checksum of an entry does not read the field it is stored in.
raw_of-checksum : (e : WalEntry) → wal_calculate_checksum (raw_of e) ≡ (raw_of e).checksum
unfolding raw_of wal_calculate_checksum
raw_of-checksum e = refl

raw_of-magic : (e : WalEntry) → (raw_of e).magic ≡ wal_magic
unfolding raw_of
raw_of-magic e = refl

pub replay_write-tables :
    (s : Ftl) (lpn old ppn seq : ℕ)
    → lpn < total_lpns
    → ppn ≢ invalid
    → let e : WalEntry = record {
      op = wal_write;
      lpn = lpn;
      old_ppn = old;
      new_ppn = ppn;
      sequence = seq;
    } in
      tables (replay_entry s (raw_of e)) ≡ write_entry lpn old ppn (tables s)
unfolding replay_write raw_of
replay_write-tables s lpn old ppn seq low real =
    let e : WalEntry = record {
      op = wal_write;
      lpn = lpn;
      old_ppn = old;
      new_ppn = ppn;
      sequence = seq;
    } in
    ap tables (replay_entry-write s (raw_of e) (raw_of-magic e) (raw_of-checksum e) refl)
    ∙ rw (lt→ltb lpn total_lpns low, ==_ne ppn invalid real) refl

pub replay_trim-tables :
    (s : Ftl) (lpn old seq : ℕ)
    → lpn < total_lpns
    → s.l2p_table lpn ≢ invalid
    → let e : WalEntry = record {
      op = wal_trim;
      lpn = lpn;
      old_ppn = old;
      new_ppn = invalid;
      sequence = seq;
    } in
      tables (replay_entry s (raw_of e)) ≡ trim_entry lpn (tables s)
unfolding replay_trim raw_of
replay_trim-tables s lpn old seq low mapped =
    let e : WalEntry = record {
      op = wal_trim;
      lpn = lpn;
      old_ppn = old;
      new_ppn = invalid;
      sequence = seq;
    } in
    ap tables (replay_entry-trim s (raw_of e) (raw_of-magic e) (raw_of-checksum e) refl)
    ∙ rw (lt→ltb lpn total_lpns low, ==_ne (s.l2p_table lpn) invalid mapped) refl
