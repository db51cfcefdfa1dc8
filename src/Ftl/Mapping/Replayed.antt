-- ===== src/Ftl/Mapping/Replayed.antt =====
-- modules/ftl/ftl.c: the write-ahead log, and what its replay finds.
use ftl_firmware.Common.{
  ℕ, ◌+◌, ◌<◌, ◌≡◌, ◌≢◌, refl, sym, ap, ◌∙◌, subst, Bool, true, Option, some, List, [], ◌∷◌, ◌++◌,
  map, RetCode, ret_ok, inc32,
}
use ftl_firmware.Ftl.State.{
  Ftl, WalEntry, wal_write, wal_trim, invalid, total_lpns, ftl_wal_append, wal_log, wal_log_write,
  wal_log_trim,
}
use ftl_firmware.Ftl.Replay.{RawEntry, raw_of, replay_entry, replay_entries}
use ftl_firmware.Ftl.Mapping.Entries.{
  Tables, tables, write_entry, trim_entry, replay_write-tables, replay_trim-tables,
}

-- The tables and the log.
abbrev pub View : Type 0
View = (ℕ → ℕ) × (ℕ → ℕ) × Option (List WalEntry) × Bool × (ℕ → Bool)

abbrev pub view : Ftl → View
view s = (s.l2p_table, s.reverse_map, s.wal_file, s.wal_enabled, s.log_accepts)

-- The log is open and takes every entry, and its replay on `b` gives the tables.
abbrev pub Replays : Ftl → View → Type 0
Replays b (l2p, rev, file, enabled, accepts) =
    (log : List WalEntry) × (file ≡ some log)
    × (enabled ≡ true)
    × ((i : ℕ) → accepts i ≡ true)
    × (tables (replay_entries b (map raw_of log)) ≡ (l2p, rev))

abbrev pub IsReplayable : Ftl → Ftl → Type 0
IsReplayable b s = Replays b (view s)

replay_append :
    (b : Ftl) (es : List RawEntry) (e : RawEntry)
    → replay_entries b (es ++ e ∷ []) ≡ replay_entry (replay_entries b es) e
unfolding replay_entries
replay_append b [] e = refl
replay_append b (x ∷ es) e = replay_append (replay_entry b x) es e

map_snoc :
    (es : List WalEntry) (e : WalEntry) → map raw_of (es ++ e ∷ []) ≡ map raw_of es ++ raw_of e ∷ []
map_snoc [] e = refl
map_snoc (x ∷ es) e = ap (λ (l : List RawEntry). raw_of x ∷ l) (map_snoc es e)

-- What `wal_log` does to an open log that takes the entry.
abbrev appended : Ftl → List WalEntry → WalEntry → Ftl
appended s log e = record s {
  wal_file = some (log ++ record e { sequence = s.wal_sequence } ∷ []);
  wal_sequence = inc32 s.wal_sequence;
  wal_entry_count = inc32 s.wal_entry_count;
  log_accepts = λ (i : ℕ). s.log_accepts (i + 1);
}

wal_log-open :
    (s : Ftl) (e : WalEntry) (log : List WalEntry)
    → s.wal_file ≡ some log
    → s.wal_enabled ≡ true
    → s.log_accepts 0 ≡ true
    → wal_log s e ≡ (ret_ok, appended s log e)
unfolding wal_log ftl_wal_append
wal_log-open s e log opened enabled takes = rw (opened, enabled, takes) refl

-- An entry whose replay changes the tables to `t`.
abbrev Brings : Ftl → WalEntry → Tables → Type 0
Brings s e t =
    (r : Ftl)
    → tables r ≡ tables s
    → (seq : ℕ) → tables (replay_entry r (raw_of (record e { sequence = seq }))) ≡ t

-- The log, with the tables `t` that its last entry brings.
abbrev IsAppended : Ftl → Ftl → Tables → RetCode × Ftl → Type 0
IsAppended b s (l2p, rev) (ret, u) =
    (ret ≡ ret_ok) × Replays b (l2p, rev, u.wal_file, u.wal_enabled, u.log_accepts)

wal_log-IsAppended :
    (b s : Ftl) (e : WalEntry) (t : Tables)
    → IsReplayable b s
    → Brings s e t
    → IsAppended b s t (wal_log s e)
wal_log-IsAppended b s e t (log, opened, enabled, takes, same) brings =
    let n : WalEntry = record e { sequence = s.wal_sequence } in
    subst (IsAppended b s t) (sym (wal_log-open s e log opened enabled (takes 0))) (
      refl,
      (
        log ++ n ∷ [],
        refl,
        enabled,
        λ i. takes (i + 1),
        ap (λ (es : List RawEntry). tables (replay_entries b es)) (map_snoc log n)
            ∙ ap tables (replay_append b (map raw_of log) (raw_of n))
            ∙ brings (replay_entries b (map raw_of log)) same s.wal_sequence,
      ),
    )

pub wal_log_write-IsAppended :
    (b s : Ftl) (lpn old ppn : ℕ)
    → lpn < total_lpns
    → ppn ≢ invalid
    → IsReplayable b s
    → IsAppended b s (write_entry lpn old ppn (tables s)) (wal_log_write s lpn old ppn)
unfolding wal_log_write
wal_log_write-IsAppended b s lpn old ppn low real h =
    wal_log-IsAppended b s
      (record { op = wal_write; lpn = lpn; old_ppn = old; new_ppn = ppn; sequence = 0 })
      (write_entry lpn old ppn (tables s)) h
      (λ r same seq.
        replay_write-tables r lpn old ppn seq low real ∙ ap (write_entry lpn old ppn) same)

pub wal_log_trim-IsAppended :
    (b s : Ftl) (lpn : ℕ)
    → lpn < total_lpns
    → s.l2p_table lpn ≢ invalid
    → IsReplayable b s
    → IsAppended b s (trim_entry lpn (tables s)) (wal_log_trim s lpn)
unfolding wal_log_trim
wal_log_trim-IsAppended b s lpn low mapped h =
    wal_log-IsAppended b s
      (record {
        op = wal_trim;
        lpn = lpn;
        old_ppn = s.l2p_table lpn;
        new_ppn = invalid;
        sequence = 0;
      })
      (trim_entry lpn (tables s)) h
      (λ r same seq.
        replay_trim-tables r lpn (s.l2p_table lpn) seq low
          (λ no. mapped (sym (ap (λ (t : Tables). t.0 lpn) same) ∙ no))
        ∙ ap (trim_entry lpn) same)
