-- ===== src/Ftl/Mapping/Logged.antt =====
-- modules/ftl/ftl.c: what an entry of the write-ahead log changes.
use ftl_firmware.Common.{
  ℕ, ◌≡◌, refl, Bool, Option, none, some, List, not, if_cases, RetCode, ret_ok,
}
use ftl_firmware.Ftl.State.{
  Ftl, WalEntry, wal_write, wal_trim, invalid, ftl_wal_append, wal_log, wal_log_write, wal_log_trim,
}

-- Only the log and its counters change.
pub record IsLogged (s t : Ftl) : Type 0 where
  pub file : Option (List WalEntry)
  pub sequence : ℕ
  pub count : ℕ
  pub accepts : ℕ → Bool
  pub kept : t ≡ record s {
    wal_file = file;
    wal_sequence = sequence;
    wal_entry_count = count;
    log_accepts = accepts;
  }

same-IsLogged : (s : Ftl) → IsLogged s s
same-IsLogged s = record {
  file = s.wal_file;
  sequence = s.wal_sequence;
  count = s.wal_entry_count;
  accepts = s.log_accepts;
  kept = refl;
}

append-IsLogged :
    (s : Ftl) (es : List WalEntry) (e : WalEntry) → IsLogged s (ftl_wal_append s es e).1
unfolding ftl_wal_append
append-IsLogged s es e =
    if_cases (λ (r : RetCode × Ftl). IsLogged s r.1) (s.log_accepts 0)
      (λ _. record { file = _; sequence = _; count = _; accepts = _; kept = refl })
      (λ _. record {
        file = s.wal_file;
        sequence = _;
        count = s.wal_entry_count;
        accepts = _;
        kept = refl;
      })

opened-IsLogged :
    (s : Ftl) (o : Option (List WalEntry)) (e : WalEntry)
    → let r : RetCode × Ftl = elim o [
      | none ↦ (ret_ok, s)
      | some entries ↦ ftl_wal_append s entries e
    ] in
      IsLogged s r.1
opened-IsLogged s none e = same-IsLogged s
opened-IsLogged s (some es) e = append-IsLogged s es e

wal_log-IsLogged : (s : Ftl) (e : WalEntry) → IsLogged s (wal_log s e).1
unfolding wal_log
wal_log-IsLogged s e =
    if_cases (λ (r : RetCode × Ftl). IsLogged s r.1) (not s.wal_enabled) (λ _. same-IsLogged s)
      (λ _. opened-IsLogged s s.wal_file e)

pub wal_log_write-IsLogged :
    (s : Ftl) (lpn old_ppn new_ppn : ℕ) → IsLogged s (wal_log_write s lpn old_ppn new_ppn).1
unfolding wal_log_write
wal_log_write-IsLogged s lpn old_ppn new_ppn =
    wal_log-IsLogged s
      (record { op = wal_write; lpn = lpn; old_ppn = old_ppn; new_ppn = new_ppn; sequence = 0 })

pub wal_log_trim-IsLogged : (s : Ftl) (lpn : ℕ) → IsLogged s (wal_log_trim s lpn).1
unfolding wal_log_trim
wal_log_trim-IsLogged s lpn = wal_log-IsLogged s (record {
  op = wal_trim;
  lpn = lpn;
  old_ppn = s.l2p_table lpn;
  new_ppn = invalid;
  sequence = 0;
})
