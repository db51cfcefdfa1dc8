-- ===== src/Ftl/Mapping/Journal.antt =====
-- modules/ftl/ftl.c: what trims and writes of the host append to the log.
use ftl_firmware.Common.{
  ℕ, zero, suc, ◌+◌, ◌≤◌, ◌^◌, ◌<◌, ◌==◌, ◌≡◌, ==_iff, refl, sym, ap, ◌∙◌, subst, Bool, some, List,
  not, leb, if◌then◌else◌, if_false, if_cases, RetCode, ret_ok, is_ok, update, arith, Bool-cases,
  inl, inr,
}
use mathlib.Core.Bool.{true≢false}
use ftl_firmware.Ftl.State.{Ftl, invalid, total_lpns, wal_log_write, wal_log_trim}
use ftl_firmware.Ftl.Recycle.{write_page}
use ftl_firmware.Ftl.Trim.{trim_page, trim_pages_from, clamp_count, ftl_trim}
use ftl_firmware.Ftl.Write.{commit_page, drop_old, write_data, write_allocated, finish_write}
use ftl_firmware.Ftl.Mapping.Copy.{page_write-real}
use ftl_firmware.Ftl.Mapping.Logged.{wal_log_write-IsLogged, wal_log_trim-IsLogged}
use ftl_firmware.Ftl.Mapping.Kept.{settings}
use ftl_firmware.Ftl.Mapping.Settings.{Watched, wear_leveling_check-watched}
use ftl_firmware.Ftl.Mapping.Finished.{IsCalm, finish_write-finished}
use ftl_firmware.Ftl.Mapping.Trimmed.{clamp_count-lem}
use ftl_firmware.Ftl.Mapping.Replayed.{
  view, Replays, IsReplayable, wal_log_write-IsAppended, wal_log_trim-IsAppended,
}
use ftl_firmware.Ftl.Mapping.Entries.{write_entry}
use ftl_firmware.Ftl.Mapping.Entries.{tables}
use ftl_firmware.Ftl.Mapping.Entries.{Tables}

-- A trim.
trim_page-IsReplayable :
    (b s : Ftl) (lpn : ℕ) → lpn < total_lpns → IsReplayable b s → IsReplayable b (trim_page s lpn).1
unfolding trim_page
trim_page-IsReplayable b s lpn low h =
    if_cases (λ (r : Bool × Ftl). IsReplayable b r.1) (s.l2p_table lpn == invalid) (λ _. h)
      (λ e.
        let mapped = λ (k : s.l2p_table lpn ≡ invalid). true≢false (sym ((==_iff _ _).1 k) ∙ e) in
        let u = (wal_log_trim s lpn).1 in
        subst
          (λ (t : Tables). Replays b (
            update t.0 lpn invalid,
            update t.1 (s.l2p_table lpn) invalid,
            u.wal_file,
            u.wal_enabled,
            u.log_accepts,
          ))
          (sym (ap tables (wal_log_trim-IsLogged s lpn).kept))
          (wal_log_trim-IsAppended b s lpn low mapped h).1)

trim_pages_from-IsReplayable :
    (left lpn trimmed : ℕ) (b s : Ftl)
    → lpn + left ≤ total_lpns
    → IsReplayable b s
    → IsReplayable b (trim_pages_from left lpn trimmed s).1
unfolding trim_pages_from
trim_pages_from-IsReplayable zero lpn trimmed b s room h = h
trim_pages_from-IsReplayable (suc left) lpn trimmed b s room h =
    trim_pages_from-IsReplayable left (lpn + 1) _ b (trim_page s lpn).1 (omega (arith, room))
      (trim_page-IsReplayable b s lpn (omega (arith, room)) h)

-- A trim whose range does not wrap, answered or refused.
pub ftl_trim-IsReplayable :
    (b s : Ftl) (lpn count : ℕ)
    → lpn + count < 2 ^ 32
    → IsReplayable b s
    → IsReplayable b (ftl_trim s lpn count).1
unfolding ftl_trim
ftl_trim-IsReplayable b s lpn count sum h =
    let Goal = λ (r : RetCode × Ftl). IsReplayable b r.1 in
    if_cases Goal (not s.is_initialized) (λ _. h)
      (λ _.
        if_cases Goal (count == 0) (λ _. h)
          (λ _.
            if_cases Goal (leb total_lpns lpn) (λ _. h)
              (λ low.
                trim_pages_from-IsReplayable (clamp_count lpn count) lpn 0 b s
                  (clamp_count-lem lpn count (ground (arith, low)) sum).0 h)))

-- The tables and the log after the tables were changed.
commit_page-view :
    (s : Ftl) (lpn ppn : ℕ)
    → let (l2p, rev) = write_entry lpn (s.l2p_table lpn) ppn (tables s) in
      view (commit_page s lpn ppn) ≡ (l2p, rev, s.wal_file, s.wal_enabled, s.log_accepts)
unfolding commit_page drop_old
commit_page-view s lpn ppn = elim (Bool-cases (s.l2p_table lpn == invalid)) [
  | inl e ↦ rw e refl
  | inr e ↦ rw e refl
]

finish_write-view :
    (s : Ftl) (lpn ppn : ℕ) (page_buf : List ℕ)
    → IsCalm (settings s)
    → view (finish_write s lpn ppn page_buf) ≡ view (commit_page s lpn ppn)
finish_write-view s lpn ppn page_buf calm =
    ap view (finish_write-finished s calm lpn ppn page_buf)
    ∙ ap (λ (w : Watched). (w.1, w.2, w.3, w.4, w.5))
        (wear_leveling_check-watched (commit_page s lpn ppn))

-- A device that takes the page takes it at once.
write_data-ok :
    (s : Ftl) (ppn : ℕ) (buf page_buf : List ℕ)
    → (write_page s ppn buf).0 ≡ ret_ok
    → write_data s ppn buf page_buf ≡ (ret_ok, ppn, (write_page s ppn buf).1)
unfolding write_data
write_data-ok s ppn buf page_buf ok = rw ok refl

abbrev pub IsWrote : Ftl → RetCode × Ftl → Type 0
IsWrote b (ret, t) = (ret ≡ ret_ok) × IsReplayable b t

-- What is left to do after the data.
abbrev wrote : RetCode × ℕ × Ftl → ℕ → List ℕ → RetCode × Ftl
wrote (ret, ppn, s) lpn page_buf =
    if not (is_ok ret) then (ret, s) else (ret_ok, finish_write s lpn ppn page_buf)

abbrev WroteAs : Ftl → Ftl → ℕ → ℕ → Tables → Type 0
WroteAs b u lpn ppn t =
    let (l2p, rev) = write_entry lpn (t.0 lpn) ppn t in
    Replays b (l2p, rev, u.wal_file, u.wal_enabled, u.log_accepts)

pub write_allocated-IsWrote :
    (b s : Ftl) (lpn ppn : ℕ) (buf page_buf : List ℕ)
    → lpn < total_lpns
    → IsCalm (settings s)
    → IsReplayable b s
    → (write_page s ppn buf).0 ≡ ret_ok
    → IsWrote b (write_allocated (some ppn, s) lpn buf page_buf)
unfolding write_allocated
write_allocated-IsWrote b s lpn ppn buf page_buf low calm h ok =
    let old = s.l2p_table lpn in
    let real = page_write-real s.nand ppn buf ok in
    let (logged, s1) = wal_log_write s lpn old ppn in
    let log = wal_log_write-IsLogged s lpn old ppn in
    let (ok1, replays) = wal_log_write-IsAppended b s lpn old ppn low real h in
    let s2 = (write_page s1 ppn buf).1 in
    let calm2 = subst IsCalm (sym (ap settings log.kept)) calm in
    let data_ok = subst (λ (t : Ftl). (write_page t ppn buf).0 ≡ ret_ok) (sym log.kept) ok in
    subst (IsWrote b)
      (sym (if_false (not (is_ok logged)) (logged, s1) _ (ap (λ (r : RetCode). not (is_ok r)) ok1)))
      (subst (λ (d : RetCode × ℕ × Ftl). IsWrote b (wrote d lpn page_buf))
        (sym (write_data-ok s1 ppn buf page_buf data_ok))
        (
          refl,
          subst (Replays b)
              (sym (finish_write-view s2 lpn ppn page_buf calm2 ∙ commit_page-view s2 lpn ppn))
              (subst (WroteAs b s1 lpn ppn) (sym (ap tables log.kept)) replays),
        ))
