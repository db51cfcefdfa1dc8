-- ===== src/Ftl/Mapping/History.antt =====
-- modules/ftl/ftl.c: histories of trims and writes with the log open, and their replay.
use ftl_firmware.Common.{
  ℕ, suc, ◌+◌, ◌^◌, ◌<◌, ◌≡◌, refl, sym, ap, ◌∙◌, subst, true, Option, none, some, List, [], map,
  RetCode, ret_ok,
}
use ftl_firmware.Nand.{nand_get_free_block_count, total_blocks}
use ftl_firmware.Ftl.State.{Ftl, WalEntry, total_lpns, ftl_alloc_phy_page}
use ftl_firmware.Ftl.State.Alloc.{IsPlaced, ftl_alloc_phy_page-IsPlaced}
use ftl_firmware.Ftl.Replay.{raw_of, ftl_wal_replay}
use ftl_firmware.Ftl.Select.{Floats}
use ftl_firmware.Ftl.Recycle.{write_page}
use ftl_firmware.Ftl.Trim.{ftl_trim}
use ftl_firmware.Ftl.Write.{write_allocated, ftl_write}
use ftl_firmware.Ftl.Mapping.Kept.{settings}
use ftl_firmware.Ftl.Mapping.Finished.{IsCalm}
use ftl_firmware.Ftl.Mapping.Returned.{answer, ftl_write-answer}
use ftl_firmware.Ftl.Mapping.Replayed.{view, Replays, IsReplayable}
use ftl_firmware.Ftl.Mapping.Entries.{tables}
use ftl_firmware.Ftl.Mapping.Journal.{ftl_trim-IsReplayable, IsWrote, write_allocated-IsWrote}

-- The page that the allocator gives next is named and takes the data.
abbrev pub TakesNext : Ftl → List ℕ → Type 0
TakesNext s buf =
    (ppn : ℕ) × (s' : Ftl) × (ftl_alloc_phy_page s ≡ (some ppn, s'))
    × ((write_page s' ppn buf).0 ≡ ret_ok)

-- A ready layer that need not collect, with no check of static wear due.
abbrev pub IsEasy : Ftl → Type 0
IsEasy s =
    (s.is_initialized ≡ true)
    × (5 < nand_get_free_block_count s.nand)
    × IsCalm (settings s)
    × (s.cur_write_block < total_blocks)

from_alloc :
    (b s s' : Ftl) (lpn ppn : ℕ) (buf page_buf : List ℕ)
    → lpn < total_lpns
    → IsCalm (settings s)
    → IsReplayable b s
    → IsPlaced s (some ppn, s')
    → (write_page s' ppn buf).0 ≡ ret_ok
    → IsWrote b (write_allocated (some ppn, s') lpn buf page_buf)
from_alloc b s s' lpn ppn buf page_buf low calm h (c, p, c_in, p_in, ep, es, from) ok =
    write_allocated-IsWrote b s' lpn ppn buf page_buf low (subst IsCalm (sym (ap settings es)) calm)
      (subst (Replays b) (sym (ap view es)) h) ok

-- Not only does the log stay good: the write succeeds.
pub ftl_write-IsWrote :
    (fl : Floats) (fuel : ℕ) (b s : Ftl) (lpn : ℕ) (buf page_buf : List ℕ)
    → IsEasy s
    → lpn < total_lpns
    → TakesNext s buf
    → IsReplayable b s
    → (r : RetCode × Ftl) × (ftl_write fl (suc fuel) s lpn (some buf) page_buf ≡ some r)
      × IsWrote b r
ftl_write-IsWrote fl fuel b s lpn buf page_buf (ready, many, calm, in_device) low
      (ppn, s', given, ok) h =
    (
      answer s lpn buf page_buf,
      ftl_write-answer fl fuel s lpn buf page_buf ready low many,
      subst (λ (o : Option ℕ × Ftl). IsWrote b (write_allocated o lpn buf page_buf)) (sym given)
          (from_alloc b s s' lpn ppn buf page_buf low calm h
            (subst (IsPlaced s) given (ftl_alloc_phy_page-IsPlaced s in_device)) ok),
    )

-- The histories of writes and trims: a write needs no collection and its page is taken, a trim
-- does not wrap.
pub data History (fl : Floats) (start : Ftl) : Ftl → Type 0 where
  opened : History fl start start
  then_write :
      {s : Ftl} (fuel lpn : ℕ) (buf page_buf : List ℕ) (t : Ftl)
      → History fl start s
      → IsEasy s
      → lpn < total_lpns
      → TakesNext s buf
      → ftl_write fl (suc fuel) s lpn (some buf) page_buf ≡ some (ret_ok, t)
      → History fl start t
  then_trim :
      {s : Ftl} (lpn count : ℕ)
      → History fl start s
      → lpn + count < 2 ^ 32
      → History fl start (ftl_trim s lpn count).1

abbrev IsWroteIf : Ftl → Option (RetCode × Ftl) → Type 0
IsWroteIf b none = Unit {0}
IsWroteIf b (some r) = IsWrote b r

History-IsReplayable :
    (fl : Floats) (base start : Ftl) (t : Ftl)
    → IsReplayable base start
    → History fl start t
    → IsReplayable base t
History-IsReplayable fl base start _ h opened = h
History-IsReplayable fl base start _ h
      (then_write {s} fuel lpn buf page_buf t past easy low takes e) =
    let before = History-IsReplayable fl base start s h past in
    let (r, returned, wrote) =
      ftl_write-IsWrote fl fuel base s lpn buf page_buf easy low takes before in
    (subst (IsWroteIf base) (sym returned ∙ e) wrote).1
History-IsReplayable fl base start _ h (then_trim {s} lpn count past sum) =
    ftl_trim-IsReplayable base s lpn count sum (History-IsReplayable fl base start s h past)

-- After any history of writes and trims from the layer `start`, whose log was empty, open and takes every
-- entry, the log is still open, and its replay on a layer with the tables of `start` answers `ret_ok` and
-- gives the tables that the history left. Each write of the history answered `ret_ok` on a ready layer in page
-- mapping with more than five free blocks and no check of static wear due, the page given first taking
-- the data; the range of each trim does not wrap.
pub ftl_wal_replay-History :
    (fl : Floats) (base start t : Ftl)
    → start.wal_file ≡ some []
    → start.wal_enabled ≡ true
    → ((i : ℕ) → start.log_accepts i ≡ true)
    → tables base ≡ tables start
    → History fl start t
    → (log : List WalEntry) × (t.wal_file ≡ some log)
      × (let (ret, after) = ftl_wal_replay base true (some (map raw_of log)) in
          (ret ≡ ret_ok) × (tables after ≡ tables t))
unfolding ftl_wal_replay
ftl_wal_replay-History fl base start t empty enabled takes same past =
    let (log, is_open, on, accepts, found) =
      History-IsReplayable fl base start t ([], empty, enabled, takes, same) past in
    (log, is_open, (refl, found))
