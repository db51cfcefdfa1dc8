-- ===== src/Ftl/Mapping/Answered.antt =====
-- modules/ftl/ftl.c: the answer of a write, from the page that the allocator gave.
use ftl_firmware.Common.{
  ℕ, ◌<◌, ◌≡◌, ◌≢◌, refl, sym, ap, ◌∙◌, subst, true, false, Option, none, some, List, not, if_cases,
  RetCode, ret_ok, err_no_space, is_ok, update, update-cases, update_self, arith, inl, inr,
}
use mathlib.Core.Bool.{true≢false}
use ftl_firmware.Ftl.State.{Ftl, invalid, total_lpns, wal_log_write}
use ftl_firmware.Ftl.State.Alloc.{IsPlaced}
use ftl_firmware.Ftl.Write.{commit_page, write_data, finish_write, write_allocated}
use ftl_firmware.Ftl.Mapping.{Serves}
use ftl_firmware.Ftl.Mapping.Tidy.{IsGiven}
use ftl_firmware.Ftl.Mapping.Worn.{wear_leveling_check-Serves}
use ftl_firmware.Ftl.Mapping.Written.{IsSound, IsWritten}
use ftl_firmware.Ftl.Mapping.Moved.{IsStill, IsPlaced-IsSound, write_data-IsStored}
use ftl_firmware.Ftl.Mapping.Committed.{put, commit_page-IsSound, commit_page-l2p}
use ftl_firmware.Ftl.Mapping.Logged.{IsLogged, wal_log_write-IsLogged}
use ftl_firmware.Ftl.Mapping.Kept.{Settings, settings, IsKept, same-IsKept}
use ftl_firmware.Ftl.Mapping.Settings.{write_data-settings, wear_leveling_check-l2p}
use ftl_firmware.Ftl.Mapping.Finished.{IsCalm, levelled, levelled-settings, finish_write-finished}

-- What a host sees of a write that answers: with `ret_ok`, page `lpn` is mapped and has the data; with
-- any other answer, each page has what it had. What was mapped is mapped, and the layer stays ready.
abbrev pub IsAnswered : (ℕ → List ℕ) → ℕ → List ℕ → Ftl → RetCode × Ftl → Type 0
IsAnswered content lpn buf s (ret, t) =
    (is_ok ret ≡ true → Serves t (put content lpn buf) × (t.l2p_table lpn ≢ invalid))
    × (is_ok ret ≡ false → Serves t content)
    × ((l : ℕ) → s.l2p_table l ≢ invalid → t.l2p_table l ≢ invalid)
    × (t.is_initialized ≡ s.is_initialized)

module _ {content : ℕ → List ℕ} {buf : List ℕ} {lpn ppn : ℕ} {s : Ftl}
    (w : IsWritten content buf ppn s) (low : lpn < total_lpns) (calm : IsCalm (settings s))
    (page_buf : List ℕ) where
  abbrev after : Ftl
  after = levelled s calm lpn ppn page_buf

  after-l2p : after.l2p_table ≡ update s.l2p_table lpn ppn
  after-l2p = wear_leveling_check-l2p (commit_page s lpn ppn) ∙ commit_page-l2p w low

  after-Serves : Serves after (put content lpn buf)
  after-Serves =
      wear_leveling_check-Serves (commit_page s lpn ppn) (put content lpn buf)
        (commit_page-IsSound w low).serves

  finish_write-IsAnswered : IsAnswered content lpn buf s (ret_ok, finish_write s lpn ppn page_buf)
  finish_write-IsAnswered =
      let h = after-Serves in
      subst (λ (t : Ftl). IsAnswered content lpn buf s (ret_ok, t))
        (sym (finish_write-finished s calm lpn ppn page_buf))
        (
          λ _. (
            record { placed = h.placed; named = h.named; backed = h.backed; outside = h.outside },
            λ k.
                w.real
                  (sym (ap (λ (f : ℕ → ℕ). f lpn) after-l2p ∙ update_self s.l2p_table lpn ppn) ∙ k),
          ),
          λ no. absurd (true≢false no),
          λ l m k. elim (update-cases s.l2p_table lpn ppn l) [
            | inl (e, u) ↦ w.real (sym u ∙ sym (ap (λ (f : ℕ → ℕ). f l) after-l2p) ∙ k)
            | inr (ne, u) ↦ m (sym u ∙ sym (ap (λ (f : ℕ → ℕ). f l) after-l2p) ∙ k)
          ],
          ap (λ (w : Settings). w.2) (levelled-settings s calm lpn ppn page_buf),
        )

-- A failure that leaves the tables alone.
pub failed-IsAnswered :
    (content : ℕ → List ℕ) (lpn : ℕ) (buf : List ℕ) (s : Ftl) (ret : RetCode) (t : Ftl)
    → is_ok ret ≡ false
    → Serves t content
    → t.l2p_table ≡ s.l2p_table
    → settings t ≡ settings s
    → IsAnswered content lpn buf s (ret, t)
failed-IsAnswered content lpn buf s ret t failed h e g = (
  λ ok. absurd (true≢false (sym ok ∙ failed)),
  λ _. h,
  λ l m k. m (sym (ap (λ (f : ℕ → ℕ). f l) e) ∙ k),
  ap (λ (w : Settings). w.2) g,
)

pub IsAnswered-from :
    (content : ℕ → List ℕ) (lpn : ℕ) (buf : List ℕ) (s u : Ftl) (r : RetCode × Ftl)
    → IsKept s u
    → IsAnswered content lpn buf u r
    → IsAnswered content lpn buf s r
IsAnswered-from content lpn buf s u (ret, t) more (good, bad, kept, same) = (
  good,
  bad,
  λ l m. kept l (more.still_mapped l m),
  same ∙ ap (λ (w : Settings). w.2) more.same_settings,
)

logged-IsStill :
    {content : ℕ → List ℕ} {s t : Ftl} → IsLogged s t → IsSound content s → IsStill content s t
logged-IsStill {content} {s} l h =
    let g = h.serves in
    (
      subst (IsSound content) (sym l.kept) (record {
        serves = record {
          placed = g.placed;
          named = g.named;
          backed = g.backed;
          outside = g.outside;
        };
        tidy = record { counted = h.tidy.counted; ahead = h.tidy.ahead };
      }),
      ap (λ (r : Ftl). r.l2p_table) l.kept,
    )

placed-settings :
    {s : Ftl} (ppn : ℕ) (s' : Ftl) → IsPlaced s (some ppn, s') → settings s' ≡ settings s
placed-settings ppn s' (b, p, b_in, p_in, ep, es, from) = ap settings es

-- From the page that the allocator gave.
pub write_allocated-IsAnswered :
    {content : ℕ → List ℕ} {s : Ftl} (o : Option ℕ × Ftl) (lpn : ℕ) (buf page_buf : List ℕ)
    → IsSound content s
    → IsPlaced s o
    → lpn < total_lpns
    → IsCalm (settings o.1)
    → IsAnswered content lpn buf s (write_allocated o lpn buf page_buf)
unfolding write_allocated
write_allocated-IsAnswered {content} {s} (none, s') lpn buf page_buf h e low calm =
    failed-IsAnswered content lpn buf s err_no_space s' refl
      (subst (λ (t : Ftl). Serves t content) (sym e) h.serves) (ap (λ (t : Ftl). t.l2p_table) e)
      (ap settings e)
write_allocated-IsAnswered {content} {s} (some new, s') lpn buf page_buf h placed low calm =
    let (still, given) = IsPlaced-IsSound new s' h placed in
    let logged = wal_log_write s' lpn (s'.l2p_table lpn) new in
    let log = wal_log_write-IsLogged s' lpn (s'.l2p_table lpn) new in
    let s1 = logged.1 in
    let still1 = logged-IsStill log still.0 in
    let given1 : IsGiven s1 new = subst (λ (t : Ftl). IsGiven t new) (sym log.kept) given in
    let d = write_data s1 new buf page_buf in
    let (still2, written) = write_data-IsStored new buf page_buf still1.0 given1 in
    let same1 = still1.1 ∙ still.1 in
    let same2 = still2.1 ∙ same1 in
    let set1 = ap settings log.kept in
    let set2 = write_data-settings s1 new buf page_buf ∙ set1 in
    let from = placed-settings new s' placed in
    let calm2 = subst IsCalm (sym set2) calm in
    let Goal = IsAnswered content lpn buf s in
    if_cases Goal (not (is_ok logged.0))
      (λ e.
        failed-IsAnswered content lpn buf s logged.0 s1 (ground (arith, e)) still1.0.serves same1
          (set1 ∙ from))
      (λ _.
        if_cases Goal (not (is_ok d.0))
          (λ e.
            failed-IsAnswered content lpn buf s d.0 d.2 (ground (arith, e)) still2.0.serves same2
              (set2 ∙ from))
          (λ e.
            IsAnswered-from content lpn buf s d.2 (ret_ok, finish_write d.2 lpn d.1 page_buf)
              (same-IsKept (set2 ∙ from) same2)
              (finish_write-IsAnswered (written (ground (arith, e))) low calm2 page_buf)))
