-- ===== src/Ftl/Mapping/Hosted.antt =====
-- modules/ftl/ftl.c: `ftl_write` from the host, in page mapping.
use ftl_firmware.Common.{
  ℕ, zero, suc, ◌<◌, refl, sym, ap, ◌∙◌, subst, Option, none, some, List, not, ◌||◌, ltb, leb,
  if_cases, RetCode, err_param, is_ok, arith,
}
use mathlib.Core.Bool.{true≢false}
use ftl_firmware.Nand.{nand_get_free_block_count}
use ftl_firmware.Ftl.State.{Ftl, total_lpns, ftl_alloc_phy_page}
use ftl_firmware.Ftl.State.Alloc.{ftl_alloc_phy_page-IsPlaced}
use ftl_firmware.Ftl.Select.{Floats}
use ftl_firmware.Ftl.Recycle.{gc_do_recycle}
use ftl_firmware.Ftl.Write.{write_allocated, make_space, write_with_space, write_from, ftl_write}
use ftl_firmware.Ftl.Mapping.Collected.{gc_do_recycle-IsTidy}
use ftl_firmware.Ftl.Mapping.Recycled.{gc_do_recycle-Serves}
use ftl_firmware.Ftl.Mapping.Written.{IsSound}
use ftl_firmware.Ftl.Mapping.Kept.{
  Settings, settings, IsKept, IsKept-trans, same-IsKept, alloc-IsKept, gc_do_recycle-IsKept,
}
use ftl_firmware.Ftl.Mapping.Finished.{IsCalm}
use ftl_firmware.Ftl.Mapping.Answered.{
  IsAnswered, failed-IsAnswered, IsAnswered-from, write_allocated-IsAnswered,
}

-- Garbage collection keeps a sound layer sound and every mapped page mapped, whichever block it
-- chooses and whether it succeeds or fails: each mapped page reads as before, the counts of valid pages
-- are right, and the write pointer has no valid page before it.
pub gc_do_recycle-IsSound :
    (fl : Floats) (s : Ftl) (content : ℕ → List ℕ) (page_buf : List ℕ)
    → IsSound content s
    → IsSound content (gc_do_recycle fl s page_buf).1 × IsKept s (gc_do_recycle fl s page_buf).1
gc_do_recycle-IsSound fl s content page_buf h = (
  record {
    serves = gc_do_recycle-Serves fl s content page_buf h.serves h.tidy.ahead;
    tidy = gc_do_recycle-IsTidy fl s page_buf h.tidy;
  },
  gc_do_recycle-IsKept fl s page_buf,
)

-- What the collections before a write leave, if they end.
abbrev IsSpaced : (ℕ → List ℕ) → Ftl → Option (RetCode × Ftl) → Type 0
IsSpaced content s none = Unit {0}
IsSpaced content s (some (ret, t)) = IsSound content t × IsKept s t

IsSpaced-from :
    (content : ℕ → List ℕ) (s u : Ftl) (o : Option (RetCode × Ftl))
    → IsKept s u
    → IsSpaced content u o
    → IsSpaced content s o
IsSpaced-from content s u none k h = tt
IsSpaced-from content s u (some (ret, t)) k (h, kept) = (h, IsKept-trans k kept)

make_space-IsSpaced :
    (fl : Floats) (fuel : ℕ) {content : ℕ → List ℕ} (s : Ftl) (page_buf : List ℕ)
    → IsSound content s
    → IsSpaced content s (make_space fl fuel s page_buf)
unfolding make_space
make_space-IsSpaced fl zero s page_buf h = tt
make_space-IsSpaced fl (suc fuel) {content} s page_buf h =
    let g = gc_do_recycle fl s page_buf in
    let (h', kept) = gc_do_recycle-IsSound fl s content page_buf h in
    let Goal = IsSpaced content s in
    if_cases Goal (ltb 5 (nand_get_free_block_count s.nand)) (λ _. (h, same-IsKept refl refl))
      (λ _.
        if_cases Goal (is_ok g.0)
          (λ _. IsSpaced-from content s g.1 _ kept (make_space-IsSpaced fl fuel g.1 page_buf h'))
          (λ _. (h', kept)))

-- The answer of a write that returns.
abbrev pub IsAnsweredIf : (ℕ → List ℕ) → ℕ → List ℕ → Ftl → Option (RetCode × Ftl) → Type 0
IsAnsweredIf content lpn buf s none = Unit {0}
IsAnsweredIf content lpn buf s (some r) = IsAnswered content lpn buf s r

spaced-IsAnswered :
    (fl : Floats) (content : ℕ → List ℕ) (s : Ftl) (o : Option (RetCode × Ftl)) (lpn : ℕ)
    (buf page_buf : List ℕ)
    → IsSpaced content s o
    → lpn < total_lpns
    → IsCalm (settings s)
    → IsAnsweredIf content lpn buf s (write_with_space fl o lpn buf page_buf)
unfolding write_with_space
spaced-IsAnswered fl content s none lpn buf page_buf h low calm = tt
spaced-IsAnswered fl content s (some (ret, t)) lpn buf page_buf (h, kept) low calm =
    let calm' = subst IsCalm (sym ((alloc-IsKept t).same_settings ∙ kept.same_settings)) calm in
    if_cases (IsAnswered content lpn buf s) (is_ok ret)
      (λ _.
        IsAnswered-from content lpn buf s t
          (write_allocated (ftl_alloc_phy_page t) lpn buf page_buf) kept
          (write_allocated-IsAnswered (ftl_alloc_phy_page t) lpn buf page_buf h
            (ftl_alloc_phy_page-IsPlaced t h.tidy.ahead.0) low calm'))
      (λ failed. (
        λ ok. absurd (true≢false (sym ok ∙ failed)),
        λ _. h.serves,
        kept.still_mapped,
        ap (λ (w : Settings). w.2) kept.same_settings,
      ))

-- A write of the host that returns, in page mapping and with no check of static wear due: with
-- `ret_ok`, page `lpn` is mapped and reads as the new data, and with any other status as before; every
-- other page that was mapped is still mapped and reads as before, whether pages were collected first, a
-- bad block was replaced, or neither. It holds on a layer whose tables agree, whose mapped
-- pages hold their data, whose blocks count their valid pages and whose write pointer has no valid
-- page before it.
pub ftl_write-IsAnswered :
    (fl : Floats) (fuel : ℕ) (s : Ftl) (content : ℕ → List ℕ) (lpn : ℕ) (buf page_buf : List ℕ)
    → IsSound content s
    → IsCalm (settings s)
    → IsAnsweredIf content lpn buf s (ftl_write fl fuel s lpn (some buf) page_buf)
unfolding ftl_write write_from
ftl_write-IsAnswered fl fuel s content lpn buf page_buf h calm =
    if_cases (IsAnsweredIf content lpn buf s) (not s.is_initialized || leb total_lpns lpn)
      (λ _. failed-IsAnswered content lpn buf s err_param s refl h.serves refl refl)
      (λ e.
        spaced-IsAnswered fl content s (make_space fl fuel s page_buf) lpn buf page_buf
          (make_space-IsSpaced fl fuel s page_buf h) (ground (arith, e)) calm)
