-- ===== src/Ftl/Mapping/Returned.antt =====
-- modules/ftl/ftl.c: a read gives what was written.
use ftl_firmware.Common.{
  ℕ, suc, ◌<◌, ◌≡◌, ◌≢◌, refl, ap, ◌∙◌, subst, update_self, update-ne, true, Option, some, List,
  not, ◌||◌, lt→ltb, leb, if_false, RetCode, ret_ok, arith,
}
use ftl_firmware.Nand.{nand_get_free_block_count}
use ftl_firmware.Ftl.State.{Ftl, invalid, total_lpns, ftl_alloc_phy_page}
use ftl_firmware.Ftl.Select.{Floats}
use ftl_firmware.Ftl.Read.{ftl_read}
use ftl_firmware.Ftl.Write.{write_allocated, make_space, write_with_space, write_from, ftl_write}
use ftl_firmware.Ftl.Mapping.Reads.{ftl_read_lem}
use ftl_firmware.Ftl.Mapping.Written.{IsSound}
use ftl_firmware.Ftl.Mapping.Committed.{put}
use ftl_firmware.Ftl.Mapping.Kept.{settings}
use ftl_firmware.Ftl.Mapping.Finished.{IsCalm}
use ftl_firmware.Ftl.Mapping.Hosted.{IsAnsweredIf, ftl_write-IsAnswered}

make_space-enough :
    (fl : Floats) (fuel : ℕ) (s : Ftl) (page_buf : List ℕ)
    → 5 < nand_get_free_block_count s.nand
    → make_space fl (suc fuel) s page_buf ≡ some (ret_ok, s)
unfolding make_space
make_space-enough fl fuel s page_buf many =
    rw (lt→ltb 5 (nand_get_free_block_count s.nand) many) refl

-- The answer of a write that need not collect.
abbrev pub answer : Ftl → ℕ → List ℕ → List ℕ → RetCode × Ftl
answer s lpn buf page_buf = write_allocated (ftl_alloc_phy_page s) lpn buf page_buf

pub ftl_write-answer :
    (fl : Floats) (fuel : ℕ) (s : Ftl) (lpn : ℕ) (buf page_buf : List ℕ)
    → s.is_initialized ≡ true
    → lpn < total_lpns
    → 5 < nand_get_free_block_count s.nand
    → ftl_write fl (suc fuel) s lpn (some buf) page_buf ≡ some (answer s lpn buf page_buf)
unfolding ftl_write write_from write_with_space
ftl_write-answer fl fuel s lpn buf page_buf ready low many =
    if_false (not s.is_initialized || leb total_lpns lpn) _ _ (ground arith)
    ∙ ap (λ (o : Option (RetCode × Ftl)). write_with_space fl o lpn buf page_buf)
        (make_space-enough fl fuel s page_buf many)

-- What a read of `l` gives.
abbrev pub ReadsAs : Ftl → ℕ → List ℕ → Type 0
ReadsAs t l d =
    (out page_buf : List ℕ)
    → let (ret, out', t') = ftl_read t l (some out) page_buf in (ret ≡ ret_ok) × (out' ≡ some d)

-- A page that is written reads as what was written, and every other page that was mapped reads as
-- before, if the write of the host answers `ret_ok` (in page mapping, with no check of static wear
-- due, on a sound layer).
pub ftl_read-ftl_write :
    (fl : Floats) (fuel : ℕ) (s t : Ftl) (content : ℕ → List ℕ) (lpn : ℕ) (buf page_buf : List ℕ)
    → s.is_initialized ≡ true
    → lpn < total_lpns
    → IsSound content s
    → IsCalm (settings s)
    → ftl_write fl fuel s lpn (some buf) page_buf ≡ some (ret_ok, t)
    → ReadsAs t lpn buf
      × ((l : ℕ) → l < total_lpns → l ≢ lpn → s.l2p_table l ≢ invalid → ReadsAs t l (content l))
ftl_read-ftl_write fl fuel s t content lpn buf page_buf ready low h calm e =
    let (good, bad, kept, same) =
      subst (IsAnsweredIf content lpn buf s) e
        (ftl_write-IsAnswered fl fuel s content lpn buf page_buf h calm) in
    let (serves, mapped) = good refl in
    let reads = λ (l : ℕ) (i : l < total_lpns) (m : t.l2p_table l ≢ invalid) (out pb : List ℕ).
      (ftl_read_lem t (put content lpn buf) l out pb (same ∙ ready) i serves).0 m in
    (
      λ out pb.
          let (ok, bytes) = reads lpn low mapped out pb in
          (ok, bytes ∙ ap some (update_self content lpn buf)),
      λ l i ne m out pb.
          let (ok, bytes) = reads l i (kept l m) out pb in
          (ok, bytes ∙ ap some (update-ne content lpn l buf ne)),
    )
