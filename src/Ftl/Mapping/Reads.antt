-- ===== src/Ftl/Mapping/Reads.antt =====
-- modules/ftl/ftl.c: what `ftl_read` gives.
use ftl_firmware.Common.{
  ℕ, ◌<◌, ◌≡◌, ◌≢◌, refl, sym, ap, ◌∙◌, subst, Bool, true, false, List, some, ◌==◌, ==_iff, leb,
  if◌then◌else◌, RetCode, ret_ok, err_not_mapped, err_param, not, ◌||◌, Bool-cases, arith, inl, inr,
}
use mathlib.Core.Bool.{true≢false}
use ftl_firmware.Nand.{page_read}
use ftl_firmware.Nand.Pages.{Holds-read, Holds-page_read}
use ftl_firmware.Ftl.State.{Ftl, invalid, total_lpns, ppn_to_block, ppn_to_page, is_hybrid}
use ftl_firmware.Ftl.Read.{hybrid_update_access_count, read_done, read_into, ftl_read}
use ftl_firmware.Ftl.Mapping.{Serves}
use ftl_firmware.Ftl.Mapping.Copy.{Serves-nand}

count-Serves :
    {s : Ftl} {content : ℕ → List ℕ} (lpn : ℕ)
    → Serves s content
    → Serves (hybrid_update_access_count s lpn) content
unfolding hybrid_update_access_count
count-Serves lpn h = ground arith

-- The device's answer being `ret_ok`, the data go out and what is served stays.
read_done-Serves :
    (s : Ftl) (content : ℕ → List ℕ) (lpn block : ℕ) (ret : RetCode) (buf page_buf : List ℕ)
    → ret ≡ ret_ok
    → Serves s content
    → let (ret', buf', s') = read_done s lpn block ret buf page_buf in
      (ret' ≡ ret_ok) × (buf' ≡ buf) × Serves s' content
unfolding read_done
read_done-Serves s content lpn block ret buf page_buf e h =
    elim (Bool-cases (is_hybrid s.map_mode)) [
      | inl y ↦ simp (e, y) (refl, refl, count-Serves lpn h)
      | inr n ↦ simp (e, n) (refl, refl, h)
    ]

-- `read_into`, by the results of its two tests.
abbrev branch : Ftl → ℕ → List ℕ → List ℕ → Bool → Bool → RetCode × List ℕ × Ftl
branch s lpn buf page_buf refused unmapped =
    let ppn = s.l2p_table lpn in
    let r = page_read s.nand (ppn_to_block ppn) (ppn_to_page ppn) buf in
    if refused
    then (err_param, buf, s)
    else if unmapped
    then (err_not_mapped, buf, s)
    else read_done (record s { nand = r.2 }) lpn (ppn_to_block ppn) r.0 r.1 page_buf

-- What a read of page `lpn` owes its caller.
abbrev Answers : Ftl → (ℕ → List ℕ) → ℕ → RetCode × List ℕ × Ftl → Type 0
Answers s content lpn (ret, out, s') =
    (s.l2p_table lpn ≢ invalid → (ret ≡ ret_ok) × (some out ≡ some (content lpn)))
    × (s.l2p_table lpn ≡ invalid → ret ≡ err_not_mapped)
    × Serves s' content

tests_pass :
    (s : Ftl) (lpn : ℕ)
    → s.is_initialized ≡ true
    → lpn < total_lpns
    → (not s.is_initialized || leb total_lpns lpn) ≡ false
tests_pass s lpn ready low = ground arith

branch-Answers :
    (s : Ftl) (content : ℕ → List ℕ) (lpn : ℕ) (buf page_buf : List ℕ) (unmapped : Bool)
    → (s.l2p_table lpn == invalid) ≡ unmapped
    → lpn < total_lpns
    → Serves s content
    → Answers s content lpn (branch s lpn buf page_buf false unmapped)
branch-Answers s content lpn buf page_buf true e low h =
    (λ m. absurd (m ((==_iff _ _).0 e)), λ _. refl, h)
branch-Answers s content lpn buf page_buf false e low h =
    let ppn = s.l2p_table lpn in
    let mapped = λ (k : ppn ≡ invalid). true≢false (sym ((==_iff _ _).1 k) ∙ e) in
    let (good, bytes) = Holds-read buf (h.placed lpn low mapped) in
    let r = page_read s.nand (ppn_to_block ppn) (ppn_to_page ppn) buf in
    let (ok, out, h') =
      read_done-Serves (record s { nand = r.2 }) content lpn (ppn_to_block ppn) r.0 r.1 page_buf
        good (Serves-nand r.2 (λ c q d. Holds-page_read _ _ buf) h) in
    (λ m. (ok, ap some (out ∙ bytes)), λ k. absurd (mapped k), h')

-- On a ready layer whose tables agree and whose mapped pages hold their data, a read of a page in the
-- space gives the data of the page if it is mapped, and the answer that it is not mapped if it is not;
-- either way every mapped page is still readable with its data.
pub ftl_read_lem :
    (s : Ftl) (content : ℕ → List ℕ) (lpn : ℕ) (buf page_buf : List ℕ)
    → s.is_initialized ≡ true
    → lpn < total_lpns
    → Serves s content
    → let (ret, out, s') = ftl_read s lpn (some buf) page_buf in
      (s.l2p_table lpn ≢ invalid → (ret ≡ ret_ok) × (out ≡ some (content lpn)))
      × (s.l2p_table lpn ≡ invalid → ret ≡ err_not_mapped)
      × Serves s' content
unfolding ftl_read read_into
ftl_read_lem s content lpn buf page_buf ready low h =
    subst
      (λ (refused : Bool).
        Answers s content lpn (branch s lpn buf page_buf refused (s.l2p_table lpn == invalid)))
      (sym (tests_pass s lpn ready low)) (branch-Answers s content lpn buf page_buf _ refl low h)
