-- ===== src/Nand/Retry.antt =====
-- modules/nand/nand.c: the reads and writes that try again.
use ftl_firmware.Common.{
  ℕ, zero, suc, ◌==◌, ◌≡◌, refl, sym, ap, ◌∙◌, Bool, false, not, ◌||◌, Bool-cases, inl, inr, Option,
  none, some, List, leb, if◌then◌else◌, if_cases, if_false, if_true, if_same, is_ok_sound, RetCode,
  ret_ok, err_bad_block, is_ok, is_overwrite, is_not_mapped,
}
use mathlib.Core.Bool.{true≢false}
use ftl_firmware.Nand.{
  Nand, wear, is_bad, is_block_valid, pages_per_block, page_read, page_write, nand_page_read,
  nand_page_write, nand_mark_block_bad,
}

-- `NAND_WRITE_RETRY_COUNT` and `NAND_READ_RETRY_COUNT`
abbrev pub retry_count : ℕ
retry_count = 3

module _ {S : Type 0} (op : S → RetCode × S) (is_retried : RetCode → Bool) where
  -- The loop of `left` attempts, `last` being the status of the one before.
  unfoldable pub attempts : ℕ → RetCode → S → RetCode × S
  attempts zero last s = (last, s)
  attempts (suc left) last s =
      let (ret, s') = op s in
      let rest = attempts left ret s' in
      if is_ok ret then (ret_ok, s') else if is_retried ret then rest else (ret, s')

  -- The rest of a round, from the answer of the attempt.
  abbrev round : ℕ → RetCode × S → RetCode × S
  round left (ret, s) =
      if is_ok ret then (ret_ok, s) else if is_retried ret then attempts left ret s else (ret, s)

  attempts_failed :
      (left : ℕ) (s : S) (ret : RetCode)
      → op s ≡ (ret, s)
      → is_ok ret ≡ false
      → attempts left ret s ≡ (ret, s)
  unfolding attempts
  attempts_failed zero s ret e bad = refl
  attempts_failed (suc left) s ret e bad =
      ap (round left) e
      ∙ if_false (is_ok ret) (ret_ok, s) _ bad
      ∙ if_same (λ (r : RetCode × S). r) (is_retried ret) (ret, s) _ _
          (attempts_failed left s ret e bad) refl

  -- If a failure changes nothing, the attempts are one.
  attempts_once :
      (left : ℕ) (s : S) (last : RetCode)
      → (is_ok (op s).0 ≡ false → (op s).1 ≡ s)
      → attempts (suc left) last s ≡ op s
  unfolding attempts
  attempts_once left s last kept = elim (Bool-cases (is_ok (op s).0)) [
    | inl ok ↦
        if_true (is_ok (op s).0) (ret_ok, (op s).1) _ ok
        ∙ (λ i. (sym (is_ok_sound (op s).0 ok) i, (op s).1))
    | inr bad ↦
        let e : op s ≡ ((op s).0, s) = λ i. ((op s).0, kept bad i) in
        attempts_failed (suc left) s (op s).0 e bad ∙ sym e
  ]

-- What follows the attempts: a failure condemns the block.
abbrev pub condemned : ℕ → RetCode × Nand → RetCode × Nand
condemned block (ret, s) =
    if is_ok ret then (ret_ok, s) else (err_bad_block, (nand_mark_block_bad s block wear).1)

unfoldable pub nand_page_write_with_retry : Nand → ℕ → ℕ → Option (List ℕ) → RetCode × Nand
unfolding attempts
nand_page_write_with_retry s block page buf =
    condemned block
      (attempts (λ s. nand_page_write s block page buf) is_overwrite retry_count ret_ok s)

-- The buffer and the device go through the attempts together.
abbrev pub read_once : ℕ → ℕ → Option (List ℕ) × Nand → RetCode × (Option (List ℕ) × Nand)
read_once block page (buf, s) =
    let (ret, buf', s') = nand_page_read s block page buf in (ret, (buf', s'))

abbrev pub condemned_read :
    ℕ → RetCode × (Option (List ℕ) × Nand) → RetCode × Option (List ℕ) × Nand
condemned_read block (ret, (buf, s)) =
    if is_ok ret
    then (ret_ok, buf, s)
    else (err_bad_block, buf, (nand_mark_block_bad s block wear).1)

unfoldable pub nand_page_read_with_retry :
    Nand → ℕ → ℕ → Option (List ℕ) → RetCode × Option (List ℕ) × Nand
unfolding attempts
nand_page_read_with_retry s block page buf =
    condemned_read block (attempts (read_once block page) is_not_mapped retry_count ret_ok (buf, s))

-- A failure changes nothing.
page_write_kept :
    (s : Nand) (block page : ℕ) (buf : Option (List ℕ))
    → is_ok (nand_page_write s block page buf).0 ≡ false
    → (nand_page_write s block page buf).1 ≡ s
unfolding nand_page_write page_write
page_write_kept s block page none bad = refl
page_write_kept s block page (some buf) bad =
    let Kept = λ (r : RetCode × Nand). is_ok r.0 ≡ false → r.1 ≡ s in
    let blk = s.blocks block in
    if_cases Kept (not (is_block_valid s block) || leb pages_per_block page) (λ _ _. refl)
      (λ _.
        if_cases Kept (is_bad blk.state) (λ _ _. refl)
          (λ _.
            if_cases Kept (blk.page_valid page == 1) (λ _ _. refl)
              (λ _ no. absurd (true≢false no))))
      bad

page_read_kept :
    (block page : ℕ) (b : Option (List ℕ) × Nand)
    → is_ok (read_once block page b).0 ≡ false
    → (read_once block page b).1 ≡ b
unfolding nand_page_read page_read
page_read_kept block page (none, s) bad = refl
page_read_kept block page (some buf, s) bad =
    let Kept = λ (r : RetCode × List ℕ × Nand).
      is_ok r.0 ≡ false → ◌≡◌ {A = Option (List ℕ) × Nand} (some r.1, r.2) (some buf, s) in
    let blk = s.blocks block in
    if_cases Kept (not (is_block_valid s block) || leb pages_per_block page) (λ _ _. refl)
      (λ _.
        if_cases Kept (is_bad blk.state) (λ _ _. refl)
          (λ _.
            if_cases Kept (not (blk.page_valid page == 1)) (λ _ _. refl)
              (λ _ no. absurd (true≢false no))))
      bad

-- To try again never helps: `nand_page_write_with_retry` is one `nand_page_write`, and
-- `nand_page_read_with_retry` one `nand_page_read`, after which any failure marks the block bad, as worn, and
-- answers `err_bad_block`.
pub with_retry_once :
    (s : Nand) (block page : ℕ) (buf : Option (List ℕ))
    → (nand_page_write_with_retry s block page buf
        ≡ condemned block (nand_page_write s block page buf))
      × (nand_page_read_with_retry s block page buf
          ≡ condemned_read block (read_once block page (buf, s)))
unfolding nand_page_write_with_retry nand_page_read_with_retry
with_retry_once s block page buf = (
  ap (condemned block) (
      attempts_once (λ (t : Nand). nand_page_write t block page buf) is_overwrite 2 s ret_ok
        (page_write_kept s block page buf)),
  ap (condemned_read block) (
      attempts_once (read_once block page) is_not_mapped 2 (buf, s) ret_ok
        (page_read_kept block page (buf, s))),
)
