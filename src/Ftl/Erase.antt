-- ===== src/Ftl/Erase.antt =====
-- modules/ftl/ftl.c: secure erase.
use ftl_firmware.Common.{
  ℕ, zero, suc, ◌+◌, ◌%◌, ◌==◌, Bool, not, Option, none, some, List, [], ◌∷◌, leb, if◌then◌else◌,
  add32, RetCode, ret_ok, err_param, err_not_init, err_internal, is_ok,
}
use ftl_firmware.Nand.{page_size}
use ftl_firmware.Ftl.State.{Ftl, total_lpns}
use ftl_firmware.Ftl.Select.{Floats}
use ftl_firmware.Ftl.Trim.{clamp_count, ftl_trim}
use ftl_firmware.Ftl.Write.{ftl_write}

-- `memset` of a buffer of `size` bytes.
unfoldable pub filled : ℕ → ℕ → List ℕ
filled zero byte = []
filled (suc size) byte = byte ∷ filled size byte

-- The fifth case of the source is never reached.
unfoldable pub generate_erase_pattern : ℕ → ℕ → List ℕ
unfolding filled
generate_erase_pattern size pass =
    let kind = pass % 4 in
    filled size
      (if kind == 0 then 0 else if kind == 1 then 0xFF else if kind == 2 then 0xAA else 0x55)

-- What follows a step of the erase that succeeds; the first failure is the answer.
unfoldable pub erase_next :
    Option (RetCode × Ftl) → (Ftl → Option (RetCode × Ftl)) → Option (RetCode × Ftl)
erase_next none rest = none
erase_next (some (ret, s)) rest = if is_ok ret then rest s else some (ret, s)

module _ (fl : Floats) (fuel : ℕ) (page_buf : List ℕ) where
  -- The loop over `left` pages from page `i` on.
  unfoldable pub erase_pages : ℕ → ℕ → Ftl → ℕ → List ℕ → Option (RetCode × Ftl)
  unfolding erase_next
  erase_pages zero i s lpn buf = some (ret_ok, s)
  erase_pages (suc left) i s lpn buf =
      erase_next (ftl_write fl fuel s (add32 lpn i) (some buf) page_buf)
        (λ s'. erase_pages left (i + 1) s' lpn buf)

  -- The loop over `left` passes from pass `pass` on.
  unfoldable pub erase_passes : ℕ → ℕ → Ftl → ℕ → ℕ → Option (RetCode × Ftl)
  unfolding erase_pages erase_next generate_erase_pattern
  erase_passes zero pass s lpn count = some (ret_ok, s)
  erase_passes (suc left) pass s lpn count =
      erase_next (erase_pages count 0 s lpn (generate_erase_pattern page_size pass))
        (λ s'. erase_passes left (pass + 1) s' lpn count)

  -- `alloc` is whether `malloc` gives the buffer.
  unfoldable pub ftl_secure_erase : Ftl → ℕ → ℕ → ℕ → Bool → Option (RetCode × Ftl)
  unfolding erase_passes erase_next clamp_count
  ftl_secure_erase s lpn count passes alloc =
      let pages = clamp_count lpn count in
      if not s.is_initialized
      then some (err_not_init, s)
      else if count == 0
      then some (err_param, s)
      else if passes == 0
      then some (err_param, s)
      else if leb total_lpns lpn
      then some (err_param, s)
      else if not alloc
      then some (err_internal, s)
      else erase_next (erase_passes passes 0 s lpn pages) (λ s'. some (ftl_trim s' lpn pages))

  unfoldable pub ftl_secure_erase_all : Ftl → ℕ → Bool → Option (RetCode × Ftl)
  unfolding ftl_secure_erase
  ftl_secure_erase_all s passes alloc =
      if not s.is_initialized
      then some (err_not_init, s)
      else if passes == 0
      then some (err_param, s)
      else ftl_secure_erase s 0 total_lpns passes alloc
