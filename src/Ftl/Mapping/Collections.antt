-- ===== src/Ftl/Mapping/Collections.antt =====
-- modules/ftl/ftl.c: the collections that `ftl_write` makes before it writes.
use ftl_firmware.Common.{
  ℕ, zero, suc, ◌≤◌, ◌<◌, ◌≡◌, true, false, Option, none, some, List, RetCode, err_no_space, is_ok,
  ◌⊎◌,
}
use ftl_firmware.Nand.{nand_get_free_block_count}
use ftl_firmware.Ftl.State.{Ftl}
use ftl_firmware.Ftl.Select.{Floats}
use ftl_firmware.Ftl.Recycle.{gc_do_recycle}
use ftl_firmware.Ftl.Mapping.Returned.{answer}

module _ (fl : Floats) (page_buf : List ℕ) where
  -- The layer after `k` collections, one after the other.
  abbrev pub collected : ℕ → Ftl → Ftl
  collected zero s = s
  collected (suc k) s = collected k (gc_do_recycle fl s page_buf).1

  -- At most five blocks are free, and a collection succeeds.
  abbrev pub GoesOn : Ftl → Type 0
  GoesOn s = (nand_get_free_block_count s.nand ≤ 5) × (is_ok (gc_do_recycle fl s page_buf).0 ≡ true)

  -- More than five blocks are free, and the data are written; or a collection fails, and so does the
  -- write.
  abbrev pub Ends : ℕ → List ℕ → Ftl → RetCode × Ftl → Type 0
  Ends lpn buf s r =
      ((5 < nand_get_free_block_count s.nand) × (r ≡ answer s lpn buf page_buf))
      ⊎ ((nand_get_free_block_count s.nand ≤ 5)
          × (is_ok (gc_do_recycle fl s page_buf).0 ≡ false)
          × (r ≡ (err_no_space, (gc_do_recycle fl s page_buf).1)))

  -- A write that answers goes on through some number of collections and ends there. A write that is still
  -- collecting after `fuel` of them goes on at each.
  abbrev pub Collects : ℕ → ℕ → List ℕ → Ftl → Option (RetCode × Ftl) → Type 0
  Collects fuel lpn buf s none = (k : ℕ) → k < fuel → GoesOn (collected k s)
  Collects fuel lpn buf s (some r) =
      (k : ℕ) × (k < fuel)
      × ((j : ℕ) → j < k → GoesOn (collected j s))
      × Ends lpn buf (collected k s) r
