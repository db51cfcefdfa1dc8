-- ===== src/Ftl/Mapping/Collected.antt =====
-- modules/ftl/ftl.c: garbage collection keeps the layer tidy, however it ends.
use ftl_firmware.Common.{
  ℕ, zero, suc, ◌+◌, sym, subst, Bool, true, false, Option, none, some, List, ◌==◌, inc32, is_ok,
  Bool-cases, inl, inr,
}
use ftl_firmware.Nand.{pages_per_block, nand_is_page_valid}
use ftl_firmware.Ftl.State.{Ftl, invalid, block_page_to_ppn, ftl_alloc_phy_page}
use ftl_firmware.Ftl.State.Alloc.{IsPlaced, ftl_alloc_phy_page-IsPlaced}
use ftl_firmware.Ftl.Select.{Floats, gc_select_victim_block}
use ftl_firmware.Ftl.Recycle.{
  write_page, store_given, copy_page, recycle_page, recycle_pages, recycle_block, recycle_chosen,
  gc_do_recycle,
}
use ftl_firmware.Ftl.Mapping.Copy.{outcome}
use ftl_firmware.Ftl.Mapping.Tidy.{
  IsTidy, write_page-IsTidy, read_page-IsTidy, erase_block-IsTidy, IsPlaced-IsTidy,
}

-- Only the device and the write pointer matter.
outcome-IsTidy :
    {s : Ftl} (lpn old new : ℕ) (ok : Bool) → IsTidy s → IsTidy (outcome s lpn old new ok).1
outcome-IsTidy lpn old new true t = record { counted = t.counted; ahead = t.ahead }
outcome-IsTidy lpn old new false t = t

store_given-IsTidy :
    {s : Ftl} (o : Option ℕ × Ftl) (lpn old : ℕ) (buf : List ℕ)
    → IsTidy s
    → IsPlaced s o
    → IsTidy (store_given o lpn old buf).1
unfolding store_given
store_given-IsTidy (none, s') lpn old buf t e = subst IsTidy (sym e) t
store_given-IsTidy (some ppn, s') lpn old buf t placed =
    let (tidy, given) = IsPlaced-IsTidy ppn s' t placed in
    outcome-IsTidy lpn old ppn (is_ok (write_page s' ppn buf).0)
      (write_page-IsTidy ppn buf tidy given)

copy_page-IsTidy :
    {s : Ftl} (lpn old : ℕ) (buf : List ℕ) → IsTidy s → IsTidy (copy_page s lpn old buf).1
unfolding copy_page
copy_page-IsTidy {s} lpn old buf t =
    store_given-IsTidy (ftl_alloc_phy_page s) lpn old buf t
      (ftl_alloc_phy_page-IsPlaced s t.ahead.0)

recycle_page-IsTidy :
    {s : Ftl} (v p : ℕ) (buf : List ℕ) → IsTidy s → IsTidy (recycle_page s v p buf).2
unfolding recycle_page
recycle_page-IsTidy {s} v p buf t = elim (Bool-cases (nand_is_page_valid s.nand v p)) [
  | inr e ↦ rw e t
  | inl e ↦ elim (Bool-cases (s.reverse_map (block_page_to_ppn v p) == invalid)) [
    | inl u ↦ rw (e, u) t
    | inr n ↦ rw (e, n) (copy_page-IsTidy _ _ _ (read_page-IsTidy v p buf t))
  ]
]

recycle_pages-IsTidy :
    (left : ℕ) (s : Ftl) (v p : ℕ) (buf : List ℕ)
    → IsTidy s
    → IsTidy (recycle_pages s v left p buf).1
unfolding recycle_pages
recycle_pages-IsTidy zero s v p buf t = t
recycle_pages-IsTidy (suc left) s v p buf t =
    let (ret, buf', s') = recycle_page s v p buf in
    let t' = recycle_page-IsTidy v p buf t in
    elim (Bool-cases (is_ok ret)) [
      | inl e ↦ rw e (recycle_pages-IsTidy left s' v (p + 1) buf' t')
      | inr e ↦ rw e t'
    ]

recycle_chosen-IsTidy :
    {s : Ftl} (buf : List ℕ) (o : Option ℕ) → IsTidy s → IsTidy (recycle_chosen s buf o).1
unfolding recycle_chosen recycle_block
recycle_chosen-IsTidy buf none t = t
recycle_chosen-IsTidy {s} buf (some v) t =
    let counted = record s { gc_count = inc32 s.gc_count } in
    let t0 : IsTidy counted = record { counted = t.counted; ahead = t.ahead } in
    let looped = recycle_pages counted v pages_per_block 0 buf in
    let t1 = recycle_pages-IsTidy pages_per_block counted v 0 buf t0 in
    elim (Bool-cases (is_ok looped.0)) [
      | inl ok ↦ rw ok (erase_block-IsTidy v t1)
      | inr failed ↦ rw failed t1
    ]

-- Garbage collection keeps every block's count of valid pages right and the pages behind the write
-- pointer not valid, whichever block is chosen and whether it succeeds or fails.
pub gc_do_recycle-IsTidy :
    (fl : Floats) (s : Ftl) (page_buf : List ℕ) → IsTidy s → IsTidy (gc_do_recycle fl s page_buf).1
unfolding gc_do_recycle
gc_do_recycle-IsTidy fl s page_buf t =
    recycle_chosen-IsTidy page_buf (gc_select_victim_block fl s) t
