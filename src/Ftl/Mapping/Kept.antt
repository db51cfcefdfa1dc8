-- ===== src/Ftl/Mapping/Kept.antt =====
-- modules/ftl/ftl.c: garbage collection leaves the mode of mapping and the count of writes since the
-- last check of static wear alone, and keeps every page mapped that is mapped.
use ftl_firmware.Common.{
  ℕ, zero, suc, ◌+◌, ◌≡◌, ◌≢◌, refl, sym, ap, ◌∙◌, Bool, Option, none, some, List, not, ◌==◌, ltb,
  if_cases, update-cases, RetCode, inc32, is_ok, is_ok_sound, Bool-cases, inl, inr,
}
use ftl_firmware.Nand.{pages_per_block, nand_is_page_valid}
use ftl_firmware.Ftl.State.{
  Ftl, MapMode, invalid, block_page_to_ppn, ftl_alloc_phy_page, ftl_find_next_free_block,
}
use ftl_firmware.Ftl.Select.{Floats, gc_select_victim_block}
use ftl_firmware.Ftl.Recycle.{
  read_page, write_page, remap, store_copy, store_given, copy_page, recycle_page, recycle_pages,
  recycle_block, recycle_chosen, gc_do_recycle,
}
use ftl_firmware.Ftl.Mapping.Copy.{page_write-real}

-- The count of writes, the mode, and whether the layer is ready.
abbrev pub Settings : Type 0
Settings = ℕ × MapMode × Bool

abbrev pub settings : Ftl → Settings
settings s = (s.write_since_last_check, s.map_mode, s.is_initialized)

pub record IsKept (s t : Ftl) : Type 0 where
  pub same_settings : settings t ≡ settings s
  pub still_mapped : (l : ℕ) → s.l2p_table l ≢ invalid → t.l2p_table l ≢ invalid

pub IsKept-trans : {r s t : Ftl} → IsKept r s → IsKept s t → IsKept r t
IsKept-trans h k = record {
  same_settings = k.same_settings ∙ h.same_settings;
  still_mapped = λ l m. k.still_mapped l (h.still_mapped l m);
}

-- Neither table nor settings change.
pub same-IsKept : {s t : Ftl} → settings t ≡ settings s → t.l2p_table ≡ s.l2p_table → IsKept s t
same-IsKept e f = record {
  same_settings = e;
  still_mapped = λ l m k. m (sym (ap (λ (g : ℕ → ℕ). g l) f) ∙ k);
}

-- A step with a status.
abbrev Kept : Ftl → RetCode × Ftl → Type 0
Kept s (ret, t) = IsKept s t

found-IsKept :
    (s : Ftl) (o : Option ℕ)
    → let r : Option ℕ × Ftl = elim o [
      | none ↦ (none, s)
      | some next ↦
          (some (block_page_to_ppn next 0), record s { cur_write_block = next; cur_write_page = 1 })
    ] in
      IsKept s r.1
found-IsKept s none = same-IsKept refl refl
found-IsKept s (some b) = same-IsKept refl refl

pub alloc-IsKept : (s : Ftl) → IsKept s (ftl_alloc_phy_page s).1
unfolding ftl_alloc_phy_page
alloc-IsKept s = elim (Bool-cases (ltb s.cur_write_page pages_per_block)) [
  | inl e ↦ rw e (same-IsKept refl refl)
  | inr e ↦ rw e (found-IsKept s (ftl_find_next_free_block s (inc32 s.cur_write_block)))
]

remap-IsKept : (s : Ftl) (lpn old new : ℕ) → new ≢ invalid → IsKept s (remap s lpn old new)
remap-IsKept s lpn old new real = record {
  same_settings = refl;
  still_mapped = λ l m k. elim (update-cases s.l2p_table lpn new l) [
    | inl (e, u) ↦ real (sym u ∙ k)
    | inr (ne, u) ↦ m (sym u ∙ k)
  ];
}

store_given-IsKept :
    (o : Option ℕ × Ftl) (lpn old : ℕ) (buf : List ℕ) → Kept o.1 (store_given o lpn old buf)
unfolding store_given store_copy
store_given-IsKept (none, s) lpn old buf = same-IsKept refl refl
store_given-IsKept (some new, s) lpn old buf =
    let w = write_page s new buf in
    if_cases (Kept s) (is_ok w.0)
      (λ ok.
        IsKept-trans {s = w.1} (same-IsKept refl refl)
          (remap-IsKept w.1 lpn old new (page_write-real s.nand new buf (is_ok_sound _ ok))))
      (λ _. same-IsKept refl refl)

copy_page-IsKept : (s : Ftl) (lpn old : ℕ) (buf : List ℕ) → Kept s (copy_page s lpn old buf)
unfolding copy_page
copy_page-IsKept s lpn old buf =
    IsKept-trans (alloc-IsKept s) (store_given-IsKept (ftl_alloc_phy_page s) lpn old buf)

abbrev Passed : Ftl → RetCode × List ℕ × Ftl → Type 0
Passed s (ret, buf, t) = IsKept s t

recycle_page-IsKept : (s : Ftl) (v p : ℕ) (buf : List ℕ) → Passed s (recycle_page s v p buf)
unfolding recycle_page
recycle_page-IsKept s v p buf =
    let r = read_page s v p buf in
    let old = block_page_to_ppn v p in
    if_cases (Passed s) (not (nand_is_page_valid s.nand v p)) (λ _. same-IsKept refl refl)
      (λ _.
        if_cases (Passed s) (s.reverse_map old == invalid) (λ _. same-IsKept refl refl)
          (λ _.
            IsKept-trans {s = r.1} (same-IsKept refl refl)
              (copy_page-IsKept r.1 (s.reverse_map old) old r.0)))

recycle_pages-IsKept :
    (left : ℕ) (s : Ftl) (v p : ℕ) (buf : List ℕ) → Kept s (recycle_pages s v left p buf)
unfolding recycle_pages
recycle_pages-IsKept zero s v p buf = same-IsKept refl refl
recycle_pages-IsKept (suc left) s v p buf =
    let r = recycle_page s v p buf in
    if_cases (Kept s) (is_ok r.0)
      (λ _.
        IsKept-trans (recycle_page-IsKept s v p buf) (recycle_pages-IsKept left r.2 v (p + 1) r.1))
      (λ _. recycle_page-IsKept s v p buf)

recycle_chosen-IsKept : (s : Ftl) (buf : List ℕ) (o : Option ℕ) → Kept s (recycle_chosen s buf o)
unfolding recycle_chosen recycle_block
recycle_chosen-IsKept s buf none = same-IsKept refl refl
recycle_chosen-IsKept s buf (some v) =
    let counted = record s { gc_count = inc32 s.gc_count } in
    let looped = recycle_pages counted v pages_per_block 0 buf in
    let all =
      IsKept-trans {s = counted} (same-IsKept refl refl)
        (recycle_pages-IsKept pages_per_block counted v 0 buf) in
    if_cases (Kept s) (is_ok looped.0) (λ _. IsKept-trans all (same-IsKept refl refl)) (λ _. all)

pub gc_do_recycle-IsKept :
    (fl : Floats) (s : Ftl) (buf : List ℕ) → IsKept s (gc_do_recycle fl s buf).1
unfolding gc_do_recycle
gc_do_recycle-IsKept fl s buf = recycle_chosen-IsKept s buf (gc_select_victim_block fl s)
