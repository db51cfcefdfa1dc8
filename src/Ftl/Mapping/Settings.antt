-- ===== src/Ftl/Mapping/Settings.antt =====
-- modules/ftl/ftl.c: the mode of mapping and the count of writes since the last check of static wear,
-- through the write of a page.
use ftl_firmware.Common.{
  ℕ, zero, suc, ◌+◌, ◌≡◌, refl, ap, ◌∙◌, Bool, Option, none, some, List, not, ◌==◌, leb, if_cases,
  if_same, RetCode, is_ok, is_bad_block, Bool-cases, inl, inr,
}
use ftl_firmware.Nand.{pages_per_block, total_blocks, nand_replace_bad_block, user_blocks}
use ftl_firmware.Ftl.State.{
  WalEntry, Ftl, invalid, ppn_to_block, block_page_to_ppn, ftl_alloc_phy_page,
}
use ftl_firmware.Ftl.Recycle.{write_page}
use ftl_firmware.Ftl.Replace.{
  remap_page, remap_pages, replaced, replace_answered, ftl_replace_bad_block,
}
use ftl_firmware.Ftl.Wear.{scan_wear, mark_cold, wear_leveling_check}
use ftl_firmware.Ftl.Mapping.Kept.{Settings, settings, alloc-IsKept}
use ftl_firmware.Ftl.Write.{write_again, replace_and_write, write_data, drop_old, commit_page}

-- A step with a status keeps the settings.
abbrev Keeps : Ftl → RetCode × Ftl → Type 0
Keeps s (ret, t) = settings t ≡ settings s

-- The replacement of a bad block.
remap_page-settings : (s : Ftl) (c r page : ℕ) → settings (remap_page s c r page).1 ≡ settings s
unfolding remap_page
remap_page-settings s c r page =
    if_cases (λ (b : Bool × Ftl). settings b.1 ≡ settings s)
      (s.reverse_map (block_page_to_ppn c page) == invalid) (λ _. refl) (λ _. refl)

remap_pages-settings :
    (left page : ℕ) (s : Ftl) (c r moved : ℕ)
    → settings (remap_pages left page s c r moved).1 ≡ settings s
unfolding remap_pages
remap_pages-settings zero page s c r moved = refl
remap_pages-settings (suc left) page s c r moved =
    remap_pages-settings left (page + 1) (remap_page s c r page).1 c r _
    ∙ remap_page-settings s c r page

answered-settings :
    (s : Ftl) (c : ℕ) (ret : RetCode) (o : Option ℕ) → Keeps s (replace_answered s c ret o)
unfolding replace_answered replaced
answered-settings s c ret none = refl
answered-settings s c ret (some r) = remap_pages-settings pages_per_block 0 s c r 0

replace-settings :
    (s : Ftl) (c : ℕ) (page_buf : List ℕ) → Keeps s (ftl_replace_bad_block s c page_buf)
unfolding ftl_replace_bad_block
replace-settings s c page_buf =
    let a = nand_replace_bad_block s.nand c page_buf in
    let answered = answered-settings (record s { nand = a.2 }) c a.0 a.1 in
    if_cases (Keeps s) (not s.is_initialized) (λ _. refl)
      (λ _. if_cases (Keeps s) (leb total_blocks c) (λ _. refl) (λ _. answered))

-- The write of the data.
abbrev KeepsAt : Ftl → RetCode × ℕ × Ftl → Type 0
KeepsAt s (ret, ppn, t) = settings t ≡ settings s

write_again-settings : (o : Option ℕ × Ftl) (buf : List ℕ) → KeepsAt o.1 (write_again o buf)
unfolding write_again
write_again-settings (none, s) buf = refl
write_again-settings (some ppn, s) buf = refl

pub write_data-settings :
    (s : Ftl) (ppn : ℕ) (buf page_buf : List ℕ) → KeepsAt s (write_data s ppn buf page_buf)
unfolding write_data replace_and_write
write_data-settings s ppn buf page_buf =
    let w = write_page s ppn buf in
    let r = ftl_replace_bad_block w.1 (ppn_to_block ppn) page_buf in
    let kept = replace-settings w.1 (ppn_to_block ppn) page_buf in
    if_cases (KeepsAt s) (is_bad_block w.0)
      (λ _.
        if_cases (KeepsAt s) (is_ok r.0)
          (λ _.
            write_again-settings (ftl_alloc_phy_page r.1) buf
            ∙ (alloc-IsKept r.1).same_settings
            ∙ kept)
          (λ _. kept))
      (λ _. refl)

-- The tables, and dynamic wear levelling.
pub commit_page-settings : (s : Ftl) (lpn ppn : ℕ) → settings (commit_page s lpn ppn) ≡ settings s
unfolding commit_page drop_old
commit_page-settings s lpn ppn = elim (Bool-cases (s.l2p_table lpn == invalid)) [
  | inl e ↦ rw e refl
  | inr e ↦ rw e refl
]

-- What dynamic wear levelling leaves alone: the settings, the tables, and the log.
abbrev pub Watched : Type 0
Watched = Settings × (ℕ → ℕ) × (ℕ → ℕ) × Option (List WalEntry) × Bool × (ℕ → Bool)

abbrev pub watched : Ftl → Watched
watched s = (settings s, s.l2p_table, s.reverse_map, s.wal_file, s.wal_enabled, s.log_accepts)

mark_cold-watched : (s : Ftl) (o : Option ℕ) → watched (mark_cold s o) ≡ watched s
unfolding mark_cold
mark_cold-watched s none = refl
mark_cold-watched s (some b) = refl

pub wear_leveling_check-watched : (s : Ftl) → watched (wear_leveling_check s) ≡ watched s
unfolding wear_leveling_check
wear_leveling_check-watched s =
    let w =
      scan_wear s.nand user_blocks 0
        (record { max_erase = 0; min_erase = 0xffffffff; cold_block = none }) in
    if_same watched _ s (mark_cold s w.cold_block) s (mark_cold-watched s w.cold_block) refl

pub wear_leveling_check-settings : (s : Ftl) → settings (wear_leveling_check s) ≡ settings s
wear_leveling_check-settings s = ap (λ (w : Watched). w.0) (wear_leveling_check-watched s)

pub wear_leveling_check-l2p : (s : Ftl) → (wear_leveling_check s).l2p_table ≡ s.l2p_table
wear_leveling_check-l2p s = ap (λ (w : Watched). w.1) (wear_leveling_check-watched s)
