-- ===== src/Ftl/Mapping/Finished.antt =====
-- modules/ftl/ftl.c: the end of a write that succeeded, in page mapping and with no check of static
-- wear due: dynamic wear levelling, and the count of writes.
use ftl_firmware.Common.{
  ℕ, ◌<◌, ◌≡◌, sym, ap, ◌∙◌, subst, false, List, lt→leb-false, if◌then◌else◌, if_false, inc32,
  arith,
}
use ftl_firmware.Ftl.State.{Ftl, is_hybrid}
use ftl_firmware.Ftl.Wear.{wear_leveling_check}
use ftl_firmware.Ftl.StaticWear.{static_wear_leveling_check}
use ftl_firmware.Ftl.Write.{commit_page, after_write, after_hybrid_write, finish_write}
use ftl_firmware.Ftl.Mapping.Kept.{Settings, settings}
use ftl_firmware.Ftl.Mapping.Settings.{commit_page-settings, wear_leveling_check-settings}

-- Neither the check of static wear nor a migration is due with the next write.
abbrev pub IsCalm : Settings → Type 0
IsCalm (n, mode, ready) = (n < 999) × (is_hybrid mode ≡ false)

module _ (s : Ftl) (calm : IsCalm (settings s)) (lpn ppn : ℕ) (page_buf : List ℕ) where
  abbrev pub committed : Ftl
  committed = commit_page s lpn ppn

  abbrev pub levelled : Ftl
  levelled = wear_leveling_check committed

  pub levelled-settings : settings levelled ≡ settings s
  levelled-settings = wear_leveling_check-settings committed ∙ commit_page-settings s lpn ppn

  levelled-IsCalm : IsCalm (settings levelled)
  levelled-IsCalm = subst IsCalm (sym levelled-settings) calm

  abbrev pub finished : Ftl
  finished = record levelled { write_since_last_check = inc32 levelled.write_since_last_check }

  after_write-finished : after_write committed page_buf ≡ finished
  unfolding after_write
  after_write-finished =
      let calm' = levelled-IsCalm in
      if_false _
        (static_wear_leveling_check (record levelled { write_since_last_check = 0 }) page_buf)
        finished
        (lt→leb-false 1000 (inc32 levelled.write_since_last_check) (omega (arith, calm'.0)))

  pub finish_write-finished : finish_write s lpn ppn page_buf ≡ finished
  unfolding finish_write
  finish_write-finished =
      ap (λ (t : Ftl). if is_hybrid t.map_mode then after_hybrid_write t lpn ppn else t)
        after_write-finished
      ∙ if_false _ (after_hybrid_write finished lpn ppn) finished levelled-IsCalm.1
