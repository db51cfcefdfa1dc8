-- ===== src/Ftl/Mapping/Worn.antt =====
-- modules/ftl/ftl.c: dynamic wear levelling moves no data.
use ftl_firmware.Common.{ℕ, Bool, true, false, Option, none, some, List, if◌then◌else◌}
use ftl_firmware.Nand.Pages.{Holds-mark_cold_block}
use ftl_firmware.Ftl.State.{Ftl}
use ftl_firmware.Ftl.Wear.{mark_cold, wear_leveling_check}
use ftl_firmware.Ftl.Mapping.{Serves}
use ftl_firmware.Ftl.Mapping.Copy.{Serves-nand}

mark_cold-Serves :
    (s : Ftl) (content : ℕ → List ℕ) (o : Option ℕ)
    → Serves s content
    → Serves (mark_cold s o) content
unfolding mark_cold
mark_cold-Serves s content none h = h
mark_cold-Serves s content (some b) h =
    let kept = Serves-nand _ (λ c q d. Holds-mark_cold_block b) h in
    record {
      placed = kept.placed;
      named = kept.named;
      backed = kept.backed;
      outside = kept.outside;
    }

either-Serves :
    (b : Bool) {s t : Ftl} {content : ℕ → List ℕ}
    → Serves s content
    → Serves t content
    → Serves (if b then s else t) content
either-Serves true hs ht = hs
either-Serves false hs ht = ht

-- Dynamic wear levelling keeps every mapped page readable with its data and both tables in agreement,
-- whatever it finds.
pub wear_leveling_check-Serves :
    (s : Ftl) (content : ℕ → List ℕ) → Serves s content → Serves (wear_leveling_check s) content
unfolding wear_leveling_check
wear_leveling_check-Serves s content h = either-Serves _ (mark_cold-Serves s content _ h) h
