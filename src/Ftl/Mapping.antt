-- ===== src/Ftl/Mapping.antt =====
-- modules/ftl/ftl.c: what the two tables and the device say together.
pub mod Copy
pub mod Loop
pub mod Tidy
pub mod Collected
pub mod Written
pub mod Moved
pub mod Committed
pub mod Logged
pub mod Kept
pub mod Settings
pub mod Finished
pub mod Answered
pub mod Hosted
pub mod Returned
pub mod Collections
pub mod Round
pub mod Recycled
pub mod Trimmed
pub mod Reads
pub mod Worn
pub mod Freed
pub mod Restored
pub mod Started
pub mod Entries
pub mod Replayed
pub mod Journal
pub mod History
pub mod Erased
use ftl_firmware.Common.{ℕ, ◌+◌, ◌*◌, ◌/◌, ◌%◌, ◌^◌, ◌<◌, ◌≡◌, ◌≢◌, List}
use ftl_firmware.Nand.Pages.{Holds}
use ftl_firmware.Ftl.State.{Ftl, invalid, total_lpns, ppn_to_block, ppn_to_page}

-- The two tables agree, and each mapped page `lpn` holds `content lpn`.
pub record Serves (s : Ftl) (content : ℕ → List ℕ) : Type 0 where
  pub placed :
      (lpn : ℕ)
      → lpn < total_lpns
      → s.l2p_table lpn ≢ invalid
      → Holds s.nand (ppn_to_block (s.l2p_table lpn)) (ppn_to_page (s.l2p_table lpn)) (content lpn)
  pub named :
      (lpn : ℕ)
      → lpn < total_lpns
      → s.l2p_table lpn ≢ invalid
      → s.reverse_map (s.l2p_table lpn) ≡ lpn
  pub backed :
      (ppn : ℕ)
      → s.reverse_map ppn ≢ invalid
      → (s.reverse_map ppn < total_lpns) × (s.l2p_table (s.reverse_map ppn) ≡ ppn)
  pub outside : s.reverse_map invalid ≡ invalid
