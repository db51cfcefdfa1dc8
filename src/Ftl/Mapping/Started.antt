-- ===== src/Ftl/Mapping/Started.antt =====
-- modules/ftl/ftl.c: the layer that `ftl_init` leaves.
use ftl_firmware.Common.{
  ℕ, ◌<◌, ◌≡◌, ◌≢◌, refl, true, Option, none, some, List, RetCode, ret_ok, err_no_space, arith,
}
use ftl_firmware.Nand.{is_free, pages_per_block, total_blocks, nand_get_block_state}
use ftl_firmware.Nand.Invariant.{IsCounted, IsCounted-free}
use ftl_firmware.Ftl.State.{Ftl, invalid, ftl_find_next_free_block}
use ftl_firmware.Ftl.State.Alloc.{IsFree, find-IsFree}
use ftl_firmware.Ftl.Start.{started, ftl_init}
use ftl_firmware.Ftl.Mapping.Written.{IsSound}
use ftl_firmware.Ftl.Mapping.Kept.{settings}
use ftl_firmware.Ftl.Mapping.Finished.{IsCalm}

-- A layer that is ready for the host, with nothing mapped.
abbrev pub IsFresh : (ℕ → List ℕ) → Ftl → Type 0
IsFresh content t =
    IsSound content t
    × (t.is_initialized ≡ true)
    × IsCalm (settings t)
    × ((l : ℕ) → t.l2p_table l ≡ invalid)

-- If the search finds no free block, the answer says so, and the device and whether the layer is ready
-- are as they were. If it finds one, the answer is `ret_ok`, and the layer is fresh, with its write
-- pointer at the start of that block.
abbrev pub IsStarted : (ℕ → List ℕ) → Ftl → RetCode × Ftl → Type 0
IsStarted content s (ret, t) =
    (ftl_find_next_free_block s 0 ≡ none
      → (ret ≡ err_no_space) × (t.nand ≡ s.nand) × (t.is_initialized ≡ s.is_initialized))
    × ((b : ℕ)
        → ftl_find_next_free_block s 0 ≡ some b
        → (ret ≡ ret_ok) × IsFresh content t × (t.cur_write_block ≡ b) × (t.cur_write_page ≡ 0))

free_block-valid :
    (s : Ftl) (b q : ℕ)
    → ((c : ℕ) → IsCounted (s.nand.blocks c))
    → is_free (nand_get_block_state s.nand b) ≡ true
    → q < pages_per_block
    → (s.nand.blocks b).page_valid q ≢ 1
free_block-valid s b q counted is q_in = IsCounted-free q (counted b) (ground arith) q_in

found-IsStarted :
    (content : ℕ → List ℕ) (s : Ftl) (o : Option ℕ)
    → ftl_find_next_free_block s 0 ≡ o
    → ((c : ℕ) → IsCounted (s.nand.blocks c))
    → IsFree s.nand total_blocks o
    → IsStarted content s (elim o [
      | none ↦ (err_no_space, record s { l2p_table = λ _. invalid; reverse_map = λ _. invalid })
      | some first_block ↦ (ret_ok, started s first_block)
    ])
found-IsStarted content s none e counted f =
    (λ _. (refl, refl, refl), λ b found. absurd (ground (arith, e, found)))
found-IsStarted content s (some b) e counted (is, lt) = (
  λ nothing. absurd (ground (arith, e, nothing)),
  λ c found. (
    refl,
    (
      record {
        serves = record {
          placed = λ l i m. absurd (m refl);
          named = λ l i m. absurd (m refl);
          backed = λ p m. absurd (m refl);
          outside = refl;
        };
        tidy = record {
          counted = counted;
          ahead = (lt, λ q le q_in. free_block-valid s b q counted is q_in);
        };
      },
      refl,
      (omega arith, refl),
      λ l. refl,
    ),
    ground (arith, e, found),
    refl,
  ),
)

-- `ftl_init` over a device whose blocks count their valid pages answers that there is no space if the
-- search from block 0 finds no free block, and then the device and whether the layer is ready are as
-- they were. If it finds one, it answers RET_OK, sets the write pointer to the first page of that
-- block, and leaves a layer that is ready: sound, with nothing mapped, in page mapping, and with no
-- valid page from the write pointer to the end of the block.
pub ftl_init-IsStarted :
    (s : Ftl) (content : ℕ → List ℕ)
    → ((c : ℕ) → IsCounted (s.nand.blocks c))
    → IsStarted content s (ftl_init s)
unfolding ftl_init
ftl_init-IsStarted s content counted =
    found-IsStarted content s (ftl_find_next_free_block s 0) refl counted
      (find-IsFree s 0 (omega arith))
