-- ===== src/Nand/Pages.antt =====
-- modules/nand/nand.c: data in a page. `Holds s b p d`: page `p` of block `b` is readable and a read
-- gives `d`. Each operation on the device keeps what other pages hold, and a write never replaces it.
use ftl_firmware.Common.{
  ℕ, ◌<◌, ◌≡◌, ◌≢◌, true, false, List, ret_ok, err_overwrite, is_bad_block, arith, ◌⊎◌,
}
use ftl_firmware.Ecc.Hamming.{nand_ecc_hamming_encode}
use ftl_firmware.Ecc.Hamming.Page.{decode-stored}
use ftl_firmware.Nand.{
  Nand, total_blocks, pages_per_block, oob_magic, is_bad, decode_page, page_read,
  nand_get_block_state, free, used, nand_is_page_valid, page_write, nand_block_erase,
  nand_mark_page_invalid, nand_mark_cold_block,
}

pub record Holds (s : Nand) (b p : ℕ) (d : List ℕ) : Type 0 where
  pub ready : s.is_initialized ≡ true
  pub block_in : b < total_blocks
  pub page_in : p < pages_per_block
  pub sound : is_bad (s.blocks b).state ≡ false
  pub valid : (s.blocks b).page_valid p ≡ 1
  pub stored : s.media b p ≡ d
  pub marked : (s.oob b p).magic ≡ oob_magic
  pub checked : (s.oob b p).ecc ≡ (nand_ecc_hamming_encode d 0).1

-- A page that holds data reads as those data, whatever was in the buffer.
pub Holds-read :
    {s : Nand} {b p : ℕ} {d : List ℕ} (buf : List ℕ)
    → Holds s b p d
    → ((page_read s b p buf).0 ≡ ret_ok) × ((page_read s b p buf).1 ≡ d)
unfolding page_read decode_page
Holds-read {s} {b} {p} {d} buf h =
    ground (arith, decode-stored d s.ecc_counters, h.stored, h.checked, h.marked)

-- A read keeps what every page holds.
pub Holds-page_read :
    {s : Nand} {b p : ℕ} {d : List ℕ} (c q : ℕ) (buf : List ℕ)
    → Holds s b p d
    → Holds (page_read s c q buf).2 b p d
unfolding page_read
Holds-page_read c q buf h = ground arith

-- A write that succeeds leaves its data in the page.
pub page_write-Holds :
    (s : Nand) (b p : ℕ) (d : List ℕ)
    → (page_write s b p d).0 ≡ ret_ok
    → Holds (page_write s b p d).1 b p d
unfolding page_write
page_write-Holds s b p d e = ground arith

-- A page that holds data holds them after any write, with any outcome.
pub Holds-page_write :
    {s : Nand} {b p : ℕ} {d : List ℕ} (c q : ℕ) (e : List ℕ)
    → Holds s b p d
    → Holds (page_write s c q e).1 b p d
unfolding page_write
Holds-page_write c q e h = ground arith

-- A page that holds data is never written over: a write of any page leaves it with its data, and a
-- write of the page itself answers that the page is taken and leaves the device as it was.
pub page_write_lem :
    {s : Nand} {b p : ℕ} {d : List ℕ}
    → Holds s b p d
    → ((c q : ℕ) (e : List ℕ) → Holds (page_write s c q e).1 b p d)
      × ((e : List ℕ) → page_write s b p e ≡ (err_overwrite, s))
unfolding page_write
page_write_lem h = (λ c q e. Holds-page_write c q e h, λ e. ground (arith, h.valid))

-- An erasure of another block, with any outcome, keeps what a page holds.
pub Holds-erase :
    {s : Nand} {b p : ℕ} {d : List ℕ} (c draw : ℕ)
    → b ≢ c
    → Holds s b p d
    → Holds (nand_block_erase s c draw).1 b p d
unfolding nand_block_erase
Holds-erase c draw ne h = ground arith

-- So does the invalidation of another page.
pub Holds-mark_page_invalid :
    {s : Nand} {b p : ℕ} {d : List ℕ} (c q : ℕ)
    → (b ≢ c) ⊎ (p ≢ q)
    → Holds s b p d
    → Holds (nand_mark_page_invalid s c q).1 b p d
unfolding nand_mark_page_invalid
Holds-mark_page_invalid c q ne h = ground arith

-- So does the mark of a cold block.
pub Holds-mark_cold_block :
    {s : Nand} {b p : ℕ} {d : List ℕ} (c : ℕ)
    → Holds s b p d
    → Holds (nand_mark_cold_block s c).1 b p d
unfolding nand_mark_cold_block
Holds-mark_cold_block c h = ground arith

-- A write that succeeds went to a page that was not valid.
pub page_write-fresh :
    {s : Nand} {b p : ℕ} {d : List ℕ} (e : List ℕ)
    → (page_write s b p e).0 ≡ ret_ok
    → ¬ Holds s b p d
unfolding page_write
page_write-fresh e ok h = ground (arith, h.valid)

-- A write that succeeds went to a page of the device.
pub page_write-range :
    (s : Nand) (b p : ℕ) (e : List ℕ)
    → (page_write s b p e).0 ≡ ret_ok
    → (b < total_blocks) × (p < pages_per_block)
unfolding page_write
page_write-range s b p e ok = ground arith

-- A write leaves the flags of the other pages, and a block in use stays in use.
pub page_write-elsewhere :
    (s : Nand) (b p c q : ℕ) (e : List ℕ)
    → (b ≢ c) ⊎ (p ≢ q)
    → ((page_write s c q e).1.blocks b).page_valid p ≡ (s.blocks b).page_valid p
unfolding page_write
page_write-elsewhere s b p c q e ne = ground arith

pub page_write-used :
    (s : Nand) (b c q : ℕ) (e : List ℕ)
    → nand_get_block_state s b ≡ used
    → nand_get_block_state (page_write s c q e).1 b ≡ used
unfolding page_write
page_write-used s b c q e u = ground arith

-- A read changes neither the flags nor the state of a block.
pub page_read-valid :
    (s : Nand) (b c q : ℕ) (buf : List ℕ)
    → ((page_read s c q buf).2.blocks b).page_valid ≡ (s.blocks b).page_valid
unfolding page_read
page_read-valid s b c q buf = ground arith

pub page_read-state :
    (s : Nand) (b c q : ℕ) (buf : List ℕ)
    → nand_get_block_state (page_read s c q buf).2 b ≡ nand_get_block_state s b
unfolding page_read
page_read-state s b c q buf = ground arith

-- A page that holds data is valid.
pub Holds-is_page_valid :
    {s : Nand} {b p : ℕ} {d : List ℕ} → Holds s b p d → nand_is_page_valid s b p ≡ true
Holds-is_page_valid h = ground arith

-- The flag of a page that tests as valid is 1.
pub is_page_valid-flag :
    (s : Nand) (b p : ℕ) → nand_is_page_valid s b p ≡ true → (s.blocks b).page_valid p ≡ 1
is_page_valid-flag s b p e = ground arith

-- An erasure that succeeds leaves the block free, with no valid page.
pub erase-frees :
    (s : Nand) (b draw : ℕ)
    → (nand_block_erase s b draw).0 ≡ ret_ok
    → (nand_get_block_state (nand_block_erase s b draw).1 b ≡ free)
      × ((q : ℕ) → ((nand_block_erase s b draw).1.blocks b).page_valid q ≡ 0)
unfolding nand_block_erase
erase-frees s b draw ok = (ground arith, λ q. ground arith)

-- An erasure makes no page valid.
pub erase-valid :
    (s : Nand) (b draw c q : ℕ)
    → ((nand_block_erase s b draw).1.blocks c).page_valid q ≡ 1
    → (s.blocks c).page_valid q ≡ 1
unfolding nand_block_erase
erase-valid s b draw c q one = ground arith

-- A write is refused for a bad block only if the block is bad, and then changes nothing.
pub page_write-bad :
    (s : Nand) (b p : ℕ) (e : List ℕ)
    → is_bad_block (page_write s b p e).0 ≡ true
    → (is_bad (s.blocks b).state ≡ true) × (b < total_blocks) × ((page_write s b p e).1 ≡ s)
unfolding page_write
page_write-bad s b p e bad = ground arith

-- So does the invalidation of a page.
pub mark_page_invalid-valid :
    (s : Nand) (b p c q : ℕ)
    → ((nand_mark_page_invalid s b p).1.blocks c).page_valid q ≡ 1
    → (s.blocks c).page_valid q ≡ 1
unfolding nand_mark_page_invalid
mark_page_invalid-valid s b p c q one = ground arith
