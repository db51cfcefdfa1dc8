-- ===== src/Nand/Invariant.antt =====
-- modules/nand/nand.c: the count of valid pages that each block carries, and the state that goes
-- with it.
use ftl_firmware.Common.{
  ℕ, zero, suc, ◌+◌, ◌≤◌, ◌<◌, ◌≡◌, ◌≢◌, refl, [], ◌∷◌, true, List, ◌==◌, if◌then◌else◌, update,
  arith,
}
use ftl_firmware.Nand.{
  Nand, PhyBlock, BadBlockType, free, pages_per_block, is_free, is_used, page_read, page_write,
  nand_block_erase, nand_mark_page_invalid, nand_mark_block_bad, nand_mark_cold_block,
  is_block_valid,
}

-- The valid pages among the first `n` of a block.
unfoldable pub valid_pages : (ℕ → ℕ) → ℕ → ℕ
valid_pages f zero = 0
valid_pages f (suc n) = valid_pages f n + (if f n == 1 then 1 else 0)

-- A block counts its valid pages; it is free only with none and used only with some.
pub record IsCounted (blk : PhyBlock) : Type 0 where
  pub counted : blk.valid_page_cnt ≡ valid_pages blk.page_valid pages_per_block
  pub free_empty : is_free blk.state ≡ true → blk.valid_page_cnt ≡ 0
  pub used_some : is_used blk.state ≡ true → 0 < blk.valid_page_cnt

valid_pages-le : (f : ℕ → ℕ) (n : ℕ) → valid_pages f n ≤ n
unfolding valid_pages
valid_pages-le f zero = omega arith
valid_pages-le f (suc n) = ground (arith, valid_pages-le f n)

valid_pages-update_above :
    (f : ℕ → ℕ) (p v n : ℕ) → n ≤ p → valid_pages (update f p v) n ≡ valid_pages f n
unfolding valid_pages
valid_pages-update_above f p v zero h = refl
valid_pages-update_above f p v (suc n) h = ground (arith, valid_pages-update_above f p v n)

valid_pages-set :
    (f : ℕ → ℕ) (p n : ℕ) → p < n → f p ≢ 1 → valid_pages (update f p 1) n ≡ valid_pages f n + 1
unfolding valid_pages
valid_pages-set f p zero h ne = absurd (omega arith)
valid_pages-set f p (suc n) h ne =
    ground (arith, valid_pages-set f p n, valid_pages-update_above f p 1 n)

valid_pages-clear :
    (f : ℕ → ℕ) (p n : ℕ) → p < n → f p ≡ 1 → valid_pages f n ≡ valid_pages (update f p 0) n + 1
unfolding valid_pages
valid_pages-clear f p zero h e = absurd (omega arith)
valid_pages-clear f p (suc n) h e =
    ground (arith, valid_pages-clear f p n, valid_pages-update_above f p 0 n)

valid_pages-zero : (n : ℕ) → valid_pages (λ _. 0) n ≡ 0
unfolding valid_pages
valid_pages-zero zero = refl
valid_pages-zero (suc n) = ground (arith, valid_pages-zero n)

-- A block with a valid page counts at least one.
pub valid_pages-pos : (f : ℕ → ℕ) (p n : ℕ) → p < n → f p ≡ 1 → 0 < valid_pages f n
valid_pages-pos f p n h e = omega (arith, valid_pages-clear f p n h e)

-- A free block that counts its pages has no valid one.
pub IsCounted-free :
    {blk : PhyBlock} (q : ℕ)
    → IsCounted blk
    → is_free blk.state ≡ true
    → q < pages_per_block
    → blk.page_valid q ≢ 1
IsCounted-free {blk} q c is lt one =
    let some_page = valid_pages-pos blk.page_valid q pages_per_block lt one in
    omega (arith, c.counted, c.free_empty is, some_page)

pub page_read-IsCounted :
    (s : Nand) (b p : ℕ) (buf : List ℕ) (c : ℕ)
    → IsCounted (s.blocks c)
    → IsCounted ((page_read s b p buf).2.blocks c)
unfolding page_read
page_read-IsCounted s b p buf c v = ground arith

pub page_write-IsCounted :
    (s : Nand) (b p : ℕ) (d : List ℕ) (c : ℕ)
    → IsCounted (s.blocks b)
    → IsCounted (s.blocks c)
    → IsCounted ((page_write s b p d).1.blocks c)
unfolding page_write
page_write-IsCounted s b p d c w v = ground (
  arith,
  valid_pages-set (s.blocks b).page_valid p pages_per_block,
  valid_pages-le (s.blocks b).page_valid pages_per_block,
)

pub erase-IsCounted :
    (s : Nand) (b draw c : ℕ)
    → IsCounted (s.blocks b)
    → IsCounted (s.blocks c)
    → IsCounted ((nand_block_erase s b draw).1.blocks c)
unfolding nand_block_erase
erase-IsCounted s b draw c w v = ground (arith, valid_pages-zero pages_per_block)

pub mark_page_invalid-IsCounted :
    (s : Nand) (b p c : ℕ)
    → IsCounted (s.blocks b)
    → IsCounted (s.blocks c)
    → IsCounted ((nand_mark_page_invalid s b p).1.blocks c)
unfolding nand_mark_page_invalid
mark_page_invalid-IsCounted s b p c w v = ground (
  arith,
  valid_pages-clear (s.blocks b).page_valid p pages_per_block,
  valid_pages-le (s.blocks b).page_valid pages_per_block,
)

pub mark_block_bad-IsCounted :
    (s : Nand) (b : ℕ) (t : BadBlockType) (c : ℕ)
    → IsCounted (s.blocks c)
    → IsCounted ((nand_mark_block_bad s b t).1.blocks c)
unfolding nand_mark_block_bad
mark_block_bad-IsCounted s b t c v = ground (arith, valid_pages-zero pages_per_block)

-- The operations that a client has on pages and blocks.
pub data Op : Type 0 where
  reads : ℕ → ℕ → List ℕ → Op
  writes : ℕ → ℕ → List ℕ → Op
  erases : ℕ → ℕ → Op
  invalidates : ℕ → ℕ → Op
  marks_bad : ℕ → BadBlockType → Op

unfoldable pub step : Nand → Op → Nand
step s (reads b p buf) = (page_read s b p buf).2
step s (writes b p d) = (page_write s b p d).1
step s (erases b draw) = (nand_block_erase s b draw).1
step s (invalidates b p) = (nand_mark_page_invalid s b p).1
step s (marks_bad b t) = (nand_mark_block_bad s b t).1

unfoldable pub run : Nand → List Op → Nand
run s [] = s
run s (o ∷ os) = run (step s o) os

step-IsCounted :
    (s : Nand) (o : Op)
    → ((c : ℕ) → IsCounted (s.blocks c))
    → (c : ℕ) → IsCounted ((step s o).blocks c)
unfolding step
step-IsCounted s (reads b p buf) v c = page_read-IsCounted s b p buf c (v c)
step-IsCounted s (writes b p d) v c = page_write-IsCounted s b p d c (v b) (v c)
step-IsCounted s (erases b draw) v c = erase-IsCounted s b draw c (v b) (v c)
step-IsCounted s (invalidates b p) v c = mark_page_invalid-IsCounted s b p c (v b) (v c)
step-IsCounted s (marks_bad b t) v c = mark_block_bad-IsCounted s b t c (v c)

-- Reads, writes, erasures, invalidations and bad-block marks, in any order and with any outcome,
-- keep every block's count equal to its number of valid pages, with no valid page in a free block
-- and at least one in a used block.
pub run-IsCounted :
    (s : Nand) (os : List Op)
    → ((c : ℕ) → IsCounted (s.blocks c))
    → (c : ℕ) → IsCounted ((run s os).blocks c)
unfolding run
run-IsCounted s [] v c = v c
run-IsCounted s (o ∷ os) v c = run-IsCounted (step s o) os (step-IsCounted s o v) c

-- `nand_mark_cold_block` breaks the count: take a used, well-counted block with two valid pages or
-- more. Marked cold, it becomes free as soon as one valid page is invalidated, and its other valid
-- pages are still valid.
pub mark_cold_block-frees :
    (s : Nand) (b p q : ℕ)
    → is_block_valid s b ≡ true
    → IsCounted (s.blocks b)
    → is_used (s.blocks b).state ≡ true
    → p < pages_per_block
    → q < pages_per_block
    → p ≢ q
    → (s.blocks b).page_valid p ≡ 1
    → (s.blocks b).page_valid q ≡ 1
    → let s' = (nand_mark_page_invalid (nand_mark_cold_block s b).1 b p).1 in
      ((s'.blocks b).state ≡ free) × ((s'.blocks b).page_valid q ≡ 1)
unfolding nand_mark_page_invalid nand_mark_cold_block
mark_cold_block-frees s b p q ready v u hp hq ne ep eq = ground arith
