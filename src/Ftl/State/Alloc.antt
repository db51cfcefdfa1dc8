-- ===== src/Ftl/State/Alloc.antt =====
-- modules/ftl/ftl.c: the page that `ftl_alloc_phy_page` gives.
use ftl_firmware.Common.{
  ℕ, zero, suc, ◌+◌, ◌-◌, ◌^◌, ◌≤◌, ◌<◌, ◌≡◌, refl, ap, subst, true, Option, none, some, ltb,
  ltb→lt, inc32, arith, ◌⊎◌, inl, inr, Bool-cases, Option-cases,
}
use ftl_firmware.Nand.{
  Nand, is_free, nand_get_block_state, pages_per_block, user_blocks, total_blocks,
}
use ftl_firmware.Ftl.State.{
  Ftl, ppn_to_block, ppn_to_page, block_page_to_ppn, scan_free, ftl_find_next_free_block,
  ftl_alloc_phy_page,
}

-- The address of a page of the device gives the block and the page back.
pub ppn-address :
    (b p : ℕ)
    → b < total_blocks
    → p < pages_per_block
    → (ppn_to_block (block_page_to_ppn b p) ≡ b) × (ppn_to_page (block_page_to_ppn b p) ≡ p)
ppn-address b p hb hp = (omega arith, omega arith)

-- Every page has one address.
pub ppn_unique :
    (ppn : ℕ) → ppn < 2 ^ 32 → block_page_to_ppn (ppn_to_block ppn) (ppn_to_page ppn) ≡ ppn
ppn_unique ppn h = omega arith

-- The search found none, or a block below `end` that reads as free.
abbrev pub IsFree : Nand → ℕ → Option ℕ → Type 0
IsFree n end none = Unit {0}
IsFree n end (some b) = (is_free (nand_get_block_state n b) ≡ true) × (b < end)

IsFree-widen : (n : Nand) (i j : ℕ) (o : Option ℕ) → i ≤ j → IsFree n i o → IsFree n j o
IsFree-widen n i j none le h = tt
IsFree-widen n i j (some b) le (f, lt) = (f, omega arith)

scan_free-IsFree : (n : Nand) (left i : ℕ) → IsFree n (i + left) (scan_free n left i)
unfolding scan_free
scan_free-IsFree n zero i = tt
scan_free-IsFree n (suc left) i = elim (Bool-cases (is_free (nand_get_block_state n i))) [
  | inl f ↦ rw f (f, omega arith)
  | inr f ↦ rw f (
      IsFree-widen n (i + 1 + left) (i + suc left) _ (omega arith)
        (scan_free-IsFree n left (i + 1)))
]

either-IsFree :
    (n : Nand) (end : ℕ) (o p : Option ℕ)
    → IsFree n end o
    → IsFree n end p
    → IsFree n end (elim o [ some i ↦ some i | none ↦ p ])
either-IsFree n end none p ho hp = hp
either-IsFree n end (some i) p ho hp = ho

pub find-IsFree :
    (s : Ftl) (start : ℕ)
    → start ≤ total_blocks
    → IsFree s.nand total_blocks (ftl_find_next_free_block s start)
unfolding ftl_find_next_free_block
find-IsFree s start le =
    either-IsFree s.nand total_blocks _ _
      (IsFree-widen s.nand (start + (user_blocks - start)) total_blocks _ (omega arith)
        (scan_free-IsFree s.nand (user_blocks - start) start))
      (IsFree-widen s.nand (0 + start) total_blocks _ (omega arith)
        (scan_free-IsFree s.nand start 0))

-- What the allocator gives: nothing, the state being as it was, or page `p` of block `b`, which is
-- the write pointer, or a page of a free block; the write pointer is then behind it.
abbrev pub IsPlaced : Ftl → Option ℕ × Ftl → Type 0
IsPlaced s (none, s') = s' ≡ s
IsPlaced s (some ppn, s') =
    (b : ℕ) × (p : ℕ) × (b < total_blocks)
    × (p < pages_per_block)
    × (ppn ≡ block_page_to_ppn b p)
    × (s' ≡ record s { cur_write_block = b; cur_write_page = p + 1 })
    × (((b ≡ s.cur_write_block) × (p ≡ s.cur_write_page))
        ⊎ (is_free (nand_get_block_state s.nand b) ≡ true))

pub ftl_alloc_phy_page-IsPlaced :
    (s : Ftl) → s.cur_write_block < total_blocks → IsPlaced s (ftl_alloc_phy_page s)
unfolding ftl_alloc_phy_page
ftl_alloc_phy_page-IsPlaced s lt = elim (Bool-cases (ltb s.cur_write_page pages_per_block)) [
  | inl e ↦ rw e (
    s.cur_write_block,
    s.cur_write_page,
    lt,
    ltb→lt _ _ e,
    refl,
    ap (λ w. record s { cur_write_page = w }) (omega (arith, ltb→lt _ _ e)),
    inl (refl, refl),
  )
  | inr e ↦
      let start = inc32 s.cur_write_block in
      let found = find-IsFree s start (omega arith) in
      elim (Option-cases (ftl_find_next_free_block s start)) [
        | inl none_left ↦ rw (e, none_left) refl
        | inr (b, f) ↦
            let (is, low) = subst (IsFree s.nand total_blocks) f found in
            rw (e, f) (b, 0, low, omega arith, refl, refl, inr is)
      ]
]
