-- ===== src/Nand/Replaced.antt =====
-- modules/nand/nand.c: the replacement of a block that is bad already changes only the reserve.
use ftl_firmware.Common.{
  ℕ, zero, suc, ◌+◌, ◌≤◌, ◌<◌, ◌≡◌, refl, ap, ◌∙◌, true, false, Option, none, some, List, ◌==◌, leb,
  not, RetCode, err_no_space, err_param, is_ok, dec32, Bool-cases, if_cases, arith, inl, inr,
}
use ftl_firmware.Nand.{
  Nand, PhyBlock, is_bad, is_free, pages_per_block, total_blocks, reserved_blocks, user_blocks,
  page_read, first_free, reserve_found, replaced_by, BlockState, nand_alloc_reserved_block,
  replace_pages, nand_replace_bad_block,
}

-- No page of a bad block is copied.
read_bad :
    (s : Nand) (c page : ℕ) (buf : List ℕ)
    → is_bad (s.blocks c).state ≡ true
    → (is_ok (page_read s c page buf).0 ≡ false) × ((page_read s c page buf).2 ≡ s)
unfolding page_read
read_bad s c page buf bad = ground arith

replace_pages-bad :
    (left page : ℕ) (s : Nand) (c r : ℕ) (buf : List ℕ)
    → is_bad (s.blocks c).state ≡ true
    → replace_pages left page s c r buf ≡ s
unfolding replace_pages
replace_pages-bad zero page s c r buf bad = refl
replace_pages-bad (suc left) page s c r buf bad =
    let (no_data, same) = read_bad s c page buf bad in
    elim (Bool-cases ((s.blocks c).page_valid page == 1)) [
      | inl e ↦ rw (e, no_data, same) (replace_pages-bad left (page + 1) s c r _ bad)
      | inr e ↦ rw e (replace_pages-bad left (page + 1) s c r buf bad)
    ]

-- The search found none, or a free block below `end`.
abbrev pub IsFreeBelow : (ℕ → PhyBlock) → ℕ → Option ℕ → Type 0
IsFreeBelow f end none = Unit {0}
IsFreeBelow f end (some b) = (is_free (f b).state ≡ true) × (b < end)

IsFreeBelow-widen :
    (f : ℕ → PhyBlock) (i j : ℕ) (o : Option ℕ) → i ≤ j → IsFreeBelow f i o → IsFreeBelow f j o
IsFreeBelow-widen f i j none le h = tt
IsFreeBelow-widen f i j (some b) le (is, lt) = (is, omega arith)

first_free-IsFreeBelow :
    (f : ℕ → PhyBlock) (left i : ℕ) → IsFreeBelow f (i + left) (first_free f left i)
unfolding first_free
first_free-IsFreeBelow f zero i = tt
first_free-IsFreeBelow f (suc left) i = elim (Bool-cases (is_free (f i).state)) [
  | inl is ↦ rw is (is, omega arith)
  | inr is ↦ rw is (
      IsFreeBelow-widen f (i + 1 + left) (i + suc left) _ (omega arith)
        (first_free-IsFreeBelow f left (i + 1)))
]

bad-free : (st : BlockState) → is_bad st ≡ true → is_free st ≡ false
bad-free st e = ground arith

-- Only the size of the reserve changes, and the new block, if there is one, is a free one.
pub record IsReplaced (s : Nand) (r : RetCode × Option ℕ × Nand) : Type 0 where
  pub reserve : ℕ
  pub kept : r.2 ≡ record s { reserved_count = reserve }
  pub found : IsFreeBelow s.blocks total_blocks r.1

same-IsReplaced : (s : Nand) (ret : RetCode) → IsReplaced s (ret, none, s)
same-IsReplaced s ret = record { reserve = s.reserved_count; kept = refl; found = tt }

reserve_found-IsReplaced :
    (s : Nand) (o : Option ℕ)
    → IsFreeBelow s.blocks total_blocks o
    → IsReplaced s (reserve_found s o)
unfolding reserve_found
reserve_found-IsReplaced s none h = same-IsReplaced s err_no_space
reserve_found-IsReplaced s (some i) h = record {
  reserve = dec32 s.reserved_count;
  kept = refl;
  found = h;
}

alloc-IsReplaced : (s : Nand) → IsReplaced s (nand_alloc_reserved_block s)
unfolding nand_alloc_reserved_block
alloc-IsReplaced s =
    if_cases (IsReplaced s) (not s.is_initialized) (λ _. same-IsReplaced s err_param)
      (λ _.
        if_cases (IsReplaced s) (s.reserved_count == 0) (λ _. same-IsReplaced s err_no_space)
          (λ _. reserve_found-IsReplaced s _ (
            IsFreeBelow-widen s.blocks (reserved_blocks + user_blocks) total_blocks _ (omega arith)
              (first_free-IsFreeBelow s.blocks reserved_blocks user_blocks))))

replaced_by-IsReplaced :
    (s : Nand) (c : ℕ) (buf : List ℕ) (ret : RetCode) (o : Option ℕ) (s' : Nand)
    → is_bad (s.blocks c).state ≡ true
    → IsReplaced s (ret, o, s')
    → IsReplaced s (replaced_by c buf (o, s'))
unfolding replaced_by
replaced_by-IsReplaced s c buf ret none s' bad h = record {
  reserve = h.reserve;
  kept = h.kept;
  found = tt;
}
replaced_by-IsReplaced s c buf ret (some r) s' bad h =
    let still : is_bad (s'.blocks c).state ≡ true =
      ap (λ (t : Nand). is_bad (t.blocks c).state) h.kept ∙ bad in
    rw (replace_pages-bad pages_per_block 0 s' c r buf still, still)
      (record { reserve = h.reserve; kept = h.kept; found = h.found })

-- The replacement of a block that is bad already, with any answer.
pub replace_bad-IsReplaced :
    (s : Nand) (c : ℕ) (buf : List ℕ)
    → is_bad (s.blocks c).state ≡ true
    → IsReplaced s (nand_replace_bad_block s c buf)
unfolding nand_replace_bad_block
replace_bad-IsReplaced s c buf bad =
    if_cases (IsReplaced s) (not s.is_initialized) (λ _. same-IsReplaced s err_param)
      (λ _.
        if_cases (IsReplaced s) (leb total_blocks c) (λ _. same-IsReplaced s err_param)
          (λ _.
            if_cases (IsReplaced s) (is_free (s.blocks c).state) (λ _. same-IsReplaced s err_param)
              (λ _. replaced_by-IsReplaced s c buf _ _ _ bad (alloc-IsReplaced s))))
