-- ===== src/Ftl/Select/Choice.antt =====
-- modules/ftl/ftl.c: what the selection algorithms guarantee of the block they choose.
use ftl_firmware.Common.{
  ℕ, zero, suc, ◌+◌, ◌≤◌, ◌<◌, ◌≡◌, refl, subst, true, Option, none, some, List, [], ◌∷◌, ltb, ◌==◌,
  ==_iff, ltb→lt, ltb-false→le, length, entry, arith, Bool-cases, inl, inr, ◌%◌, add32, ◌*◌, ◌^◌,
}
use native.Mathlib.Nat.{mod-lt}
use ftl_firmware.Nand.{Nand, user_blocks, nand_get_block_valid_page_count}
use ftl_firmware.Ftl.State.{Ftl, GcAlgo, greedy, cost_benefit, cat, windowed, d_choices, fra}
use ftl_firmware.Ftl.Select.{
  Floats, used_block, scan_least, gc_select_greedy, or_greedy, gc_select_windowed, used_list,
  scan_choices, gc_select_d_choices, scan_emptied, gc_select_fra, scan_score,
  gc_select_cost_benefit, gc_select_cat, benefit_score, cat_score, max_used_erase, select_by,
  gc_select_victim_block,
}

-- A choice is none, or a block in use.
abbrev pub IsUsed : Nand → Option ℕ → Type 0
IsUsed n none = Unit {0}
IsUsed n (some b) = used_block n b ≡ true

scan_least-IsUsed :
    (n : Nand) (left i least : ℕ) (victim : Option ℕ)
    → IsUsed n victim
    → IsUsed n (scan_least n left i least victim)
unfolding scan_least
scan_least-IsUsed n zero i least victim h = h
scan_least-IsUsed n (suc left) i least victim h = elim (Bool-cases (used_block n i)) [
  | inl u ↦ elim (Bool-cases (ltb (nand_get_block_valid_page_count n i) least)) [
    | inl better ↦ rw (u, better) (scan_least-IsUsed n left (i + 1) _ (some i) u)
    | inr no_better ↦ rw (u, no_better) (scan_least-IsUsed n left (i + 1) least victim h)
  ]
  | inr unused ↦ rw unused (scan_least-IsUsed n left (i + 1) least victim h)
]

gc_select_greedy-IsUsed : (s : Ftl) → IsUsed s.nand (gc_select_greedy s)
unfolding gc_select_greedy
gc_select_greedy-IsUsed s = scan_least-IsUsed s.nand user_blocks 0 _ none tt

or_greedy-IsUsed : (s : Ftl) (o : Option ℕ) → IsUsed s.nand o → IsUsed s.nand (or_greedy s o)
unfolding or_greedy
or_greedy-IsUsed s none h = gc_select_greedy-IsUsed s
or_greedy-IsUsed s (some b) h = h

scan_emptied-IsUsed : (n : Nand) (left i : ℕ) → IsUsed n (scan_emptied n left i)
unfolding scan_emptied
scan_emptied-IsUsed n zero i = tt
scan_emptied-IsUsed n (suc left) i = elim (Bool-cases (used_block n i)) [
  | inl u ↦ elim (Bool-cases (nand_get_block_valid_page_count n i == 0)) [
    | inl hit ↦ rw (u, hit) u
    | inr miss ↦ rw (u, miss) (scan_emptied-IsUsed n left (i + 1))
  ]
  | inr unused ↦ rw unused (scan_emptied-IsUsed n left (i + 1))
]

abbrev AllUsed : Nand → List ℕ → Type 0
AllUsed n [] = Unit {0}
AllUsed n (b ∷ bs) = (used_block n b ≡ true) × AllUsed n bs

used_list-AllUsed : (n : Nand) (left i : ℕ) → AllUsed n (used_list n left i)
unfolding used_list
used_list-AllUsed n zero i = tt
used_list-AllUsed n (suc left) i = elim (Bool-cases (used_block n i)) [
  | inl u ↦ rw u (u, used_list-AllUsed n left (i + 1))
  | inr unused ↦ rw unused (used_list-AllUsed n left (i + 1))
]

entry-used :
    (n : Nand) (bs : List ℕ) (k : ℕ)
    → AllUsed n bs
    → k < length bs
    → used_block n (entry bs k) ≡ true
entry-used n [] k h lt = absurd (omega arith)
entry-used n (b ∷ bs) zero (h, hs) lt = h
entry-used n (b ∷ bs) (suc k) (h, hs) lt = entry-used n bs k hs (omega arith)

scan_choices-IsUsed :
    (s : Ftl) (bs : List ℕ) (left i least : ℕ) (victim : Option ℕ)
    → AllUsed s.nand bs
    → 0 < length bs
    → IsUsed s.nand victim
    → IsUsed s.nand (scan_choices s bs left i least victim)
unfolding scan_choices
scan_choices-IsUsed s bs zero i least victim a pos h = h
scan_choices-IsUsed s bs (suc left) i least victim a pos h =
    let idx : ℕ = add32 (s.gc_count * 7 % 2 ^ 32) (i * 13) % length bs in
    elim (Bool-cases (ltb (nand_get_block_valid_page_count s.nand (entry bs idx)) least)) [
      | inl better ↦ rw better (
          scan_choices-IsUsed s bs left (i + 1) _ (some (entry bs idx)) a pos
            (entry-used s.nand bs idx a (mod-lt _ pos)))
      | inr no_better ↦ rw no_better (scan_choices-IsUsed s bs left (i + 1) least victim a pos h)
    ]

gc_select_d_choices-IsUsed : (s : Ftl) → IsUsed s.nand (gc_select_d_choices s)
unfolding gc_select_d_choices
gc_select_d_choices-IsUsed s = elim (Bool-cases (length (used_list s.nand user_blocks 0) == 0)) [
  | inl empty ↦ rw empty tt
  | inr some_used ↦ elim (Bool-cases (ltb (length (used_list s.nand user_blocks 0)) 5)) [
    | inl few ↦ rw (some_used, few) (gc_select_greedy-IsUsed s)
    | inr many ↦
        rw (some_used, many)
          (scan_choices-IsUsed s (used_list s.nand user_blocks 0) 5 0 _ none
            (used_list-AllUsed s.nand user_blocks 0) (ground arith) tt)
  ]
]

module _ (fl : Floats) where
  open fl use {Double, above}

  scan_score-IsUsed :
      (n : Nand) (score : ℕ → Double) (left i : ℕ) (best : Double) (victim : Option ℕ)
      → IsUsed n victim
      → IsUsed n (scan_score fl n score left i best victim)
  unfolding scan_score
  scan_score-IsUsed n score zero i best victim h = h
  scan_score-IsUsed n score (suc left) i best victim h = elim (Bool-cases (used_block n i)) [
    | inl u ↦ elim (Bool-cases (above (score i) best)) [
      | inl better ↦ rw (u, better) (scan_score-IsUsed n score left (i + 1) _ (some i) u)
      | inr no_better ↦ rw (u, no_better) (scan_score-IsUsed n score left (i + 1) best victim h)
    ]
    | inr unused ↦ rw unused (scan_score-IsUsed n score left (i + 1) best victim h)
  ]

  select_by-IsUsed : (algo : GcAlgo) (s : Ftl) → IsUsed s.nand (select_by fl algo s)
  unfolding select_by gc_select_cost_benefit gc_select_cat gc_select_windowed gc_select_fra
  select_by-IsUsed greedy s = gc_select_greedy-IsUsed s
  select_by-IsUsed cost_benefit s =
      scan_score-IsUsed s.nand (benefit_score fl s.nand) user_blocks 0 fl.minus_one none tt
  select_by-IsUsed cat s =
      scan_score-IsUsed s.nand (cat_score fl s.nand (max_used_erase s.nand user_blocks 0 0))
        user_blocks 0 fl.minus_one none tt
  select_by-IsUsed windowed s = or_greedy-IsUsed s _ (scan_least-IsUsed s.nand _ _ _ none tt)
  select_by-IsUsed d_choices s = gc_select_d_choices-IsUsed s
  select_by-IsUsed fra s = or_greedy-IsUsed s _ (scan_emptied-IsUsed s.nand user_blocks 0)

  pub gc_select_victim_block-IsUsed : (s : Ftl) → IsUsed s.nand (gc_select_victim_block fl s)
  unfolding gc_select_victim_block
  gc_select_victim_block-IsUsed s = select_by-IsUsed s.gc_algo s

  -- Whichever of the six algorithms is set, and whatever the scores are, the block that garbage
  -- collection is given is in use.
  pub gc_select_victim_block-used :
      (s : Ftl) {b : ℕ} → gc_select_victim_block fl s ≡ some b → used_block s.nand b ≡ true
  unfolding gc_select_victim_block
  gc_select_victim_block-used s e = subst (IsUsed s.nand) e (select_by-IsUsed s.gc_algo s)

-- The least count seen so far is that of the victim, if there is one.
abbrev Tracks : Nand → ℕ → Option ℕ → Type 0
Tracks n least none = Unit {0}
Tracks n least (some b) = nand_get_block_valid_page_count n b ≡ least

-- `b` has no more valid pages than any used block from `i` on, among `left`.
abbrev IsLeast : Nand → ℕ → ℕ → ℕ → Type 0
IsLeast n b i left =
    (j : ℕ)
    → i ≤ j
    → j < i + left
    → used_block n j ≡ true
    → nand_get_block_valid_page_count n b ≤ nand_get_block_valid_page_count n j

IsLeast-suc :
    (n : Nand) (b i left : ℕ)
    → (used_block n i ≡ true
        → nand_get_block_valid_page_count n b ≤ nand_get_block_valid_page_count n i)
    → IsLeast n b (i + 1) left
    → IsLeast n b i (suc left)
IsLeast-suc n b i left here later j low high u = elim (Bool-cases (i == j)) [
  | inl same ↦
      let e : i ≡ j = (==_iff i j).0 same in
      subst
        (λ t.
          used_block n t ≡ true
          → nand_get_block_valid_page_count n b ≤ nand_get_block_valid_page_count n t)
        e here u
  | inr other ↦ later j (ground arith) (omega arith) u
]

scan_least-below :
    (n : Nand) (left i least : ℕ) (victim : Option ℕ) (b : ℕ)
    → Tracks n least victim
    → scan_least n left i least victim ≡ some b
    → (nand_get_block_valid_page_count n b ≤ least) × IsLeast n b i left
unfolding scan_least
scan_least-below n zero i least victim b t e =
    let last : nand_get_block_valid_page_count n b ≡ least = subst (Tracks n least) e t in
    (omega arith, λ j low high u. absurd (omega arith))
scan_least-below n (suc left) i least victim b t e = elim (Bool-cases (used_block n i)) [
  | inl u ↦ elim (Bool-cases (ltb (nand_get_block_valid_page_count n i) least)) [
    | inl better ↦
        let (le, rest) =
          scan_least-below n left (i + 1) (nand_get_block_valid_page_count n i) (some i) b refl
            (rw (u, better) at e) in
        let lt : nand_get_block_valid_page_count n i < least = ltb→lt _ _ better in
        (omega arith, IsLeast-suc n b i left (λ v. le) rest)
    | inr no_better ↦
        let (le, rest) =
          scan_least-below n left (i + 1) least victim b t (rw (u, no_better) at e) in
        let ge : least ≤ nand_get_block_valid_page_count n i = ltb-false→le _ _ no_better in
        (le, IsLeast-suc n b i left (λ v. omega arith) rest)
  ]
  | inr unused ↦
      let (le, rest) = scan_least-below n left (i + 1) least victim b t (rw unused at e) in
      (le, IsLeast-suc n b i left (λ u. absurd (cc)) rest)
]

-- A choice is none, or a block below `size`.
abbrev IsBelow : ℕ → Option ℕ → Type 0
IsBelow size none = Unit {0}
IsBelow size (some b) = b < size

scan_least-IsBelow :
    (n : Nand) (size left i least : ℕ) (victim : Option ℕ)
    → i + left ≤ size
    → IsBelow size victim
    → IsBelow size (scan_least n left i least victim)
unfolding scan_least
scan_least-IsBelow n size zero i least victim room h = h
scan_least-IsBelow n size (suc left) i least victim room h =
    let next : (i + 1) + left ≤ size = omega (arith, room) in
    elim (Bool-cases (used_block n i)) [
      | inl u ↦ elim (Bool-cases (ltb (nand_get_block_valid_page_count n i) least)) [
        | inl better ↦
            rw (u, better)
              (scan_least-IsBelow n size left (i + 1) _ (some i) next (omega (arith, room)))
        | inr no_better ↦
            rw (u, no_better) (scan_least-IsBelow n size left (i + 1) least victim next h)
      ]
      | inr unused ↦ rw unused (scan_least-IsBelow n size left (i + 1) least victim next h)
    ]

-- The greedy choice is a used block of the user area, and no used block of that area has fewer valid
-- pages.
pub gc_select_greedy_least :
    (s : Ftl) {b : ℕ}
    → gc_select_greedy s ≡ some b
    → (b < user_blocks)
      × (used_block s.nand b ≡ true)
      × ((j : ℕ)
          → j < user_blocks
          → used_block s.nand j ≡ true
          → nand_get_block_valid_page_count s.nand b ≤ nand_get_block_valid_page_count s.nand j)
unfolding gc_select_greedy
gc_select_greedy_least s {b} e = (
  subst (IsBelow user_blocks) e
      (scan_least-IsBelow s.nand user_blocks user_blocks 0 _ none (omega arith) tt),
  subst (IsUsed s.nand) e (gc_select_greedy-IsUsed s),
  λ j h u. (scan_least-below s.nand user_blocks 0 _ none b tt e).1 j (omega arith) (omega arith) u,
)
