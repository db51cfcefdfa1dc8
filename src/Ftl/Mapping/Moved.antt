-- ===== src/Ftl/Mapping/Moved.antt =====
-- modules/ftl/ftl.c: the write of a page's data, with the replacement of a block that is bad.
use ftl_firmware.Common.{
  ℕ, zero, suc, ◌+◌, ◌≤◌, ◌<◌, ◌≡◌, refl, sym, ap, ◌∙◌, subst, true, Option, none, some, List, not,
  ◌==◌, leb, if◌then◌else◌, if_cases, inc32, add32, RetCode, is_ok, is_ok_sound, is_bad_block,
  Bool-cases, arith, ◌⊎◌, inl, inr,
}
use mathlib.Core.Bool.{true≢false}
use ftl_firmware.Nand.{Nand, pages_per_block, total_blocks, is_bad, is_free}
use ftl_firmware.Nand.Pages.{Holds, page_write-bad}
use ftl_firmware.Nand.Replaced.{IsReplaced, replace_bad-IsReplaced}
use ftl_firmware.Ftl.State.{
  Ftl, invalid, ppn_to_block, ppn_to_page, block_page_to_ppn, ftl_alloc_phy_page,
}
use ftl_firmware.Ftl.State.Alloc.{IsPlaced, ftl_alloc_phy_page-IsPlaced}
use ftl_firmware.Ftl.Recycle.{write_page}
use ftl_firmware.Ftl.Replace.{
  remap_page, remap_pages, replaced, replace_answered, ftl_replace_bad_block,
}
use ftl_firmware.Ftl.Write.{write_again, replace_and_write, write_data}
use ftl_firmware.Ftl.Mapping.{Serves}
use ftl_firmware.Ftl.Mapping.Copy.{Serves-nand}
use ftl_firmware.Ftl.Mapping.Tidy.{IsGiven, IsTidy-free_block, IsPlaced-IsTidy}
use ftl_firmware.Ftl.Mapping.Written.{
  IsSound, IsWritten, write_page-IsSound, write_page-IsWritten, bad_block-unnamed,
}

-- The loop over the tables moves nothing if no page of the block is named.
remap_pages-idle :
    (left page : ℕ) (s : Ftl) (c r moved : ℕ)
    → page + left ≤ pages_per_block
    → ((q : ℕ) → q < pages_per_block → (s.reverse_map (block_page_to_ppn c q) == invalid) ≡ true)
    → remap_pages left page s c r moved ≡ (moved, s)
unfolding remap_pages remap_page
remap_pages-idle zero page s c r moved le none_named = refl
remap_pages-idle (suc left) page s c r moved le none_named =
    rw (none_named page (omega arith))
      (remap_pages-idle left (page + 1) s c r moved (omega arith) none_named)

Holds-reserve :
    {n : Nand} {b p : ℕ} {d : List ℕ} (reserve : ℕ)
    → Holds n b p d
    → Holds (record n { reserved_count = reserve }) b p d
Holds-reserve reserve h = record {
  ready = h.ready;
  block_in = h.block_in;
  page_in = h.page_in;
  sound = h.sound;
  valid = h.valid;
  stored = h.stored;
  marked = h.marked;
  checked = h.checked;
}

-- The layer with another size of the reserve, another block at the write pointer and other counters.
abbrev switched : Ftl → ℕ → ℕ → ℕ → ℕ → Ftl
switched s reserve block count pages = record s {
  nand = record s.nand { reserved_count = reserve };
  bad_block_replace_count = count;
  bad_block_moved_pages = pages;
  cur_write_block = block;
}

-- The layer is sound, with the table of `s`.
abbrev pub IsStill : (ℕ → List ℕ) → Ftl → Ftl → Type 0
IsStill content s t = IsSound content t × (t.l2p_table ≡ s.l2p_table)

module _ {content : ℕ → List ℕ} {s : Ftl} (h : IsSound content s) where
  switched-IsSound :
      (reserve block count pages : ℕ)
      → (block ≡ s.cur_write_block)
        ⊎ ((is_free (s.nand.blocks block).state ≡ true) × (block < total_blocks))
      → IsSound content (switched s reserve block count pages)
  switched-IsSound reserve block count pages which = record {
    serves =
        let k =
          Serves-nand (record s.nand { reserved_count = reserve }) (λ b p d. Holds-reserve reserve)
            h.serves in
        record { placed = k.placed; named = k.named; backed = k.backed; outside = k.outside };
    tidy = record {
      counted = h.tidy.counted;
      ahead = elim which [
        | inl e ↦ (
          subst (λ (b : ℕ). b < total_blocks) (sym e) h.tidy.ahead.0,
          λ q le lt one.
              h.tidy.ahead.1 q le lt (ap (λ (b : ℕ). (s.nand.blocks b).page_valid q) (sym e) ∙ one),
        )
        | inr (is, lt) ↦ (lt, λ q le q_in one. IsTidy-free_block block q h.tidy is q_in one)
      ];
    };
  }

  -- The replacement of a block that is bad already.
  replaced-IsSound :
      (reserve c r : ℕ)
      → is_bad (s.nand.blocks c).state ≡ true
      → c < total_blocks
      → is_free (s.nand.blocks r).state ≡ true
      → r < total_blocks
      → IsStill content s
          (replaced (record s { nand = record s.nand { reserved_count = reserve } }) c r)
  unfolding replaced
  replaced-IsSound reserve c r bad c_in is r_in =
      let s1 = record s { nand = record s.nand { reserved_count = reserve } } in
      subst
        (λ (m : ℕ × Ftl). IsStill content s (record m.1 {
          bad_block_replace_count = inc32 m.1.bad_block_replace_count;
          bad_block_moved_pages = add32 m.1.bad_block_moved_pages m.0;
          cur_write_block = if m.1.cur_write_block == c then r else m.1.cur_write_block;
        }))
        (sym (
          remap_pages-idle pages_per_block 0 s1 c r 0 (omega arith)
            (λ q q_in. bad_block-unnamed c q h.serves bad c_in q_in)))
        (
          switched-IsSound reserve _ _ _ (elim (Bool-cases (s.cur_write_block == c)) [
            | inl e ↦ rw e (inr (is, r_in))
            | inr e ↦ rw e (inl refl)
          ]),
          refl,
        )

  -- Only the size of the reserve changes with the answer that gives no block.
  reserve-IsSound :
      (reserve : ℕ)
      → IsStill content s (record s { nand = record s.nand { reserved_count = reserve } })
  reserve-IsSound reserve = (switched-IsSound reserve _ _ _ (inl refl), refl)

  answered-IsSound :
      (c : ℕ) (a : RetCode × Option ℕ × Nand)
      → is_bad (s.nand.blocks c).state ≡ true
      → c < total_blocks
      → IsReplaced s.nand a
      → IsStill content s (replace_answered (record s { nand = a.2 }) c a.0 a.1).1
  unfolding replace_answered
  answered-IsSound c (ret, none, n) bad c_in i =
      subst (λ (m : Nand). IsStill content s (record s { nand = m })) (sym i.kept)
        (reserve-IsSound i.reserve)
  answered-IsSound c (ret, some r, n) bad c_in i =
      subst (λ (m : Nand). IsStill content s (replaced (record s { nand = m }) c r)) (sym i.kept)
        (replaced-IsSound i.reserve c r bad c_in i.found.0 i.found.1)

  ftl_replace_bad_block-IsSound :
      (c : ℕ) (page_buf : List ℕ)
      → is_bad (s.nand.blocks c).state ≡ true
      → IsStill content s (ftl_replace_bad_block s c page_buf).1
  unfolding ftl_replace_bad_block
  ftl_replace_bad_block-IsSound c page_buf bad =
      let Goal = λ (r : RetCode × Ftl). IsStill content s r.1 in
      if_cases Goal (not s.is_initialized) (λ _. (h, refl))
        (λ _.
          if_cases Goal (leb total_blocks c) (λ _. (h, refl))
            (λ e.
              answered-IsSound c _ bad (ground (arith, e))
                (replace_bad-IsReplaced s.nand c page_buf bad)))

-- What a write of the data leaves: the layer is sound, and if it succeeds the page holds the data.
abbrev pub IsStored : (ℕ → List ℕ) → List ℕ → Ftl → RetCode × ℕ × Ftl → Type 0
IsStored content buf s (ret, ppn, t) =
    IsStill content s t × (is_ok ret ≡ true → IsWritten content buf ppn t)

-- The write to a page that the allocator gave.
pub given-IsStored :
    {content : ℕ → List ℕ} {s : Ftl} (ppn : ℕ) (buf : List ℕ)
    → IsSound content s
    → IsGiven s ppn
    → IsStored content buf s ((write_page s ppn buf).0, ppn, (write_page s ppn buf).1)
given-IsStored ppn buf h given = (
  (write_page-IsSound ppn buf h given, refl),
  λ ok. write_page-IsWritten ppn buf h given (is_ok_sound _ ok),
)

IsStored-from :
    {content : ℕ → List ℕ} {buf : List ℕ} (s t : Ftl) (r : RetCode × ℕ × Ftl)
    → t.l2p_table ≡ s.l2p_table
    → IsStored content buf t r
    → IsStored content buf s r
IsStored-from s t (ret, ppn, u) e (still, written) = ((still.0, still.1 ∙ e), written)

-- The allocator keeps the layer sound.
pub IsPlaced-IsSound :
    {content : ℕ → List ℕ} {s : Ftl} (ppn : ℕ) (s' : Ftl)
    → IsSound content s
    → IsPlaced s (some ppn, s')
    → IsStill content s s' × IsGiven s' ppn
IsPlaced-IsSound {content} {s} ppn s' h placed =
    let (tidy, given) = IsPlaced-IsTidy ppn s' h.tidy placed in
    let (b, p, b_in, p_in, ep, es, from) = placed in
    let g = h.serves in
    let serves : Serves (record s { cur_write_block = b; cur_write_page = p + 1 }) content =
      record { placed = g.placed; named = g.named; backed = g.backed; outside = g.outside } in
    (
      (
        record { serves = subst (λ (r : Ftl). Serves r content) (sym es) serves; tidy = tidy },
        ap (λ (r : Ftl). r.l2p_table) es,
      ),
      given,
    )

write_again-IsStored :
    {content : ℕ → List ℕ} {s : Ftl} (o : Option ℕ × Ftl) (buf : List ℕ)
    → IsSound content s
    → IsPlaced s o
    → IsStored content buf s (write_again o buf)
unfolding write_again
write_again-IsStored {content} {s} (none, s') buf h e =
    ((subst (IsSound content) (sym e) h, ap (λ (r : Ftl). r.l2p_table) e), λ no. ground (arith, no))
write_again-IsStored {content} {s} (some ppn, s') buf h placed =
    let (still, given) = IsPlaced-IsSound ppn s' h placed in
    IsStored-from s s' _ still.1 (given-IsStored ppn buf still.0 given)

replace_and_write-IsStored :
    {content : ℕ → List ℕ} {s : Ftl} (ppn : ℕ) (buf page_buf : List ℕ)
    → IsSound content s
    → is_bad (s.nand.blocks (ppn_to_block ppn)).state ≡ true
    → IsStored content buf s (replace_and_write s ppn buf page_buf)
unfolding replace_and_write
replace_and_write-IsStored {content} {s} ppn buf page_buf h bad =
    let c = ppn_to_block ppn in
    let r = ftl_replace_bad_block s c page_buf in
    let still = ftl_replace_bad_block-IsSound h c page_buf bad in
    if_cases (IsStored content buf s) (is_ok r.0)
      (λ _. IsStored-from s r.1 _ still.1 (
        write_again-IsStored (ftl_alloc_phy_page r.1) buf still.0
          (ftl_alloc_phy_page-IsPlaced r.1 still.0.tidy.ahead.0)))
      (λ no. (still, λ ok. absurd (true≢false (sym ok ∙ no))))

-- The write of the data to a page that the allocator gave, with a replacement if its block is bad.
pub write_data-IsStored :
    {content : ℕ → List ℕ} {s : Ftl} (ppn : ℕ) (buf page_buf : List ℕ)
    → IsSound content s
    → IsGiven s ppn
    → IsStored content buf s (write_data s ppn buf page_buf)
unfolding write_data
write_data-IsStored {content} {s} ppn buf page_buf h given =
    let w = write_page s ppn buf in
    if_cases (IsStored content buf s) (is_bad_block w.0)
      (λ e.
        let (bad, low, same) = page_write-bad s.nand (ppn_to_block ppn) (ppn_to_page ppn) buf e in
        replace_and_write-IsStored ppn buf page_buf (write_page-IsSound ppn buf h given)
          (ap (λ (n : Nand). is_bad (n.blocks (ppn_to_block ppn)).state) same ∙ bad))
      (λ _. given-IsStored ppn buf h given)
