-- ===== src/Ftl/Mapping/Tidy.antt =====
-- modules/ftl/ftl.c: the invariant that keeps the allocator off valid pages. Every block counts its
-- valid pages, so a free block has none, and the pages behind the write pointer are not valid.
use ftl_firmware.Common.{
  ℕ, ◌+◌, ◌<◌, ◌≡◌, ◌≢◌, sym, ap, ◌∙◌, subst, true, some, List, ◌==◌, ==_iff, Bool-cases, arith,
  inl, inr,
}
use mathlib.Core.Bool.{true≢false}
use ftl_firmware.Nand.{pages_per_block, is_free, nand_get_block_state}
use ftl_firmware.Nand.Pages.{page_read-valid, page_write-elsewhere, erase-valid}
use ftl_firmware.Nand.Invariant.{
  IsCounted, IsCounted-free, page_read-IsCounted, page_write-IsCounted, erase-IsCounted,
}
use ftl_firmware.Ftl.State.{Ftl, ppn_to_block, ppn_to_page, erase_block}
use ftl_firmware.Ftl.State.Alloc.{ppn-address, IsPlaced}
use ftl_firmware.Ftl.Recycle.{read_page, write_page}
use ftl_firmware.Ftl.Mapping.Loop.{IsAhead}

pub record IsTidy (s : Ftl) : Type 0 where
  pub counted : (c : ℕ) → IsCounted (s.nand.blocks c)
  pub ahead : IsAhead s

-- A free block has no valid page.
pub IsTidy-free_block :
    {s : Ftl} (b q : ℕ)
    → IsTidy s
    → is_free (s.nand.blocks b).state ≡ true
    → q < pages_per_block
    → (s.nand.blocks b).page_valid q ≢ 1
IsTidy-free_block b q t is lt = IsCounted-free q (t.counted b) is lt

pub IsTidy-free :
    {s : Ftl} (b q : ℕ)
    → IsTidy s
    → is_free (nand_get_block_state s.nand b) ≡ true
    → q < pages_per_block
    → (s.nand.blocks b).page_valid q ≢ 1
IsTidy-free {s} b q t e lt = IsTidy-free_block b q t (ground arith) lt

-- A page that may be written: not one of the pages that are to be given out next.
abbrev pub IsGiven : Ftl → ℕ → Type 0
IsGiven s ppn = ppn_to_block ppn ≡ s.cur_write_block → ppn_to_page ppn < s.cur_write_page

pub write_page-IsTidy :
    {s : Ftl} (ppn : ℕ) (buf : List ℕ) → IsTidy s → IsGiven s ppn → IsTidy (write_page s ppn buf).1
write_page-IsTidy {s} ppn buf t given = record {
  counted = λ c. page_write-IsCounted s.nand _ _ buf c (t.counted _) (t.counted c);
  ahead = (
    t.ahead.0,
    λ q le lt one. t.ahead.1 q le lt (
        sym (
          page_write-elsewhere s.nand s.cur_write_block q (ppn_to_block ppn) (ppn_to_page ppn) buf
            (elim (Bool-cases (s.cur_write_block == ppn_to_block ppn)) [
              | inl e ↦ inr (λ k. omega (arith, given (sym ((==_iff _ _).0 e)), k, le))
              | inr e ↦ inl (λ k. true≢false (sym ((==_iff _ _).1 k) ∙ e))
            ]))
        ∙ one),
  );
}

pub read_page-IsTidy :
    {s : Ftl} (b q : ℕ) (buf : List ℕ) → IsTidy s → IsTidy (read_page s b q buf).1
read_page-IsTidy {s} b q buf t = record {
  counted = λ c. page_read-IsCounted s.nand b q buf c (t.counted c);
  ahead = (
    t.ahead.0,
    λ r le lt one.
        t.ahead.1 r le lt
          (sym (ap (λ (f : ℕ → ℕ). f r) (page_read-valid s.nand s.cur_write_block b q buf)) ∙ one),
  );
}

-- An erasure leaves no valid page in its block.
pub erase_block-IsTidy : {s : Ftl} (b : ℕ) → IsTidy s → IsTidy (erase_block s b).1
erase_block-IsTidy {s} b t = record {
  counted = λ c. erase-IsCounted s.nand b (s.draws 0) c (t.counted b) (t.counted c);
  ahead = (
    t.ahead.0,
    λ q le lt one. t.ahead.1 q le lt (erase-valid s.nand b (s.draws 0) s.cur_write_block q one),
  );
}

-- What the allocator gives may be written, and the rest stays tidy.
pub IsPlaced-IsTidy :
    {s : Ftl} (ppn : ℕ) (s' : Ftl)
    → IsTidy s
    → IsPlaced s (some ppn, s')
    → IsTidy s' × IsGiven s' ppn
IsPlaced-IsTidy {s} ppn s' t (b, p, b_in, p_in, ep, es, from) =
    let given = record s { cur_write_block = b; cur_write_page = p + 1 } in
    let address = ppn-address b p b_in p_in in
    let tidy : IsTidy given = record {
      counted = t.counted;
      ahead = (
        b_in,
        λ q le lt one. elim from [
          | inl (at, w) ↦
              t.ahead.1 q (omega (arith, w, le)) lt
                (ap (λ c. (s.nand.blocks c).page_valid q) (sym at) ∙ one)
          | inr is ↦ IsTidy-free b q t is lt one
        ],
      );
    } in
    (
      subst IsTidy (sym es) tidy,
      subst (λ (r : Ftl). IsGiven r ppn) (sym es)
          (λ k. omega (arith, address.1, ap ppn_to_page ep)),
    )
