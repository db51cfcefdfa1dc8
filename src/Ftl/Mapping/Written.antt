-- ===== src/Ftl/Mapping/Written.antt =====
-- modules/ftl/ftl.c: the write of a page's data, with the replacement of a block that went bad.
use ftl_firmware.Common.{
  ℕ, ◌<◌, ◌≡◌, ◌≢◌, sym, ap, ◌∙◌, subst, true, List, ◌==◌, ==_iff, ret_ok, Bool-cases, arith, inl,
  inr,
}
use mathlib.Core.Bool.{true≢false}
use ftl_firmware.Nand.{pages_per_block, total_blocks, is_bad}
use ftl_firmware.Nand.Pages.{Holds, Holds-page_write, page_write-Holds, page_write-fresh}
use ftl_firmware.Ftl.State.{Ftl, invalid, total_lpns, ppn_to_block, ppn_to_page, block_page_to_ppn}
use ftl_firmware.Ftl.State.Alloc.{ppn-address}
use ftl_firmware.Ftl.Recycle.{write_page}
use ftl_firmware.Ftl.Mapping.{Serves}
use ftl_firmware.Ftl.Mapping.Copy.{Serves-nand, page_write-real}
use ftl_firmware.Ftl.Mapping.Tidy.{IsTidy, IsGiven, write_page-IsTidy}

-- Both invariants.
pub record IsSound (content : ℕ → List ℕ) (s : Ftl) : Type 0 where
  pub serves : Serves s content
  pub tidy : IsTidy s

-- Page `ppn` holds the data, and no logical page is mapped to it.
pub record IsWritten (content : ℕ → List ℕ) (buf : List ℕ) (ppn : ℕ) (s : Ftl) : Type 0 where
  pub sound : IsSound content s
  pub held : Holds s.nand (ppn_to_block ppn) (ppn_to_page ppn) buf
  pub unmapped : (l : ℕ) → l < total_lpns → s.l2p_table l ≢ invalid → s.l2p_table l ≢ ppn
  pub real : ppn ≢ invalid

-- A write to a page that the allocator gave.
pub write_page-IsSound :
    {content : ℕ → List ℕ} {s : Ftl} (ppn : ℕ) (buf : List ℕ)
    → IsSound content s
    → IsGiven s ppn
    → IsSound content (write_page s ppn buf).1
write_page-IsSound ppn buf h given = record {
  serves = Serves-nand _ (λ b p d. Holds-page_write _ _ buf) h.serves;
  tidy = write_page-IsTidy ppn buf h.tidy given;
}

pub write_page-IsWritten :
    {content : ℕ → List ℕ} {s : Ftl} (ppn : ℕ) (buf : List ℕ)
    → IsSound content s
    → IsGiven s ppn
    → (write_page s ppn buf).0 ≡ ret_ok
    → IsWritten content buf ppn (write_page s ppn buf).1
write_page-IsWritten {content} {s} ppn buf h given ok = record {
  sound = write_page-IsSound ppn buf h given;
  held = page_write-Holds s.nand _ _ buf ok;
  unmapped = λ l i m e. page_write-fresh {d = content l} buf ok (
      subst (λ (a : ℕ). Holds s.nand (ppn_to_block a) (ppn_to_page a) (content l)) e
        (h.serves.placed l i m));
  real = page_write-real s.nand ppn buf ok;
}

-- The pages of a bad block are not in the reverse map.
pub bad_block-unnamed :
    {content : ℕ → List ℕ} {s : Ftl} (c q : ℕ)
    → Serves s content
    → is_bad (s.nand.blocks c).state ≡ true
    → c < total_blocks
    → q < pages_per_block
    → (s.reverse_map (block_page_to_ppn c q) == invalid) ≡ true
bad_block-unnamed {content} {s} c q h bad c_in q_in =
    let ppn = block_page_to_ppn c q in
    elim (Bool-cases (s.reverse_map ppn == invalid)) [
      | inl e ↦ e
      | inr e ↦
          let named =
            λ (k : s.reverse_map ppn ≡ invalid). true≢false (sym ((==_iff _ _).1 k) ∙ e) in
          let (low, back) = h.backed ppn named in
          let real = λ (k : s.l2p_table (s.reverse_map ppn) ≡ invalid).
            absurd (omega (arith, k, back, c_in, q_in)) in
          let block = ap ppn_to_block back ∙ (ppn-address c q c_in q_in).0 in
          absurd (
            true≢false (
              sym bad
              ∙ sym (ap (λ (b : ℕ). is_bad (s.nand.blocks b).state) block)
              ∙ (h.placed (s.reverse_map ppn) low real).sound))
    ]
