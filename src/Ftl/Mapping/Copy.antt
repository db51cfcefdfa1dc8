-- ===== src/Ftl/Mapping/Copy.antt =====
-- modules/ftl/ftl.c: the tables and the device through the steps of garbage collection.
use ftl_firmware.Common.{
  arith, ℕ, ◌<◌, ◌≡◌, ◌≢◌, sym, ap, ◌∙◌, subst, Bool, List, if◌then◌else◌, update, update-cases,
  update-ne, update_self, RetCode, ret_ok, err_internal, is_ok, is_ok_sound, Bool-cases, inl, inr,
}
use ftl_firmware.Nand.{page_write, Nand}
use ftl_firmware.Nand.Pages.{
  Holds, Holds-page_write, page_write-Holds, page_write-fresh, page_write-range,
}
use ftl_firmware.Ftl.State.{Ftl, invalid, total_lpns, ppn_to_block, ppn_to_page}
use ftl_firmware.Ftl.Recycle.{write_page, remap, store_copy}
use ftl_firmware.Ftl.Mapping.{Serves}

-- A device on which every page holds what it held serves the same pages.
pub Serves-nand :
    {s : Ftl} {content : ℕ → List ℕ} (n : Nand)
    → ((b p : ℕ) (d : List ℕ) → Holds s.nand b p d → Holds n b p d)
    → Serves s content
    → Serves (record s { nand = n }) content
Serves-nand n keep h = record {
  placed = λ lpn l m. keep _ _ _ (h.placed lpn l m);
  named = h.named;
  backed = h.backed;
  outside = h.outside;
}

-- The address of a page that a write accepts is below that of no page.
pub page_write-real :
    (n : Nand) (ppn : ℕ) (buf : List ℕ)
    → (page_write n (ppn_to_block ppn) (ppn_to_page ppn) buf).0 ≡ ret_ok
    → ppn ≢ invalid
page_write-real n ppn buf ok e =
    let range = page_write-range n (ppn_to_block ppn) (ppn_to_page ppn) buf ok in
    omega (arith, range.0)

-- The copy of page `lpn` to a page that accepts it, and the update of both tables.
module _ {s : Ftl} {content : ℕ → List ℕ} (h : Serves s content) (old new : ℕ)
    (real : old ≢ invalid) (mapped : s.reverse_map old ≢ invalid)
    (ok : (write_page s new (content (s.reverse_map old))).0 ≡ ret_ok) where
  abbrev pub lpn : ℕ
  lpn = s.reverse_map old

  -- No page is mapped to the new place.
  apart : (l : ℕ) → l < total_lpns → s.l2p_table l ≢ invalid → s.l2p_table l ≢ new
  apart l i m e = page_write-fresh {d = content l} (content lpn) ok (
      subst (λ ppn. Holds s.nand (ppn_to_block ppn) (ppn_to_page ppn) (content l)) e
        (h.placed l i m))

  -- `lpn` was mapped to `old`.
  before : s.l2p_table lpn ≡ old
  before = (h.backed old mapped).1

  new≢old : new ≢ old
  new≢old e = apart lpn (h.backed old mapped).0 (λ q. real (sym before ∙ q)) (before ∙ sym e)

  abbrev after : Ftl
  after = remap (write_page s new (content lpn)).1 lpn old new

  new-named : after.reverse_map new ≡ lpn
  new-named =
      update-ne (update s.reverse_map new lpn) old new invalid new≢old
      ∙ update_self s.reverse_map new lpn

  others-named :
      (l : ℕ)
      → l < total_lpns
      → s.l2p_table l ≢ invalid
      → l ≢ lpn
      → after.reverse_map (s.l2p_table l) ≡ l
  others-named l i m ne =
      update-ne (update s.reverse_map new lpn) old (s.l2p_table l) invalid
        (λ q. ne (sym (h.named l i m) ∙ ap s.reverse_map q))
      ∙ update-ne s.reverse_map new (s.l2p_table l) lpn (apart l i m)
      ∙ h.named l i m

  Backed : ℕ → ℕ → Type 0
  Backed ppn l = (l < total_lpns) × (after.l2p_table l ≡ ppn)

  after-Backed : (ppn : ℕ) → after.reverse_map ppn ≢ invalid → Backed ppn (after.reverse_map ppn)
  unfolding Backed
  after-Backed ppn m = elim (update-cases (update s.reverse_map new lpn) old invalid ppn) [
    | inl (e, u) ↦ absurd (m u)
    | inr (ne, u) ↦ elim (update-cases s.reverse_map new lpn ppn) [
      | inl (f, w) ↦
          subst (Backed ppn) (sym (u ∙ w))
            ((h.backed old mapped).0, update_self s.l2p_table lpn new ∙ sym f)
      | inr (nf, w) ↦
          let back = h.backed ppn (λ q. m (u ∙ w ∙ q)) in
          subst (Backed ppn) (sym (u ∙ w)) (
            back.0,
            update-ne s.l2p_table lpn (s.reverse_map ppn) new
                  (λ q. ne (sym back.1 ∙ ap s.l2p_table q ∙ before))
                ∙ back.1,
          )
    ]
  ]

  At : ℕ → ℕ → Type 0
  At ppn l = Holds after.nand (ppn_to_block ppn) (ppn_to_page ppn) (content l)

  after-placed : (l : ℕ) → l < total_lpns → after.l2p_table l ≢ invalid → At (after.l2p_table l) l
  unfolding At
  after-placed l i m = elim (update-cases s.l2p_table lpn new l) [
    | inl (e, u) ↦
        subst (λ ppn. At ppn l) (sym u)
          (subst (At new) (sym e) (page_write-Holds s.nand _ _ (content lpn) ok))
    | inr (ne, u) ↦
        subst (λ ppn. At ppn l) (sym u)
          (Holds-page_write _ _ (content lpn) (h.placed l i (λ q. m (u ∙ q))))
  ]

  after-named :
      (l : ℕ)
      → l < total_lpns
      → after.l2p_table l ≢ invalid
      → after.reverse_map (after.l2p_table l) ≡ l
  after-named l i m = elim (update-cases s.l2p_table lpn new l) [
    | inl (e, u) ↦ ap after.reverse_map u ∙ new-named ∙ sym e
    | inr (ne, u) ↦ ap after.reverse_map u ∙ others-named l i (λ q. m (u ∙ q)) ne
  ]

  after-outside : after.reverse_map invalid ≡ invalid
  after-outside =
      update-ne (update s.reverse_map new lpn) old invalid invalid (λ q. real (sym q))
      ∙ update-ne s.reverse_map new invalid lpn
          (λ q. page_write-real s.nand new (content lpn) ok (sym q))
      ∙ h.outside

  pub remap-Serves : Serves after content
  unfolding At Backed
  remap-Serves = record {
    placed = after-placed;
    named = after-named;
    backed = after-Backed;
    outside = after-outside;
  }

-- What `store_copy` gives, by whether the write is accepted.
abbrev pub outcome : Ftl → ℕ → ℕ → ℕ → Bool → RetCode × Ftl
outcome s lpn old new ok = if ok then (ret_ok, remap s lpn old new) else (err_internal, s)

-- A copy keeps what is served, whether the write is accepted or not.
pub store_copy-Serves :
    {s : Ftl} {content : ℕ → List ℕ} (old new : ℕ)
    → old ≢ invalid
    → s.reverse_map old ≢ invalid
    → Serves s content
    → Serves (store_copy s (s.reverse_map old) old new (content (s.reverse_map old))).1 content
unfolding store_copy
store_copy-Serves {s} {content} old new real mapped h =
    let lpn = s.reverse_map old in
    let written = write_page s new (content lpn) in
    let Goal = λ (ok : Bool). Serves (outcome written.1 lpn old new ok).1 content in
    elim (Bool-cases (is_ok written.0)) [
      | inl e ↦ subst Goal (sym e) (remap-Serves h old new real mapped (is_ok_sound _ e))
      | inr e ↦ subst Goal (sym e) (Serves-nand _ (λ b p d. Holds-page_write _ _ (content lpn)) h)
    ]
