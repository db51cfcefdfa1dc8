-- ===== src/Ftl/Mapping/Restored.antt =====
-- modules/ftl/ftl.c: a snapshot that is saved and loaded restores both tables.
use ftl_firmware.Common.{
  ℕ, zero, suc, ◌+◌, ◌≤◌, ◌<◌, ◌≡◌, ◌≢◌, refl, sym, ap, ◌∙◌, subst, Bool, true, Option, some, List,
  not, ◌||◌, if_false, ◌==◌, ==_iff, ltb, lt→ltb, le→ltb, if◌then◌else◌, update, update-cases,
  update-ne, RetCode, ret_ok, Bool-cases, arith, inl, inr,
}
use mathlib.Core.Bool.{true≢false}
use ftl_firmware.Nand.{Nand}
use ftl_firmware.Nand.Pages.{Holds}
use ftl_firmware.Ftl.State.{Ftl, invalid, total_lpns, total_ppns, ppn_to_block, ppn_to_page}
use ftl_firmware.Ftl.Snapshot.{
  SnapshotFile, MetaHeader, meta_magic, header_bytes, blank_header, ftl_calc_checksum, restored,
  read_table, rebuild_from, saved_file, ftl_save_snapshot, load_checked, load_opened,
  ftl_load_snapshot,
}
use ftl_firmware.Ftl.Mapping.{Serves}

-- A table whose mapped entries are pages of the device, no page twice.
record IsTable (l2p : ℕ → ℕ) : Type 0 where
  on_device : (l : ℕ) → l < total_lpns → l2p l ≢ invalid → l2p l < total_ppns
  apart : (a b : ℕ) → a < total_lpns → b < total_lpns → l2p a ≢ invalid → l2p a ≡ l2p b → a ≡ b

-- The reverse table for the logical pages before `n`.
record Names (l2p rev : ℕ → ℕ) (n : ℕ) : Type 0 where
  named : (l : ℕ) → l < n → l2p l ≢ invalid → rev (l2p l) ≡ l
  backed : (ppn : ℕ) → rev ppn ≢ invalid → (rev ppn < n) × (l2p (rev ppn) ≡ ppn)
  outside : rev invalid ≡ invalid

module _ {l2p : ℕ → ℕ} (t : IsTable l2p) where
  Names-next :
      {rev : ℕ → ℕ} (n : ℕ)
      → n < total_lpns
      → l2p n ≢ invalid
      → Names l2p rev n
      → Names l2p (update rev (l2p n) n) (n + 1)
  Names-next {rev} n low m h = record {
    named = λ l lt k. elim (update-cases rev (l2p n) n (l2p l)) [
      | inl (e, u) ↦ u ∙ sym (t.apart l n (omega (arith, lt, low)) low k e)
      | inr (ne, u) ↦ u ∙ h.named l (grind (arith, lt, ne, ap l2p)) k
    ];
    backed = λ p k. elim (update-cases rev (l2p n) n p) [
      | inl (e, u) ↦ subst (λ (l : ℕ). (l < n + 1) × (l2p l ≡ p)) (sym u) (omega arith, sym e)
      | inr (ne, u) ↦
          let (lt, back) = h.backed p (λ z. k (u ∙ z)) in
          subst (λ (l : ℕ). (l < n + 1) × (l2p l ≡ p)) (sym u) (omega (arith, lt), back)
    ];
    outside = update-ne rev (l2p n) invalid n (λ e. m (sym e)) ∙ h.outside;
  }

  Names-skip : {rev : ℕ → ℕ} (n : ℕ) → l2p n ≡ invalid → Names l2p rev n → Names l2p rev (n + 1)
  Names-skip {rev} n e h = record {
    named = λ l lt k. h.named l (grind (arith, lt, k, e, ap l2p)) k;
    backed = λ p k. let (lt, back) = h.backed p k in (omega (arith, lt), back);
    outside = h.outside;
  }

  rebuild_from-Names :
      (left n : ℕ) (rev : ℕ → ℕ)
      → n + left ≡ total_lpns
      → Names l2p rev n
      → Names l2p (rebuild_from left n l2p rev) total_lpns
  unfolding rebuild_from
  rebuild_from-Names zero n rev e h = subst (Names l2p rev) (omega (arith, e)) h
  rebuild_from-Names (suc left) n rev e h = elim (Bool-cases (l2p n == invalid)) [
    | inl k ↦
        rw k (
          rebuild_from-Names left (n + 1) rev (omega (arith, e))
            (Names-skip n ((==_iff _ _).0 k) h))
    | inr k ↦
        let low : n < total_lpns = omega (arith, e) in
        let m = λ (z : l2p n ≡ invalid). true≢false (sym ((==_iff _ _).1 z) ∙ k) in
        rw (k, lt→ltb (l2p n) total_ppns (t.on_device n low m))
          (rebuild_from-Names left (n + 1) (update rev (l2p n) n) (omega (arith, e))
            (Names-next n low m h))
  ]

  rebuilt-Names : Names l2p (rebuild_from total_lpns 0 l2p (λ _. invalid)) total_lpns
  rebuilt-Names =
      rebuild_from-Names total_lpns 0 (λ _. invalid) (omega arith)
        (record {
          named = λ l lt k. absurd (omega (arith, lt));
          backed = λ p k. absurd (k refl);
          outside = refl;
        })

-- The table of a layer whose pages are served, as a file gives it back.
module _ {s : Ftl} {content : ℕ → List ℕ} (h : Serves s content) (old : ℕ → ℕ) (file : SnapshotFile)
    (whole : total_lpns ≤ file.table_len) (same : file.table ≡ s.l2p_table) where
  abbrev loaded : ℕ → ℕ
  loaded = read_table old file

  loaded-l2p : (l : ℕ) → l < total_lpns → loaded l ≡ s.l2p_table l
  loaded-l2p l low =
      ap (λ (b : Bool). if b then file.table l else old l)
        (lt→ltb l file.table_len (omega (arith, low, whole)))
      ∙ ap (λ (f : ℕ → ℕ). f l) same

  mapped : (l : ℕ) → l < total_lpns → loaded l ≢ invalid → s.l2p_table l ≢ invalid
  mapped l low m k = m (loaded-l2p l low ∙ k)

  loaded-IsTable : IsTable loaded
  loaded-IsTable = record {
    on_device = λ l low m.
        let held = h.placed l low (mapped l low m) in
        let on = held.block_in in omega (arith, on, loaded-l2p l low);
    apart = λ a b a_low b_low m e.
        let e' = sym (loaded-l2p a a_low) ∙ e ∙ loaded-l2p b b_low in
        let ma = mapped a a_low m in
        sym (h.named a a_low ma) ∙ ap s.reverse_map e' ∙ h.named b b_low (λ k. ma (e' ∙ k));
  }

  -- A layer on the same device, with the table loaded and the other one rebuilt.
  loaded-Serves :
      (t : Ftl)
      → t.nand ≡ s.nand
      → t.l2p_table ≡ loaded
      → t.reverse_map ≡ rebuild_from total_lpns 0 loaded (λ _. invalid)
      → Serves t content
  loaded-Serves t same_nand l2p rev =
      let names = rebuilt-Names loaded-IsTable in
      let at = λ (l : ℕ) (low : l < total_lpns). ap (λ (f : ℕ → ℕ). f l) l2p ∙ loaded-l2p l low in
      let real = λ (l : ℕ) (m : t.l2p_table l ≢ invalid) (k : loaded l ≡ invalid).
        m (ap (λ (f : ℕ → ℕ). f l) l2p ∙ k) in
      record {
        placed = λ l low m.
            subst
              (λ (n : Nand).
                Holds n (ppn_to_block (t.l2p_table l)) (ppn_to_page (t.l2p_table l)) (content l))
              (sym same_nand)
              (subst (λ (a : ℕ). Holds s.nand (ppn_to_block a) (ppn_to_page a) (content l))
                (sym (at l low)) (h.placed l low (mapped l low (real l m))));
        named = λ l low m.
            ap (λ (f : ℕ → ℕ). f (t.l2p_table l)) rev
            ∙ ap (λ (f : ℕ → ℕ). rebuild_from total_lpns 0 loaded (λ _. invalid) (f l)) l2p
            ∙ names.named l low (real l m);
        backed = λ p m.
            let rev_p = ap (λ (f : ℕ → ℕ). f p) rev in
            let (low, back) = names.backed p (λ k. m (rev_p ∙ k)) in
            subst (λ (l : ℕ). (l < total_lpns) × (t.l2p_table l ≡ p)) (sym rev_p)
              (
                low,
                ap (λ (f : ℕ → ℕ). f (rebuild_from total_lpns 0 loaded (λ _. invalid) p)) l2p
                    ∙ back,
              );
        outside = ap (λ (f : ℕ → ℕ). f invalid) rev ∙ names.outside;
      }

load_checked-restored :
    (t : Ftl) (file : SnapshotFile) (h : MetaHeader)
    → h.magic ≡ meta_magic
    → h.checksum ≡ ftl_calc_checksum (header_bytes (record h { checksum = 0 }))
    → total_lpns ≤ file.table_len
    → load_checked t file h ≡ (ret_ok, restored t file h)
unfolding load_checked
load_checked-restored t file h magic sum whole =
    if_false (not (h.magic == meta_magic)) _ _ (ap not ((==_iff _ _).1 magic))
    ∙ if_false (not (h.checksum == ftl_calc_checksum (header_bytes (record h { checksum = 0 })))) _
        _ (ap not ((==_iff _ _).1 sum))
    ∙ if_false (ltb file.table_len total_lpns) _ _ (le→ltb file.table_len total_lpns whole)

saved_header : Ftl → MetaHeader
saved_header s = record (blank_header s) {
  checksum = ftl_calc_checksum (header_bytes (blank_header s));
}

load_saved :
    (s t : Ftl) (table_fits : ℕ)
    → total_lpns ≤ table_fits
    → ftl_load_snapshot t true (some (saved_file s true table_fits))
      ≡ (ret_ok, restored t (saved_file s true table_fits) (saved_header s))
unfolding ftl_load_snapshot load_opened saved_file saved_header
load_saved s t table_fits whole =
    load_checked-restored t (saved_file s true table_fits) (saved_header s) refl refl whole

save_ready :
    (s : Ftl) (table_fits : ℕ)
    → s.is_initialized ≡ true
    → ftl_save_snapshot s true true true table_fits ≡ (ret_ok, some (saved_file s true table_fits))
unfolding ftl_save_snapshot
save_ready s table_fits ready = if_false (not true || not s.is_initialized) _ _ (ap not ready)

-- What a load leaves.
abbrev pub IsRestored : Ftl → (ℕ → List ℕ) → RetCode × Ftl → Type 0
IsRestored s content (ret, t) =
    (ret ≡ ret_ok)
    × Serves t content
    × ((l : ℕ) → l < total_lpns → t.l2p_table l ≡ s.l2p_table l)
    × (t.cur_write_block ≡ s.cur_write_block)
    × (t.cur_write_page ≡ s.cur_write_page)

restored-IsRestored :
    (s t : Ftl) (content : ℕ → List ℕ) (table_fits : ℕ)
    → Serves s content
    → t.nand ≡ s.nand
    → total_lpns ≤ table_fits
    → IsRestored s content (ret_ok, restored t (saved_file s true table_fits) (saved_header s))
unfolding restored saved_file saved_header
restored-IsRestored s t content table_fits h same_nand whole =
    let file = saved_file s true table_fits in
    (
      refl,
      loaded-Serves h t.l2p_table file whole refl (restored t file (saved_header s)) same_nand refl
          refl,
      λ l low. loaded-l2p h t.l2p_table file whole refl l low,
      refl,
      refl,
    )

-- A snapshot that a layer saves to a disk with room for it loads again into a layer over the same
-- device, whatever that layer's tables were: it answers `ret_ok`, the table and the write pointer are
-- those that were saved, and every page reads as before, the reverse table being built anew. It holds
-- for a layer whose pages are served.
pub ftl_load_snapshot-ftl_save_snapshot :
    (s t : Ftl) (content : ℕ → List ℕ) (table_fits : ℕ)
    → s.is_initialized ≡ true
    → Serves s content
    → t.nand ≡ s.nand
    → total_lpns ≤ table_fits
    → let (saved, file) = ftl_save_snapshot s true true true table_fits in
      (saved ≡ ret_ok) × IsRestored s content (ftl_load_snapshot t true file)
ftl_load_snapshot-ftl_save_snapshot s t content table_fits ready h same_nand whole =
    subst
      (λ (r : RetCode × Option SnapshotFile).
        (r.0 ≡ ret_ok) × IsRestored s content (ftl_load_snapshot t true r.1))
      (sym (save_ready s table_fits ready))
      (
        refl,
        subst (IsRestored s content) (sym (load_saved s t table_fits whole))
            (restored-IsRestored s t content table_fits h same_nand whole),
      )
