-- ===== src/Ftl/LogTests.antt =====
-- modules/ftl/ftl.c: start-up, snapshots, the log and secure erase at the layer of the tests.
use ftl_firmware.Common.{◌≡◌, refl, ap, ◌∙◌, [], ◌∷◌, true, List, map, some, arith, RetCode, ret_ok}
use ftl_firmware.Nand.{page_write}
use ftl_firmware.Nand.Tests.{chip, chip_one, chip-IsCounted}
use ftl_firmware.Ftl.Tests.{wholes, data_of, layer, layer-Serves, many_free}
use ftl_firmware.Ftl.State.{
  Ftl, WalEntry, wal_log_write, wal_log, ftl_wal_append, ftl_alloc_phy_page,
}
use ftl_firmware.Ftl.Write.{write_data, write_allocated, ftl_write}
use ftl_firmware.Ftl.Trim.{ftl_trim}
use ftl_firmware.Ftl.Start.{ftl_init}
use ftl_firmware.Ftl.Snapshot.{ftl_save_snapshot, ftl_load_snapshot}
use ftl_firmware.Ftl.Replay.{raw_of, ftl_wal_replay}
use ftl_firmware.Common.{ℕ, subst, Option}
use ftl_firmware.Nand.{page_size}
use ftl_firmware.Ftl.State.{invalid}
use ftl_firmware.Ftl.Tests.{layer-IsSound}
use ftl_firmware.Ftl.Trim.{clamp_count}
use ftl_firmware.Ftl.Erase.{
  generate_erase_pattern, erase_next, erase_pages, erase_passes, ftl_secure_erase,
}
use ftl_firmware.Ftl.Mapping.Hosted.{IsAnsweredIf, ftl_write-IsAnswered}
use ftl_firmware.Ftl.Mapping.Erased.{ftl_secure_erase-unmaps}
use ftl_firmware.Ftl.Mapping.Started.{IsStarted, ftl_init-IsStarted}
use ftl_firmware.Ftl.Mapping.Restored.{IsRestored, ftl_load_snapshot-ftl_save_snapshot}
use ftl_firmware.Ftl.Mapping.Returned.{answer, ftl_write-answer}
use ftl_firmware.Ftl.Mapping.Entries.{tables}
use ftl_firmware.Ftl.Mapping.History.{
  History, opened, then_write, then_trim, TakesNext, ftl_wal_replay-History,
}

ftl_init-IsStarted_example : IsStarted data_of layer (ftl_init layer)
ftl_init-IsStarted_example = ftl_init-IsStarted layer data_of chip-IsCounted

ftl_load_snapshot-ftl_save_snapshot_example :
    let (saved, file) = ftl_save_snapshot layer true true true 30000 in
    (saved ≡ ret_ok) × IsRestored layer data_of (ftl_load_snapshot layer true file)
ftl_load_snapshot-ftl_save_snapshot_example =
    ftl_load_snapshot-ftl_save_snapshot layer layer data_of 30000 refl layer-Serves refl
      (omega arith)

-- The layer with its log open, and what a write of page 7 leaves.
abbrev logging : Ftl
logging = record layer { wal_file = some []; wal_enabled = true }

abbrev written : Ftl
written = (answer logging 7 (9 ∷ []) []).1

takes : TakesNext logging (9 ∷ [])
unfolding ftl_alloc_phy_page page_write chip chip_one
takes = (1282, record logging { cur_write_page = 3 }, refl, refl)

answered : (answer logging 7 (9 ∷ []) []).0 ≡ ret_ok
unfolding write_allocated wal_log_write wal_log ftl_wal_append write_data ftl_alloc_phy_page
    page_write chip chip_one
answered = refl

returned : ftl_write wholes 1 logging 7 (some (9 ∷ [])) [] ≡ some (ret_ok, written)
returned =
    ftl_write-answer wholes 0 logging 7 (9 ∷ []) [] refl (omega arith) many_free
    ∙ ap (λ (r : RetCode). some (r, written)) answered

-- A write of page 7, and a trim of pages 3 to 7.
past : History wholes logging (ftl_trim written 3 5).1
past =
    then_trim 3 5
      (then_write 0 7 (9 ∷ []) [] written opened (refl, many_free, (omega arith, refl), omega arith)
        (omega arith) takes returned)
      (omega arith)

ftl_wal_replay-History_example :
    (log : List WalEntry) × ((ftl_trim written 3 5).1.wal_file ≡ some log)
    × (let (ret, after) = ftl_wal_replay logging true (some (map raw_of log)) in
        (ret ≡ ret_ok) × (tables after ≡ tables (ftl_trim written 3 5).1))
ftl_wal_replay-History_example =
    ftl_wal_replay-History wholes logging logging (ftl_trim written 3 5).1 refl refl (λ i. refl)
      refl past

-- Page 3 is erased in one pass.
abbrev pattern : List ℕ
pattern = generate_erase_pattern page_size 0

abbrev passed : Ftl
passed = (answer layer 3 pattern []).1

passed_answer : (answer layer 3 pattern []).0 ≡ ret_ok
unfolding write_allocated wal_log_write wal_log write_data ftl_alloc_phy_page page_write chip
    chip_one
passed_answer = refl

passed_returns : ftl_write wholes 1 layer 3 (some pattern) [] ≡ some (ret_ok, passed)
passed_returns =
    ftl_write-answer wholes 0 layer 3 pattern [] refl (omega arith) many_free
    ∙ ap (λ (r : RetCode). some (r, passed)) passed_answer

passed_ready : passed.is_initialized ≡ true
passed_ready =
    (subst (IsAnsweredIf data_of 3 pattern layer) passed_returns (
      ftl_write-IsAnswered wholes 1 layer data_of 3 pattern [] layer-IsSound (omega arith, refl))).3

trimmed_answer : (s : Ftl) → s.is_initialized ≡ true → (ftl_trim s 3 1).0 ≡ ret_ok
unfolding ftl_trim
trimmed_answer s ready = rw ready refl

erased : ftl_secure_erase wholes 1 [] layer 3 1 1 true ≡ some (ret_ok, (ftl_trim passed 3 1).1)
unfolding ftl_secure_erase erase_passes erase_pages erase_next clamp_count
erased =
    ap
      (λ (o : Option (RetCode × Ftl)).
        erase_next (erase_next (erase_next o (λ s. some (ret_ok, s))) (λ s. some (ret_ok, s)))
          (λ s. some (ftl_trim s 3 1)))
      passed_returns
    ∙ ap (λ (r : RetCode). some (r, (ftl_trim passed 3 1).1)) (trimmed_answer passed passed_ready)

ftl_secure_erase-unmaps_example : (ftl_trim passed 3 1).1.l2p_table 3 ≡ invalid
ftl_secure_erase-unmaps_example =
    ftl_secure_erase-unmaps wholes 1 layer (ftl_trim passed 3 1).1 3 1 1 3 true [] (omega arith)
      (omega arith) (omega arith) (omega arith) erased
