-- ===== src/Dif/Tests.antt =====
-- modules/host_if/host_if.c: the DIF tuple of three bytes at address 5.
use ftl_firmware.Common.{ℕ, ◌≡◌, refl, [], ◌∷◌, true, none, List, ret_ok, arith}
use ftl_firmware.Dif.{Dif, Tuple, type1, dif_generate, dif_verify, lba_count}
use ftl_firmware.Dif.Tuples.{Protects, dif_verify-dif_generate, dif_verify-Protects}

abbrev protected : Dif
protected = record {
  config = record {
    dif_type = type1;
    guard_check_enable = true;
    app_tag_check_enable = true;
    ref_tag_check_enable = true;
    app_tag = 7;
    app_tag_mask = 15;
  };
  stats = record { total_checks = 0; crc_errors = 0; app_tag_errors = 0; ref_tag_errors = 0 };
  is_initialized = true;
}

abbrev no_tuples : ℕ → Tuple
no_tuples i = record { crc = 0; app_tag = 0; ref_tag = 0 }

abbrev bytes : List ℕ
bytes = 1 ∷ 2 ∷ 3 ∷ []

dif_verify-dif_generate_example :
    let (made, ts) = dif_generate protected bytes 3 5 no_tuples in
    let (ret, failed, s) = dif_verify protected bytes 3 5 ts in
    (made ≡ ret_ok) × (ret ≡ ret_ok) × (failed ≡ none)
dif_verify-dif_generate_example =
    dif_verify-dif_generate protected bytes 3 5 no_tuples (λ e. omega (arith, e)) refl refl

one_page : lba_count 3 ≡ 1
unfolding lba_count
one_page = refl

dif_verify-Protects_example :
    let ts = (dif_generate protected bytes 3 5 no_tuples).1 in
    Protects protected.config bytes 3 5 0 (ts 0)
dif_verify-Protects_example =
    dif_verify-Protects protected bytes 3 5 (dif_generate protected bytes 3 5 no_tuples).1
      dif_verify-dif_generate_example.1 0 (omega (arith, one_page))
