-- ===== src/Dif.antt =====
-- modules/host_if/host_if.c: the DIF tuples, which protect each page on its way. The caller's array of
-- tuples is a function of the index; null pointers are `none`. What is written to `error_lba` is given.
pub mod Tuples
mod Tests
use Prim.Native.Nat.{bit_and}
use ftl_firmware.Common.{
  ℕ, zero, suc, ◌+◌, ◌-◌, ◌*◌, ◌/◌, ◌%◌, ◌^◌, ◌==◌, Bool, true, false, Option, none, some, List, [],
  ◌∷◌, not, ◌&&◌, ◌||◌, if◌then◌else◌, update, inc64, add64, RetCode, ret_ok, err_param,
  err_not_init, err_not_support, err_dif_crc, err_dif_app_tag, err_dif_ref_tag, is_ok,
}
use ftl_firmware.Nand.{page_size}
use ftl_firmware.Crc.{dif_crc16}

-- `dif_type_t`
pub data DifType : Type 0 where
  disabled type1 type2 type3 : DifType

abbrev pub is_disabled : DifType → Bool
is_disabled disabled = true
is_disabled _ = false

abbrev pub is_type1 : DifType → Bool
is_type1 type1 = true
is_type1 _ = false

-- `dif_protection_t`
pub record Tuple : Type 0 where
  pub crc : ℕ
  pub app_tag : ℕ
  pub ref_tag : ℕ

-- `dif_config_t`
pub record DifConfig : Type 0 where
  pub dif_type : DifType
  pub guard_check_enable : Bool
  pub app_tag_check_enable : Bool
  pub ref_tag_check_enable : Bool
  pub app_tag : ℕ
  pub app_tag_mask : ℕ

-- `dif_stats_t`
pub record DifStats : Type 0 where
  pub total_checks : ℕ
  pub crc_errors : ℕ
  pub app_tag_errors : ℕ
  pub ref_tag_errors : ℕ

-- `g_dif`
pub record Dif : Type 0 where
  pub config : DifConfig
  pub stats : DifStats
  pub is_initialized : Bool

unfoldable pub dif_init : Dif → Option DifConfig → RetCode × Dif
dif_init s none = (err_param, s)
dif_init s (some c) = (
  ret_ok,
  record {
    config = c;
    stats = record { total_checks = 0; crc_errors = 0; app_tag_errors = 0; ref_tag_errors = 0 };
    is_initialized = true;
  },
)

-- `len` bytes of the data from `start` on.
unfoldable pub bytes_at : List ℕ → ℕ → ℕ → List ℕ
bytes_at [] start len = []
bytes_at (b ∷ bs) zero zero = []
bytes_at (b ∷ bs) zero (suc len) = b ∷ bytes_at bs zero len
bytes_at (b ∷ bs) (suc start) len = bytes_at bs start len

unfoldable pub lba_count : ℕ → ℕ
lba_count data_len = let n = data_len / page_size in if n == 0 then 1 else n

-- The bytes of page `i`, the last of which has what is left.
unfoldable pub lba_data : List ℕ → ℕ → ℕ → List ℕ
unfolding bytes_at lba_count
lba_data bytes data_len i =
    bytes_at bytes (i * page_size)
      (if i + 1 == lba_count data_len then data_len - i * page_size else page_size)

-- The tuple that is made for page `i`.
unfoldable pub tuple_of : DifConfig → List ℕ → ℕ → ℕ → ℕ → Tuple
unfolding lba_data
tuple_of c bytes data_len lba i = record {
  crc = dif_crc16 (lba_data bytes data_len i);
  app_tag = c.app_tag;
  ref_tag = if is_type1 c.dif_type then (lba + i) % 2 ^ 32 else 0;
}

unfoldable pub generate_from : ℕ → ℕ → DifConfig → List ℕ → ℕ → ℕ → (ℕ → Tuple) → ℕ → Tuple
unfolding tuple_of
generate_from zero i c bytes data_len lba ts = ts
generate_from (suc left) i c bytes data_len lba ts =
    generate_from left (i + 1) c bytes data_len lba (update ts i (tuple_of c bytes data_len lba i))

unfoldable pub dif_generate : Dif → List ℕ → ℕ → ℕ → (ℕ → Tuple) → RetCode × (ℕ → Tuple)
unfolding generate_from
dif_generate s bytes data_len lba ts =
    if data_len == 0
    then (err_param, ts)
    else if not s.is_initialized
    then (err_not_init, ts)
    else if is_disabled s.config.dif_type
    then (err_not_support, ts)
    else (ret_ok, generate_from (lba_count data_len) 0 s.config bytes data_len lba ts)

-- The checks of page `i`, in the order of the source.
unfoldable pub check_tuple : DifConfig → List ℕ → ℕ → ℕ → ℕ → Tuple → RetCode
unfolding lba_data
check_tuple c bytes data_len lba i t =
    if c.guard_check_enable && not (dif_crc16 (lba_data bytes data_len i) == t.crc)
    then err_dif_crc
    else if c.app_tag_check_enable
        && not (bit_and t.app_tag c.app_tag_mask == bit_and c.app_tag c.app_tag_mask)
    then err_dif_app_tag
    else if c.ref_tag_check_enable && is_type1 c.dif_type && not (t.ref_tag == (lba + i) % 2 ^ 32)
    then err_dif_ref_tag
    else ret_ok

unfoldable pub count_failure : RetCode → DifStats → DifStats
count_failure err_dif_crc st = record st { crc_errors = inc64 st.crc_errors }
count_failure err_dif_app_tag st = record st { app_tag_errors = inc64 st.app_tag_errors }
count_failure err_dif_ref_tag st = record st { ref_tag_errors = inc64 st.ref_tag_errors }
count_failure _ st = st

-- The first check that fails among `left` pages from `i` on, and its address.
unfoldable pub verify_from : ℕ → ℕ → DifConfig → List ℕ → ℕ → ℕ → (ℕ → Tuple) → RetCode × Option ℕ
unfolding check_tuple
verify_from zero i c bytes data_len lba ts = (ret_ok, none)
verify_from (suc left) i c bytes data_len lba ts =
    let ret = check_tuple c bytes data_len lba i (ts i) in
    let rest = verify_from left (i + 1) c bytes data_len lba ts in
    if is_ok ret then rest else (ret, some ((lba + i) % 2 ^ 64))

unfoldable pub dif_verify : Dif → List ℕ → ℕ → ℕ → (ℕ → Tuple) → RetCode × Option ℕ × Dif
unfolding verify_from count_failure
dif_verify s bytes data_len lba ts =
    let n = lba_count data_len in
    let (ret, failed) = verify_from n 0 s.config bytes data_len lba ts in
    if data_len == 0
    then (err_param, none, s)
    else if not s.is_initialized
    then (err_not_init, none, s)
    else if is_disabled s.config.dif_type
    then (err_not_support, none, s)
    else (
      ret,
      failed,
      record s {
        stats = count_failure ret (record s.stats { total_checks = add64 s.stats.total_checks n });
      },
    )
