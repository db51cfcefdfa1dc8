-- ===== src/Common/Codes.antt =====
-- `ret_code_t` of include/common/common.h, the result of nearly every function.
use mathlib.Core.Bool.{Bool, true, false}
use mathlib.Core.Path.{◌≡◌}
use native.Mathlib.Omega.{arith}

pub data RetCode : Type 0 where
  ret_ok err_param err_no_space err_bad_block err_overwrite err_not_mapped err_not_init : RetCode
  err_internal err_checksum err_timeout err_busy err_not_support : RetCode
  err_dif_crc err_dif_app_tag err_dif_ref_tag : RetCode

-- `ret == RET_OK`
abbrev pub is_ok : RetCode → Bool
is_ok ret_ok = true
is_ok _ = false

-- `ret == RET_ERR_BAD_BLOCK`
abbrev pub is_bad_block : RetCode → Bool
is_bad_block err_bad_block = true
is_bad_block _ = false

-- `ret == RET_ERR_OVERWRITE`
abbrev pub is_overwrite : RetCode → Bool
is_overwrite err_overwrite = true
is_overwrite _ = false

-- `ret == RET_ERR_NOT_MAPPED`
abbrev pub is_not_mapped : RetCode → Bool
is_not_mapped err_not_mapped = true
is_not_mapped _ = false

pub is_ok_sound : (r : RetCode) → is_ok r ≡ true → r ≡ ret_ok
is_ok_sound r e = ground arith
