-- ===== src/Host/Admin.antt =====
-- modules/host_if/host_if.c: the administrative commands. The blocks of data that identify the
-- controller and the namespace, and the health log, are what a copy of them gives.
use ftl_firmware.Common.{
  take, ℕ, ◌+◌, ◌%◌, ◌==◌, word_bytes, Bool, Option, none, some, List, [], ◌∷◌, ◌++◌, ltb, ◌||◌,
  if◌then◌else◌,
}
use ftl_firmware.Host.{NvmeStatus, success, invalid_opcode, invalid_field, Cmd, World}
use ftl_firmware.Host.Memory.{store}
use ftl_firmware.Host.Io.{zeroes}
use ftl_firmware.Host.Feature.{process_set_feature, process_get_feature}

-- What a copy of `id_ctrl`, of `id_ns` and of the health log, filled anew, gives.
pub record Pages (S : Type 0) : Type 0 where
  pub id_ctrl : List ℕ
  pub id_ns : List ℕ
  pub smart_log : World S → List ℕ

module _ {S : Type 0} (pages : Pages S) where
  unfoldable pub copy : World S → ℕ → List ℕ → NvmeStatus × World S
  unfolding store
  copy w a bytes = (success, record w { mem = store w.mem a bytes })

  -- The low byte of `nsid` chooses.
  unfoldable pub identify_at : World S → Cmd → Option ℕ → NvmeStatus × World S
  unfolding copy zeroes
  identify_at w cmd none = (invalid_field, w)
  identify_at w cmd (some a) =
      let cns = cmd.nsid % 256 in
      if ltb cmd.data_len 4096
      then (invalid_field, w)
      else if cns == 1
      then copy w a pages.id_ctrl
      else if cns == 0
      then copy w a pages.id_ns
      else if cns == 2
      then copy w a (word_bytes 1 ++ zeroes 4092)
      else (invalid_field, w)

  unfoldable pub process_identify : World S → Cmd → NvmeStatus × World S
  unfolding identify_at
  process_identify w cmd = identify_at w cmd cmd.data_buf

  -- `"1.0.0"`
  abbrev pub slot_version : List ℕ
  slot_version = 49 ∷ 46 ∷ 48 ∷ 46 ∷ 48 ∷ []

  unfoldable pub log_page_at : World S → Cmd → Option ℕ → NvmeStatus × World S
  unfolding copy zeroes
  log_page_at w cmd none = (invalid_field, w)
  log_page_at w cmd (some a) =
      let log_id = cmd.nsid % 256 in
      let blanked = store w.mem a (zeroes cmd.data_len) in
      if log_id == 2
      then copy w a (take cmd.data_len (pages.smart_log w))
      else if log_id == 1
      then (success, record w { mem = blanked })
      else if log_id == 3
      then (success, record w { mem = store (store blanked a (1 ∷ [])) (a + 8) slot_version })
      else if log_id == 5
      then (success, record w { mem = blanked })
      else (invalid_field, w)

  unfoldable pub process_get_log_page : World S → Cmd → NvmeStatus × World S
  unfolding log_page_at
  process_get_log_page w cmd = log_page_at w cmd cmd.data_buf

  -- The commands that do nothing: the queues, abort, asynchronous events, firmware, format.
  abbrev pub is_accepted : ℕ → Bool
  is_accepted op =
      op == 0x01
      || op == 0x00
      || op == 0x05
      || op == 0x04
      || op == 0x08
      || op == 0x0C
      || op == 0x11
      || op == 0x10
      || op == 0x80

  unfoldable pub process_admin_cmd : World S → Cmd → NvmeStatus × World S
  unfolding process_identify process_get_log_page process_set_feature process_get_feature
  process_admin_cmd w cmd =
      if cmd.opcode == 0x06
      then process_identify w cmd
      else if cmd.opcode == 0x02
      then process_get_log_page w cmd
      else if cmd.opcode == 0x09
      then process_set_feature w cmd
      else if cmd.opcode == 0x0A
      then process_get_feature w cmd
      else (if is_accepted cmd.opcode then success else invalid_opcode, w)
