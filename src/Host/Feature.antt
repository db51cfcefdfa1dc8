-- ===== src/Host/Feature.antt =====
-- modules/host_if/host_if.c: the features that a host sets and gets.
use ftl_firmware.Common.{word_bytes, ℕ, ◌%◌, ◌^◌, ◌==◌, Option, none, some, leb, if◌then◌else◌}
use ftl_firmware.Host.{NvmeStatus, success, invalid_field, Cmd, Features, World}
use ftl_firmware.Host.Memory.{store}

-- The identifiers of `nvme_feature_id_t` that the interface has.
pub data FeatureId : Type 0 where
  feat_arbitration feat_power_mgmt feat_temp_threshold feat_error_recovery feat_volatile_wc
        feat_num_queues feat_irq_coalesce feat_write_atomicity feat_async_event feat_auto_pst
        feat_keep_alive feat_hctm :
      FeatureId

unfoldable pub feature_of : ℕ → Option FeatureId
feature_of n =
    if n == 1
    then some feat_arbitration
    else if n == 2
    then some feat_power_mgmt
    else if n == 4
    then some feat_temp_threshold
    else if n == 5
    then some feat_error_recovery
    else if n == 6
    then some feat_volatile_wc
    else if n == 7
    then some feat_num_queues
    else if n == 8
    then some feat_irq_coalesce
    else if n == 10
    then some feat_write_atomicity
    else if n == 11
    then some feat_async_event
    else if n == 12
    then some feat_auto_pst
    else if n == 15
    then some feat_keep_alive
    else if n == 16
    then some feat_hctm
    else none

unfoldable pub feature_value : Features → FeatureId → ℕ
feature_value f feat_arbitration = f.arbitration
feature_value f feat_power_mgmt = f.power_mgmt
feature_value f feat_temp_threshold = f.temp_threshold
feature_value f feat_error_recovery = f.error_recovery
feature_value f feat_volatile_wc = f.volatile_wc
feature_value f feat_num_queues = f.num_queues
feature_value f feat_irq_coalesce = f.irq_coalesce
feature_value f feat_write_atomicity = f.write_atomicity
feature_value f feat_async_event = f.async_event
feature_value f feat_auto_pst = f.auto_pst
feature_value f feat_keep_alive = f.keep_alive
feature_value f feat_hctm = f.hctm

unfoldable pub with_feature : Features → FeatureId → ℕ → Features
with_feature f feat_arbitration v = record f { arbitration = v }
with_feature f feat_power_mgmt v = record f { power_mgmt = v }
with_feature f feat_temp_threshold v = record f { temp_threshold = v }
with_feature f feat_error_recovery v = record f { error_recovery = v }
with_feature f feat_volatile_wc v = record f { volatile_wc = v }
with_feature f feat_num_queues v = record f { num_queues = v }
with_feature f feat_irq_coalesce v = record f { irq_coalesce = v }
with_feature f feat_write_atomicity v = record f { write_atomicity = v }
with_feature f feat_async_event v = record f { async_event = v }
with_feature f feat_auto_pst v = record f { auto_pst = v }
with_feature f feat_keep_alive v = record f { keep_alive = v }
with_feature f feat_hctm v = record f { hctm = v }

-- The low byte of `nsid` names the feature.
abbrev pub named_feature : Cmd → Option FeatureId
unfolding feature_of
named_feature cmd = feature_of (cmd.nsid % 256)

module _ {S : Type 0} where
  -- What a command does with the feature it names.
  unfoldable pub set_named : World S → ℕ → Option FeatureId → NvmeStatus × World S
  unfolding with_feature
  set_named w value none = (invalid_field, w)
  set_named w value (some id) = (
    success,
    record w { host = record w.host { features = with_feature w.host.features id value } },
  )

  unfoldable pub process_set_feature : World S → Cmd → NvmeStatus × World S
  unfolding set_named
  process_set_feature w cmd = set_named w (cmd.slba % 2 ^ 32) (named_feature cmd)

  -- The value goes to the buffer, if there is one and it is long enough.
  unfoldable pub return_value : World S → Option ℕ → ℕ → ℕ → World S
  unfolding store
  return_value w none data_len value = w
  return_value w (some a) data_len value =
      if leb 4 data_len then record w { mem = store w.mem a (word_bytes value) } else w

  unfoldable pub get_named : World S → Cmd → Option FeatureId → NvmeStatus × World S
  unfolding feature_value return_value
  get_named w cmd none = (invalid_field, w)
  get_named w cmd (some id) =
      (success, return_value w cmd.data_buf cmd.data_len (feature_value w.host.features id))

  unfoldable pub process_get_feature : World S → Cmd → NvmeStatus × World S
  unfolding get_named
  process_get_feature w cmd = get_named w cmd (named_feature cmd)
