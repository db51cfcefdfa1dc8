-- ===== src/Host/Tests.antt =====
-- modules/host_if/host_if.c at an interface with four places, over a store of pages, and over the layer of the
-- tests of modules/ftl.
use ftl_firmware.Common.{
  ℕ, ◌%◌, ◌^◌, ◌≡◌, ◌≢◌, refl, ap, ◌∙◌, true, false, Option, none, some, [], ◌∷◌, RetCode, ret_ok,
  arith,
}
use ftl_firmware.Nand.{page_size, page_write}
use ftl_firmware.Nand.Tests.{chip, chip_one}
use ftl_firmware.Ipc.{Ipc}
use ftl_firmware.Ftl.State.{Ftl, wal_log_write, wal_log, ftl_alloc_phy_page}
use ftl_firmware.Ftl.Write.{write_data, write_allocated, ftl_write}
use ftl_firmware.Ftl.Mapping.Returned.{answer, ftl_write-answer}
use ftl_firmware.Ftl.Tests.{wholes, data_of, layer, layer-IsSound, many_free}
use ftl_firmware.Host.{success, Cmd, Cqe, HostIf, World}
use ftl_firmware.Host.Memory.{load}
use ftl_firmware.Host.Completion.{add_cqe, host_if_poll_cq}
use ftl_firmware.Host.Io.{process_read_cmd, process_write_cmd}
use ftl_firmware.Host.Feature.{
  feature_of, named_feature, feature_value, feat_temp_threshold, process_set_feature,
  process_get_feature,
}
use ftl_firmware.Host.Admin.{Pages}
use ftl_firmware.Host.Process.{
  identified, host_if_submit_cmd, completed, process_io_cmd, process_cmd, process_next,
  process_loop, host_if_process,
}
use ftl_firmware.Host.Ring.{slot_after, entries_from, pending, IsRing}
use ftl_firmware.Host.Queue.{Adds, add_cqe-Adds, Polls, host_if_poll_cq-Polls}
use ftl_firmware.Host.Answers.{Answers, host_if_process-Answers}
use ftl_firmware.Host.Valid.{host_if_init-IsUp}
use ftl_firmware.Host.Init.{
  host_if_init, init_with, blanked, powered, no_stats, no_perf, no_features,
}
use ftl_firmware.Host.Served.{
  Run, begins, submits, processes, IsServed, IsUp-IsServed, Run-IsServed,
}
use ftl_firmware.Host.Valued.{Gets, process_get_feature-process_set_feature}
use ftl_firmware.Host.Layer.{layer_ops, page_cmd, process_read_cmd-process_write_cmd}

abbrev no_pages : {S : Type 0} → Pages S
no_pages = record { id_ctrl = []; id_ns = []; smart_log = λ w. [] }

abbrev no_cqe : Cqe
no_cqe = record { dw0 = 0; sqhd = 0; sqid = 0; cid = 0; status = success; phase_tag = 0 }

abbrev idle : HostIf
idle = record {
  config = record { queue_size = 4; max_cmd = 4; lba_size = 4096; total_lbas = 100; is_nvm = true };
  stats = no_stats;
  perf = no_perf 0;
  sq = [];
  sq_count = 0;
  cq_buf = λ i. no_cqe;
  cq_head = 3;
  cq_tail = 3;
  cq_count = 0;
  phase_tag = 1;
  features = no_features;
  plp_enabled = true;
  wal_dirty = false;
  power_cycles = 1;
  unsafe_shutdowns = 0;
  power_on_hours = 0;
  is_initialized = true;
  cid_counter = 7;
}

idle-IsRing : IsRing idle
unfolding slot_after
idle-IsRing = record { small = omega arith; head = omega arith; count = omega arith; tail = refl }

abbrev quiet : Ipc
quiet = record {
  queues = λ i. record { nodes = []; count = 0; max_size = 0; is_initialized = false };
  msg_id_counter = 0;
  timestamp_counter = 0;
}

abbrev world_over : {S : Type 0} → S → HostIf → World S
world_over s h = record { host = h; mem = λ a. 7; allocs = λ i. true; ipc = quiet; ftl = s }

abbrev flush : ℕ → Cmd
flush id = record {
  opcode = 0;
  nsid = 1;
  slba = 0;
  nlb = 0;
  cid = id;
  data_buf = none;
  data_len = 0;
  is_admin = false;
}

add_cqe-Adds_example : Adds idle no_cqe (add_cqe idle no_cqe)
add_cqe-Adds_example = add_cqe-Adds idle no_cqe idle-IsRing

host_if_poll_cq-Polls_example : Polls idle (host_if_poll_cq idle true)
host_if_poll_cq-Polls_example = host_if_poll_cq-Polls idle refl idle-IsRing

-- A flush and a read of page 3 wait, over the translation layer of modules/ftl.
abbrev busy : World Ftl
busy = world_over layer (record idle { sq = flush 5 ∷ page_cmd 2 3 8192 ∷ []; sq_count = 2 })

busy-IsRing : IsRing busy.host
unfolding slot_after
busy-IsRing = record { small = omega arith; head = omega arith; count = omega arith; tail = refl }

host_if_process-Answers_example :
    Answers (layer_ops wholes 1 []) busy (host_if_process (layer_ops wholes 1 []) no_pages busy)
host_if_process-Answers_example =
    host_if_process-Answers (layer_ops wholes 1 []) no_pages busy refl busy-IsRing refl

-- The interface is brought up; a flush without an identifier and a read of page 3 are submitted and
-- processed.
abbrev down : World Ftl
down = world_over layer idle

abbrev start : World Ftl
start = (host_if_init down (some idle.config)).1

start-IsServed : IsServed [] [] start
unfolding host_if_init init_with
start-IsServed = IsUp-IsServed start ret_ok (host_if_init-IsUp down idle.config (omega arith)) refl

abbrev submitted : World Ftl
submitted = (host_if_submit_cmd start (some (flush 0))).1

abbrev both : World Ftl
both = (host_if_submit_cmd submitted (some (page_cmd 2 3 8192))).1

abbrev left_by : World Ftl → Option (RetCode × World Ftl) → World Ftl
left_by w none = w
left_by w (some r) = r.1

abbrev processed : World Ftl
processed = left_by both (host_if_process (layer_ops wholes 1 []) no_pages both)

run : Run (layer_ops wholes 1 []) no_pages start (7 ∷ 8 ∷ []) [] processed
unfolding host_if_init init_with blanked powered identified host_if_submit_cmd host_if_process
    process_loop process_next completed process_cmd process_io_cmd pending entries_from
    process_read_cmd
run =
    processes processed
      (submits (page_cmd 2 3 8192) both (submits (flush 0) submitted begins refl) refl)
      (omega arith) refl

Run-IsServed_example : IsServed (7 ∷ 8 ∷ []) [] processed
Run-IsServed_example = Run-IsServed (layer_ops wholes 1 []) no_pages start-IsServed run

-- A threshold is set and got again.
abbrev feature_cmd : ℕ → Cmd
feature_cmd value = record {
  opcode = 9;
  nsid = 4;
  slba = value;
  nlb = 0;
  cid = 1;
  data_buf = some 100;
  data_len = 4;
  is_admin = true;
}

names_threshold : (value : ℕ) → named_feature (feature_cmd value) ≡ some feat_temp_threshold
unfolding feature_of
names_threshold value = refl

process_get_feature-process_set_feature_example :
    let (status, w') = process_set_feature down (feature_cmd 350) in
    (status ≡ success)
    × (feat_temp_threshold ≡ feat_temp_threshold
        → Gets 100 (350 % 2 ^ 32) (process_get_feature w' (feature_cmd 0)))
    × (feat_temp_threshold ≢ feat_temp_threshold
        → Gets 100
            (feature_value idle.features feat_temp_threshold)
            (process_get_feature w' (feature_cmd 0)))
process_get_feature-process_set_feature_example =
    process_get_feature-process_set_feature down (feature_cmd 350) (feature_cmd 0)
      feat_temp_threshold feat_temp_threshold 100 (names_threshold 350) (names_threshold 0) refl
      (omega arith)

-- Page 7 is written from address 0 and read to address 8192.
abbrev over_layer : World Ftl
over_layer = world_over layer idle

abbrev taken : RetCode × Ftl
taken = answer layer 7 (load (λ a. 7) 0 page_size) []

page_taken : taken.0 ≡ ret_ok
unfolding write_allocated wal_log_write wal_log write_data ftl_alloc_phy_page page_write chip
    chip_one
page_taken = refl

page_returns :
    ftl_write wholes 1 layer 7 (some (load (λ a. 7) 0 page_size)) [] ≡ some (ret_ok, taken.1)
page_returns =
    ftl_write-answer wholes 0 layer 7 (load (λ a. 7) 0 page_size) [] refl (omega arith) many_free
    ∙ ap (λ (r : RetCode). some (r, taken.1)) page_taken

process_read_cmd-process_write_cmd_example :
    let ops = layer_ops wholes 1 [] in
    (w' : World Ftl) × (process_write_cmd ops over_layer (page_cmd 1 7 0) ≡ some (success, w'))
    × (let (status, w'') = process_read_cmd ops w' (page_cmd 2 7 8192) in
        (status ≡ success) × (load w''.mem 8192 page_size ≡ load over_layer.mem 0 page_size))
process_read_cmd-process_write_cmd_example =
    process_read_cmd-process_write_cmd wholes 1 [] over_layer data_of 7 0 8192 taken.1 refl
      (omega arith) layer-IsSound (omega arith, refl) page_returns
