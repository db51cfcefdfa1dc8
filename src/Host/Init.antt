-- ===== src/Host/Init.antt =====
-- modules/host_if/host_if.c: the interface is brought up and taken down.
use ftl_firmware.Common.{
  ℕ, ◌+◌, ◌==◌, true, false, not, Option, none, some, [], if◌then◌else◌, RetCode, ret_ok, err_param,
  err_internal, err_not_init,
}
use ftl_firmware.Ipc
use ftl_firmware.Host.{Config, Stats, Features, HostIf, World}
use ftl_firmware.Host.Perf.{PerformanceStats}

abbrev pub no_stats : Stats
no_stats = record {
  total_cmds = 0;
  read_cmds = 0;
  write_cmds = 0;
  trim_cmds = 0;
  completed_cmds = 0;
  failed_cmds = 0;
  total_read_bytes = 0;
  total_write_bytes = 0;
}

-- The statistics blanked; the counter of `get_timestamp_ms` goes on.
abbrev pub no_perf : ℕ → PerformanceStats
no_perf clock = record {
  clock = clock;
  read_iops = 0;
  write_iops = 0;
  total_iops = 0;
  read_bw_bps = 0;
  write_bw_bps = 0;
  total_bw_bps = 0;
  min_latency_us = 0;
  max_latency_us = 0;
  avg_latency_us = 0;
  total_latency_us = 0;
  latency_count = 0;
  window_start_ms = 0;
  window_read_cmds = 0;
  window_write_cmds = 0;
  window_read_bytes = 0;
  window_write_bytes = 0;
}

abbrev pub no_features : Features
no_features = record {
  arbitration = 0;
  power_mgmt = 0;
  temp_threshold = 0;
  error_recovery = 0;
  volatile_wc = 0;
  num_queues = 0;
  irq_coalesce = 0;
  write_atomicity = 0;
  async_event = 0;
  auto_pst = 0;
  keep_alive = 0;
  hctm = 0;
}

-- The state blanked, with its configuration. What the buffer of the ring holds is of no account.
unfoldable pub blanked : HostIf → Config → HostIf
blanked h config = record h {
  config = config;
  stats = no_stats;
  perf = no_perf h.perf.clock;
  sq = [];
  sq_count = 0;
  cq_head = 0;
  cq_tail = 0;
  cq_count = 0;
  phase_tag = 0;
  features = no_features;
  plp_enabled = false;
  wal_dirty = false;
  power_cycles = 0;
  unsafe_shutdowns = 0;
  power_on_hours = 0;
  is_initialized = false;
}

unfoldable pub powered : HostIf → HostIf
powered h = record h {
  phase_tag = 1;
  features = record no_features {
    arbitration = 1;
    temp_threshold = 345;
    volatile_wc = 1;
    num_queues = 0xFFFF;
  };
  plp_enabled = true;
  power_cycles = 1;
  is_initialized = true;
}

-- `MODULE_HOST_IF`
abbrev pub module_host_if : ℕ
module_host_if = 2

module _ {S : Type 0} where
  unfoldable pub init_with : World S → Config → RetCode × World S
  unfolding blanked powered
  init_with w config =
      let w' = record w { host = blanked w.host config; allocs = λ i. w.allocs (i + 1) } in
      if config.queue_size == 0
      then (err_param, w)
      else if not (w.allocs 0)
      then (err_internal, w')
      else (
        ret_ok,
        record w' {
          host = powered (blanked w.host config);
          ipc = (Ipc.init w.ipc module_host_if config.queue_size).1;
        },
      )

  unfoldable pub host_if_init : World S → Option Config → RetCode × World S
  unfolding init_with
  host_if_init w none = (err_param, w)
  host_if_init w (some config) = init_with w config

  -- The nodes and the ring are freed; nothing looks at them before the next start.
  unfoldable pub host_if_deinit : World S → RetCode × World S
  host_if_deinit w = if not w.host.is_initialized then (err_not_init, w) else (
    ret_ok,
    record w {
      host = record w.host { is_initialized = false };
      ipc = (Ipc.deinit w.ipc module_host_if).1;
    },
  )
