-- ===== src/Host/Perf.antt =====
-- modules/host_if/host_if.c: the performance statistics.
use ftl_firmware.Common.{
  ℕ, ◌+◌, ◌-◌, ◌/◌, ◌%◌, ◌^◌, ◌==◌, Bool, ltb, leb, if◌then◌else◌, add64, inc64,
}

-- `performance_stats_t`, with the counter of `get_timestamp_ms`.
pub record PerformanceStats : Type 0 where
  pub clock : ℕ
  pub read_iops : ℕ
  pub write_iops : ℕ
  pub total_iops : ℕ
  pub read_bw_bps : ℕ
  pub write_bw_bps : ℕ
  pub total_bw_bps : ℕ
  pub min_latency_us : ℕ
  pub max_latency_us : ℕ
  pub avg_latency_us : ℕ
  pub total_latency_us : ℕ
  pub latency_count : ℕ
  pub window_start_ms : ℕ
  pub window_read_cmds : ℕ
  pub window_write_cmds : ℕ
  pub window_read_bytes : ℕ
  pub window_write_bytes : ℕ

-- The window is closed when a second has passed.
unfoldable pub close_window : PerformanceStats → ℕ → PerformanceStats
close_window p now = record p {
  read_iops = p.window_read_cmds;
  write_iops = p.window_write_cmds;
  total_iops = add64 p.window_read_cmds p.window_write_cmds;
  read_bw_bps = p.window_read_bytes;
  write_bw_bps = p.window_write_bytes;
  total_bw_bps = add64 p.window_read_bytes p.window_write_bytes;
  window_start_ms = now;
  window_read_cmds = 0;
  window_write_cmds = 0;
  window_read_bytes = 0;
  window_write_bytes = 0;
}

unfoldable pub count_command : PerformanceStats → Bool → ℕ → PerformanceStats
count_command p is_read bytes =
    if is_read
    then record p {
      window_read_cmds = inc64 p.window_read_cmds;
      window_read_bytes = add64 p.window_read_bytes bytes;
    }
    else record p {
      window_write_cmds = inc64 p.window_write_cmds;
      window_write_bytes = add64 p.window_write_bytes bytes;
    }

unfoldable pub count_latency : PerformanceStats → ℕ → PerformanceStats
count_latency p latency =
    let first = p.latency_count == 0 in
    let total = add64 p.total_latency_us latency in
    let n = inc64 p.latency_count in
    record p {
      min_latency_us =
          if first
          then latency
          else if ltb latency p.min_latency_us
          then latency
          else p.min_latency_us;
      max_latency_us =
          if first
          then latency
          else if ltb p.max_latency_us latency
          then latency
          else p.max_latency_us;
      total_latency_us = total;
      latency_count = n;
      avg_latency_us = total / n;
    }

unfoldable pub update_performance_stats : PerformanceStats → Bool → ℕ → ℕ → PerformanceStats
unfolding close_window count_command count_latency
update_performance_stats p is_read bytes latency =
    let now = p.clock in
    let start = if p.window_start_ms == 0 then now else p.window_start_ms in
    let opened = record p { clock = inc64 now; window_start_ms = start } in
    let elapsed = (now + 2 ^ 64 - start) % 2 ^ 64 in
    let current = if leb 1000 elapsed then close_window opened now else opened in
    count_latency (count_command current is_read bytes) latency
