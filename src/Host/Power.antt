-- ===== src/Host/Power.antt =====
-- modules/host_if/host_if.c: the statistics that a caller reads and clears, and the loss of power.
use ftl_firmware.Common.{
  ℕ, ◌-◌, ◌^◌, Bool, true, false, not, Option, none, some, if◌then◌else◌, inc64, RetCode, ret_ok,
  err_param, err_not_init,
}
use ftl_firmware.Host.{Stats, HostIf}
use ftl_firmware.Host.Perf.{PerformanceStats}
use ftl_firmware.Host.Init.{no_stats, no_perf}

-- What a getter gives: `wanted` is whether there is a place for it.
abbrev pub got : {A : Type 0} → HostIf → Bool → A → RetCode × Option A
got h wanted value =
    if not wanted
    then (err_param, none)
    else if not h.is_initialized
    then (err_not_init, none)
    else (ret_ok, some value)

abbrev pub host_if_get_stats : HostIf → Bool → RetCode × Option Stats
host_if_get_stats h wanted = got h wanted h.stats

abbrev pub host_if_get_performance_stats : HostIf → Bool → RetCode × Option PerformanceStats
host_if_get_performance_stats h wanted = got h wanted h.perf

-- A change that only a ready interface makes.
abbrev pub if_ready : HostIf → HostIf → RetCode × HostIf
if_ready h h' = if not h.is_initialized then (err_not_init, h) else (ret_ok, h')

abbrev pub host_if_reset_stats : HostIf → RetCode × HostIf
host_if_reset_stats h = if_ready h (record h { stats = no_stats })

abbrev pub host_if_reset_performance_stats : HostIf → RetCode × HostIf
host_if_reset_performance_stats h =
    if_ready h (record h { perf = record (no_perf h.perf.clock) { min_latency_us = 2 ^ 64 - 1 } })

abbrev pub host_if_plp_simulate_power_loss : HostIf → RetCode × HostIf
host_if_plp_simulate_power_loss h =
    if_ready h (record h { wal_dirty = true; unsafe_shutdowns = inc64 h.unsafe_shutdowns })

-- The recovery changes the two marks and nothing else.
abbrev pub host_if_plp_recovery : HostIf → RetCode × HostIf
host_if_plp_recovery h = if_ready h (
    if not h.wal_dirty
    then h
    else record h { wal_dirty = false; power_cycles = inc64 h.power_cycles })

-- The power cycles, the unsafe shutdowns and the hours.
abbrev pub host_if_get_power_status : HostIf → RetCode × Option (ℕ × ℕ × ℕ)
host_if_get_power_status h =
    if not h.is_initialized
    then (err_not_init, none)
    else (ret_ok, some (h.power_cycles, h.unsafe_shutdowns, h.power_on_hours))
