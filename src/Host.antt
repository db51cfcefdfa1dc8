-- ===== src/Host.antt =====
-- The types of modules/host_if/host_if.h, and the state that modules/host_if/host_if.c keeps.
pub mod Perf
pub mod Memory
pub mod Completion
pub mod Io
pub mod Admin
pub mod Process
pub mod Ring
pub mod Queue
pub mod Untouched
pub mod Completed
pub mod Total
pub mod Answers
pub mod Init
pub mod Power
pub mod Valid
pub mod Served
pub mod Layer
mod Tests
pub mod Valued
pub mod Feature
use ftl_firmware.Common.{ℕ, Bool, true, false, Option, List, RetCode}
use ftl_firmware.Ipc.{Ipc}
use ftl_firmware.Host.Perf.{PerformanceStats}

-- `nvme_status_t`
pub data NvmeStatus : Type 0 where
  success invalid_opcode invalid_field data_transfer aborted internal_error : NvmeStatus

abbrev pub is_success : NvmeStatus → Bool
is_success success = true
is_success _ = false

-- `nvme_cmd_t`; the buffer is an address in the memory of the host, or null.
pub record Cmd : Type 0 where
  pub opcode : ℕ
  pub nsid : ℕ
  pub slba : ℕ
  pub nlb : ℕ
  pub cid : ℕ
  pub data_buf : Option ℕ
  pub data_len : ℕ
  pub is_admin : Bool

-- `nvme_cqe_t`
pub record Cqe : Type 0 where
  pub dw0 : ℕ
  pub sqhd : ℕ
  pub sqid : ℕ
  pub cid : ℕ
  pub status : NvmeStatus
  pub phase_tag : ℕ

-- `host_if_config_t`
pub record Config : Type 0 where
  pub queue_size : ℕ
  pub max_cmd : ℕ
  pub lba_size : ℕ
  pub total_lbas : ℕ
  pub is_nvm : Bool

-- `host_if_stats_t`
pub record Stats : Type 0 where
  pub total_cmds : ℕ
  pub read_cmds : ℕ
  pub write_cmds : ℕ
  pub trim_cmds : ℕ
  pub completed_cmds : ℕ
  pub failed_cmds : ℕ
  pub total_read_bytes : ℕ
  pub total_write_bytes : ℕ

-- The values of the features.
pub record Features : Type 0 where
  pub arbitration : ℕ
  pub power_mgmt : ℕ
  pub temp_threshold : ℕ
  pub error_recovery : ℕ
  pub volatile_wc : ℕ
  pub num_queues : ℕ
  pub irq_coalesce : ℕ
  pub write_atomicity : ℕ
  pub async_event : ℕ
  pub auto_pst : ℕ
  pub keep_alive : ℕ
  pub hctm : ℕ

-- `host_if_dev_t`, with `g_cid_counter`. The linked list of the submission queue is the list of its
-- commands, head first.
pub record HostIf : Type 0 where
  pub config : Config
  pub stats : Stats
  pub perf : PerformanceStats
  pub sq : List Cmd
  pub sq_count : ℕ
  pub cq_buf : ℕ → Cqe
  pub cq_head : ℕ
  pub cq_tail : ℕ
  pub cq_count : ℕ
  pub phase_tag : ℕ
  pub features : Features
  pub plp_enabled : Bool
  pub wal_dirty : Bool
  pub power_cycles : ℕ
  pub unsafe_shutdowns : ℕ
  pub power_on_hours : ℕ
  pub is_initialized : Bool
  pub cid_counter : ℕ

-- What the interface works on: its own state, the memory of the host, the answers that `malloc` and
-- `calloc` are to give, the message queues, and the translation layer.
pub record World (S : Type 0) : Type 0 where
  pub host : HostIf
  pub mem : ℕ → ℕ
  pub allocs : ℕ → Bool
  pub ipc : Ipc
  pub ftl : S

-- The calls of the translation layer. A read takes what the page's buffer holds and gives what it then
-- holds; a write that does not return gives `none`.
pub record FtlOps (S : Type 0) : Type 0 where
  pub read : S → ℕ → Option (List ℕ) → RetCode × Option (List ℕ) × S
  pub write : S → ℕ → Option (List ℕ) → Option (RetCode × S)
  pub trim : S → ℕ → ℕ → RetCode × S
