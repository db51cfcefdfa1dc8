-- ===== src/Host/Completion.antt =====
-- modules/host_if/host_if.c: the completion queue, a ring.
use ftl_firmware.Common.{
  ℕ, ◌-◌, ◌%◌, ◌==◌, Bool, not, Option, none, some, leb, if◌then◌else◌, update, inc32, RetCode,
  ret_ok, err_param, err_no_space, err_not_init, err_busy,
}
use ftl_firmware.Host.{Cqe, HostIf}

-- The next slot of the ring. The sum is a 32-bit one.
abbrev pub next_slot : ℕ → ℕ → ℕ
next_slot size slot = inc32 slot % size

abbrev pub flip : ℕ → ℕ
flip tag = if tag == 0 then 1 else 0

unfoldable pub add_cqe : HostIf → Cqe → RetCode × HostIf
add_cqe h cqe =
    let size = h.config.queue_size in
    let tail = next_slot size h.cq_tail in
    if leb size h.cq_count then (err_no_space, h) else (
      ret_ok,
      record h {
        cq_buf = update h.cq_buf h.cq_tail (record cqe { phase_tag = h.phase_tag });
        cq_tail = tail;
        cq_count = inc32 h.cq_count;
        phase_tag = if tail == 0 then flip h.phase_tag else h.phase_tag;
      },
    )

-- `wanted` is whether there is a place for the entry.
unfoldable pub host_if_poll_cq : HostIf → Bool → RetCode × Option Cqe × HostIf
host_if_poll_cq h wanted =
    if not wanted
    then (err_param, none, h)
    else if not h.is_initialized
    then (err_not_init, none, h)
    else if h.cq_count == 0
    then (err_busy, none, h)
    else (
      ret_ok,
      some (h.cq_buf h.cq_head),
      record h { cq_head = next_slot h.config.queue_size h.cq_head; cq_count = h.cq_count - 1 },
    )
