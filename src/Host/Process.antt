-- ===== src/Host/Process.antt =====
-- modules/host_if/host_if.c: the submission queue, and the loop that processes it.
use ftl_firmware.Common.{
  ℕ, zero, suc, ◌+◌, ◌*◌, ◌%◌, ◌^◌, ◌==◌, Bool, not, ◌&&◌, ◌||◌, Option, none, some, List, [], ◌∷◌,
  ◌++◌, leb, if◌then◌else◌, add32, inc32, inc64, RetCode, ret_ok, err_param, err_not_init,
  err_no_space, err_internal,
}
use ftl_firmware.Host.{
  NvmeStatus, success, invalid_opcode, is_success, Cmd, Cqe, HostIf, World, FtlOps,
}
use ftl_firmware.Host.Perf.{update_performance_stats}
use ftl_firmware.Host.Completion.{add_cqe}
use ftl_firmware.Host.Io.{
  page_count, byte_count, process_read_cmd, process_write_cmd, process_write_zeroes_cmd,
  process_trim_cmd,
}
use ftl_firmware.Host.Admin.{Pages, process_admin_cmd}

-- The command with an identifier, and the counter of identifiers.
unfoldable pub identified : Cmd → ℕ → Cmd × ℕ
identified cmd counter =
    if cmd.cid == 0 then (record cmd { cid = counter }, (counter + 1) % 2 ^ 16) else (cmd, counter)

module _ {S : Type 0} where
  unfoldable pub host_if_submit_cmd : World S → Option Cmd → RetCode × World S
  unfolding identified
  host_if_submit_cmd w none = (err_param, w)
  host_if_submit_cmd w (some cmd) =
      let h = w.host in
      let w' = record w { allocs = λ i. w.allocs (i + 1) } in
      let (node, counter) = identified cmd h.cid_counter in
      if not h.is_initialized
      then (err_not_init, w)
      else if leb h.config.queue_size h.sq_count
      then (err_no_space, w)
      else if not (w.allocs 0)
      then (err_internal, w')
      else (
        ret_ok,
        record w' {
          host = record h {
            sq = h.sq ++ node ∷ [];
            sq_count = inc32 h.sq_count;
            cid_counter = counter;
          };
        },
      )

-- Whether the command counts for the performance statistics: its opcode, of either queue.
abbrev pub is_measured : ℕ → Bool
is_measured op = op == 0x02 || op == 0x01 || op == 0x08

unfoldable pub measured : HostIf → Cmd → NvmeStatus → Bool → HostIf
unfolding update_performance_stats
measured h cmd status is_read =
    let count = page_count cmd in
    let latency = add32 10 ((count * 5) % 2 ^ 32) in
    if is_success status && is_measured cmd.opcode
    then record h { perf = update_performance_stats h.perf is_read (byte_count count) latency }
    else h

abbrev pub cqe_of : HostIf → Cmd → NvmeStatus → Cqe
cqe_of h cmd status = record {
  dw0 = 0;
  sqhd = h.sq_count % 2 ^ 16;
  sqid = 0;
  cid = cmd.cid;
  status = status;
  phase_tag = 0;
}

unfoldable pub count_status : HostIf → NvmeStatus → HostIf
count_status h status =
    let st = h.stats in
    if is_success status
    then record h { stats = record st { completed_cmds = inc64 st.completed_cmds } }
    else record h { stats = record st { failed_cmds = inc64 st.failed_cmds } }

-- What follows the command; the answer of `add_cqe` is not looked at.
unfoldable pub complete : HostIf → Cmd → NvmeStatus → Bool → HostIf
unfolding measured add_cqe count_status
complete h cmd status is_read =
    let h1 = measured h cmd status is_read in
    count_status (add_cqe h1 (cqe_of h1 cmd status)).1 status

module _ {S : Type 0} (ops : FtlOps S) (pages : Pages S) where
  -- An I/O command: the status, whether it is a read, and the state.
  unfoldable pub process_io_cmd : World S → Cmd → Option (NvmeStatus × World S)
  unfolding process_read_cmd process_write_cmd process_write_zeroes_cmd process_trim_cmd
  process_io_cmd w cmd =
      if cmd.opcode == 0x02
      then some (process_read_cmd ops w cmd)
      else if cmd.opcode == 0x01
      then process_write_cmd ops w cmd
      else if cmd.opcode == 0x08
      then process_write_zeroes_cmd ops w cmd
      else if cmd.opcode == 0x09
      then some (process_trim_cmd ops w cmd)
      else some (if cmd.opcode == 0x00 then success else invalid_opcode, w)

  unfoldable pub process_cmd : World S → Cmd → Option (NvmeStatus × World S)
  unfolding process_io_cmd process_admin_cmd
  process_cmd w cmd =
      if cmd.is_admin then some (process_admin_cmd pages w cmd) else process_io_cmd w cmd

  abbrev pub is_read_cmd : Cmd → Bool
  is_read_cmd cmd = not cmd.is_admin && cmd.opcode == 0x02

  unfoldable pub completed : Cmd → Option (NvmeStatus × World S) → Option (World S)
  unfolding complete
  completed cmd none = none
  completed cmd (some (status, w)) =
      some (record w { host = complete w.host cmd status (is_read_cmd cmd) })

  abbrev pub and_then : Option (World S) → (World S → Option (World S)) → Option (World S)
  and_then none rest = none
  and_then (some w) rest = rest w

  -- The head of the queue, with `left` commands behind it. A queue without one dereferences null.
  unfoldable pub process_next : List Cmd → ℕ → World S → Option (World S)
  unfolding process_cmd completed
  process_next [] left w = none
  process_next (cmd ∷ rest) left w =
      let taken = record w { host = record w.host { sq = rest; sq_count = left } } in
      completed cmd (process_cmd taken cmd)

  -- The loop while `sq_count`, which is the number, is not 0.
  unfoldable pub process_loop : ℕ → World S → Option (World S)
  unfolding process_next
  process_loop zero w = some w
  process_loop (suc left) w = and_then (process_next w.host.sq left w) (process_loop left)

  unfoldable pub host_if_process : World S → Option (RetCode × World S)
  unfolding process_loop
  host_if_process w =
      let done = process_loop w.host.sq_count w in
      if not w.host.is_initialized
      then some (err_not_init, w)
      else elim done [ none ↦ none | some w' ↦ some (ret_ok, w') ]
