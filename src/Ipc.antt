-- ===== src/Ipc.antt =====
-- The functions of ipc/msg_queue.c. The linked list of a queue is the list of its messages, head
-- first; `tail` points at the last of them. `g_queues` is a function of the module's number.
-- `malloc` is the argument `alloc` of `send`: whether it gives a node.
pub mod Order
pub mod Calls
pub mod History
mod Tests
use ftl_firmware.Common.{
  ℕ, zero, suc, ◌+◌, ◌-◌, Bool, true, false, not, Option, none, some, List, [], ◌∷◌, leb, ◌==◌,
  if◌then◌else◌, update, inc32, RetCode, ret_ok, err_param, err_not_init, err_no_space,
  err_internal, err_busy, err_timeout, is_ok,
}

pub record Header : Type 0 where
  pub kind : ℕ
  pub priority : ℕ
  pub src_module : ℕ
  pub dst_module : ℕ
  pub msg_id : ℕ
  pub timestamp : ℕ
  pub data_len : ℕ

-- `message_t`; the union is its bytes.
pub record Message : Type 0 where
  pub header : Header
  pub payload : List ℕ

pub record MsgQueue : Type 0 where
  pub nodes : List Message
  pub count : ℕ
  pub max_size : ℕ
  pub is_initialized : Bool

-- `g_queues`, `g_msg_id_counter` and the counter of `get_timestamp_ms`.
pub record Ipc : Type 0 where
  pub queues : ℕ → MsgQueue
  pub msg_id_counter : ℕ
  pub timestamp_counter : ℕ

abbrev pub module_max : ℕ
module_max = 5

abbrev pub set_queue : Ipc → ℕ → MsgQueue → Ipc
set_queue s i q = record s { queues = update s.queues i q }

pub init : Ipc → ℕ → ℕ → RetCode × Ipc
init s module_id queue_size =
    if leb module_max module_id
    then (err_param, s)
    else if queue_size == 0
    then (err_param, s)
    else (
      ret_ok,
      set_queue s module_id
          (record { nodes = []; count = 0; max_size = queue_size; is_initialized = true }),
    )

pub deinit : Ipc → ℕ → RetCode × Ipc
deinit s module_id =
    if leb module_max module_id
    then (err_param, s)
    else if not (s.queues module_id).is_initialized
    then (err_not_init, s)
    else (
      ret_ok,
      set_queue s module_id
          (record { nodes = []; count = 0; max_size = 0; is_initialized = false }),
    )

-- The walk of `msg_queue_send`: past every node whose priority is at least the new one.
pub insert_node : Message → List Message → List Message
insert_node m [] = m ∷ []
insert_node m (curr ∷ rest) =
    if leb m.header.priority curr.header.priority
    then curr ∷ insert_node m rest
    else m ∷ curr ∷ rest

-- The copy that is queued: a fresh id and a time stamp.
pub stamp : Ipc → Message → Message
stamp s m = record m {
  header = record (m.header) { msg_id = s.msg_id_counter; timestamp = s.timestamp_counter };
}

pub enqueue : Ipc → ℕ → Message → Ipc
unfolding stamp insert_node
enqueue s dst m =
    let q = s.queues dst in
    record {
      queues =
          update s.queues dst
            (record q { nodes = insert_node (stamp s m) q.nodes; count = inc32 q.count });
      msg_id_counter = inc32 s.msg_id_counter;
      timestamp_counter = inc32 s.timestamp_counter;
    }

send_to : Bool → Ipc → Message → RetCode × Ipc
send_to alloc s m =
    let dst = m.header.dst_module in
    let q = s.queues dst in
    if leb module_max dst
    then (err_param, s)
    else if not q.is_initialized
    then (err_not_init, s)
    else if leb q.max_size q.count
    then (err_no_space, s)
    else if not alloc
    then (err_internal, s)
    else (ret_ok, enqueue s dst m)

pub send : Bool → Ipc → Option Message → RetCode × Ipc
unfolding send_to
send alloc s none = (err_param, s)
send alloc s (some m) = send_to alloc s m

-- Taking the head off; at `NULL` the source would fault, which `IsValid` excludes.
pub dequeue : Ipc → ℕ → List Message → RetCode × Option Message × Ipc
dequeue s module_id [] = (err_busy, none, s)
dequeue s module_id (m ∷ rest) =
    let q = s.queues module_id in
    (ret_ok, some m, set_queue s module_id (record q { nodes = rest; count = q.count - 1 }))

-- `out` tells whether the caller's buffer is there; the message it receives is the option.
pub recv : Ipc → ℕ → Bool → RetCode × Option Message × Ipc
unfolding dequeue
recv s module_id out =
    let q = s.queues module_id in
    if leb module_max module_id
    then (err_param, none, s)
    else if not out
    then (err_param, none, s)
    else if not q.is_initialized
    then (err_not_init, none, s)
    else if q.count == 0
    then (err_busy, none, s)
    else dequeue s module_id q.nodes

-- The polling loop, with fuel for its rounds; `none` means that the fuel ran out.
pub poll : ℕ → Ipc → ℕ → ℕ → ℕ → Option (RetCode × Option Message × Ipc)
poll zero s module_id timeout_ms waited = none
poll (suc fuel) s module_id timeout_ms waited =
    let (ret, m, s') = recv s module_id true in
    let rest = poll fuel s' module_id timeout_ms (waited + 1) in
    if is_ok ret
    then some (ret_ok, m, s')
    else if timeout_ms == 0
    then some (ret, none, s')
    else if leb timeout_ms (waited + 1)
    then some (err_timeout, none, s')
    else rest

-- `timeout_ms + 1` rounds are enough: `poll` counts up to `timeout_ms`.
pub recv_blocking : Ipc → ℕ → Bool → ℕ → Option (RetCode × Option Message × Ipc)
unfolding poll
recv_blocking s module_id out timeout_ms =
    if leb module_max module_id
    then some (err_param, none, s)
    else if not out
    then some (err_param, none, s)
    else if not (s.queues module_id).is_initialized
    then some (err_not_init, none, s)
    else poll (timeout_ms + 1) s module_id timeout_ms 0

pub get_count : Ipc → ℕ → ℕ
get_count s module_id =
    if leb module_max module_id
    then 0
    else if not (s.queues module_id).is_initialized
    then 0
    else (s.queues module_id).count

pub is_empty : Ipc → ℕ → Bool
is_empty s module_id =
    if leb module_max module_id
    then true
    else if not (s.queues module_id).is_initialized
    then true
    else (s.queues module_id).count == 0

pub is_full : Ipc → ℕ → Bool
is_full s module_id =
    if leb module_max module_id
    then true
    else if not (s.queues module_id).is_initialized
    then true
    else leb (s.queues module_id).max_size (s.queues module_id).count

pub clear : Ipc → ℕ → RetCode × Ipc
clear s module_id =
    if leb module_max module_id
    then (err_param, s)
    else if not (s.queues module_id).is_initialized
    then (err_not_init, s)
    else (ret_ok, set_queue s module_id (record (s.queues module_id) { nodes = []; count = 0 }))
