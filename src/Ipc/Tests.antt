-- ===== src/Ipc/Tests.antt =====
-- ipc/msg_queue.c at concrete queues: the theorems at inputs that meet their hypotheses.
use ftl_firmware.Common.{
  ℕ, ◌≡◌, ◌≢◌, refl, true, none, some, List, [], ◌∷◌, ◌++◌, ◌==◌, if◌then◌else◌, arith, err_busy,
  err_timeout,
}
use ftl_firmware.Ipc.{Message, Ipc, init, send, recv, recv_blocking, enqueue, stamp}
use ftl_firmware.Ipc.Order.{lane}
use ftl_firmware.Ipc.Calls.{IsValid, send_lanes, recv_blocking_lem}
use ftl_firmware.Ipc.History.{
  Call, inits, sends, recvs_blocking, run, step, at_start, run-at_start-IsValid,
}

abbrev note : ℕ → ℕ → Message
note p d = record {
  header = record {
    kind = 10;
    priority = p;
    src_module = 2;
    dst_module = 1;
    msg_id = 0;
    timestamp = 0;
    data_len = d;
  };
  payload = [];
}

-- Module 1 with room for four; an urgent message overtakes a normal one.
abbrev calls : List Call
calls = inits 1 4 ∷ sends true (some (note 1 7)) ∷ sends true (some (note 3 8)) ∷ []

abbrev map_len : List Message → List ℕ
map_len [] = []
map_len (m ∷ ms) = m.header.data_len ∷ map_len ms

busy_state : Ipc
unfolding run step init send enqueue
busy_state = run at_start calls

busy_state-IsValid : IsValid busy_state
unfolding busy_state
busy_state-IsValid = run-at_start-IsValid calls

order_of_receipt : map_len (busy_state.queues 1).nodes ≡ 8 ∷ 7 ∷ []
unfolding busy_state
order_of_receipt = refl

-- A message is sent, received, and waited for in vain.
abbrev waits : List Call
waits =
    inits 1 4
    ∷ sends true (some (note 1 7))
    ∷ recvs_blocking 1 true 3
    ∷ recvs_blocking 1 true 2
    ∷ []

run-at_start-IsValid_example : IsValid (run at_start waits)
run-at_start-IsValid_example = run-at_start-IsValid waits

send_lanes_example :
    ((k : ℕ)
      → lane k ((enqueue busy_state 1 (note 1 9)).queues 1).nodes
        ≡ lane k (busy_state.queues 1).nodes
          ++ (if 1 == k then stamp busy_state (note 1 9) ∷ [] else []))
    × ((j : ℕ) → j ≢ 1 → (enqueue busy_state 1 (note 1 9)).queues j ≡ busy_state.queues j)
unfolding send busy_state
send_lanes_example = send_lanes true busy_state (note 1 9) busy_state-IsValid refl

recv_blocking_example :
    ((m : Message) (rest : List Message)
      → (busy_state.queues 1).nodes ≡ m ∷ rest
      → recv_blocking busy_state 1 true 3 ≡ some (recv busy_state 1 true))
    × ((busy_state.queues 1).nodes ≡ []
        → recv_blocking busy_state 1 true 3
          ≡ some (if 3 == 0 then err_busy else err_timeout, none, busy_state))
unfolding busy_state
recv_blocking_example = recv_blocking_lem busy_state 1 3 busy_state-IsValid (omega arith) refl
