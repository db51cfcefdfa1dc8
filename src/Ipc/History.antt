-- ===== src/Ipc/History.antt =====
-- ipc/msg_queue.c: any history of calls, from queues that are not set up.
use ftl_firmware.Common.{
  ℕ, ◌%◌, ◌^◌, refl, Bool, false, List, [], ◌∷◌, Option, arith, ◌+◌, zero, suc, true, none, some,
  not, leb, ◌==◌, RetCode, is_ok, if_cases,
}
use ftl_firmware.Ipc.{
  Message, Ipc, MsgQueue, init, deinit, send, recv, clear, poll, recv_blocking, module_max,
}
use ftl_firmware.Ipc.Calls.{QueueIsValid, IsValid, send-IsValid, recv-IsValid}

abbrev pub blank : MsgQueue
blank = record { nodes = []; count = 0; max_size = 0; is_initialized = false }

abbrev pub at_start : Ipc
at_start = record { queues = λ i. blank; msg_id_counter = 0; timestamp_counter = 0 }

pub data Call : Type 0 where
  inits : ℕ → ℕ → Call
  deinits clears : ℕ → Call
  sends : Bool → Option Message → Call
  recvs : ℕ → Bool → Call
  recvs_blocking : ℕ → Bool → ℕ → Call

-- The queues that a blocking receipt leaves.
abbrev left_by : Ipc → Option (RetCode × Option Message × Ipc) → Ipc
left_by s none = s
left_by s (some r) = r.2

-- A queue's size is a `uint32_t`.
unfoldable pub step : Ipc → Call → Ipc
step s (inits i n) = (init s i (n % 2 ^ 32)).1
step s (deinits i) = (deinit s i).1
step s (clears i) = (clear s i).1
step s (sends alloc m) = (send alloc s m).1
step s (recvs i out) = (recv s i out).2
step s (recvs_blocking i out t) = left_by s (recv_blocking s i out t)

unfoldable pub run : Ipc → List Call → Ipc
run s [] = s
run s (c ∷ cs) = run (step s c) cs

blank-QueueIsValid : QueueIsValid blank
blank-QueueIsValid = record {
  counted = refl;
  bounded = omega arith;
  limit = omega arith;
  ordered = tt;
}

init-QueueIsValid :
    (s : Ipc) (i n j : ℕ) → IsValid s → QueueIsValid ((init s i (n % 2 ^ 32)).1.queues j)
unfolding init
init-QueueIsValid s i n j v = ground (arith, v j)

deinit-QueueIsValid : (s : Ipc) (i j : ℕ) → IsValid s → QueueIsValid ((deinit s i).1.queues j)
unfolding deinit
deinit-QueueIsValid s i j v = ground (arith, v j)

clear-QueueIsValid : (s : Ipc) (i j : ℕ) → IsValid s → QueueIsValid ((clear s i).1.queues j)
unfolding clear
clear-QueueIsValid s i j v = ground (arith, v j, v i)

-- A polling loop, however many rounds it takes and whatever it answers, leaves valid queues.
abbrev IsValidIf : Option (RetCode × Option Message × Ipc) → Type 0
IsValidIf none = Unit {0}
IsValidIf (some r) = IsValid r.2

poll-IsValidIf :
    (fuel : ℕ) (s : Ipc) (i t waited : ℕ) → IsValid s → IsValidIf (poll fuel s i t waited)
unfolding poll
poll-IsValidIf zero s i t waited v = tt
poll-IsValidIf (suc fuel) s i t waited v =
    let next : IsValid (recv s i true).2 = recv-IsValid s i true v in
    if_cases IsValidIf (is_ok (recv s i true).0) (λ _. next)
      (λ _.
        if_cases IsValidIf (t == 0) (λ _. next)
          (λ _.
            if_cases IsValidIf (leb t (waited + 1)) (λ _. next)
              (λ _. poll-IsValidIf fuel (recv s i true).2 i t (waited + 1) next)))

recv_blocking-IsValidIf :
    (s : Ipc) (i : ℕ) (out : Bool) (t : ℕ) → IsValid s → IsValidIf (recv_blocking s i out t)
unfolding recv_blocking
recv_blocking-IsValidIf s i out t v =
    if_cases IsValidIf (leb module_max i) (λ _. v)
      (λ _.
        if_cases IsValidIf (not out) (λ _. v)
          (λ _.
            if_cases IsValidIf (not (s.queues i).is_initialized) (λ _. v)
              (λ _. poll-IsValidIf (t + 1) s i t 0 v)))

left_by-IsValid :
    (s : Ipc) (o : Option (RetCode × Option Message × Ipc))
    → IsValid s
    → IsValidIf o
    → IsValid (left_by s o)
left_by-IsValid s none v after = v
left_by-IsValid s (some r) v after = after

step-IsValid : (s : Ipc) (c : Call) → IsValid s → IsValid (step s c)
unfolding step
step-IsValid s (inits i n) v = λ j. init-QueueIsValid s i n j v
step-IsValid s (deinits i) v = λ j. deinit-QueueIsValid s i j v
step-IsValid s (clears i) v = λ j. clear-QueueIsValid s i j v
step-IsValid s (sends alloc m) v = send-IsValid alloc s m v
step-IsValid s (recvs i out) v = recv-IsValid s i out v
step-IsValid s (recvs_blocking i out t) v =
    left_by-IsValid s (recv_blocking s i out t) v (recv_blocking-IsValidIf s i out t v)

run-IsValid : (s : Ipc) (cs : List Call) → IsValid s → IsValid (run s cs)
unfolding run
run-IsValid s [] v = v
run-IsValid s (c ∷ cs) v = run-IsValid (step s c) cs (step-IsValid s c v)

-- From queues that are not set up, after any calls to set a queue up or take it down, to clear it, to
-- send, and to receive with or without waiting, in any order and with any answers, every queue counts
-- its messages, holds no more than its limit, and has them by falling priority.
pub run-at_start-IsValid : (cs : List Call) → IsValid (run at_start cs)
run-at_start-IsValid cs = run-IsValid at_start cs (λ j. blank-QueueIsValid)
