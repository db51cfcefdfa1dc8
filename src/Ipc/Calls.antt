-- ===== src/Ipc/Calls.antt =====
-- ipc/msg_queue.c: what each call does to a well-formed set of queues.
use ftl_firmware.Common.{
  subst, ap, ◌∙◌, lt→leb-false, ℕ, zero, suc, ◌+◌, ◌^◌, ◌≤◌, ◌<◌, ◌≡◌, ◌≢◌, refl, Bool, true, sym,
  none, some, List, [], ◌∷◌, ◌++◌, ◌==◌, if◌then◌else◌, ==_refl, ==_ne, arith, length, Option,
  ret_ok, err_busy, err_timeout, ◌⊎◌, inr,
}
use ftl_firmware.Ipc.Order.{
  Below, Descends, lane, Descends-insert_node, lane-insert_node, length-insert_node,
}
use native.Mathlib.Numerals.{add-one}
use ftl_firmware.Ipc.{
  Message, MsgQueue, Ipc, module_max, stamp, enqueue, dequeue, poll, send_to, send, recv,
  recv_blocking,
}

-- A queue that counts its messages, within its limit, highest priority first.
pub record QueueIsValid (q : MsgQueue) : Type 0 where
  pub counted : q.count ≡ length q.nodes
  pub bounded : q.count ≤ q.max_size
  pub limit : q.max_size < 2 ^ 32
  pub ordered : Descends q.nodes

abbrev pub IsValid : Ipc → Type 0
IsValid s = (i : ℕ) → QueueIsValid (s.queues i)

enqueue-QueueIsValid :
    (s : Ipc) (dst : ℕ) (m : Message) (j : ℕ)
    → QueueIsValid (s.queues dst)
    → QueueIsValid (s.queues j)
    → (s.queues dst).count < (s.queues dst).max_size
    → QueueIsValid ((enqueue s dst m).queues j)
unfolding enqueue
enqueue-QueueIsValid s dst m j v w room = ground (
  arith,
  length-insert_node (stamp s m) (s.queues dst).nodes,
  Descends-insert_node (stamp s m) (s.queues dst).nodes v.ordered,
)

-- Whatever `msg_queue_send` answers, every queue stays well-formed.
pub send-IsValid :
    (alloc : Bool) (s : Ipc) (m : Option Message) → IsValid s → IsValid (send alloc s m).1
unfolding send
send-IsValid alloc s none v = v
send-IsValid alloc s (some m) v = λ j.
    ground
      (arith, enqueue-QueueIsValid s m.header.dst_module m j (v m.header.dst_module) (v j), v j)

send_to-ok :
    (alloc : Bool) (s : Ipc) (m : Message) {s' : Ipc}
    → send_to alloc s m ≡ (ret_ok, s')
    → s' ≡ enqueue s m.header.dst_module m
unfolding send_to
send_to-ok alloc s m e = ground arith

-- A message that `msg_queue_send` accepts goes, stamped, behind the messages of its own priority in
-- the queue of its destination; every other priority there keeps its messages in their order, and
-- every other queue is as it was.
pub send_lanes :
    (alloc : Bool) (s : Ipc) (m : Message) {s' : Ipc}
    → IsValid s
    → send alloc s (some m) ≡ (ret_ok, s')
    → ((k : ℕ)
        → lane k (s'.queues m.header.dst_module).nodes
          ≡ lane k (s.queues m.header.dst_module).nodes
            ++ (if m.header.priority == k then stamp s m ∷ [] else []))
      × ((j : ℕ) → j ≢ m.header.dst_module → s'.queues j ≡ s.queues j)
unfolding send enqueue stamp
send_lanes alloc s m {s' = s'} v e =
    let after : s' ≡ enqueue s m.header.dst_module m = send_to-ok alloc s m e in
    let dst : ℕ = m.header.dst_module in
    rw after (
      λ k. rw (==_refl dst) (lane-insert_node k (stamp s m) (s.queues dst).nodes (v dst).ordered),
      λ j h. rw (==_ne j dst h),
    )

-- A call of `msg_queue_send` that fails changes nothing.
pub send-failed :
    (alloc : Bool) (s : Ipc) (m : Option Message)
    → ((send alloc s m).0 ≡ ret_ok) ⊎ ((send alloc s m).1 ≡ s)
unfolding send
send-failed alloc s none = inr refl
send-failed alloc s (some m) = ground arith

recv-nonempty :
    (s : Ipc) (i : ℕ) (m : Message) (rest : List Message)
    → IsValid s
    → i < module_max
    → (s.queues i).is_initialized ≡ true
    → (s.queues i).nodes ≡ m ∷ rest
    → recv s i true ≡ dequeue s i (m ∷ rest)
unfolding recv
recv-nonempty s i m rest v h ready e =
    let c : (s.queues i).count ≢ 0 = omega (arith, (v i).counted, ap length e) in ground arith

recv-nil :
    (s : Ipc) (i : ℕ)
    → IsValid s
    → i < module_max
    → (s.queues i).is_initialized ≡ true
    → (s.queues i).nodes ≡ []
    → recv s i true ≡ (err_busy, none, s)
unfolding recv
recv-nil s i v h ready e =
    let c : (s.queues i).count ≡ 0 = omega (arith, (v i).counted, ap length e) in ground arith

dequeue-QueueIsValid :
    (s : Ipc) (i : ℕ) (j : ℕ) (ms : List Message)
    → (s.queues i).nodes ≡ ms
    → QueueIsValid (s.queues i)
    → QueueIsValid (s.queues j)
    → QueueIsValid ((dequeue s i ms).2.queues j)
unfolding dequeue
dequeue-QueueIsValid s i j [] e v w = w
dequeue-QueueIsValid s i j (m ∷ rest) e v w =
    let o : Descends (m ∷ rest) = subst Descends e v.ordered in
    let c : (s.queues i).count ≡ suc (length rest) = v.counted ∙ ap length e in ground arith

dequeue-cons :
    (s : Ipc) (i : ℕ) (m : Message) (rest : List Message)
    → dequeue s i (m ∷ rest) ≡ (ret_ok, some m, (dequeue s i (m ∷ rest)).2)
unfolding dequeue
dequeue-cons s i m rest = refl

-- `msg_queue_recv` keeps every queue well-formed.
pub recv-IsValid : (s : Ipc) (i : ℕ) (out : Bool) → IsValid s → IsValid (recv s i out).2
unfolding recv
recv-IsValid s i out v =
    λ j. ground (arith, dequeue-QueueIsValid s i j (s.queues i).nodes refl (v i) (v j), v j)

recv-ok :
    (s : Ipc) (i : ℕ) (out : Bool) (m : Message) {s' : Ipc}
    → recv s i out ≡ (ret_ok, some m, s')
    → dequeue s i (s.queues i).nodes ≡ (ret_ok, some m, s')
unfolding recv
recv-ok s i out m e = ground arith

dequeue-ok :
    (s : Ipc) (i : ℕ) (ms : List Message) (m : Message) {s' : Ipc}
    → dequeue s i ms ≡ (ret_ok, some m, s')
    → (ms ≡ m ∷ (s'.queues i).nodes) × ((j : ℕ) → j ≢ i → s'.queues j ≡ s.queues j)
unfolding dequeue
dequeue-ok s i [] m e = absurd (ground arith)
dequeue-ok s i (c ∷ rest) m {s' = s'} e =
    let after : s' ≡ (dequeue s i (c ∷ rest)).2 = ap (λ r. r.2) (sym e) in
    rw after (rw (==_refl i) (ground arith), λ j h. rw (==_ne j i h))

-- What `msg_queue_recv` hands out was at the head of its queue, has the highest priority there, and
-- is all that leaves the queues.
pub recv_highest :
    (s : Ipc) (i : ℕ) (out : Bool) (m : Message) {s' : Ipc}
    → IsValid s
    → recv s i out ≡ (ret_ok, some m, s')
    → ((s.queues i).nodes ≡ m ∷ (s'.queues i).nodes)
      × Below m.header.priority (s'.queues i).nodes
      × ((j : ℕ) → j ≢ i → s'.queues j ≡ s.queues j)
recv_highest s i out m v e =
    let (shape, others) = dequeue-ok s i (s.queues i).nodes m (recv-ok s i out m e) in
    (shape, (subst Descends shape (v i).ordered).0, others)

poll-busy :
    (fuel : ℕ) (s : Ipc) (i t waited : ℕ)
    → recv s i true ≡ (err_busy, none, s)
    → waited < t
    → t ≤ waited + fuel
    → poll fuel s i t waited ≡ some (err_timeout, none, s)
unfolding poll
poll-busy zero s i t waited e lt enough = absurd (omega arith)
poll-busy (suc fuel) s i t waited e lt enough =
    rw e (ground (arith, poll-busy fuel s i t (waited + 1) e))

poll-ok :
    (fuel : ℕ) (s : Ipc) (i t waited : ℕ) {m : Option Message} {s' : Ipc}
    → recv s i true ≡ (ret_ok, m, s')
    → poll (suc fuel) s i t waited ≡ some (ret_ok, m, s')
unfolding poll
poll-ok fuel s i t waited e = rw e

poll-now :
    (fuel : ℕ) (s : Ipc) (i : ℕ)
    → recv s i true ≡ (err_busy, none, s)
    → poll (suc fuel) s i 0 0 ≡ some (err_busy, none, s)
unfolding poll
poll-now fuel s i e = rw e

-- `msg_queue_recv_blocking` always comes back. On a queue that is set up it answers as
-- `msg_queue_recv` if a message waits there; if not, it answers that the time is up, or, at timeout
-- 0, that the queue is busy, and leaves the queues as they were.
pub recv_blocking_lem :
    (s : Ipc) (i timeout_ms : ℕ)
    → IsValid s
    → i < module_max
    → (s.queues i).is_initialized ≡ true
    → ((m : Message) (rest : List Message)
        → (s.queues i).nodes ≡ m ∷ rest
        → recv_blocking s i true timeout_ms ≡ some (recv s i true))
      × ((s.queues i).nodes ≡ []
          → recv_blocking s i true timeout_ms
            ≡ some (if timeout_ms == 0 then err_busy else err_timeout, none, s))
unfolding recv_blocking
recv_blocking_lem s i t v h ready = (
  λ m rest e.
      let taken : recv s i true ≡ (ret_ok, some m, (dequeue s i (m ∷ rest)).2) =
        recv-nonempty s i m rest v h ready e ∙ dequeue-cons s i m rest in
      rw (lt→leb-false _ _ h, add-one, ready, poll-ok t s i t 0 taken) (ap some (sym taken)),
  λ e.
      rw (lt→leb-false _ _ h, add-one)
        (ground (
          arith,
          poll-now t s i (recv-nil s i v h ready e),
          poll-busy (suc t) s i t 0 (recv-nil s i v h ready e),
        )),
)
