-- ===== src/Ipc/Order.antt =====
-- ipc/msg_queue.c: the order of the messages in a queue.
use ftl_firmware.Common.{
  ℕ, ◌+◌, ◌≤◌, ◌<◌, ◌≡◌, refl, List, [], ◌∷◌, ◌++◌, ◌==◌, leb, if◌then◌else◌, arith, length, keep,
  Bool-cases, inl, inr,
}
use mathlib.Core.List.{append-nil}
use ftl_firmware.Ipc.{Message, insert_node}

-- No message of the list is above priority `p`.
abbrev pub Below : ℕ → List Message → Type 0
Below p [] = Unit {0}
Below p (m ∷ ms) = (m.header.priority ≤ p) × Below p ms

-- Priorities fall from the head on.
abbrev pub Descends : List Message → Type 0
Descends [] = Unit {0}
Descends (m ∷ ms) = Below m.header.priority ms × Descends ms

-- The messages of one priority, in the order in which they will be received.
abbrev pub lane : ℕ → List Message → List Message
lane k ms = keep (λ m. m.header.priority == k) ms

Below-mono : (p q : ℕ) (ms : List Message) → p ≤ q → Below p ms → Below q ms
Below-mono p q [] h b = tt
Below-mono p q (m ∷ ms) h (a, b) = (omega arith, Below-mono p q ms h b)

Below-insert_node :
    (p : ℕ) (m : Message) (ms : List Message)
    → m.header.priority ≤ p
    → Below p ms
    → Below p (insert_node m ms)
unfolding insert_node
Below-insert_node p m [] h b = (h, tt)
Below-insert_node p m (c ∷ ms) h (a, b) = ground (arith, Below-insert_node p m ms h b)

pub Descends-insert_node :
    (m : Message) (ms : List Message) → Descends ms → Descends (insert_node m ms)
unfolding insert_node
Descends-insert_node m [] d = (tt, tt)
Descends-insert_node m (c ∷ ms) (b, d) = ground (
  arith,
  Below-insert_node c.header.priority m ms,
  Below-mono c.header.priority m.header.priority ms,
  Descends-insert_node m ms d,
)

lane_above : (p k : ℕ) (ms : List Message) → Below p ms → p < k → lane k ms ≡ []
lane_above p k [] b h = refl
lane_above p k (m ∷ ms) (a, b) h = ground (arith, lane_above p k ms b h)

-- A new message goes behind those of its priority, and leaves the other lanes alone.
pub lane-insert_node :
    (k : ℕ) (m : Message) (ms : List Message)
    → Descends ms
    → lane k (insert_node m ms) ≡ lane k ms ++ (if m.header.priority == k then m ∷ [] else [])
unfolding insert_node
lane-insert_node k m [] d = ground arith
lane-insert_node k m (c ∷ ms) (b, d) = elim (Bool-cases (leb m.header.priority c.header.priority)) [
  | inl behind ↦ rw behind (ground (arith, lane-insert_node k m ms d))
  | inr above ↦
      rw above (ground (arith, lane_above c.header.priority k ms b, append-nil (lane k (c ∷ ms))))
]

pub length-insert_node :
    (m : Message) (ms : List Message) → length (insert_node m ms) ≡ length ms + 1
unfolding insert_node
length-insert_node m [] = omega arith
length-insert_node m (c ∷ ms) = ground (arith, length-insert_node m ms)
