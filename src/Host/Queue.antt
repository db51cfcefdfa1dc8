-- ===== src/Host/Queue.antt =====
-- modules/host_if/host_if.c: the completion ring is a bounded queue.
use ftl_firmware.Common.{
  ℕ, suc, ◌-◌, ◌<◌, ◌==◌, ==_iff, ◌≡◌, sym, ap, ap₂, ◌∙◌, true, not, Option, none, some, List, [],
  ◌∷◌, ◌++◌, length, leb, if◌then◌else◌, if_cases, if_false, if_true, update, update_self, inc32,
  RetCode, ret_ok, err_no_space, err_busy, arith,
}
use ftl_firmware.Host.{Cqe, HostIf}
use ftl_firmware.Host.Completion.{next_slot, flip, add_cqe, host_if_poll_cq}
use ftl_firmware.Host.Ring.{
  slot_after, entries_from, pending, IsRing, next_slot-lt, slot_after-ne, slot_after_snoc,
  entries_snoc, entries_from-update, length-pending,
}

-- A bounded queue: what the completion queue promises.
abbrev pub queue_add : ℕ → List Cqe → Cqe → RetCode × List Cqe
queue_add size q c = if leb size (length q) then (err_no_space, q) else (ret_ok, q ++ c ∷ [])

abbrev pub queue_poll : List Cqe → RetCode × Option Cqe × List Cqe
queue_poll [] = (err_busy, none, [])
queue_poll (c ∷ q) = (ret_ok, some c, q)

-- The entry as the ring keeps it.
abbrev pub tagged : HostIf → Cqe → Cqe
tagged h c = record c { phase_tag = h.phase_tag }

-- The ring with one entry more.
abbrev added : HostIf → Cqe → HostIf
added h c =
    let tail = next_slot h.config.queue_size h.cq_tail in
    record h {
      cq_buf = update h.cq_buf h.cq_tail (tagged h c);
      cq_tail = tail;
      cq_count = inc32 h.cq_count;
      phase_tag = if tail == 0 then flip h.phase_tag else h.phase_tag;
    }

counted :
    (h : HostIf) → IsRing h → h.cq_count < h.config.queue_size → inc32 h.cq_count ≡ suc h.cq_count
counted h r room = let small = r.small in omega (arith, small, room)

added-IsRing :
    (h : HostIf) (c : Cqe) → IsRing h → h.cq_count < h.config.queue_size → IsRing (added h c)
added-IsRing h c r room =
    let size = h.config.queue_size in
    let n = counted h r room in
    record {
      small = r.small;
      head = r.head;
      count = omega (arith, n, room);
      tail =
          ap (next_slot size) r.tail
          ∙ sym (slot_after_snoc size h.cq_count h.cq_head)
          ∙ ap (λ (k : ℕ). slot_after size k h.cq_head) (sym n);
    }

added-pending :
    (h : HostIf) (c : Cqe)
    → IsRing h
    → h.cq_count < h.config.queue_size
    → pending (added h c) ≡ pending h ++ tagged h c ∷ []
unfolding pending
added-pending h c r room =
    let size = h.config.queue_size in
    let buf = update h.cq_buf h.cq_tail (tagged h c) in
    let far = λ (k : ℕ) (lt : k < h.cq_count) (e : slot_after size k h.cq_head ≡ h.cq_tail).
      slot_after-ne size k h.cq_count h.cq_head r.head lt room r.small (e ∙ r.tail) in
    ap (λ (k : ℕ). entries_from size k h.cq_head buf) (counted h r room)
    ∙ entries_snoc size h.cq_count h.cq_head buf
    ∙ ap₂ (λ (es : List Cqe) (x : Cqe). es ++ x ∷ [])
        (entries_from-update size h.cq_count h.cq_head h.cq_buf h.cq_tail (tagged h c) far)
        (ap buf (sym r.tail) ∙ update_self h.cq_buf h.cq_tail (tagged h c))

-- What an addition to the ring does to the queue.
abbrev pub Adds : HostIf → Cqe → RetCode × HostIf → Type 0
Adds h c (ret, h') =
    IsRing h' × ((ret, pending h') ≡ queue_add h.config.queue_size (pending h) (tagged h c))

-- `add_cqe` on a well-formed ring is the addition to a bounded queue: the entry, with the phase of the
-- ring, comes after those that wait, and a full queue refuses it and stays as it is. The ring stays
-- well-formed.
pub add_cqe-Adds : (h : HostIf) (c : Cqe) → IsRing h → Adds h c (add_cqe h c)
unfolding add_cqe
add_cqe-Adds h c r =
    let size = h.config.queue_size in
    let q = queue_add size (pending h) (tagged h c) in
    let len = length-pending h in
    if_cases (Adds h c) (leb size h.cq_count)
      (λ full. (r, sym (if_true (leb size (length (pending h))) _ _ (ap (leb size) len ∙ full))))
      (λ e. (
        added-IsRing h c r (ground (arith, e)),
        ap (λ (es : List Cqe). (ret_ok, es)) (added-pending h c r (ground (arith, e)))
            ∙ sym (if_false (leb size (length (pending h))) _ _ (ap (leb size) len ∙ e)),
      ))

abbrev pub Polls : HostIf → RetCode × Option Cqe × HostIf → Type 0
Polls h (ret, c, h') = IsRing h' × ((ret, c, pending h') ≡ queue_poll (pending h))

poll_waiting :
    (h : HostIf) (n : ℕ)
    → h.cq_count ≡ suc n
    → IsRing h
    → Polls h (
      ret_ok,
      some (h.cq_buf h.cq_head),
      record h { cq_head = next_slot h.config.queue_size h.cq_head; cq_count = h.cq_count - 1 },
    )
unfolding pending entries_from slot_after
poll_waiting h n e r =
    let size = h.config.queue_size in
    let less : h.cq_count - 1 ≡ n = omega (arith, e) in
    let le = r.count in
    (
      record {
        small = r.small;
        head = next_slot-lt size h.cq_head r.head r.small;
        count = omega (arith, le);
        tail =
            r.tail
            ∙ ap (λ (k : ℕ). slot_after size k h.cq_head) e
            ∙ ap (λ (k : ℕ). slot_after size k (next_slot size h.cq_head)) (sym less);
      },
      ap
            (λ (k : ℕ). (
              ret_ok,
              some (h.cq_buf h.cq_head),
              entries_from size k (next_slot size h.cq_head) h.cq_buf,
            ))
            less
          ∙ ap (λ (k : ℕ). queue_poll (entries_from size k h.cq_head h.cq_buf)) (sym e),
    )

poll_empty : (h : HostIf) → h.cq_count ≡ 0 → IsRing h → Polls h (err_busy, none, h)
unfolding pending entries_from slot_after
poll_empty h e r =
    let none_left = ap (λ (k : ℕ). entries_from h.config.queue_size k h.cq_head h.cq_buf) e in
    (r, ap (λ (q : List Cqe). (err_busy, none, q)) none_left ∙ ap queue_poll (sym none_left))

-- `host_if_poll_cq` on a ready interface with a well-formed ring takes the oldest entry of the queue,
-- or finds it empty and answers `err_busy`. The ring stays well-formed.
pub host_if_poll_cq-Polls :
    (h : HostIf) → h.is_initialized ≡ true → IsRing h → Polls h (host_if_poll_cq h true)
unfolding host_if_poll_cq
host_if_poll_cq-Polls h ready r =
    if_cases (Polls h) (not h.is_initialized) (λ e. absurd (ground (arith, e, ready)))
      (λ _.
        if_cases (Polls h) (h.cq_count == 0) (λ e. poll_empty h ((==_iff _ _).0 e) r)
          (λ e. poll_waiting h (h.cq_count - 1) (ground (arith, e)) r))
