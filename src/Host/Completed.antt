-- ===== src/Host/Completed.antt =====
-- modules/host_if/host_if.c: what the completion of a command does to the queue of answers.
use ftl_firmware.Common.{
  ℕ, suc, ◌-◌, ◌^◌, ◌≤◌, ◌<◌, ◌≡◌, ◌&&◌, refl, sym, ap, ap₂, ◌∙◌, subst, Bool, List, [], ◌∷◌, ◌++◌,
  map, length, take, leb, if_cases, if_same, RetCode, ret_ok, arith,
}
use ftl_firmware.Host.{NvmeStatus, is_success, Cmd, Cqe, Config, HostIf}
use ftl_firmware.Host.Completion.{add_cqe}
use ftl_firmware.Host.Process.{is_measured, measured, cqe_of, count_status, complete}
use ftl_firmware.Host.Ring.{entries_from, pending, IsRing, slot_after}
use ftl_firmware.Host.Queue.{queue_add, tagged, add_cqe-Adds}
use ftl_firmware.Host.Untouched.{Queues, queues}

-- The identifiers of the commands that entries answer.
abbrev pub cids : List Cqe → List ℕ
cids = map (λ (e : Cqe). e.cid)

snoc_cids :
    (q : List Cqe) (c : Cqe) (rest : List ℕ) → cids (q ++ c ∷ []) ++ rest ≡ cids q ++ c.cid ∷ rest
snoc_cids [] c rest = refl
snoc_cids (x ∷ q) c rest = ap (λ (ids : List ℕ). x.cid ∷ ids) (snoc_cids q c rest)

length_of_snoc : (q : List Cqe) (c : Cqe) → length (q ++ c ∷ []) ≡ suc (length q)
length_of_snoc [] c = refl
length_of_snoc (x ∷ q) c = ap suc (length_of_snoc q c)

-- An addition takes the next identifier, if there is room.
queue_add-cids :
    (size : ℕ) (q : List Cqe) (c : Cqe) (rest : List ℕ)
    → let q' = (queue_add size q c).1 in
      cids q' ++ take (size - length q') rest ≡ cids q ++ take (size - length q) (c.cid ∷ rest)
queue_add-cids size q c rest =
    let goal = cids q ++ take (size - length q) (c.cid ∷ rest) in
    if_cases (λ (r : RetCode × List Cqe). cids r.1 ++ take (size - length r.1) rest ≡ goal)
      (leb size (length q))
      (λ full.
        let no_room : size - length q ≡ 0 = ground (arith, full) in
        ap (λ (n : ℕ). cids q ++ take n rest) no_room
        ∙ sym (ap (λ (n : ℕ). cids q ++ take n (c.cid ∷ rest)) no_room))
      (λ e.
        let len = length_of_snoc q c in
        let less : size - length (q ++ c ∷ []) ≡ size - suc (length q) =
          ap (λ (n : ℕ). size - n) len in
        let more : size - length q ≡ suc (size - suc (length q)) = ground (arith, e) in
        ap (λ (n : ℕ). cids (q ++ c ∷ []) ++ take n rest) less
        ∙ snoc_cids q c (take (size - suc (length q)) rest)
        ∙ sym (ap (λ (n : ℕ). cids q ++ take n (c.cid ∷ rest)) more))

-- Equal queues.
pub same-IsRing : (h h' : HostIf) → queues h' ≡ queues h → IsRing h → IsRing h'
same-IsRing h h' e r =
    let ok = λ (q : Queues).
      (q.0.queue_size < 2 ^ 32)
      × (q.4 < q.0.queue_size)
      × (q.6 ≤ q.0.queue_size)
      × (q.5 ≡ slot_after q.0.queue_size q.6 q.4) in
    let (small, head, count, tail) = subst ok (sym e) (r.small, r.head, r.count, r.tail) in
    record { small = small; head = head; count = count; tail = tail }

pub same-pending : (h h' : HostIf) → queues h' ≡ queues h → pending h' ≡ pending h
unfolding pending
same-pending h h' e = ap (λ (q : Queues). entries_from q.0.queue_size q.6 q.4 q.3) e

-- What an addition to the ring leaves alone.
abbrev pub Front : Type 0
Front = Config × List Cmd × ℕ × Bool

abbrev pub front : HostIf → Front
front h = (h.config, h.sq, h.sq_count, h.is_initialized)

pub same-front : (h h' : HostIf) → queues h' ≡ queues h → front h' ≡ front h
same-front h h' e = ap (λ (q : Queues). (q.0, q.1, q.2, q.8)) e

add_cqe-front : (h : HostIf) (c : Cqe) → front (add_cqe h c).1 ≡ front h
unfolding add_cqe
add_cqe-front h c =
    if_same (λ (r : RetCode × HostIf). front r.1) (leb h.config.queue_size h.cq_count) (ret_ok, h) _
      _ refl refl

measured-queues :
    (h : HostIf) (cmd : Cmd) (status : NvmeStatus) (is_read : Bool)
    → queues (measured h cmd status is_read) ≡ queues h
unfolding measured
measured-queues h cmd status is_read =
    if_same queues (is_success status && is_measured cmd.opcode) h _ h refl refl

count_status-queues : (h : HostIf) (status : NvmeStatus) → queues (count_status h status) ≡ queues h
unfolding count_status
count_status-queues h status = if_same queues (is_success status) h _ _ refl refl

-- What the completion of a command does.
pub record IsCompleted (h : HostIf) (cmd : Cmd) (h' : HostIf) : Type 0 where
  pub ring : IsRing h'
  pub fronts : front h' ≡ front h
  pub answered :
      (rest : List ℕ)
      → cids (pending h') ++ take (h.config.queue_size - length (pending h')) rest
        ≡ cids (pending h) ++ take (h.config.queue_size - length (pending h)) (cmd.cid ∷ rest)

pub complete-IsCompleted :
    (h : HostIf) (cmd : Cmd) (status : NvmeStatus) (is_read : Bool)
    → IsRing h
    → IsCompleted h cmd (complete h cmd status is_read)
unfolding complete
complete-IsCompleted h cmd status is_read r =
    let h1 = measured h cmd status is_read in
    let same1 = measured-queues h cmd status is_read in
    let c = cqe_of h1 cmd status in
    let h2 = (add_cqe h1 c).1 in
    let (r2, adds) = add_cqe-Adds h1 c (same-IsRing h h1 same1 r) in
    let same3 = count_status-queues h2 status in
    let size = h.config.queue_size in
    let q = pending h in
    let added : pending (count_status h2 status) ≡ (queue_add size q (tagged h1 c)).1 =
      same-pending h2 (count_status h2 status) same3
      ∙ ap (λ (p : RetCode × List Cqe). p.1) adds
      ∙ ap₂ (λ (f : Front) (p : List Cqe). (queue_add f.0.queue_size p (tagged h1 c)).1)
          (same-front h h1 same1) (same-pending h h1 same1) in
    record {
      ring = same-IsRing h2 (count_status h2 status) same3 r2;
      fronts =
          same-front h2 (count_status h2 status) same3 ∙ add_cqe-front h1 c ∙ same-front h h1 same1;
      answered = λ rest.
          ap (λ (p : List Cqe). cids p ++ take (size - length p) rest) added
          ∙ queue_add-cids size q (tagged h1 c) rest;
    }
