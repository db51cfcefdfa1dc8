-- ===== src/Host/Answers.antt =====
-- modules/host_if/host_if.c: `host_if_process` answers the commands in their order.
use ftl_firmware.Common.{
  ℕ, zero, suc, ◌-◌, ◌≡◌, refl, sym, ap, ◌∙◌, subst, Bool, true, not, Option, none, some, List, [],
  ◌∷◌, ◌++◌, map, length, take, if_false, RetCode, ret_ok, ◌⊎◌, inl, inr,
}
use mathlib.Core.List.{append-nil}
use ftl_firmware.Host.{NvmeStatus, Cmd, Cqe, Config, HostIf, World, FtlOps}
use ftl_firmware.Host.Admin.{Pages}
use ftl_firmware.Host.Process.{
  complete, is_read_cmd, completed, and_then, process_next, process_cmd, process_loop,
  host_if_process,
}
use ftl_firmware.Host.Ring.{pending, IsRing}
use ftl_firmware.Host.Untouched.{KeepsIf, process_cmd-KeepsIf}
use ftl_firmware.Host.Completed.{
  cids, same-IsRing, same-pending, Front, front, same-front, complete-IsCompleted,
}
use ftl_firmware.Host.Total.{Reaches, here, Stuck, IsWrite, ReachesOr, process_cmd-ReachesOr}

-- The identifiers of the commands that wait.
abbrev pub waiting : List Cmd → List ℕ
waiting = map (λ (c : Cmd). c.cid)

abbrev pub base : HostIf → Config × Bool
base h = (h.config, h.is_initialized)

-- The queue after it was processed: empty, with an answer for each command as long as there is room,
-- after those that waited.
pub record IsAnswered (h0 : HostIf) (ids : List ℕ) (h : HostIf) : Type 0 where
  pub ring : IsRing h
  pub empty : h.sq ≡ []
  pub none_left : h.sq_count ≡ 0
  pub answers :
      cids (pending h) ≡ cids (pending h0) ++ take (h0.config.queue_size - length (pending h0)) ids
  pub kept : base h ≡ base h0

take-nil : (n : ℕ) → take {A = ℕ} n [] ≡ []
take-nil zero = refl
take-nil (suc n) = refl

append_take : (size : ℕ) (q : List Cqe) → cids q ++ take (size - length q) [] ≡ cids q
append_take size q =
    ap (λ (l : List ℕ). cids q ++ l) (take-nil (size - length q)) ∙ append-nil (cids q)

-- A queue in which a command writes.
abbrev pub HasWrite : List Cmd → Type 0
HasWrite [] = ⊥
HasWrite (cmd ∷ cmds) = IsWrite cmd ⊎ HasWrite cmds

module _ {S : Type 0} (ops : FtlOps S) (start : S) where
  -- One round of the loop, and what it leaves for those behind.
  record IsNext (cmd : Cmd) (rest : List Cmd) (h0 h : HostIf) : Type 0 where
    pub ring : IsRing h
    pub fronts : front h ≡ (h0.config, rest, length rest, h0.is_initialized)
    pub answered :
        (ids : List ℕ)
        → let size = h0.config.queue_size in
          cids (pending h) ++ take (size - length (pending h)) ids
          ≡ cids (pending h0) ++ take (size - length (pending h0)) (cmd.cid ∷ ids)

  abbrev IsNextIf : Cmd → List Cmd → World S → Option (World S) → Type 0
  IsNextIf cmd rest w none = IsWrite cmd × Stuck ops start
  IsNextIf cmd rest w (some w') = IsNext cmd rest w.host w'.host × Reaches ops start w'.ftl

  abbrev taken : World S → List Cmd → World S
  taken w rest = record w { host = record w.host { sq = rest; sq_count = length rest } }

  completed-IsNextIf :
      (pages : Pages S) (w : World S) (cmd : Cmd) (rest : List Cmd)
      (o : Option (NvmeStatus × World S))
      → IsRing w.host
      → KeepsIf (taken w rest) o
      → ReachesOr ops start (IsWrite cmd × Stuck ops start) o
      → IsNextIf cmd rest w (completed ops pages cmd o)
  unfolding completed pending
  completed-IsNextIf pages w cmd rest none r kept reached = reached
  completed-IsNextIf pages w cmd rest (some (status, u)) r kept reached =
      let r0 : IsRing (taken w rest).host = record {
        small = r.small;
        head = r.head;
        count = r.count;
        tail = r.tail;
      } in
      let done =
        complete-IsCompleted u.host cmd status (is_read_cmd ops pages cmd)
          (same-IsRing (taken w rest).host u.host kept.same r0) in
      (
        record {
          ring = done.ring;
          fronts = done.fronts ∙ same-front (taken w rest).host u.host kept.same;
          answered = λ ids.
              subst
                (λ (f : Front × List Cqe).
                  cids (pending (complete u.host cmd status (is_read_cmd ops pages cmd)))
                    ++ take
                        (f.0.0.queue_size
                          - length
                              (pending (complete u.host cmd status (is_read_cmd ops pages cmd))))
                        ids
                  ≡ cids f.1 ++ take (f.0.0.queue_size - length f.1) (cmd.cid ∷ ids))
                (λ i. (
                  same-front (taken w rest).host u.host kept.same i,
                  same-pending (taken w rest).host u.host kept.same i,
                ))
                (done.answered ids);
        },
        reached,
      )

  -- The loop ends with the commands answered, or one of them writes and a write of the layer is stuck.
  abbrev IsAnsweredIf : HostIf → List Cmd → Option (World S) → Type 0
  IsAnsweredIf h0 cmds none = HasWrite cmds × Stuck ops start
  IsAnsweredIf h0 cmds (some w') = IsAnswered h0 (waiting cmds) w'.host

  next-IsAnsweredIf :
      (w u : World S) (cmd : Cmd) (rest : List Cmd) (o : Option (World S))
      → IsNext cmd rest w.host u.host
      → IsAnsweredIf u.host rest o
      → IsAnsweredIf w.host (cmd ∷ rest) o
  next-IsAnsweredIf w u cmd rest none next (writes, stuck) = (inr writes, stuck)
  next-IsAnsweredIf w u cmd rest (some w') next h = record {
    ring = h.ring;
    empty = h.empty;
    none_left = h.none_left;
    answers =
        h.answers
        ∙ ap
            (λ (f : Front).
              cids (pending u.host)
              ++ take (f.0.queue_size - length (pending u.host)) (waiting rest))
            next.fronts
        ∙ next.answered (waiting rest);
    kept = h.kept ∙ ap (λ (f : Front). (f.0, f.3)) next.fronts;
  }

  and_then-IsAnsweredIf :
      (pages : Pages S) (w : World S) (cmd : Cmd) (rest : List Cmd) (o : Option (World S))
      (loop : World S → Option (World S))
      → IsNextIf cmd rest w o
      → ((u : World S)
          → IsNext cmd rest w.host u.host
          → Reaches ops start u.ftl
          → IsAnsweredIf u.host rest (loop u))
      → IsAnsweredIf w.host (cmd ∷ rest) (and_then ops pages o loop)
  and_then-IsAnsweredIf pages w cmd rest none loop (writes, stuck) later = (inl writes, stuck)
  and_then-IsAnsweredIf pages w cmd rest (some u) loop (next, reached) later =
      next-IsAnsweredIf w u cmd rest (loop u) next (later u next reached)

  process_loop-IsAnsweredIf :
      (pages : Pages S) (w : World S) (cmds : List Cmd)
      → IsRing w.host
      → w.host.sq ≡ cmds
      → w.host.sq_count ≡ length cmds
      → Reaches ops start w.ftl
      → IsAnsweredIf w.host cmds (process_loop ops pages (length cmds) w)
  unfolding process_loop process_next
  process_loop-IsAnsweredIf pages w [] r queue count reached = record {
    ring = r;
    empty = queue;
    none_left = count;
    answers = sym (append_take w.host.config.queue_size (pending w.host));
    kept = refl;
  }
  process_loop-IsAnsweredIf pages w (cmd ∷ rest) r queue count reached =
      let loop = process_loop ops pages (length rest) in
      subst
        (λ (q : List Cmd).
          IsAnsweredIf w.host (cmd ∷ rest)
            (and_then ops pages (process_next ops pages q (length rest) w) loop))
        (sym queue)
        (and_then-IsAnsweredIf pages w cmd rest _ loop
          (completed-IsNextIf pages w cmd rest (process_cmd ops pages (taken w rest) cmd) r
            (process_cmd-KeepsIf ops pages (taken w rest) cmd)
            (process_cmd-ReachesOr ops start pages (taken w rest) cmd reached))
          (λ u next reached'.
            process_loop-IsAnsweredIf pages u rest next.ring (ap (λ (f : Front). f.1) next.fronts)
              (ap (λ (f : Front). f.2) next.fronts) reached'))

-- The processing of the queue: it returns with every command answered, or it does not return, and then
-- a command of the queue writes, and the translation layer comes to a state in which a write does not
-- return.
abbrev pub Answers : {S : Type 0} → FtlOps S → World S → Option (RetCode × World S) → Type 0
Answers ops w none = HasWrite w.host.sq × Stuck ops w.ftl
Answers ops w (some (ret, w')) = (ret ≡ ret_ok) × IsAnswered w.host (waiting w.host.sq) w'.host

abbrev answered_as : {S : Type 0} → Option (World S) → Option (RetCode × World S)
answered_as none = none
answered_as (some w) = some (ret_ok, w)

loop-Answers :
    {S : Type 0} (ops : FtlOps S) (w : World S) (o : Option (World S))
    → IsAnsweredIf ops w.ftl w.host w.host.sq o
    → Answers ops w (answered_as o)
loop-Answers ops w none h = h
loop-Answers ops w (some w') h = (refl, h)

-- Over any translation layer, on a ready interface with a well-formed ring and a count that agrees with
-- the queue: if `host_if_process` returns, it answers RET_OK and leaves no command waiting, and the
-- completion queue then holds what it held, followed by an answer for each command, in the order in which
-- they were submitted, as long as it has room; the commands for which it has none get no answer. It fails
-- to return only if a command of the queue is a write or a write of zeroes and operations of the
-- translation layer lead from its state to one in which a write does not return. So a queue without such
-- commands always returns, and so does every queue over a layer that never comes to such a state.
pub host_if_process-Answers :
    {S : Type 0} (ops : FtlOps S) (pages : Pages S) (w : World S)
    → w.host.is_initialized ≡ true
    → IsRing w.host
    → w.host.sq_count ≡ length w.host.sq
    → Answers ops w (host_if_process ops pages w)
unfolding host_if_process
host_if_process-Answers ops pages w ready r count =
    subst (Answers ops w)
      (sym (
        if_false (not w.host.is_initialized) _ _ (ap not ready)
        ∙ ap (λ (n : ℕ). answered_as (process_loop ops pages n w)) count))
      (loop-Answers ops w _
        (process_loop-IsAnsweredIf ops w.ftl pages w w.host.sq r refl count here))
