-- ===== src/Host/Served.antt =====
-- modules/host_if/host_if.c: every command that is submitted is answered once, in order.
use ftl_firmware.Common.{
  ℕ, zero, suc, ◌+◌, ◌-◌, ◌≤◌, ◌==◌, ◌≡◌, refl, sym, ap, ap₂, ◌∙◌, subst, Bool, true, not, Option,
  none, some, List, [], ◌∷◌, ◌++◌, length, take, RetCode, ret_ok, is_ok, if_cases, arith,
}
use mathlib.Core.Bool.{true≢false}
use mathlib.Core.List.{append-nil, append_assoc}
use ftl_firmware.Host.{Config, Cmd, Cqe, HostIf, World, FtlOps}
use ftl_firmware.Host.Completion.{host_if_poll_cq}
use ftl_firmware.Host.Admin.{Pages}
use ftl_firmware.Host.Process.{host_if_submit_cmd, host_if_process}
use ftl_firmware.Host.Ring.{pending}
use ftl_firmware.Host.Queue.{queue_poll, Polls, host_if_poll_cq-Polls}
use ftl_firmware.Host.Completed.{cids, Front, front}
use ftl_firmware.Host.Answers.{waiting, Answers, host_if_process-Answers}
use ftl_firmware.Host.Valid.{IsHost, IsUp, Submits, node_of, host_if_submit_cmd-Submits}

waiting_snoc : (q : List Cmd) (c : Cmd) → waiting (q ++ c ∷ []) ≡ waiting q ++ c.cid ∷ []
waiting_snoc [] c = refl
waiting_snoc (x ∷ q) c = ap (λ (l : List ℕ). x.cid ∷ l) (waiting_snoc q c)

take_all : (n : ℕ) (q : List Cmd) → length q ≤ n → take n (waiting q) ≡ waiting q
take_all zero [] le = refl
take_all zero (x ∷ q) le = absurd (omega (arith, le))
take_all (suc n) [] le = refl
take_all (suc n) (x ∷ q) le = ap (λ (l : List ℕ). x.cid ∷ l) (take_all n q (omega (arith, le)))

-- The identifiers of an answer of the queue.
abbrev oldest : RetCode × Option Cqe × List Cqe → List ℕ
oldest (ret, none, q) = cids q
oldest (ret, some c, q) = c.cid ∷ cids q

host_if_poll_cq-front : (h : HostIf) → front (host_if_poll_cq h true).2 ≡ front h
unfolding host_if_poll_cq
host_if_poll_cq-front h =
    let Goal = λ (r : RetCode × Option Cqe × HostIf). front r.2 ≡ front h in
    if_cases Goal (not h.is_initialized) (λ _. refl)
      (λ _. if_cases Goal (h.cq_count == 0) (λ _. refl) (λ _. refl))

-- What was submitted is what was polled, then what waits to be polled, then what waits to be processed.
pub record IsServed {S : Type 0} (sub got : List ℕ) (w : World S) : Type 0 where
  pub valid : IsHost w.host
  pub up : w.host.is_initialized ≡ true
  pub order : sub ≡ got ++ (cids (pending w.host) ++ waiting w.host.sq)

-- A start that succeeds begins a run.
pub IsUp-IsServed :
    {S : Type 0} (w : World S) (ret : RetCode) → IsUp (ret, w) → is_ok ret ≡ true → IsServed [] [] w
IsUp-IsServed w ret up ok =
    let (valid, ready, none_pending, none_waiting) = up ok in
    record {
      valid = valid;
      up = ready;
      order =
          sym
            (ap₂ (λ (q : List Cqe) (l : List Cmd). cids q ++ waiting l) none_pending none_waiting);
    }

host_if_submit_cmd-IsServed :
    {S : Type 0} (sub got : List ℕ) (w : World S) (cmd : Cmd) (w' : World S)
    → IsServed sub got w
    → host_if_submit_cmd w (some cmd) ≡ (ret_ok, w')
    → IsServed (sub ++ (node_of w.host cmd).cid ∷ []) got w'
host_if_submit_cmd-IsServed sub got w cmd w' h e =
    let (valid, same, up, queued, refused) =
      subst (Submits w cmd) e (host_if_submit_cmd-Submits w cmd h.valid) in
    let n = node_of w.host cmd in
    let p = cids (pending w.host) in
    record {
      valid = valid;
      up = up ∙ h.up;
      order =
          ap (λ (l : List ℕ). l ++ n.cid ∷ []) h.order
          ∙ append_assoc got (p ++ waiting w.host.sq) (n.cid ∷ [])
          ∙ ap (λ (l : List ℕ). got ++ l) (append_assoc p (waiting w.host.sq) (n.cid ∷ []))
          ∙ ap (λ (l : List ℕ). got ++ (p ++ l)) (sym (waiting_snoc w.host.sq n))
          ∙ ap₂ (λ (q : List Cqe) (l : List Cmd). got ++ (cids q ++ waiting l)) (sym same)
              (sym (queued refl));
    }

queue_poll-cids :
    (q : List Cqe) (c : Cqe) (q' : List Cqe)
    → (ret_ok, some c, q') ≡ queue_poll q
    → cids q ≡ c.cid ∷ cids q'
queue_poll-cids [] c q' e =
    absurd (true≢false (ap (λ (r : RetCode × Option Cqe × List Cqe). is_ok r.0) e))
queue_poll-cids (x ∷ q) c q' e = sym (ap oldest e)

host_if_poll_cq-IsServed :
    {S : Type 0} (sub got : List ℕ) (w : World S) (c : Cqe) (h' : HostIf)
    → IsServed sub got w
    → host_if_poll_cq w.host true ≡ (ret_ok, some c, h')
    → IsServed sub (got ++ c.cid ∷ []) (record w { host = h' })
host_if_poll_cq-IsServed sub got w c h' h e =
    let (ring, polled) = subst (Polls w.host) e (host_if_poll_cq-Polls w.host h.up h.valid.ring) in
    let same : front h' ≡ front w.host =
      subst (λ (r : RetCode × Option Cqe × HostIf). front r.2 ≡ front w.host) e
        (host_if_poll_cq-front w.host) in
    let (counted, bounded) =
      subst (λ (f : Front). (f.2 ≡ length f.1) × (f.2 ≤ f.0.queue_size)) (sym same)
        (h.valid.counted, h.valid.bounded) in
    record {
      valid = record { ring = ring; counted = counted; bounded = bounded };
      up = ap (λ (f : Front). f.3) same ∙ h.up;
      order =
          h.order
          ∙ ap (λ (l : List ℕ). got ++ (l ++ waiting w.host.sq))
              (queue_poll-cids (pending w.host) c (pending h') polled)
          ∙ sym (append_assoc got (c.cid ∷ []) (cids (pending h') ++ waiting w.host.sq))
          ∙ ap (λ (f : Front). (got ++ c.cid ∷ []) ++ (cids (pending h') ++ waiting f.1))
              (sym same);
    }

host_if_process-IsServed :
    {S : Type 0} (ops : FtlOps S) (pages : Pages S) (sub got : List ℕ) (w w' : World S)
    → IsServed sub got w
    → length (pending w.host) + length w.host.sq ≤ w.host.config.queue_size
    → host_if_process ops pages w ≡ some (ret_ok, w')
    → IsServed sub got w'
host_if_process-IsServed ops pages sub got w w' h room e =
    let (ok, a) =
      subst (Answers ops w) e
        (host_if_process-Answers ops pages w h.up h.valid.ring h.valid.counted) in
    let p = cids (pending w.host) in
    let all =
      take_all (w.host.config.queue_size - length (pending w.host)) w.host.sq
        (omega (arith, room)) in
    record {
      valid = record {
        ring = a.ring;
        counted = a.none_left ∙ sym (ap length a.empty);
        bounded = omega (arith, a.none_left);
      };
      up = ap (λ (b : Config × Bool). b.1) a.kept ∙ h.up;
      order =
          h.order
          ∙ ap (λ (l : List ℕ). got ++ l)
              (sym (
                ap₂ (λ (x : List ℕ) (l : List Cmd). x ++ waiting l)
                  (a.answers ∙ ap (λ (l : List ℕ). p ++ l) all) a.empty
                ∙ append-nil (p ++ waiting w.host.sq)));
    }

module _ {S : Type 0} (ops : FtlOps S) (pages : Pages S) where
  -- The runs of the interface, with the identifiers submitted and those polled so far. The queue is
  -- processed only when the completion queue has room for every answer.
  pub data Run (start : World S) : List ℕ → List ℕ → World S → Type 0 where
    begins : Run start [] [] start
    submits :
        {sub got : List ℕ} {w : World S} (cmd : Cmd) (w' : World S)
        → Run start sub got w
        → host_if_submit_cmd w (some cmd) ≡ (ret_ok, w')
        → Run start (sub ++ (node_of w.host cmd).cid ∷ []) got w'
    polls :
        {sub got : List ℕ} {w : World S} (c : Cqe) (h' : HostIf)
        → Run start sub got w
        → host_if_poll_cq w.host true ≡ (ret_ok, some c, h')
        → Run start sub (got ++ c.cid ∷ []) (record w { host = h' })
    processes :
        {sub got : List ℕ} {w : World S} (w' : World S)
        → Run start sub got w
        → length (pending w.host) + length w.host.sq ≤ w.host.config.queue_size
        → host_if_process ops pages w ≡ some (ret_ok, w')
        → Run start sub got w'

  -- No answer is lost, made up, repeated or out of order: in every run of submissions, pollings and
  -- processings from a start with empty queues, each processing finding room for all of its answers, the
  -- identifiers that were submitted are those that were polled, followed by those of the answers that wait
  -- and those of the commands that wait; the queues stay well-formed. It holds over every translation
  -- layer; a processing is a step of the run if it returns.
  pub Run-IsServed :
      {start : World S} {sub got : List ℕ} {w : World S}
      → IsServed [] [] start
      → Run start sub got w
      → IsServed sub got w
  Run-IsServed h begins = h
  Run-IsServed h (submits {sub} {got} {w} cmd w' past e) =
      host_if_submit_cmd-IsServed sub got w cmd w' (Run-IsServed h past) e
  Run-IsServed h (polls {sub} {got} {w} c h' past e) =
      host_if_poll_cq-IsServed sub got w c h' (Run-IsServed h past) e
  Run-IsServed h (processes {sub} {got} {w} w' past room e) =
      host_if_process-IsServed ops pages sub got w w' (Run-IsServed h past) room e
