-- ===== src/Host/Valid.antt =====
-- modules/host_if/host_if.c: what every call of the interface keeps.
use ftl_firmware.Common.{
  ℕ, suc, ◌+◌, ◌^◌, ◌≤◌, ◌<◌, ◌==◌, ◌≡◌, refl, sym, ap, ◌∙◌, Bool, true, false, not, some, List, [],
  ◌∷◌, ◌++◌, length, leb, if_cases, inc32, RetCode, err_no_space, err_not_init, err_internal, is_ok,
  arith,
}
use mathlib.Core.Bool.{true≢false}
use ftl_firmware.Host.{Cmd, Config, HostIf, World}
use ftl_firmware.Host.Process.{identified, host_if_submit_cmd}
use ftl_firmware.Host.Init.{blanked, powered, init_with, host_if_init}
use ftl_firmware.Host.Ring.{entries_from, pending, IsRing, slot_after}

-- Both queues are well-formed: the ring, the count of the commands, and its bound.
pub record IsHost (h : HostIf) : Type 0 where
  pub ring : IsRing h
  pub counted : h.sq_count ≡ length h.sq
  pub bounded : h.sq_count ≤ h.config.queue_size

-- What a start leaves if it succeeds.
abbrev pub IsUp : {S : Type 0} → RetCode × World S → Type 0
IsUp (ret, w) =
    is_ok ret ≡ true
    → IsHost w.host × (w.host.is_initialized ≡ true) × (pending w.host ≡ []) × (w.host.sq ≡ [])

-- `host_if_init`, if it succeeds, leaves a ready interface with two empty queues, whatever it was before; the
-- size of the queues is a 32-bit number.
pub host_if_init-IsUp :
    {S : Type 0} (w : World S) (config : Config)
    → config.queue_size < 2 ^ 32
    → IsUp (host_if_init w (some config))
unfolding host_if_init init_with blanked powered pending entries_from slot_after
host_if_init-IsUp w config small =
    if_cases IsUp (config.queue_size == 0) (λ _ ok. ground (arith, ok))
      (λ some_size.
        if_cases IsUp (not (w.allocs 0)) (λ _ ok. ground (arith, ok))
          (λ _ _. (
            record {
              ring = record {
                small = small;
                head = ground (arith, some_size);
                count = omega arith;
                tail = refl;
              };
              counted = refl;
              bounded = omega arith;
            },
            refl,
            refl,
            refl,
          )))

pub length_snoc : (q : List Cmd) (c : Cmd) → length (q ++ c ∷ []) ≡ suc (length q)
length_snoc [] c = refl
length_snoc (x ∷ q) c = ap suc (length_snoc q c)

-- The command as the queue keeps it.
abbrev pub node_of : HostIf → Cmd → Cmd
node_of h cmd = (identified cmd h.cid_counter).0

-- What a submission does: with `ret_ok` the command is the last of the queue, with any other answer the
-- state of the interface is as before. The completion queue is as before.
abbrev pub Submits : {S : Type 0} → World S → Cmd → RetCode × World S → Type 0
Submits w cmd (ret, w') =
    IsHost w'.host
    × (pending w'.host ≡ pending w.host)
    × (w'.host.is_initialized ≡ w.host.is_initialized)
    × (is_ok ret ≡ true → w'.host.sq ≡ w.host.sq ++ node_of w.host cmd ∷ [])
    × (is_ok ret ≡ false → w'.host ≡ w.host)

refused :
    {S : Type 0} (w : World S) (cmd : Cmd) (allocs : ℕ → Bool) (ret : RetCode)
    → is_ok ret ≡ false
    → IsHost w.host
    → Submits w cmd (ret, record w { allocs = allocs })
refused w cmd allocs ret failed h =
    (h, refl, refl, λ ok. absurd (true≢false (sym ok ∙ failed)), λ _. refl)

-- `host_if_submit_cmd` on well-formed queues keeps them so.
pub host_if_submit_cmd-Submits :
    {S : Type 0} (w : World S) (cmd : Cmd)
    → IsHost w.host
    → Submits w cmd (host_if_submit_cmd w (some cmd))
unfolding host_if_submit_cmd pending
host_if_submit_cmd-Submits w cmd h =
    let r = h.ring in
    if_cases (Submits w cmd) (not w.host.is_initialized)
      (λ _. refused w cmd w.allocs err_not_init refl h)
      (λ _.
        if_cases (Submits w cmd) (leb w.host.config.queue_size w.host.sq_count)
          (λ _. refused w cmd w.allocs err_no_space refl h)
          (λ room.
            if_cases (Submits w cmd) (not (w.allocs 0))
              (λ _. refused w cmd (λ i. w.allocs (i + 1)) err_internal refl h)
              (λ _.
                let small = r.small in
                let less : w.host.sq_count < w.host.config.queue_size = ground (arith, room) in
                let next : inc32 w.host.sq_count ≡ suc w.host.sq_count =
                  omega (arith, small, less) in
                (
                  record {
                    ring = record {
                      small = r.small;
                      head = r.head;
                      count = r.count;
                      tail = r.tail;
                    };
                    counted =
                        next ∙ ap suc h.counted ∙ sym (length_snoc w.host.sq (node_of w.host cmd));
                    bounded = omega (arith, next, less);
                  },
                  refl,
                  refl,
                  λ _. refl,
                  λ bad. ground (arith, bad),
                ))))
