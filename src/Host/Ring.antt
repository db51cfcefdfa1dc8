-- ===== src/Host/Ring.antt =====
-- modules/host_if/host_if.c: the slots of the completion ring, and the entries that wait in it.
use ftl_firmware.Common.{
  ℕ, zero, suc, ◌+◌, ◌-◌, ◌%◌, ◌^◌, ◌≤◌, ◌<◌, ◌≡◌, ◌≢◌, refl, sym, ap, ap₂, ◌∙◌, subst, List, [],
  ◌∷◌, ◌++◌, length, ltb, ltb→lt, ltb-false→le, if◌then◌else◌, if_cases, update, update-ne, inc32,
  arith,
}
use native.Mathlib.Nat.{mod-eq_of_lt, mod_self}
use ftl_firmware.Host.{Cqe, HostIf}
use ftl_firmware.Host.Completion.{next_slot}

-- The slot `n` places after `slot`.
unfoldable pub slot_after : ℕ → ℕ → ℕ → ℕ
slot_after size zero slot = slot
slot_after size (suc n) slot = slot_after size n (next_slot size slot)

-- The `n` entries from `slot` on.
unfoldable pub entries_from : ℕ → ℕ → ℕ → (ℕ → Cqe) → List Cqe
entries_from size zero slot buf = []
entries_from size (suc n) slot buf = buf slot ∷ entries_from size n (next_slot size slot) buf

-- The entries that the host has not polled, the oldest first.
unfoldable pub pending : HostIf → List Cqe
unfolding entries_from
pending h = entries_from h.config.queue_size h.cq_count h.cq_head h.cq_buf

pub record IsRing (h : HostIf) : Type 0 where
  pub small : h.config.queue_size < 2 ^ 32
  pub head : h.cq_head < h.config.queue_size
  pub count : h.cq_count ≤ h.config.queue_size
  pub tail : h.cq_tail ≡ slot_after h.config.queue_size h.cq_count h.cq_head

abbrev wrap : ℕ → ℕ → ℕ
wrap size a = if ltb a size then a else a - size

inc32-small : (slot size : ℕ) → slot < size → size < 2 ^ 32 → inc32 slot ≡ slot + 1
inc32-small slot size lt small = omega arith

next_slot-wrap :
    (size slot : ℕ) → slot < size → size < 2 ^ 32 → next_slot size slot ≡ wrap size (slot + 1)
next_slot-wrap size slot lt small =
    ap (λ (n : ℕ). n % size) (inc32-small slot size lt small)
    ∙ if_cases (λ (x : ℕ). (slot + 1) % size ≡ x) (ltb (slot + 1) size)
        (λ e. mod-eq_of_lt (ltb→lt _ _ e))
        (λ e.
          let last : slot + 1 ≡ size = omega (arith, lt, ltb-false→le _ _ e) in
          ap (λ (n : ℕ). n % size) last ∙ mod_self size ∙ omega (arith, last))

pub next_slot-lt : (size slot : ℕ) → slot < size → size < 2 ^ 32 → next_slot size slot < size
next_slot-lt size slot lt small =
    subst (λ (x : ℕ). x < size) (sym (next_slot-wrap size slot lt small)) (ground (arith, lt))

slot_after-wrap :
    (size n slot : ℕ)
    → slot < size
    → n ≤ size
    → size < 2 ^ 32
    → slot_after size n slot ≡ wrap size (slot + n)
unfolding slot_after
slot_after-wrap size zero slot lt le small = ground (arith, lt)
slot_after-wrap size (suc n) slot lt le small =
    slot_after-wrap size n (next_slot size slot) (next_slot-lt size slot lt small)
      (omega (arith, le)) small
    ∙ ap (λ (x : ℕ). wrap size (x + n)) (next_slot-wrap size slot lt small)
    ∙ ground (arith, lt, le)

-- Slots that are fewer than `size` places apart differ.
pub slot_after-ne :
    (size k n slot : ℕ)
    → slot < size
    → k < n
    → n < size
    → size < 2 ^ 32
    → slot_after size k slot ≢ slot_after size n slot
slot_after-ne size k n slot lt before room small e =
    let a = slot_after-wrap size k slot lt (omega (arith, before, room)) small in
    let b = slot_after-wrap size n slot lt (omega (arith, room)) small in
    let c : wrap size (slot + k) ≡ wrap size (slot + n) = sym a ∙ e ∙ b in
    absurd (ground (arith, c, lt, before, room))

pub slot_after_snoc :
    (size n slot : ℕ) → slot_after size (suc n) slot ≡ next_slot size (slot_after size n slot)
unfolding slot_after
slot_after_snoc size zero slot = refl
slot_after_snoc size (suc n) slot = slot_after_snoc size n (next_slot size slot)

pub entries_snoc :
    (size n slot : ℕ) (buf : ℕ → Cqe)
    → entries_from size (suc n) slot buf
      ≡ entries_from size n slot buf ++ buf (slot_after size n slot) ∷ []
unfolding entries_from slot_after
entries_snoc size zero slot buf = refl
entries_snoc size (suc n) slot buf =
    ap (λ (es : List Cqe). buf slot ∷ es) (entries_snoc size n (next_slot size slot) buf)

pub entries_from-update :
    (size n slot : ℕ) (buf : ℕ → Cqe) (j : ℕ) (c : Cqe)
    → ((k : ℕ) → k < n → slot_after size k slot ≢ j)
    → entries_from size n slot (update buf j c) ≡ entries_from size n slot buf
unfolding entries_from slot_after
entries_from-update size zero slot buf j c far = refl
entries_from-update size (suc n) slot buf j c far =
    ap₂ (λ (x : Cqe) (xs : List Cqe). x ∷ xs) (update-ne buf j slot c (far 0 (omega arith)))
      (entries_from-update size n (next_slot size slot) buf j c
        (λ k lt. far (suc k) (omega (arith, lt))))

length-entries_from : (size n slot : ℕ) (buf : ℕ → Cqe) → length (entries_from size n slot buf) ≡ n
unfolding entries_from
length-entries_from size zero slot buf = refl
length-entries_from size (suc n) slot buf =
    ap suc (length-entries_from size n (next_slot size slot) buf)

pub length-pending : (h : HostIf) → length (pending h) ≡ h.cq_count
unfolding pending
length-pending h = length-entries_from h.config.queue_size h.cq_count h.cq_head h.cq_buf
