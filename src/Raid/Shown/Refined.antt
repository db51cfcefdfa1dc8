-- ===== src/Raid/Shown/Refined.antt =====
-- modules/raid/raid.c: an array of either level refines one array of pages.
use ftl_firmware.Common.{
  ℕ, ◌<◌, ◌≡◌, sym, ap, ◌∙◌, subst, true, false, Option, some, List, [], ◌∷◌, leb, update, RetCode,
  ret_ok, err_param, is_ok, is_ok_sound, Bool-cases, arith, ◌⊎◌, inl, inr,
}
use mathlib.Core.Bool.{true≢false}
use ftl_firmware.Raid.{Raid, read_page_at, write_page_at, raid_read, raid_write}
use ftl_firmware.Raid.Shown.{Mirrors}
use ftl_firmware.Raid.Shown.Mirror.{raid_write-Mirrors}
use ftl_firmware.Raid.Shown.MirrorRead.{raid_read-Mirrors}
use ftl_firmware.Raid.Shown.Stripe.{Stripes, raid_write-Stripes, raid_read-Stripes}

-- What a host asks for, and what it sees.
pub data Op : Type 0 where
  reads : ℕ → List ℕ → Op
  writes : ℕ → List ℕ → Op

pub data Event : Type 0 where
  read_event : ℕ → RetCode → Option (List ℕ) → Event
  write_event : ℕ → List ℕ → RetCode → Event

unfoldable pub trace : Raid → List Op → List Event
trace s [] = []
trace s (reads lpn buf ∷ os) =
    let (ret, out, t) = raid_read s lpn (some buf) in read_event lpn ret out ∷ trace t os
trace s (writes lpn buf ∷ os) =
    let (ret, t) = raid_write s lpn (some buf) in write_event lpn buf ret ∷ trace t os

-- What one array of pages, with data `content`, may show: a write that succeeds replaces a page, a
-- read that succeeds gives a page, and anything may be refused.
pub data Allowed : (ℕ → List ℕ) → List Event → Type 0 where
  quiet : {content : ℕ → List ℕ} → Allowed content []
  stored :
      {content : ℕ → List ℕ} {es : List Event} (lpn : ℕ) (buf : List ℕ)
      → Allowed (update content lpn buf) es
      → Allowed content (write_event lpn buf ret_ok ∷ es)
  given :
      {content : ℕ → List ℕ} {es : List Event} (lpn : ℕ)
      → Allowed content es
      → Allowed content (read_event lpn ret_ok (some (content lpn)) ∷ es)
  refused_write :
      {content : ℕ → List ℕ} {es : List Event} (lpn : ℕ) (buf : List ℕ) (ret : RetCode)
      → is_ok ret ≡ false
      → Allowed content es
      → Allowed content (write_event lpn buf ret ∷ es)
  refused_read :
      {content : ℕ → List ℕ} {es : List Event} (lpn : ℕ) (ret : RetCode) (out : Option (List ℕ))
      → is_ok ret ≡ false
      → Allowed content es
      → Allowed content (read_event lpn ret out ∷ es)

-- A mirror of `content`, or a striped array that stores it.
abbrev pub IsServing : Raid → (ℕ → List ℕ) → Type 0
IsServing s content = Mirrors s content ⊎ Stripes s content

is_ready : (s : Raid) (content : ℕ → List ℕ) → IsServing s content → s.is_initialized ≡ true
is_ready s content (inl h) = h.ready
is_ready s content (inr h) = h.0.ready

abbrev Wrote : (ℕ → List ℕ) → ℕ → List ℕ → RetCode × Raid → Type 0
Wrote content lpn buf (ret, t) =
    (is_ok ret ≡ true → IsServing t (update content lpn buf))
    × (is_ok ret ≡ false → IsServing t content)

abbrev Read : (ℕ → List ℕ) → ℕ → RetCode × Option (List ℕ) × Raid → Type 0
Read content lpn (ret, out, t) = (is_ok ret ≡ true → out ≡ some (content lpn)) × IsServing t content

write_outside :
    (s : Raid) (lpn : ℕ) (buf : List ℕ)
    → s.is_initialized ≡ true
    → leb s.logical_capacity lpn ≡ true
    → raid_write s lpn (some buf) ≡ (err_param, s)
unfolding raid_write write_page_at
write_outside s lpn buf ready high = ground (arith, ready, high)

read_outside :
    (s : Raid) (lpn : ℕ) (buf : List ℕ)
    → s.is_initialized ≡ true
    → leb s.logical_capacity lpn ≡ true
    → raid_read s lpn (some buf) ≡ (err_param, some buf, s)
unfolding raid_read read_page_at
read_outside s lpn buf ready high = ground (arith, ready, high)

inside-Wrote :
    (s : Raid) (content : ℕ → List ℕ) (lpn : ℕ) (buf : List ℕ)
    → lpn < s.logical_capacity
    → IsServing s content
    → Wrote content lpn buf (raid_write s lpn (some buf))
inside-Wrote s content lpn buf low (inl h) =
    let (ok, kept) = raid_write-Mirrors s content lpn buf low h in
    (λ _. inl kept, λ bad. absurd (true≢false (sym (ap is_ok ok) ∙ bad)))
inside-Wrote s content lpn buf low (inr h) =
    let (good, bad) = (raid_write-Stripes s content lpn buf low h).1 in
    (λ ok. inr (good ok), λ failed. inr (bad failed))

inside-Read :
    (s : Raid) (content : ℕ → List ℕ) (lpn : ℕ) (buf : List ℕ)
    → lpn < s.logical_capacity
    → IsServing s content
    → Read content lpn (raid_read s lpn (some buf))
inside-Read s content lpn buf low (inl h) =
    let (some_usable, none_usable, good, kept) = raid_read-Mirrors s content lpn buf low h in
    (good, inl kept)
inside-Read s content lpn buf low (inr h) =
    let (good, kept) = (raid_read-Stripes s content lpn buf low h).1 in (good, inr kept)

raid_write-Wrote :
    (s : Raid) (content : ℕ → List ℕ) (lpn : ℕ) (buf : List ℕ)
    → IsServing s content
    → Wrote content lpn buf (raid_write s lpn (some buf))
raid_write-Wrote s content lpn buf h = elim (Bool-cases (leb s.logical_capacity lpn)) [
  | inl e ↦
      subst (Wrote content lpn buf) (sym (write_outside s lpn buf (is_ready s content h) e))
        (λ ok. absurd (true≢false (sym ok)), λ _. h)
  | inr e ↦ inside-Wrote s content lpn buf (ground (arith, e)) h
]

raid_read-Read :
    (s : Raid) (content : ℕ → List ℕ) (lpn : ℕ) (buf : List ℕ)
    → IsServing s content
    → Read content lpn (raid_read s lpn (some buf))
raid_read-Read s content lpn buf h = elim (Bool-cases (leb s.logical_capacity lpn)) [
  | inl e ↦
      subst (Read content lpn) (sym (read_outside s lpn buf (is_ready s content h) e))
        (λ ok. absurd (true≢false (sym ok)), h)
  | inr e ↦ inside-Read s content lpn buf (ground (arith, e)) h
]

-- One event, and what may follow it.
write-Allowed :
    (content : ℕ → List ℕ) (lpn : ℕ) (buf : List ℕ) (ret : RetCode) (es : List Event)
    → (is_ok ret ≡ true → Allowed (update content lpn buf) es)
    → (is_ok ret ≡ false → Allowed content es)
    → Allowed content (write_event lpn buf ret ∷ es)
write-Allowed content lpn buf ret es good bad = elim (Bool-cases (is_ok ret)) [
  | inl ok ↦
      subst (λ (r : RetCode). Allowed content (write_event lpn buf r ∷ es))
        (sym (is_ok_sound ret ok)) (stored lpn buf (good ok))
  | inr failed ↦ refused_write lpn buf ret failed (bad failed)
]

read-Allowed :
    (content : ℕ → List ℕ) (lpn : ℕ) (ret : RetCode) (out : Option (List ℕ)) (es : List Event)
    → (is_ok ret ≡ true → out ≡ some (content lpn))
    → Allowed content es
    → Allowed content (read_event lpn ret out ∷ es)
read-Allowed content lpn ret out es good later = elim (Bool-cases (is_ok ret)) [
  | inl ok ↦
      subst (λ (r : RetCode). Allowed content (read_event lpn r out ∷ es))
        (sym (is_ok_sound ret ok))
        (subst (λ (o : Option (List ℕ)). Allowed content (read_event lpn ret_ok o ∷ es))
          (sym (good ok)) (given lpn later))
  | inr failed ↦ refused_read lpn ret out failed later
]

-- Whatever reads and writes a host asks a mirror or a striped array for, in any order and in or beyond
-- the capacity, it sees what one array of pages may show: each read that succeeds gives the data of
-- the last write of that page that succeeded, or what the array held before.
pub trace-Allowed :
    (os : List Op) (s : Raid) (content : ℕ → List ℕ)
    → IsServing s content
    → Allowed content (trace s os)
unfolding trace
trace-Allowed [] s content h = quiet
trace-Allowed (reads lpn buf ∷ os) s content h =
    let (ret, out, t) = raid_read s lpn (some buf) in
    let (good, kept) = raid_read-Read s content lpn buf h in
    read-Allowed content lpn ret out (trace t os) good (trace-Allowed os t content kept)
trace-Allowed (writes lpn buf ∷ os) s content h =
    let (ret, t) = raid_write s lpn (some buf) in
    let (good, bad) = raid_write-Wrote s content lpn buf h in
    write-Allowed content lpn buf ret (trace t os)
      (λ ok. trace-Allowed os t (update content lpn buf) (good ok))
      (λ failed. trace-Allowed os t content (bad failed))
