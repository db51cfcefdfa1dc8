-- ===== src/Ftl/Mapping/Erased.antt =====
-- modules/ftl/ftl.c: what a secure erase leaves of the table.
use ftl_firmware.Common.{
  ℕ, ◌+◌, ◌^◌, ◌≤◌, ◌<◌, ◌==◌, ◌≡◌, refl, sym, ◌∙◌, subst, Bool, true, false, not, Option, none,
  some, List, leb, if_cases, RetCode, ret_ok, is_ok, arith,
}
use mathlib.Core.Bool.{true≢false}
use ftl_firmware.Ftl.State.{Ftl, invalid, total_lpns}
use ftl_firmware.Ftl.Select.{Floats}
use ftl_firmware.Ftl.Trim.{clamp_count, ftl_trim}
use ftl_firmware.Ftl.Erase.{erase_next, erase_passes, ftl_secure_erase}
use ftl_firmware.Ftl.Mapping.Trimmed.{clamp_count-lem, trim_pages_from-Trimmed}

-- If the answer is `ret_ok`, page `l` is not mapped.
abbrev IsGone : ℕ → RetCode × Ftl → Type 0
IsGone l (ret, t) = is_ok ret ≡ true → t.l2p_table l ≡ invalid

abbrev IsGoneIf : ℕ → Option (RetCode × Ftl) → Type 0
IsGoneIf l none = Unit {0}
IsGoneIf l (some r) = IsGone l r

ftl_trim-IsGone :
    (s : Ftl) (lpn count l : ℕ)
    → lpn + count < 2 ^ 32
    → l < total_lpns
    → lpn ≤ l
    → l < lpn + count
    → IsGone l (ftl_trim s lpn count)
unfolding ftl_trim
ftl_trim-IsGone s lpn count l sum low from to =
    if_cases (IsGone l) (not s.is_initialized) (λ _ no. absurd (true≢false (sym no)))
      (λ _.
        if_cases (IsGone l) (count == 0) (λ _ no. absurd (true≢false (sym no)))
          (λ _.
            if_cases (IsGone l) (leb total_lpns lpn) (λ _ no. absurd (true≢false (sym no)))
              (λ start _.
                let covers = (clamp_count-lem lpn count (ground (arith, start)) sum).1 in
                (trim_pages_from-Trimmed (clamp_count lpn count) lpn 0 s l).0 from
                  (covers l low to))))

erase_next-IsGoneIf :
    (l : ℕ) (o : Option (RetCode × Ftl)) (rest : Ftl → Option (RetCode × Ftl))
    → ((s : Ftl) → IsGoneIf l (rest s))
    → IsGoneIf l (erase_next o rest)
unfolding erase_next
erase_next-IsGoneIf l none rest h = tt
erase_next-IsGoneIf l (some (ret, s)) rest h =
    if_cases (IsGoneIf l) (is_ok ret) (λ _. h s) (λ bad ok. absurd (true≢false (sym ok ∙ bad)))

-- A secure erase that answers `ret_ok` leaves no page of its range mapped, however many passes it made and
-- whatever the writes of the passes did; the sum of the range does not wrap.
pub ftl_secure_erase-unmaps :
    (fl : Floats) (fuel : ℕ) (s t : Ftl) (lpn count passes l : ℕ) (alloc : Bool) (page_buf : List ℕ)
    → lpn + count < 2 ^ 32
    → l < total_lpns
    → lpn ≤ l
    → l < lpn + count
    → ftl_secure_erase fl fuel page_buf s lpn count passes alloc ≡ some (ret_ok, t)
    → t.l2p_table l ≡ invalid
unfolding ftl_secure_erase
ftl_secure_erase-unmaps fl fuel s t lpn count passes l alloc page_buf sum low from to e =
    let no = λ (bad : false ≡ true). absurd (true≢false (sym bad)) in
    let Goal = IsGoneIf l in
    let gone : Goal (ftl_secure_erase fl fuel page_buf s lpn count passes alloc) =
      if_cases Goal (not s.is_initialized) (λ _. no)
        (λ _.
          if_cases Goal (count == 0) (λ _. no)
            (λ _.
              if_cases Goal (passes == 0) (λ _. no)
                (λ _.
                  if_cases Goal (leb total_lpns lpn) (λ _. no)
                    (λ start.
                      if_cases Goal (not alloc) (λ _. no)
                        (λ _.
                          let pages = clamp_count lpn count in
                          let (in_space, covers, at_most) =
                            clamp_count-lem lpn count (ground (arith, start)) sum in
                          erase_next-IsGoneIf l (erase_passes fl fuel page_buf passes 0 s lpn pages)
                            _
                            (λ u.
                              ftl_trim-IsGone u lpn pages l (omega (arith, in_space)) low from
                                (covers l low to))))))) in
    subst Goal e gone refl
