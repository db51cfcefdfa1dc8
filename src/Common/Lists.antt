-- ===== src/Common/Lists.antt =====
-- Lists measured by native numbers, and fixed-size C arrays as functions of the index.
use Prim.Native.Nat.{ℕ, zero, suc, ◌<◌}
use mathlib.Core.Path.{◌≡◌, ap}
use mathlib.Core.Logic.{◌≢◌, ◌⊎◌, inl, inr}
use mathlib.Core.Bool.{Bool}
use mathlib.Core.List.{List, [], ◌∷◌}
use native.Mathlib.Omega.{arith}
use ftl_firmware.Common.Tests.{◌==◌, if◌then◌else◌, ==_refl, ==_ne, ==_iff, Bool-cases}

module _ {ℓ} {A : Type ℓ} where
  abbrev pub length : List A → ℕ
  length [] = 0
  length (x ∷ xs) = suc (length xs)

  abbrev pub take : ℕ → List A → List A
  take zero xs = []
  take (suc n) [] = []
  take (suc n) (x ∷ xs) = x ∷ take n xs

  abbrev pub get_or : List A → ℕ → A → A
  get_or [] i d = d
  get_or (x ∷ xs) zero d = x
  get_or (x ∷ xs) (suc i) d = get_or xs i d

  -- The elements that pass a test, in order.
  abbrev pub keep : (A → Bool) → List A → List A
  keep p [] = []
  keep p (x ∷ xs) = if p x then x ∷ keep p xs else keep p xs

  -- An array cell written; the other cells stay.
  abbrev pub update : (ℕ → A) → ℕ → A → ℕ → A
  update f i v j = if j == i then v else f j

  pub update_self : (f : ℕ → A) (i : ℕ) (v : A) → update f i v i ≡ v
  update_self f i v = ap (λ b. if b then v else f i) (==_refl i)

  pub update-ne : (f : ℕ → A) (i j : ℕ) (v : A) → j ≢ i → update f i v j ≡ f j
  update-ne f i j v h = ap (λ b. if b then v else f j) (==_ne j i h)

  pub update-cases :
      (f : ℕ → A) (i : ℕ) (v : A) (j : ℕ)
      → ((j ≡ i) × (update f i v j ≡ v)) ⊎ ((j ≢ i) × (update f i v j ≡ f j))
  update-cases f i v j = elim (Bool-cases (j == i)) [
    | inl e ↦ inl ((==_iff j i).0 e, ap (λ b. if b then v else f j) e)
    | inr e ↦ inr (λ p. grind arith, ap (λ b. if b then v else f j) e)
  ]

-- Every number of the list is a byte.
abbrev pub Bytes : List ℕ → Type 0
Bytes [] = Unit {0}
Bytes (b ∷ bs) = (b < 256) × Bytes bs

-- An entry of a constant table; the code only reads inside it.
abbrev pub entry : List ℕ → ℕ → ℕ
entry t i = get_or t i 0
