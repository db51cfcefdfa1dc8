-- ===== src/Common/Bits.antt =====
-- Exclusive or, shifts and masks of C on the native numbers, with the laws of `^`.
use Prim.Native.Nat.{ℕ, zero, suc, ◌+◌, ◌*◌, ◌/◌, ◌%◌, ◌^◌, ◌≤◌, ◌<◌, digits, differ}
use Prim.Native.Nat.{bit_xor, bit_xor-bitwise}
use mathlib.Core.Path.{◌≡◌, refl, sym, ap, ap₂, ◌∙◌}
use mathlib.Core.Bool.{Bool, true, ◌&&◌}
use native.Mathlib.Nat.{le_refl, pow-suc, mul_comm, mul_assoc, div-div-eq-div-mul}
use native.Mathlib.Omega.{arith}
use ftl_firmware.Common.Tests.{◌==◌}

infixl 60 ◌⊕◌
abbrev pub ◌⊕◌ : ℕ → ℕ → ℕ
a ⊕ b = bit_xor a b

abbrev pub shl : ℕ → ℕ → ℕ
shl x k = x * 2 ^ k

abbrev pub shr : ℕ → ℕ → ℕ
shr x k = x / 2 ^ k

-- `x & ((1 << k) - 1)`
abbrev pub low_bits : ℕ → ℕ → ℕ
low_bits x k = x % 2 ^ k

abbrev xor_digits : ℕ → ℕ → ℕ → ℕ
xor_digits n a b = digits (λ y. y) differ n a b

xor_digits_fuel : (n m a b : ℕ) → a ≤ n → a ≤ m → xor_digits n a b ≡ xor_digits m a b
xor_digits_fuel zero zero a b p q = refl
xor_digits_fuel zero (suc m) zero b p q = refl
xor_digits_fuel zero (suc m) (suc a) b p q = absurd (omega arith)
xor_digits_fuel (suc n) zero zero b p q = refl
xor_digits_fuel (suc n) zero (suc a) b p q = absurd (omega arith)
xor_digits_fuel (suc n) (suc m) zero b p q = refl
xor_digits_fuel (suc n) (suc m) (suc a) b p q =
    rw (xor_digits_fuel n m (suc a / 2) (b / 2) (omega arith) (omega arith))

differ-parity : (x y : ℕ) → x < 2 → y < 2 → differ x y ≡ (x + y) % 2
differ-parity zero zero h k = refl
differ-parity zero (suc zero) h k = refl
differ-parity (suc zero) zero h k = refl
differ-parity (suc zero) (suc zero) h k = refl
differ-parity zero (suc (suc y)) h k = absurd (omega arith)
differ-parity (suc zero) (suc (suc y)) h k = absurd (omega arith)
differ-parity (suc (suc x)) y h k = absurd (omega arith)

pub zero-xor : (b : ℕ) → 0 ⊕ b ≡ b
zero-xor b = bit_xor-bitwise 0 b

-- The law of the lowest digit.
pub xor_step : (a b : ℕ) → a ⊕ b ≡ (a / 2 ⊕ b / 2) * 2 + (a + b) % 2
xor_step zero b = omega (arith, zero-xor b, zero-xor (b / 2))
xor_step (suc a) b = omega (
  arith,
  bit_xor-bitwise (suc a) b,
  bit_xor-bitwise (suc a / 2) (b / 2),
  xor_digits_fuel a (suc a / 2) (suc a / 2) (b / 2) (omega arith) (le_refl _),
  differ-parity (suc a % 2) (b % 2) (omega arith) (omega arith),
)

pub xor-half : (a b : ℕ) → (a ⊕ b) / 2 ≡ a / 2 ⊕ b / 2
xor-half a b = omega (arith, xor_step a b)

xor-self_fuel : (n a : ℕ) → a ≤ n → a ⊕ a ≡ 0
xor-self_fuel n zero h = zero-xor 0
xor-self_fuel zero (suc a) h = absurd (omega arith)
xor-self_fuel (suc n) (suc a) h =
    omega (arith, xor_step (suc a) (suc a), xor-self_fuel n (suc a / 2) (omega arith))

pub xor_self : (a : ℕ) → a ⊕ a ≡ 0
xor_self a = xor-self_fuel a a (le_refl a)

xor-zero_fuel : (n a : ℕ) → a ≤ n → a ⊕ 0 ≡ a
xor-zero_fuel n zero h = zero-xor 0
xor-zero_fuel zero (suc a) h = absurd (omega arith)
xor-zero_fuel (suc n) (suc a) h =
    omega (arith, xor_step (suc a) 0, xor-zero_fuel n (suc a / 2) (omega arith))

pub xor-zero : (a : ℕ) → a ⊕ 0 ≡ a
xor-zero a = xor-zero_fuel a a (le_refl a)

xor_comm_fuel : (n a b : ℕ) → a ≤ n → a ⊕ b ≡ b ⊕ a
xor_comm_fuel n zero b h = zero-xor b ∙ sym (xor-zero b)
xor_comm_fuel zero (suc a) b h = absurd (omega arith)
xor_comm_fuel (suc n) (suc a) b h = omega (
  arith,
  xor_step (suc a) b,
  xor_step b (suc a),
  xor_comm_fuel n (suc a / 2) (b / 2) (omega arith),
)

pub xor_comm : (a b : ℕ) → a ⊕ b ≡ b ⊕ a
xor_comm a b = xor_comm_fuel a a b (le_refl a)

xor_assoc_fuel : (n a b c : ℕ) → a ≤ n → (a ⊕ b) ⊕ c ≡ a ⊕ (b ⊕ c)
xor_assoc_fuel n zero b c h = ap (λ t. t ⊕ c) (zero-xor b) ∙ sym (zero-xor (b ⊕ c))
xor_assoc_fuel zero (suc a) b c h = absurd (omega arith)
xor_assoc_fuel (suc n) (suc a) b c h = omega (
  arith,
  xor_step (suc a ⊕ b) c,
  xor_step (suc a) (b ⊕ c),
  xor_step (suc a) b,
  xor_step b c,
  ap (λ t. t ⊕ c / 2) (xor-half (suc a) b),
  ap (λ t. suc a / 2 ⊕ t) (xor-half b c),
  xor_assoc_fuel n (suc a / 2) (b / 2) (c / 2) (omega arith),
)

pub xor_assoc : (a b c : ℕ) → (a ⊕ b) ⊕ c ≡ a ⊕ (b ⊕ c)
xor_assoc a b c = xor_assoc_fuel a a b c (le_refl a)

pub xor_left_comm : (a b c : ℕ) → a ⊕ (b ⊕ c) ≡ b ⊕ (a ⊕ c)
xor_left_comm a b c = sym (xor_assoc a b c) ∙ ap (λ t. t ⊕ c) (xor_comm a b) ∙ xor_assoc b a c

pub xor_cancel : (a b : ℕ) → a ⊕ (a ⊕ b) ≡ b
xor_cancel a b = sym (xor_assoc a a b) ∙ ap (λ t. t ⊕ b) (xor_self a) ∙ zero-xor b

div-one : (a : ℕ) → a / 2 ^ 0 ≡ a
div-one a = omega arith

shr-suc : (a k : ℕ) → shr a (suc k) ≡ shr (a / 2) k
shr-suc a k = ap (λ t. a / t) (pow-suc 2 k ∙ mul_comm _ _) ∙ sym (div-div-eq-div-mul a 2 (2 ^ k))

pub xor_left_cancel : (a b c : ℕ) → a ⊕ b ≡ a ⊕ c → b ≡ c
xor_left_cancel a b c e = sym (xor_cancel a b) ∙ ap (λ t. a ⊕ t) e ∙ xor_cancel a c

-- Adding the same value twice on the right.
pub xor_both : (a b c : ℕ) → (a ⊕ c) ⊕ (b ⊕ c) ≡ a ⊕ b
xor_both a b c =
    xor_assoc a c (b ⊕ c) ∙ ap (λ t. a ⊕ t) (ap (λ t. c ⊕ t) (xor_comm b c) ∙ xor_cancel c b)

pub xor-shr : (k a b : ℕ) → shr (a ⊕ b) k ≡ shr a k ⊕ shr b k
xor-shr zero a b = div-one (a ⊕ b) ∙ ap₂ ◌⊕◌ (sym (div-one a)) (sym (div-one b))
xor-shr (suc k) a b =
    shr-suc (a ⊕ b) k
    ∙ ap (λ t. shr t k) (xor-half a b)
    ∙ xor-shr k (a / 2) (b / 2)
    ∙ ap₂ ◌⊕◌ (sym (shr-suc a k)) (sym (shr-suc b k))

-- Bit `k` of a sum is the parity of the two bits.
pub xor-shr-parity : (k a b : ℕ) → shr (a ⊕ b) k % 2 ≡ (shr a k % 2 + shr b k % 2) % 2
xor-shr-parity k a b = omega (arith, xor-shr k a b, xor_step (shr a k) (shr b k))

pub pow-suc_two : (q k : ℕ) → q * 2 ^ suc k ≡ q * 2 ^ k * 2
pow-suc_two q k = ap (λ t. q * t) (pow-suc 2 k) ∙ sym (mul_assoc q (2 ^ k) 2)

-- Fields that do not overlap are added.
pub xor_fields : (k q r : ℕ) → r < 2 ^ k → (q * 2 ^ k) ⊕ r ≡ q * 2 ^ k + r
xor_fields zero q r h =
    let none_left : r ≡ 0 = omega arith in rw none_left (xor-zero (q * 2 ^ 0) ∙ omega arith)
xor_fields (suc k) q r h =
    let fits : r / 2 < 2 ^ k = omega (arith, pow-suc 2 k) in
    ground (
      arith,
      pow-suc_two q k,
      xor_step (q * 2 ^ suc k) r,
      ap (λ t. t ⊕ r / 2) (halved (q * 2 ^ suc k) (q * 2 ^ k) (pow-suc_two q k)),
      xor_fields k q (r / 2) fits,
    )
  where
    halved : (a b : ℕ) → a ≡ b * 2 → a / 2 ≡ b
    halved a b e = omega arith

pub xor-lt : (k a b : ℕ) → a < 2 ^ k → b < 2 ^ k → a ⊕ b < 2 ^ k
xor-lt zero a b h j =
    let e : a ≡ 0 = omega arith in let e' : b ≡ 0 = omega arith in rw (e, e') (omega arith)
xor-lt (suc k) a b h j = omega (
  arith,
  pow-suc 2 k,
  xor_step a b,
  xor-lt k (a / 2) (b / 2) (omega (arith, pow-suc 2 k)) (omega (arith, pow-suc 2 k)),
)

-- Over a small range, every value is checked by evaluation.
unfoldable pub all_below : ℕ → (ℕ → Bool) → Bool
all_below zero p = true
all_below (suc n) p = p n && all_below n p

-- So a value inside the range has passed.
pub all_below_sound :
    (limit : ℕ) (test : ℕ → Bool) (i : ℕ) → all_below limit test ≡ true → i < limit → test i ≡ true
unfolding all_below
all_below_sound (suc limit) test i passed low =
    let rest = all_below_sound limit test i in ground (arith, rest)
all_below_sound zero test i passed low = absurd (omega (arith, low))

-- Both components of a pair of numbers are as given.
abbrev pub is_pair : ℕ × ℕ → ℕ → ℕ → Bool
is_pair p a b = p.0 == a && p.1 == b

pub is_pair_sound : (p : ℕ × ℕ) (a b : ℕ) → is_pair p a b ≡ true → p ≡ (a, b)
is_pair_sound p a b h = ground arith
