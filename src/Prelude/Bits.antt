-- ===== src/Prelude/Bits.antt =====
-- `|` of numbers with no bit in common is `+`, at every width, and masks of one byte as tables.
use Prim.Native.Nat.{ℕ, zero, suc, ◌+◌, ◌*◌, ◌/◌, ◌%◌, ◌^◌, ◌≤◌, ◌<◌, max, bit_and, bit_or}
use Prim.Native.Nat.{digits, bit_or-bitwise}
use mathlib.Core.Path.{◌≡◌, refl, ap}
use mathlib.Core.Bool.{Bool, true, ◌&&◌}
use native.Mathlib.Omega.{arith}
use native.Mathlib.Nat.{pow-suc}
use susanin.Prelude.Tests.{◌==◌}

abbrev or_digits : ℕ → ℕ → ℕ → ℕ
or_digits n a b = digits (λ b. b) max n a b

or_digits_fuel : (n m a b : ℕ) → a ≤ n → a ≤ m → or_digits n a b ≡ or_digits m a b
or_digits_fuel zero zero a b p q = refl
or_digits_fuel zero (suc m) zero b p q = refl
or_digits_fuel zero (suc m) (suc a) b p q = absurd (omega arith)
or_digits_fuel (suc n) zero zero b p q = refl
or_digits_fuel (suc n) zero (suc a) b p q = absurd (omega arith)
or_digits_fuel (suc n) (suc m) zero b p q = refl
or_digits_fuel (suc n) (suc m) (suc a) b p q =
    omega (arith, or_digits_fuel n m (suc a / 2) (b / 2) (omega arith) (omega arith))

zero-bit_or : (b : ℕ) → bit_or 0 b ≡ b
zero-bit_or b = bit_or-bitwise 0 b

bit_or_step : (a b : ℕ) → bit_or a b ≡ bit_or (a / 2) (b / 2) * 2 + max (a % 2) (b % 2)
bit_or_step zero b = omega (arith, zero-bit_or b, zero-bit_or (b / 2))
bit_or_step (suc a) b = omega (
  arith,
  bit_or-bitwise (suc a) b,
  bit_or-bitwise (suc a / 2) (b / 2),
  or_digits_fuel a (suc a / 2) (suc a / 2) (b / 2) (omega arith) (omega arith),
)

bit_or-zero_fuel : (n a : ℕ) → a ≤ n → bit_or a 0 ≡ a
bit_or-zero_fuel n zero h = refl
bit_or-zero_fuel zero (suc a) h = absurd (omega arith)
bit_or-zero_fuel (suc n) (suc a) h =
    omega (arith, bit_or_step (suc a) 0, bit_or-zero_fuel n (suc a / 2) (omega arith))

double_power : (c k : ℕ) → c * 2 ^ suc k ≡ 2 * (c * 2 ^ k)
double_power c k = omega (arith, ap (λ (t : ℕ). c * t) (pow-suc 2 k))

-- A field below bit `k` and one from bit `k` on, in either order.
pub bit_or_low_high : (k a c : ℕ) → a < 2 ^ k → bit_or a (c * 2 ^ k) ≡ a + c * 2 ^ k
bit_or_low_high zero zero c h = omega (arith, zero-bit_or (c * 2 ^ 0))
bit_or_low_high zero (suc a) c h = absurd (omega arith)
bit_or_low_high (suc k) a c h = ground (
  arith,
  bit_or_step a (c * 2 ^ suc k),
  double_power c k,
  bit_or_low_high k (a / 2) c (omega (arith, double_power 1 k)),
)

pub bit_or_high_low : (k a c : ℕ) → a < 2 ^ k → bit_or (c * 2 ^ k) a ≡ c * 2 ^ k + a
bit_or_high_low zero zero c h = omega (arith, bit_or-zero_fuel (c * 1) (c * 1) (omega arith))
bit_or_high_low zero (suc a) c h = absurd (omega arith)
bit_or_high_low (suc k) a c h = ground (
  arith,
  bit_or_step (c * 2 ^ suc k) a,
  double_power c k,
  bit_or_high_low k (a / 2) c (omega (arith, double_power 1 k)),
)

-- Two functions that agree below a bound, checked by evaluation.
module _ (f g : ℕ → ℕ) where
  agree_below : ℕ → Bool
  agree_below zero = true
  agree_below (suc n) = f n == g n && agree_below n

  agree_below→eq : (n : ℕ) → agree_below n ≡ true → (i : ℕ) → i < n → f i ≡ g i
  unfolding agree_below
  agree_below→eq zero e i h = absurd (omega arith)
  agree_below→eq (suc n) e i h = ground (arith, agree_below→eq n (ground arith) i)

pub byte_and_80 : (b : ℕ) → b < 256 → bit_and b 0x80 ≡ b / 128 * 128
unfolding agree_below
byte_and_80 = agree_below→eq _ _ 256 refl

pub byte_and_c0 : (b : ℕ) → b < 256 → bit_and b 0xc0 ≡ b / 64 * 64
unfolding agree_below
byte_and_c0 = agree_below→eq _ _ 256 refl

pub byte_and_e0 : (b : ℕ) → b < 256 → bit_and b 0xe0 ≡ b / 32 * 32
unfolding agree_below
byte_and_e0 = agree_below→eq _ _ 256 refl

pub byte_and_f0 : (b : ℕ) → b < 256 → bit_and b 0xf0 ≡ b / 16 * 16
unfolding agree_below
byte_and_f0 = agree_below→eq _ _ 256 refl

pub byte_and_3f : (b : ℕ) → b < 256 → bit_and b 0x3f ≡ b % 64
unfolding agree_below
byte_and_3f = agree_below→eq _ _ 256 refl

pub byte_and_1f : (b : ℕ) → b < 256 → bit_and b 0x1f ≡ b % 32
unfolding agree_below
byte_and_1f = agree_below→eq _ _ 256 refl

pub byte_and_0f : (b : ℕ) → b < 256 → bit_and b 0x0f ≡ b % 16
unfolding agree_below
byte_and_0f = agree_below→eq _ _ 256 refl
