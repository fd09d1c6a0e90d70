-- ===== src/Bits.antt =====
-- Laws of `^`, `&` and `|` on words of any width, by their binary digits.
use Prim.Native.Nat.{
  ℕ, zero, suc, ◌+◌, ◌-◌, ◌*◌, ◌/◌, ◌%◌, ◌^◌, ◌≤◌, ◌<◌, bit_xor, bit_and, bit_or, digits, differ,
  min, max, bit_xor-bitwise, bit_and-bitwise, bit_or-bitwise,
}
use mathlib.Core.Path.{◌≡◌, refl, ap, ◌∙◌}
use native.Mathlib.Nat.{pow-suc, one-le-pow, div-add-mod', mod-lt}
use native.Mathlib.Omega.{arith}

-- More fuel than the first operand changes nothing.
enough_fuel :
    (z : ℕ → ℕ) (f : ℕ → ℕ → ℕ) (k n a b : ℕ) → a ≤ n → a ≤ k → digits z f n a b ≡ digits z f k a b
enough_fuel z f zero zero zero b p q = refl
enough_fuel z f zero (suc n) zero b p q = refl
enough_fuel z f (suc k) zero zero b p q = refl
enough_fuel z f (suc k) (suc n) zero b p q = refl
enough_fuel z f zero n (suc a) b p q = absurd (omega arith)
enough_fuel z f (suc k) zero (suc a) b p q = absurd (omega arith)
enough_fuel z f (suc k) (suc n) (suc a) b p q =
    ap (λ (t : ℕ). t * 2 + f (suc a % 2) (b % 2))
      (enough_fuel z f k n (suc a / 2) (b / 2) (omega arith) (omega arith))

xor_zero_left : (b : ℕ) → bit_xor 0 b ≡ b
xor_zero_left b = bit_xor-bitwise 0 b

differ_zero : (b : ℕ) → differ 0 b ≡ b
differ_zero b = refl

pub xor_halves : (a b : ℕ) → bit_xor a b ≡ bit_xor (a / 2) (b / 2) * 2 + differ (a % 2) (b % 2)
xor_halves zero b = omega (arith, xor_zero_left b, xor_zero_left (b / 2), differ_zero (b % 2))
xor_halves (suc a) b = omega (
  arith,
  bit_xor-bitwise (suc a) b,
  bit_xor-bitwise (suc a / 2) (b / 2),
  enough_fuel (λ y. y) differ a (suc a / 2) (suc a / 2) (b / 2) (omega arith) (omega arith),
)

differ_digit : (a b : ℕ) → differ (a % 2) (b % 2) < 2
differ_digit a b = ground (arith, below (a % 2) (b % 2))
  where
    below : (p q : ℕ) → p < 2 → q < 2 → differ p q < 2
    below zero q h k = k
    below (suc zero) zero h k = omega arith
    below (suc zero) (suc zero) h k = omega arith
    below (suc zero) (suc (suc q)) h k = absurd (omega arith)
    below (suc (suc p)) q h k = absurd (omega arith)

differ-differ : (p q : ℕ) → p < 2 → q < 2 → differ p (differ p q) ≡ q
differ-differ zero q h k = refl
differ-differ (suc zero) zero h k = refl
differ-differ (suc zero) (suc zero) h k = refl
differ-differ (suc zero) (suc (suc q)) h k = absurd (omega arith)
differ-differ (suc (suc p)) q h k = absurd (omega arith)

xor_parts :
    (a b : ℕ)
    → (bit_xor a b / 2 ≡ bit_xor (a / 2) (b / 2)) × (bit_xor a b % 2 ≡ differ (a % 2) (b % 2))
xor_parts a b = omega (arith, xor_halves a b, differ_digit a b)

xor-xor_below : (n a b : ℕ) → a ≤ n → bit_xor a (bit_xor a b) ≡ b
xor-xor_below n zero b h = xor_zero_left _ ∙ xor_zero_left b
xor-xor_below zero (suc a) b h = absurd (omega arith)
xor-xor_below (suc n) (suc a) b h = ground (
  arith,
  xor_halves (suc a) (bit_xor (suc a) b),
  xor_parts (suc a) b,
  differ-differ (suc a % 2) (b % 2),
  xor-xor_below n (suc a / 2) (b / 2) (omega arith),
)

-- `x ^ (x ^ y) = y`.
pub xor-xor : (a b : ℕ) → bit_xor a (bit_xor a b) ≡ b
xor-xor a b = xor-xor_below a a b (omega arith)

pub xor-lt : (k a b : ℕ) → a < 2 ^ k → b < 2 ^ k → bit_xor a b < 2 ^ k
xor-lt zero a b h k = ground (arith, xor_zero_left b)
xor-lt (suc k) a b h p =
    omega (arith, pow-suc 2 k, xor_parts a b, xor-lt k (a / 2) (b / 2), differ_digit a b)

double : (m h : ℕ) → h * 2 ^ suc m ≡ 2 * (h * 2 ^ m)
double m h = omega (arith, ap (λ (t : ℕ). h * t) (pow-suc 2 m))

-- A word above `m` bits and one below them: the high part is kept.
pub xor_high :
    (m h a b : ℕ) → a < 2 ^ m → b < 2 ^ m → bit_xor a (h * 2 ^ m + b) ≡ h * 2 ^ m + bit_xor a b
xor_high zero h a b p q = ground (arith, xor_zero_left b, xor_zero_left (h * 2 ^ 0 + b))
xor_high (suc m) h a b p q = ground (
  arith,
  pow-suc 2 m,
  double m h,
  xor_halves a (h * 2 ^ suc m + b),
  xor_halves a b,
  xor_high m h (a / 2) (b / 2) (omega (arith, pow-suc 2 m)) (omega (arith, pow-suc 2 m)),
)

or_zero_left : (b : ℕ) → bit_or 0 b ≡ b
or_zero_left b = bit_or-bitwise 0 b

or_halves : (a b : ℕ) → bit_or a b ≡ bit_or (a / 2) (b / 2) * 2 + max (a % 2) (b % 2)
or_halves zero b = omega (arith, or_zero_left b, or_zero_left (b / 2))
or_halves (suc a) b = omega (
  arith,
  bit_or-bitwise (suc a) b,
  bit_or-bitwise (suc a / 2) (b / 2),
  enough_fuel (λ y. y) max a (suc a / 2) (suc a / 2) (b / 2) (omega arith) (omega arith),
)

-- Joining a word below `2 ^ m` with one above adds them.
pub or_high : (m h a : ℕ) → a < 2 ^ m → bit_or a (h * 2 ^ m) ≡ h * 2 ^ m + a
or_high zero h a p = ground (arith, or_zero_left (h * 2 ^ 0))
or_high (suc m) h a p = ground (
  arith,
  double m h,
  or_halves a (h * 2 ^ suc m),
  or_high m h (a / 2) (omega (arith, pow-suc 2 m)),
)

and_zero_left : (b : ℕ) → bit_and 0 b ≡ 0
and_zero_left b = bit_and-bitwise 0 b

and_halves : (a b : ℕ) → bit_and a b ≡ bit_and (a / 2) (b / 2) * 2 + min (a % 2) (b % 2)
and_halves zero b = omega (arith, and_zero_left b, and_zero_left (b / 2))
and_halves (suc a) b = omega (
  arith,
  bit_and-bitwise (suc a) b,
  bit_and-bitwise (suc a / 2) (b / 2),
  enough_fuel (λ _. 0) min a (suc a / 2) (suc a / 2) (b / 2) (omega arith) (omega arith),
)

and_zero : (n a : ℕ) → a ≤ n → bit_and a 0 ≡ 0
and_zero n zero h = and_zero_left 0
and_zero zero (suc a) h = absurd (omega arith)
and_zero (suc n) (suc a) h =
    omega (arith, and_halves (suc a) 0, and_zero n (suc a / 2) (omega arith))

and_low : (m h b : ℕ) → b < 2 ^ m → bit_and (h * 2 ^ m + b) (2 ^ m - 1) ≡ b
and_low zero h b p = ground (arith, and_zero (h * 2 ^ 0 + b) (h * 2 ^ 0 + b))
and_low (suc m) h b p = ground (
  arith,
  double m h,
  pow-suc 2 m,
  one-le-pow m 2,
  and_halves (h * 2 ^ suc m + b) (2 ^ suc m - 1),
  and_low m h (b / 2) (omega (arith, pow-suc 2 m)),
)

-- A mask of `m` low ones takes the remainder.
pub and_mask : (m a : ℕ) → bit_and a (2 ^ m - 1) ≡ a % 2 ^ m
and_mask m a = ground (
  arith,
  one-le-pow m 2,
  div-add-mod' a (2 ^ m),
  mod-lt a {m = 2 ^ m},
  and_low m (a / 2 ^ m) (a % 2 ^ m),
)
