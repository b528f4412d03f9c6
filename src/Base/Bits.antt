-- ===== src/Base/Bits.antt =====
-- Laws of `&` and `|` at variables, from the digit recursion that the native operations stand for.
use Prim.Native.Nat.{
  ℕ, zero, suc, ◌+◌, ◌*◌, ◌/◌, ◌%◌, ◌^◌, ◌≤◌, ◌<◌, min, max, bit_and, bit_or, digits,
  bit_and-bitwise, bit_or-bitwise,
}
use mathlib.Core.Path.{◌≡◌, refl, ap, ◌∙◌}
use native.Mathlib.Omega.{arith}
use native.Mathlib.Nat.{pow-suc}

module _ (z : ℕ → ℕ) (f : ℕ → ℕ → ℕ) where
  -- Rounds beyond the number itself change nothing.
  more_rounds : (few many x y : ℕ) → x ≤ few → few ≤ many → digits z f many x y ≡ digits z f few x y
  more_rounds zero many (suc x) y enough more = absurd (omega arith)
  more_rounds (suc few) zero x y enough more = absurd (omega arith)
  more_rounds zero (suc many) zero y enough more = refl
  more_rounds zero zero zero y enough more = refl
  more_rounds (suc few) (suc many) zero y enough more = refl
  more_rounds (suc few) (suc many) (suc x) y enough more =
      omega (arith, more_rounds few many (suc x / 2) (y / 2) (omega arith) (omega arith))

  own_rounds : (rounds x y : ℕ) → x ≤ rounds → digits z f rounds x y ≡ digits z f x x y
  own_rounds rounds x y h = more_rounds x rounds x y (omega arith) h

bit_and-halves : (x y : ℕ) → bit_and x y ≡ min (x % 2) (y % 2) + 2 * bit_and (x / 2) (y / 2)
bit_and-halves zero y = omega (arith, bit_and-bitwise 0 y, bit_and-bitwise 0 (y / 2))
bit_and-halves (suc x) y = omega (
  arith,
  own_rounds (λ t. zero) min x (suc x / 2) (y / 2) (omega arith),
  bit_and-bitwise (suc x / 2) (y / 2),
  bit_and-bitwise (suc x) y,
)

pub bit_or-halves : (x y : ℕ) → bit_or x y ≡ max (x % 2) (y % 2) + 2 * bit_or (x / 2) (y / 2)
bit_or-halves zero y = omega (arith, bit_or-bitwise 0 y, bit_or-bitwise 0 (y / 2))
bit_or-halves (suc x) y = omega (
  arith,
  own_rounds (λ t. t) max x (suc x / 2) (y / 2) (omega arith),
  bit_or-bitwise (suc x / 2) (y / 2),
  bit_or-bitwise (suc x) y,
)

-- The digits of `x & 0` and of `x | 0`.
none_left : (rounds x : ℕ) → digits (λ t. zero) min rounds x 0 ≡ 0
none_left zero x = refl
none_left (suc rounds) zero = refl
none_left (suc rounds) (suc x) = omega (arith, none_left rounds (suc x / 2))

all_left : (rounds x : ℕ) → x ≤ rounds → digits (λ t. t) max rounds x 0 ≡ x
all_left zero zero h = refl
all_left zero (suc x) h = absurd (omega arith)
all_left (suc rounds) zero h = refl
all_left (suc rounds) (suc x) h = omega (arith, all_left rounds (suc x / 2) (omega arith))

bit_and-0 : (x : ℕ) → bit_and x 0 ≡ 0
bit_and-0 x = bit_and-bitwise x 0 ∙ none_left x x

bit_or-0 : (x : ℕ) → bit_or x 0 ≡ x
bit_or-0 x = bit_or-bitwise x 0 ∙ all_left x x (omega arith)

-- `a & (2^k - 1)` at the masks of the wire format.
pub bit_and-1 : (a : ℕ) → bit_and a 1 ≡ a % 2
bit_and-1 a = omega (arith, bit_and-halves a 1, bit_and-0 (a / 2))

bit_and-3 : (a : ℕ) → bit_and a 3 ≡ a % 4
bit_and-3 a = omega (arith, bit_and-halves a 3, bit_and-1 (a / 2))

pub bit_and-7 : (a : ℕ) → bit_and a 7 ≡ a % 8
bit_and-7 a = omega (arith, bit_and-halves a 7, bit_and-3 (a / 2))

bit_and-15 : (a : ℕ) → bit_and a 15 ≡ a % 16
bit_and-15 a = omega (arith, bit_and-halves a 15, bit_and-7 (a / 2))

pub bit_and-31 : (a : ℕ) → bit_and a 31 ≡ a % 32
bit_and-31 a = omega (arith, bit_and-halves a 31, bit_and-15 (a / 2))

bit_and-63 : (a : ℕ) → bit_and a 63 ≡ a % 64
bit_and-63 a = omega (arith, bit_and-halves a 63, bit_and-31 (a / 2))

pub bit_and-0x7f : (a : ℕ) → bit_and a 0x7f ≡ a % 128
bit_and-0x7f a = omega (arith, bit_and-halves a 127, bit_and-63 (a / 2))

pub bit_and-0xff : (a : ℕ) → bit_and a 0xff ≡ a % 256
bit_and-0xff a = omega (arith, bit_and-halves a 255, bit_and-0x7f (a / 2))

-- The single bits 1, 2, …, 0x80.
bit_and-2 : (a : ℕ) → bit_and a 2 ≡ a / 2 % 2 * 2
bit_and-2 a = omega (arith, bit_and-halves a 2, bit_and-1 (a / 2))

bit_and-4 : (a : ℕ) → bit_and a 4 ≡ a / 4 % 2 * 4
bit_and-4 a = omega (arith, bit_and-halves a 4, bit_and-2 (a / 2))

bit_and-8 : (a : ℕ) → bit_and a 8 ≡ a / 8 % 2 * 8
bit_and-8 a = omega (arith, bit_and-halves a 8, bit_and-4 (a / 2))

bit_and-16 : (a : ℕ) → bit_and a 16 ≡ a / 16 % 2 * 16
bit_and-16 a = omega (arith, bit_and-halves a 16, bit_and-8 (a / 2))

bit_and-32 : (a : ℕ) → bit_and a 32 ≡ a / 32 % 2 * 32
bit_and-32 a = omega (arith, bit_and-halves a 32, bit_and-16 (a / 2))

bit_and-64 : (a : ℕ) → bit_and a 64 ≡ a / 64 % 2 * 64
bit_and-64 a = omega (arith, bit_and-halves a 64, bit_and-32 (a / 2))

pub bit_and-0x80 : (a : ℕ) → bit_and a 0x80 ≡ a / 128 % 2 * 128
bit_and-0x80 a = omega (arith, bit_and-halves a 128, bit_and-64 (a / 2))

pow_double : (k b : ℕ) → b * 2 ^ suc k ≡ b * 2 ^ k * 2
pow_double k b = omega (arith, ap (λ (t : ℕ). b * t) (pow-suc 2 k))

pow_half : (k b : ℕ) → b * 2 ^ suc k / 2 ≡ b * 2 ^ k
pow_half k b = omega (arith, pow_double k b)

-- `a | (b << k)` is a sum where `a` lies below bit k.
pub bit_or-shift : (k a b : ℕ) → a < 2 ^ k → bit_or a (b * 2 ^ k) ≡ a + b * 2 ^ k
bit_or-shift zero zero b h = omega (arith, bit_or-bitwise 0 (b * 1))
bit_or-shift zero (suc a) b h = absurd (omega arith)
bit_or-shift (suc k) a b h = omega (
  arith,
  bit_or-halves a (b * 2 ^ suc k),
  pow_double k b,
  ap (λ (t : ℕ). bit_or (a / 2) t) (pow_half k b),
  bit_or-shift k (a / 2) b (omega (arith, pow-suc 2 k)),
)

pub bit_or-0x80 : (a : ℕ) → a < 128 → bit_or a 0x80 ≡ a + 128
bit_or-0x80 a h = bit_or-shift 7 a 1 h

-- `(b << k) | a`, the other way round.
pub bit_or-shift_left : (k a b : ℕ) → a < 2 ^ k → bit_or (b * 2 ^ k) a ≡ b * 2 ^ k + a
bit_or-shift_left zero zero b h = omega (arith, bit_or-0 (b * 1))
bit_or-shift_left zero (suc a) b h = absurd (omega arith)
bit_or-shift_left (suc k) a b h = omega (
  arith,
  bit_or-halves (b * 2 ^ suc k) a,
  pow_double k b,
  ap (λ (t : ℕ). bit_or t (a / 2)) (pow_half k b),
  bit_or-shift_left k (a / 2) b (omega (arith, pow-suc 2 k)),
)

-- Numbers below bit k, joined.
pub bit_or-lt : (k a b : ℕ) → a < 2 ^ k → b < 2 ^ k → bit_or a b < 2 ^ k
bit_or-lt zero zero zero ha hb = omega (arith, bit_or-bitwise 0 0)
bit_or-lt zero zero (suc b) ha hb = absurd (omega arith)
bit_or-lt zero (suc a) b ha hb = absurd (omega arith)
bit_or-lt (suc k) a b ha hb = omega (
  arith,
  bit_or-halves a b,
  pow-suc 2 k,
  bit_or-lt k (a / 2) (b / 2) (omega (arith, pow-suc 2 k)) (omega (arith, pow-suc 2 k)),
)
