-- ===== src/Base/Digits.antt =====
-- The bits of a number, and those of a word that is built from single bits.
use Prim.Native.Nat.{ℕ, zero, suc, ◌-◌, ◌/◌, ◌%◌, ◌^◌, ◌≤◌, ◌<◌, max, bit_or}
use mathlib.Core.Bool.{Bool, false, ◌||◌}
use mathlib.Core.Path.{◌≡◌, refl, ◌∙◌}
use native.Mathlib.Omega.{arith}
use native.Mathlib.Nat.{pow-suc}
use breakpoint.Base.Bits.{bit_or-halves}
use breakpoint.Base.{ltb, ◌==◌}

-- Whether the bit `k` of a number is set.
abbrev pub bit : ℕ → ℕ → Bool
bit zero a = a % 2 == 1
bit (suc k) a = bit k (a / 2)

pub bit-0 : (k : ℕ) → bit k 0 ≡ false
bit-0 zero = refl
bit-0 (suc k) = bit-0 k

or_odd : (a b : ℕ) → (max (a % 2) (b % 2) == 1) ≡ (a % 2 == 1 || b % 2 == 1)
or_odd a b = ground arith

pub bit-bit_or : (k a b : ℕ) → bit k (bit_or a b) ≡ (bit k a || bit k b)
bit-bit_or zero a b =
    let odd : bit_or a b % 2 ≡ max (a % 2) (b % 2) = omega (arith, bit_or-halves a b) in
    rw odd (or_odd a b)
bit-bit_or (suc k) a b =
    let half : bit_or a b / 2 ≡ bit_or (a / 2) (b / 2) = omega (arith, bit_or-halves a b) in
    rw half (bit-bit_or k (a / 2) (b / 2))

pub bit-power : (k i : ℕ) → bit k (2 ^ i) ≡ (k == i)
bit-power zero zero = refl
bit-power (suc k) zero = bit-0 k ∙ ground arith
bit-power zero (suc i) =
    let even : 2 ^ suc i % 2 ≡ 0 = omega (arith, pow-suc 2 i) in rw even (ground arith)
bit-power (suc k) (suc i) =
    let half : 2 ^ suc i / 2 ≡ 2 ^ i = omega (arith, pow-suc 2 i) in
    rw half (bit-power k i ∙ ground arith)

pub power_positive : (k : ℕ) → 0 < 2 ^ k
power_positive zero = omega arith
power_positive (suc k) = omega (arith, power_positive k)

pub power_le : (c n : ℕ) → c ≤ n → 2 ^ c ≤ 2 ^ n
power_le zero n h = power_positive n
power_le (suc c) zero h = absurd (omega arith)
power_le (suc c) (suc n) h = omega (arith, pow-suc 2 c, pow-suc 2 n, power_le c n (omega arith))

-- The word of the first `c` bits.
pub bit-ones : (k c : ℕ) → bit k (2 ^ c - 1) ≡ ltb k c
bit-ones k zero = bit-0 k ∙ ground arith
bit-ones zero (suc c) =
    let odd : (2 ^ suc c - 1) % 2 ≡ 1 = omega (arith, pow-suc 2 c, power_positive c) in
    rw odd (ground arith)
bit-ones (suc k) (suc c) =
    let half : (2 ^ suc c - 1) / 2 ≡ 2 ^ c - 1 = omega (arith, pow-suc 2 c, power_positive c) in
    rw half (bit-ones k c ∙ ground arith)

same_odd : (a b : ℕ) → (a % 2 == 1) ≡ (b % 2 == 1) → a % 2 ≡ b % 2
same_odd a b h = ground (arith, h)

-- Two words with the same bits are the same.
pub bit_ext : (n a b : ℕ) → a < 2 ^ n → b < 2 ^ n → ((k : ℕ) → k < n → bit k a ≡ bit k b) → a ≡ b
bit_ext zero a b ha hb h = omega arith
bit_ext (suc n) a b ha hb h =
    let halves : a / 2 ≡ b / 2 =
      bit_ext n (a / 2) (b / 2) (omega (arith, pow-suc 2 n)) (omega (arith, pow-suc 2 n))
        (λ k lt. h (suc k) (omega arith)) in
    omega (arith, halves, same_odd a b (h 0 (omega arith)))
