-- ===== src/RoundTrip/Widths.antt =====
-- Numbers of 1, 2, 4 and 8 bytes, and their sign extension to 64 bits.
use breakpoint.Base.{ℕ, zero, suc, ◌+◌, ◌*◌, ◌%◌, ◌^◌, ◌<◌, ◌≡◌, ◌⊎◌, inl, inr, arith}
use breakpoint.Base.Bytes.{from_little_endian}
use native.Mathlib.Nat.{pow-suc}
use breakpoint.Memory.{Memory, load, load_bytes}
use breakpoint.Decoder.Values.{sign_extend}

-- A size that the ladders on `data_size` know.
abbrev pub IsWidth : ℕ → Type 0
IsWidth w = (w ≡ 1) ⊎ ((w ≡ 2) ⊎ ((w ≡ 4) ⊎ (w ≡ 8)))

-- Memory holds bytes.
abbrev pub IsBytes : Memory → Type 0
IsBytes m = (a : ℕ) → m a < 256

load_bytes-bound :
    (k a : ℕ) (m : Memory) → IsBytes m → from_little_endian (load_bytes k a m) < 256 ^ k
unfolding from_little_endian load_bytes
load_bytes-bound zero a m h = omega arith
load_bytes-bound (suc k) a m h = omega (arith, h a, load_bytes-bound k (a + 1) m h, pow-suc 256 k)

pub low_bits :
    (size x : ℕ) → IsWidth size → x < 256 ^ size → sign_extend (8 * size) x % 2 ^ (8 * size) ≡ x
low_bits size x (inl e) h = rw e (low x (rw e at h))
  where
    low : (x : ℕ) → x < 256 → sign_extend 8 x % 2 ^ 8 ≡ x
    low x h = ground arith
low_bits size x (inr (inl e)) h = rw e (low x (rw e at h))
  where
    low : (x : ℕ) → x < 256 ^ 2 → sign_extend 16 x % 2 ^ 16 ≡ x
    low x h = ground arith
low_bits size x (inr (inr (inl e))) h = rw e (low x (rw e at h))
  where
    low : (x : ℕ) → x < 256 ^ 4 → sign_extend 32 x % 2 ^ 32 ≡ x
    low x h = ground arith
low_bits size x (inr (inr (inr e))) h = rw e (low x (rw e at h))
  where
    low : (x : ℕ) → x < 256 ^ 8 → sign_extend 64 x % 2 ^ 64 ≡ x
    low x h = ground arith

pub sign_extend-lt :
    (size x : ℕ) → IsWidth size → x < 256 ^ size → sign_extend (8 * size) x < 2 ^ 64
sign_extend-lt size x (inl e) h = rw e (ground (arith, rw e at h))
sign_extend-lt size x (inr (inl e)) h = rw e (ground (arith, rw e at h))
sign_extend-lt size x (inr (inr (inl e))) h = rw e (ground (arith, rw e at h))
sign_extend-lt size x (inr (inr (inr e))) h = rw e (ground (arith, rw e at h))

pub load-bound : (size a : ℕ) (m : Memory) → IsBytes m → load size a m < 256 ^ size
unfolding load
load-bound size a m h = load_bytes-bound size a m h

pub width-lt : (size v : ℕ) → IsWidth size → v < 256 ^ size → v < 2 ^ 64
width-lt size v (inl e) h = omega (arith, rw e at h)
width-lt size v (inr (inl e)) h = omega (arith, rw e at h)
width-lt size v (inr (inr (inl e))) h = omega (arith, rw e at h)
width-lt size v (inr (inr (inr e))) h = omega (arith, rw e at h)

-- The cast to int32_t in pb_dec_varint keeps a number of at most four bytes.
pub sign_extend-again :
    (size x : ℕ)
    → (size ≡ 1) ⊎ ((size ≡ 2) ⊎ (size ≡ 4))
    → x < 256 ^ size
    → sign_extend 32 (sign_extend (8 * size) x % 2 ^ 32) ≡ sign_extend (8 * size) x
sign_extend-again size x (inl e) h = rw e (again x (rw e at h))
  where
    again : (x : ℕ) → x < 256 → sign_extend 32 (sign_extend 8 x % 2 ^ 32) ≡ sign_extend 8 x
    again x h = ground arith
sign_extend-again size x (inr (inl e)) h = rw e (again x (rw e at h))
  where
    again : (x : ℕ) → x < 256 ^ 2 → sign_extend 32 (sign_extend 16 x % 2 ^ 32) ≡ sign_extend 16 x
    again x h = ground arith
sign_extend-again size x (inr (inr e)) h = rw e (again x (rw e at h))
  where
    again : (x : ℕ) → x < 256 ^ 4 → sign_extend 32 (sign_extend 32 x % 2 ^ 32) ≡ sign_extend 32 x
    again x h = ground arith
