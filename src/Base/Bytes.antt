-- ===== src/Base/Bytes.antt =====
-- Numbers as bytes, lowest first.
use Prim.Native.Nat.{ℕ, zero, suc, ◌+◌, ◌*◌, ◌/◌, ◌%◌, ◌^◌, ◌<◌}
use mathlib.Core.Path.{◌≡◌}
use mathlib.Core.List.{List, [], ◌∷◌}
use native.Mathlib.Omega.{arith}
use native.Mathlib.Nat.{pow-suc}

unfoldable pub little_endian : ℕ → ℕ → List ℕ
little_endian zero val = []
little_endian (suc n) val = (val % 256) ∷ little_endian n (val / 256)

unfoldable pub from_little_endian : List ℕ → ℕ
from_little_endian [] = 0
from_little_endian (b ∷ bs) = b + 256 * from_little_endian bs

quotient-lt : (n v : ℕ) → v < 256 ^ suc n → v / 256 < 256 ^ n
quotient-lt n v h = omega (arith, pow-suc 256 n)

pub from_little_endian-little_endian :
    (n v : ℕ) → v < 256 ^ n → from_little_endian (little_endian n v) ≡ v
unfolding little_endian from_little_endian
from_little_endian-little_endian zero v h = omega arith
from_little_endian-little_endian (suc n) v h =
    omega (arith, from_little_endian-little_endian n (v / 256) (quotient-lt n v h))
