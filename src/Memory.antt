-- ===== src/Memory.antt =====
-- The bytes that pointers point at: the message structures, their strings and arrays. A pointer is
-- an address, NULL is 0, and a number of n bytes is stored lowest byte first.
pub mod Stores
use breakpoint.Base.{ℕ, zero, suc, ◌+◌, List, [], ◌∷◌, ◌==◌, if◌then◌else◌, replicate}
use breakpoint.Base.Bytes.{little_endian, from_little_endian}

abbrev pub Memory : Type 0
Memory = ℕ → ℕ

abbrev pub store_byte : ℕ → ℕ → Memory → Memory
store_byte a b m x = if x == a then b else m x

unfoldable pub store_bytes : ℕ → List ℕ → Memory → Memory
store_bytes a [] m = m
store_bytes a (b ∷ bs) m = store_bytes (a + 1) bs (store_byte a b m)

unfoldable pub load_bytes : ℕ → ℕ → Memory → List ℕ
load_bytes zero a m = []
load_bytes (suc n) a m = m a ∷ load_bytes n (a + 1) m

-- `*(T*)a` and `*(T*)a = v` for an unsigned type T of `n` bytes.
unfoldable pub load : ℕ → ℕ → Memory → ℕ
unfolding load_bytes
load n a m = from_little_endian (load_bytes n a m)

unfoldable pub store : ℕ → ℕ → ℕ → Memory → Memory
unfolding store_bytes
store n a v m = store_bytes a (little_endian n v) m

-- memset(a, 0, n) and memcpy(a, from, n).
unfoldable pub memset_zero : ℕ → ℕ → Memory → Memory
unfolding store_bytes
memset_zero a n m = store_bytes a (replicate n 0) m

unfoldable pub memcpy : ℕ → ℕ → ℕ → Memory → Memory
unfolding store_bytes load_bytes
memcpy a from n m = store_bytes a (load_bytes n from m) m
