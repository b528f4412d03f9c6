-- ===== src/Memory/Stores.antt =====
-- A load sees the last store to its bytes, and no other.
use breakpoint.Base.{
  ℕ, zero, suc, ◌+◌, ◌^◌, ◌≤◌, ◌<◌, ◌≡◌, ◌⊎◌, inl, inr, refl, sym, ap, ap₂, ◌∙◌, ◌/◌, List, [], ◌∷◌,
  length, arith,
}
use breakpoint.Base.Bytes.{little_endian, from_little_endian, from_little_endian-little_endian}
use breakpoint.Memory.{Memory, store_byte, store_bytes, load_bytes, load, store}

-- A store leaves every byte outside its range as it was.
pub store_bytes-outside :
    (bs : List ℕ) (a x : ℕ) (m : Memory)
    → (x < a) ⊎ (a + length bs ≤ x)
    → store_bytes a bs m x ≡ m x
unfolding store_bytes
store_bytes-outside [] a x m out = refl
store_bytes-outside (b ∷ bs) a x m out =
    store_bytes-outside bs (a + 1) x (store_byte a b m) (later out) ∙ ground arith
  where
    later : (x < a) ⊎ (a + length (b ∷ bs) ≤ x) → (x < a + 1) ⊎ (a + 1 + length bs ≤ x)
    later (inl h) = inl (omega arith)
    later (inr h) = inr (omega arith)

pub load_bytes-agree :
    (n a : ℕ) (m m' : Memory)
    → ((x : ℕ) → a ≤ x → x < a + n → m x ≡ m' x)
    → load_bytes n a m ≡ load_bytes n a m'
unfolding load_bytes
load_bytes-agree zero a m m' same = refl
load_bytes-agree (suc n) a m m' same =
    ap₂ (λ b bs. b ∷ bs) (same a (omega arith) (omega arith))
      (load_bytes-agree n (a + 1) m m' (λ x h k. same x (omega arith) (omega arith)))

-- The bytes that were stored are loaded.
pub load_bytes-store_bytes :
    (bs : List ℕ) (a : ℕ) (m : Memory) → load_bytes (length bs) a (store_bytes a bs m) ≡ bs
unfolding load_bytes store_bytes
load_bytes-store_bytes [] a m = refl
load_bytes-store_bytes (b ∷ bs) a m =
    ap₂ (λ c cs. c ∷ cs)
      (store_bytes-outside bs (a + 1) a (store_byte a b m) (inl (omega arith)) ∙ ground arith)
      (load_bytes-store_bytes bs (a + 1) (store_byte a b m))

pub length-little_endian : (n v : ℕ) → length (little_endian n v) ≡ n
unfolding little_endian
length-little_endian zero v = refl
length-little_endian (suc n) v = ap suc (length-little_endian n (v / 256))

pub load-store : (n a v : ℕ) (m : Memory) → v < 256 ^ n → load n a (store n a v m) ≡ v
unfolding load store
load-store n a v m h =
    ap from_little_endian (
      ap (λ k. load_bytes k a (store_bytes a (little_endian n v) m))
        (sym (length-little_endian n v))
      ∙ load_bytes-store_bytes (little_endian n v) a m)
    ∙ from_little_endian-little_endian n v h

-- A load of bytes that a store does not touch.
pub load-store_bytes_apart :
    (n a c : ℕ) (bs : List ℕ) (m : Memory)
    → (a + n ≤ c) ⊎ (c + length bs ≤ a)
    → load n a (store_bytes c bs m) ≡ load n a m
unfolding load
load-store_bytes_apart n a c bs m apart =
    ap from_little_endian
      (load_bytes-agree n a _ m (λ x h k. store_bytes-outside bs c x m (side x h k apart)))
  where
    side :
        (x : ℕ)
        → a ≤ x
        → x < a + n
        → (a + n ≤ c) ⊎ (c + length bs ≤ a)
        → (x < c) ⊎ (c + length bs ≤ x)
    side x h k (inl p) = inl (omega arith)
    side x h k (inr p) = inr (omega arith)
