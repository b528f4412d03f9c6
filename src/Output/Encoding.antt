-- ===== src/Output/Encoding.antt =====
-- The bytes that the number encoders hand to pb_write, in plain arithmetic.
use breakpoint.Base.{
  ℕ, zero, suc, ◌+◌, ◌*◌, ◌/◌, ◌%◌, ◌^◌, ◌≤◌, ◌<◌, bit_and, bit_or, ◌≡◌, refl, ap, ◌∙◌, some, List,
  [], ◌∷◌, length, ltb, leb, if◌then◌else◌, arith, true, Bool-cases, inl, inr,
}
use breakpoint.Base.Bits.{bit_and-0x7f, bit_and-0xff, bit_or-0x80, bit_or-shift_left}
use breakpoint.Base.Bytes.{little_endian}
use breakpoint.Output.{
  Ostream, fill_buffer, unset_top_bit, pb_write, pb_encode_varint, pb_encode_tag, pb_encode_fixed32,
  pb_encode_fixed64, byte_at,
}

-- The groups of seven bits of `v`, lowest first, for `v` below 128 ^ (k + 1).
unfoldable pub groups : ℕ → ℕ → List ℕ
groups zero v = v ∷ []
groups (suc k) v =
    let rest = groups k (v / 128) in if ltb v 128 then v ∷ [] else (v % 128 + 128) ∷ rest

-- The varint of a uint64_t.
unfoldable pub varint : ℕ → List ℕ
unfolding groups
varint v = groups 9 v

-- What `buffer` holds after the loop: every byte has its top bit set.
marked : ℕ → ℕ → List ℕ
marked zero v = (v + 128) ∷ []
marked (suc k) v =
    let rest = marked k (v / 128) in (v % 128 + 128) ∷ (if ltb v 128 then [] else rest)

group_byte : (v : ℕ) → bit_or (bit_and v 0x7f) 0x80 ≡ v % 128 + 128
group_byte v = ap (λ t. bit_or t 0x80) (bit_and-0x7f v) ∙ bit_or-0x80 (v % 128) (omega arith)

fill_buffer-marked : (k v : ℕ) → 0 < v → v < 128 ^ suc k → fill_buffer (suc k) v ≡ some (marked k v)
unfolding fill_buffer marked
fill_buffer-marked zero v pos h = ground (arith, group_byte v)
fill_buffer-marked (suc k) v pos h = ground (arith, group_byte v, fill_buffer-marked k (v / 128))

unset_top_bit-cons : (b k v : ℕ) → unset_top_bit (b ∷ marked k v) ≡ b ∷ unset_top_bit (marked k v)
unfolding unset_top_bit marked
unset_top_bit-cons b zero v = refl
unset_top_bit-cons b (suc k) v = refl

unset_top_bit-marked : (k v : ℕ) → v < 128 ^ suc k → unset_top_bit (marked k v) ≡ groups k v
unfolding unset_top_bit marked groups
unset_top_bit-marked zero v h = ground (arith, bit_and-0x7f (v + 128))
unset_top_bit-marked (suc k) v h = ground (
  arith,
  bit_and-0x7f (v % 128 + 128),
  unset_top_bit-cons (v % 128 + 128) k (v / 128),
  unset_top_bit-marked k (v / 128),
)

length-marked : (k v : ℕ) → length (marked k v) ≡ length (groups k v)
unfolding marked groups
length-marked zero v = refl
length-marked (suc k) v = ground (arith, length-marked k (v / 128))

pub length-groups : (k v : ℕ) → (1 ≤ length (groups k v)) × (length (groups k v) ≤ k + 1)
unfolding groups
length-groups zero v = omega arith
length-groups (suc k) v = ground (arith, length-groups k (v / 128))

pub length-varint : (v : ℕ) → length (varint v) < 2 ^ 64
unfolding varint
length-varint v = omega (arith, length-groups 9 v)

pub length-varint-positive : (v : ℕ) → 0 < length (varint v)
unfolding varint
length-varint-positive v = omega (arith, length-groups 9 v)

pub length-varint-le : (v : ℕ) → length (varint v) ≤ 10
unfolding varint
length-varint-le v = omega (arith, length-groups 9 v)

-- pb_encode_varint writes the varint in one call of pb_write, to any stream.
pub pb_encode_varint_lem :
    (v : ℕ) (s : Ostream)
    → v < 2 ^ 64
    → pb_encode_varint v s ≡ pb_write (varint v) (length (varint v)) s
unfolding pb_encode_varint varint
pb_encode_varint_lem v s h = elim (Bool-cases (leb v 0x7f)) [
  | inl short ↦ rw short (short_case short)
  | inr long ↦
      rw (long, fill_buffer-marked 9 v (ground arith) (omega arith))
        (rw (unset_top_bit-marked 9 v (omega arith), length-marked 9 v))
]
  where
    short_case :
        leb v 0x7f ≡ true
        → pb_write ((v % 256) ∷ []) 1 s ≡ pb_write (groups 9 v) (length (groups 9 v)) s
    short_case e = unfold groups in ground arith

-- pb_encode_tag hands the varint of `tag * 8 + wire_type` to one call of pb_write, for any stream, a wire
-- type of three bits and a tag below 2^32.
pub pb_encode_tag_lem :
    (wire_type tag : ℕ) (s : Ostream)
    → wire_type < 8
    → tag < 2 ^ 32
    → pb_encode_tag wire_type tag s
      ≡ pb_write (varint (tag * 8 + wire_type)) (length (varint (tag * 8 + wire_type))) s
unfolding pb_encode_tag
pb_encode_tag_lem wire_type tag s hw ht =
    ap (λ t. pb_encode_varint t s)
      (ap (λ t. bit_or t wire_type) (fits tag ht) ∙ bit_or-shift_left 3 wire_type tag hw)
    ∙ pb_encode_varint_lem (tag * 8 + wire_type) s (omega arith)
  where
    fits : (t : ℕ) → t < 2 ^ 32 → t * 2 ^ 3 % 2 ^ 64 ≡ t * 2 ^ 3
    fits t h = omega arith

byte_at-shift : (val k : ℕ) → byte_at val k ≡ val / 2 ^ k % 256
byte_at-shift val k = bit_and-0xff (val / 2 ^ k)

pub pb_encode_fixed32_lem : (val : ℕ) → pb_encode_fixed32 val ≡ pb_write (little_endian 4 val) 4
unfolding pb_encode_fixed32 little_endian
pb_encode_fixed32_lem val =
    ap (λ bs. pb_write bs 4)
      (ground
        (arith, bit_and-0xff val, byte_at-shift val 8, byte_at-shift val 16, byte_at-shift val 24))

pub pb_encode_fixed64_lem : (val : ℕ) → pb_encode_fixed64 val ≡ pb_write (little_endian 8 val) 8
unfolding pb_encode_fixed64 little_endian
pb_encode_fixed64_lem val =
    ap (λ bs. pb_write bs 8)
      (ground (
        arith,
        bit_and-0xff val,
        byte_at-shift val 8,
        byte_at-shift val 16,
        byte_at-shift val 24,
        byte_at-shift val 32,
        byte_at-shift val 40,
        byte_at-shift val 48,
        byte_at-shift val 56,
      ))
