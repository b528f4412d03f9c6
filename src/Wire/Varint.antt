-- ===== src/Wire/Varint.antt =====
-- The two varint decoders read back what pb_encode_varint writes.
use breakpoint.Base.{
  ℕ, zero, suc, ◌+◌, ◌-◌, ◌*◌, ◌/◌, ◌%◌, ◌^◌, ◌≤◌, ◌<◌, bit_or, ◌≡◌, ap, ◌∙◌, Option, List, ◌∷◌,
  ◌++◌, length, ltb, arith, Bool-cases, inl, inr,
}
use breakpoint.Base.Bits.{bit_and-0x7f, bit_and-0x80, bit_or-shift}
use breakpoint.Errors.{ErrMsg}
use breakpoint.Outcome.{ok}
use breakpoint.Input.Reading.{reading, pb_readbyte_lem}
use breakpoint.Output.Encoding.{groups, varint}
use breakpoint.Wire.{varint_loop, add_group, next_bitpos, pb_decode_varint, pb_decode_varint32}
use native.Mathlib.Nat.{mod-eq_of_lt, div-add-mod, mul-le-mul_right}
use native.Mathlib.Numerals.{towards_suc}

pow_seven : (s : ℕ) → 2 ^ (s + 7) ≡ 128 * 2 ^ s
pow_seven s = simp towards_suc (omega arith)

-- `result |= …` adds, since `result` lies below `bitpos` and the group fits the width.
add_group_lem :
    (w acc byte bitpos : ℕ)
    → acc < 2 ^ bitpos
    → byte % 128 * 2 ^ bitpos < 2 ^ w
    → add_group w acc byte bitpos ≡ acc + byte % 128 * 2 ^ bitpos
add_group_lem w acc byte bitpos ha hw =
    ap (λ g. bit_or acc (g * 2 ^ bitpos % 2 ^ w)) (bit_and-0x7f byte)
    ∙ ap (bit_or acc) (mod-eq_of_lt hw)
    ∙ bit_or-shift bitpos acc (byte % 128) ha

module _ (w acc bitpos n m : ℕ) (rest : List ℕ) (e : Option ErrMsg) (low : acc < 2 ^ bitpos)
    (open_pos : bitpos < w) (left : 0 < n) (size : n < 2 ^ 64) where
  last_byte :
      (b : ℕ)
      → b < 128
      → acc + b * 2 ^ bitpos < 2 ^ w
      → varint_loop (suc m) w bitpos acc (reading (b ∷ rest) n e)
        ≡ ok (acc + b * 2 ^ bitpos) (reading rest (n - 1) e)
  unfolding varint_loop
  last_byte b hb fits = ground (
    arith,
    pb_readbyte_lem b rest n e left size,
    bit_and-0x80 b,
    add_group_lem w acc b bitpos low,
  )

  inner_byte :
      (g : ℕ)
      → g < 128
      → w ≤ 64
      → acc + g * 2 ^ bitpos < 2 ^ w
      → varint_loop (suc m) w bitpos acc (reading ((g + 128) ∷ rest) n e)
        ≡ varint_loop m w (bitpos + 7) (acc + g * 2 ^ bitpos) (reading rest (n - 1) e)
  unfolding varint_loop
  inner_byte g hg hw fits = ground (
    arith,
    pb_readbyte_lem (g + 128) rest n e left size,
    bit_and-0x80 (g + 128),
    add_group_lem w acc (g + 128) bitpos low,
    ap (λ (t : ℕ). t * 2 ^ bitpos) (group_of g hg),
    ap (λ (t : ℕ). varint_loop m w t (acc + g * 2 ^ bitpos) (reading rest (n - 1) e)) (wrap hw),
  )
    where
      group_of : (g : ℕ) → g < 128 → (g + 128) % 128 ≡ g
      group_of g h = omega arith

      wrap : w ≤ 64 → next_bitpos bitpos ≡ bitpos + 7
      wrap h = omega arith

-- The lowest group of `v` and the rest, both shifted by `s`.
split_group : (v s : ℕ) → v * 2 ^ s ≡ v % 128 * 2 ^ s + v / 128 * 2 ^ (s + 7)
split_group v s = omega (
  arith,
  ap (λ (t : ℕ). t * 2 ^ s) (div-add-mod v 128),
  ap (λ (t : ℕ). v / 128 * t) (pow_seven s),
)

next_low : (acc g s : ℕ) → acc < 2 ^ s → g < 128 → acc + g * 2 ^ s < 2 ^ (s + 7)
next_low acc g s ha hg = omega (arith, pow_seven s, below g hg)
  where
    below : (g : ℕ) → g < 128 → g * 2 ^ s ≤ 127 * 2 ^ s
    below g h = mul-le-mul_right (2 ^ s) (omega arith)

-- `v` is what is still to be read, and it counts from bit `bitpos` on.
varint_loop-groups :
    (k m w v acc bitpos n : ℕ) (rest : List ℕ) (e : Option ErrMsg)
    → acc < 2 ^ bitpos
    → bitpos + 7 * k < w
    → w ≤ 64
    → k ≤ m
    → v < 128 ^ suc k
    → acc + v * 2 ^ bitpos < 2 ^ w
    → length (groups k v) ≤ n
    → n < 2 ^ 64
    → varint_loop (suc m) w bitpos acc (reading (groups k v ++ rest) n e)
      ≡ ok (acc + v * 2 ^ bitpos) (reading rest (n - length (groups k v)) e)
unfolding groups
varint_loop-groups zero m w v acc bitpos n rest e low pos hw hm hv fits hn size =
    last_byte w acc bitpos n m rest e low (omega arith) hn size v (omega arith) fits
varint_loop-groups (suc k) zero w v acc bitpos n rest e low pos hw hm hv fits hn size =
    absurd (omega arith)
varint_loop-groups (suc k) (suc m) w v acc bitpos n rest e low pos hw hm hv fits hn size = ground (
  arith,
  last_byte w acc bitpos n (suc m) rest e low (omega arith) (ground arith) size v,
  inner_byte w acc bitpos n (suc m) (groups k (v / 128) ++ rest) e low (omega arith) (ground arith)
      size (v % 128) (omega arith) hw,
  split_group v bitpos,
  next_low acc (v % 128) bitpos low (omega arith),
  varint_loop-groups k m w (v / 128) (acc + v % 128 * 2 ^ bitpos) (bitpos + 7) (n - 1) rest e,
)

-- pb_decode_varint reads back the varint of any uint64_t and stops behind it.
pub pb_decode_varint-varint :
    (v : ℕ) (rest : List ℕ) (n : ℕ) (e : Option ErrMsg)
    → v < 2 ^ 64
    → length (varint v) ≤ n
    → n < 2 ^ 64
    → pb_decode_varint (reading (varint v ++ rest) n e)
      ≡ ok v (reading rest (n - length (varint v)) e)
unfolding pb_decode_varint varint
pb_decode_varint-varint v rest n e hv hn size =
    ground (arith, varint_loop-groups 9 10 64 v 0 0 n rest e)

groups-more : (k v : ℕ) → v < 128 ^ suc k → groups (suc k) v ≡ groups k v
unfolding groups
groups-more zero v h = ground arith
groups-more (suc k) v h = ground (arith, groups-more k (v / 128))

groups_short : (v : ℕ) → v < 2 ^ 32 → groups 9 v ≡ groups 4 v
groups_short v h =
    groups-more 8 v (omega arith)
    ∙ groups-more 7 v (omega arith)
    ∙ groups-more 6 v (omega arith)
    ∙ groups-more 5 v (omega arith)
    ∙ groups-more 4 v (omega arith)

varint32-groups :
    (v : ℕ) (rest : List ℕ) (n : ℕ) (e : Option ErrMsg)
    → v < 2 ^ 32
    → length (groups 4 v) ≤ n
    → n < 2 ^ 64
    → pb_decode_varint32 (reading (groups 4 v ++ rest) n e)
      ≡ ok v (reading rest (n - length (groups 4 v)) e)
unfolding pb_decode_varint32 groups
varint32-groups v rest n e hv hn size = elim (Bool-cases (ltb v 128)) [
  | inl short ↦
      rw short
        (rw (pb_readbyte_lem v rest n e (ground arith) size) (ground (arith, bit_and-0x80 v)))
  | inr long ↦ rw long (
      rw (pb_readbyte_lem (v % 128 + 128) (groups 3 (v / 128) ++ rest) n e (ground arith) size) (
        ground (
          arith,
          bit_and-0x80 (v % 128 + 128),
          bit_and-0x7f (v % 128 + 128),
          varint_loop-groups 3 4 32 (v / 128) (v % 128) 7 (n - 1) rest e,
        )))
]

-- pb_decode_varint32 reads back the varint of any uint32_t and stops behind it.
pub pb_decode_varint32-varint :
    (v : ℕ) (rest : List ℕ) (n : ℕ) (e : Option ErrMsg)
    → v < 2 ^ 32
    → length (varint v) ≤ n
    → n < 2 ^ 64
    → pb_decode_varint32 (reading (varint v ++ rest) n e)
      ≡ ok v (reading rest (n - length (varint v)) e)
unfolding varint
pb_decode_varint32-varint v rest n e hv = rw (groups_short v hv) (varint32-groups v rest n e hv)
