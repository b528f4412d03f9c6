-- ===== src/Wire/Numbers.antt =====
-- Zig-zag numbers, fixed-width numbers and tags: the decoders read back what the encoders write.
use breakpoint.Base.{
  ℕ, ◌+◌, ◌-◌, ◌*◌, ◌/◌, ◌%◌, ◌^◌, ◌≤◌, ◌<◌, bit_and, bit_or, ◌≡◌, ap, ◌∙◌, Option, List, ◌++◌,
  length, ◌==◌, if◌then◌else◌, arith,
}
use breakpoint.Base.Bits.{bit_and-1, bit_and-7, bit_or-shift}
use breakpoint.Errors.{ErrMsg}
use breakpoint.Outcome.{ok}
use breakpoint.Input.Reading.{reading, pb_read_lem}
use breakpoint.Output.{zigzag}
use breakpoint.Output.Encoding.{varint}
use breakpoint.Base.Bytes.{little_endian}
use breakpoint.Wire.{
  pb_decode_svarint, pb_decode_fixed32, pb_decode_fixed64, pb_decode_tag, field_tag, complement64,
}
use breakpoint.Wire.Varint.{pb_decode_varint-varint, pb_decode_varint32-varint}

pub zigzag-lt : (v : ℕ) → v < 2 ^ 64 → zigzag v < 2 ^ 64
unfolding zigzag
zigzag-lt v h = ground arith

unzigzag :
    (v : ℕ)
    → v < 2 ^ 64
    → (if bit_and (zigzag v) 1 == 0 then zigzag v / 2 else complement64 (zigzag v / 2)) ≡ v
unfolding zigzag
unzigzag v h = rw bit_and-1 (ground arith)

-- pb_decode_svarint undoes the zig-zag of pb_encode_svarint, for any bit pattern of an int64_t.
pub pb_decode_svarint-zigzag :
    (v : ℕ) (rest : List ℕ) (n : ℕ) (e : Option ErrMsg)
    → v < 2 ^ 64
    → length (varint (zigzag v)) ≤ n
    → n < 2 ^ 64
    → pb_decode_svarint (reading (varint (zigzag v) ++ rest) n e)
      ≡ ok v (reading rest (n - length (varint (zigzag v))) e)
unfolding pb_decode_svarint
pb_decode_svarint-zigzag v rest n e hv hn size =
    rw (pb_decode_varint-varint (zigzag v) rest n e (zigzag-lt v hv) hn size) (rw (unzigzag v hv))

-- Four bytes joined by `|` are their sum by place.
or_four :
    (a b c d : ℕ)
    → a < 256
    → b < 256
    → c < 256
    → bit_or (bit_or (bit_or a (b * 2 ^ 8)) (c * 2 ^ 16)) (d * 2 ^ 24)
      ≡ a + b * 2 ^ 8 + c * 2 ^ 16 + d * 2 ^ 24
or_four a b c d ha hb hc =
    ap (λ t. bit_or (bit_or t (c * 2 ^ 16)) (d * 2 ^ 24)) (bit_or-shift 8 a b ha)
    ∙ ap (λ t. bit_or t (d * 2 ^ 24)) (bit_or-shift 16 (a + b * 2 ^ 8) c (omega arith))
    ∙ bit_or-shift 24 (a + b * 2 ^ 8 + c * 2 ^ 16) d (omega arith)

or_eight :
    (low a b c d : ℕ)
    → low < 2 ^ 32
    → a < 256
    → b < 256
    → c < 256
    → bit_or (bit_or (bit_or (bit_or low (a * 2 ^ 32)) (b * 2 ^ 40)) (c * 2 ^ 48)) (d * 2 ^ 56)
      ≡ low + a * 2 ^ 32 + b * 2 ^ 40 + c * 2 ^ 48 + d * 2 ^ 56
or_eight low a b c d hl ha hb hc =
    ap (λ t. bit_or (bit_or (bit_or t (b * 2 ^ 40)) (c * 2 ^ 48)) (d * 2 ^ 56))
      (bit_or-shift 32 low a hl)
    ∙ ap (λ t. bit_or (bit_or t (c * 2 ^ 48)) (d * 2 ^ 56))
        (bit_or-shift 40 (low + a * 2 ^ 32) b (omega arith))
    ∙ ap (λ t. bit_or t (d * 2 ^ 56))
        (bit_or-shift 48 (low + a * 2 ^ 32 + b * 2 ^ 40) c (omega arith))
    ∙ bit_or-shift 56 (low + a * 2 ^ 32 + b * 2 ^ 40 + c * 2 ^ 48) d (omega arith)

-- The four bytes of a uint32_t, lowest first, are read back by pb_decode_fixed32.
pub pb_decode_fixed32-little_endian :
    (v : ℕ) (rest : List ℕ) (n : ℕ) (e : Option ErrMsg)
    → v < 2 ^ 32
    → 4 ≤ n
    → n < 2 ^ 64
    → pb_decode_fixed32 (reading (little_endian 4 v ++ rest) n e) ≡ ok v (reading rest (n - 4) e)
unfolding pb_decode_fixed32 little_endian
pb_decode_fixed32-little_endian v rest n e hv hn size =
    rw (pb_read_lem (little_endian 4 v) rest n e hn size) (
      ap (λ t. ok t (reading rest (n - 4) e))
        (or_four (v % 256) (v / 256 % 256) (v / 256 / 256 % 256) (v / 256 / 256 / 256 % 256)
            (omega arith) (omega arith) (omega arith)
          ∙ omega arith))

four_digits :
    (v : ℕ)
    → v % 256
        + v / 256 % 256 * 2 ^ 8
        + v / 256 / 256 % 256 * 2 ^ 16
        + v / 256 / 256 / 256 % 256 * 2 ^ 24
      ≡ v % 2 ^ 32
four_digits v = omega arith

joined_four :
    (v : ℕ)
    → bit_or
        (bit_or (bit_or (v % 256) (v / 256 % 256 * 2 ^ 8)) (v / 256 / 256 % 256 * 2 ^ 16))
        (v / 256 / 256 / 256 % 256 * 2 ^ 24)
      ≡ v % 2 ^ 32
joined_four v =
    or_four (v % 256) (v / 256 % 256) (v / 256 / 256 % 256) (v / 256 / 256 / 256 % 256)
      (omega arith) (omega arith) (omega arith)
    ∙ four_digits v

abbrev quarter : ℕ → ℕ
quarter v = v / 256 / 256 / 256 / 256

joined_eight :
    (v : ℕ)
    → v < 2 ^ 64
    → bit_or
        (bit_or
          (bit_or
            (bit_or
              (bit_or
                (bit_or (bit_or (v % 256) (v / 256 % 256 * 2 ^ 8)) (v / 256 / 256 % 256 * 2 ^ 16))
                (v / 256 / 256 / 256 % 256 * 2 ^ 24))
              (quarter v % 256 * 2 ^ 32))
            (quarter v / 256 % 256 * 2 ^ 40))
          (quarter v / 256 / 256 % 256 * 2 ^ 48))
        (quarter v / 256 / 256 / 256 % 256 * 2 ^ 56)
      ≡ v
joined_eight v hv =
    ap
      (λ t.
        bit_or
          (bit_or (bit_or (bit_or t (quarter v % 256 * 2 ^ 32)) (quarter v / 256 % 256 * 2 ^ 40))
            (quarter v / 256 / 256 % 256 * 2 ^ 48))
          (quarter v / 256 / 256 / 256 % 256 * 2 ^ 56))
      (joined_four v)
    ∙ or_eight (v % 2 ^ 32) (quarter v % 256) (quarter v / 256 % 256) (quarter v / 256 / 256 % 256)
        (quarter v / 256 / 256 / 256 % 256) (omega arith) (omega arith) (omega arith) (omega arith)
    ∙ omega (arith, four_digits (quarter v))

-- The eight bytes of a uint64_t, lowest first, are read back by pb_decode_fixed64.
pub pb_decode_fixed64-little_endian :
    (v : ℕ) (rest : List ℕ) (n : ℕ) (e : Option ErrMsg)
    → v < 2 ^ 64
    → 8 ≤ n
    → n < 2 ^ 64
    → pb_decode_fixed64 (reading (little_endian 8 v ++ rest) n e) ≡ ok v (reading rest (n - 8) e)
unfolding pb_decode_fixed64 little_endian
pb_decode_fixed64-little_endian v rest n e hv hn size =
    rw (pb_read_lem (little_endian 8 v) rest n e hn size)
      (ap (λ t. ok t (reading rest (n - 8) e)) (joined_eight v hv))

-- pb_decode_tag splits what pb_encode_tag joined: a tag from 1 on, and a wire type of three bits.
pub pb_decode_tag-varint :
    (wire_type tag : ℕ) (rest : List ℕ) (n : ℕ) (e : Option ErrMsg)
    → wire_type < 8
    → 0 < tag
    → tag < 2 ^ 29
    → length (varint (tag * 8 + wire_type)) ≤ n
    → n < 2 ^ 64
    → pb_decode_tag (reading (varint (tag * 8 + wire_type) ++ rest) n e)
      ≡ ok (field_tag wire_type tag) (reading rest (n - length (varint (tag * 8 + wire_type))) e)
unfolding pb_decode_tag
pb_decode_tag-varint wire_type tag rest n e hw pos ht hn size =
    rw (pb_decode_varint32-varint (tag * 8 + wire_type) rest n e (omega arith) hn size)
      (ground (arith, bit_and-7 (tag * 8 + wire_type)))
