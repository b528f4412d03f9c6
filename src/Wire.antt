-- ===== src/Wire.antt =====
-- The wire format on the decoder's side (Pods/nanopb/pb_decode.c, "Helper functions"): varints,
-- tags, skipping, raw values and substreams.
mod Runs
pub mod Varint
pub mod Numbers
pub mod Safety
pub mod Substreams
pub mod Truncated
pub mod Progress
pub mod Raw
use breakpoint.Base.{
  ℕ, zero, suc, ◌+◌, ◌-◌, ◌*◌, ◌/◌, ◌%◌, ◌^◌, bit_and, bit_or, Bool, true, false, List, [], ◌∷◌,
  ◌++◌, ltb, leb, ◌==◌, if◌then◌else◌, get_or,
}
use breakpoint.Errors.{varint_overflow, invalid_wire_type, parent_stream_too_short}
use breakpoint.Outcome.{Outcome, ok, fail, fault, stuck, M, pure, ◌>>=◌, ◌>>◌}
use breakpoint.Input.{
  Istream, return_error, sub_size, pb_read, pb_read_null, pb_readbyte, pb_istream_from_buffer,
}

-- pb_wire_type_t. A wire type is any number of three bits; these four have a meaning.
abbrev pub pb_wt_varint : ℕ
pb_wt_varint = 0

abbrev pub pb_wt_64bit : ℕ
pb_wt_64bit = 1

abbrev pub pb_wt_string : ℕ
pb_wt_string = 2

abbrev pub pb_wt_32bit : ℕ
pb_wt_32bit = 5

-- `result |= (uint32_t)(byte & 0x7F) << bitpos`, at width w
abbrev pub add_group : ℕ → ℕ → ℕ → ℕ → ℕ
add_group w result byte bitpos = bit_or result (bit_and byte 0x7f * 2 ^ bitpos % 2 ^ w)

-- `bitpos` is a uint_fast8_t of 8 bits.
abbrev pub next_bitpos : ℕ → ℕ
next_bitpos bitpos = (bitpos + 7) % 256

-- The body of the two do-while loops, `w` bits wide. The first parameter counts rounds down.
unfoldable pub varint_loop : ℕ → ℕ → ℕ → ℕ → M Istream ℕ
varint_loop zero w bitpos result s = stuck
varint_loop (suc n) w bitpos result s =
    if leb w bitpos
    then return_error varint_overflow s
    else (do
      byte ← pb_readbyte
      if bit_and byte 0x80 == 0
          then pure (add_group w result byte bitpos)
          else varint_loop n w (next_bitpos bitpos) (add_group w result byte bitpos))
        s

-- At most 5 bytes: the round after the fourth of the loop finds `bitpos >= 32`.
-- The first byte is a pb_byte_t, of 8 bits.
unfoldable pub pb_decode_varint32 : M Istream ℕ
pb_decode_varint32 = do
  byte ← pb_readbyte
  if bit_and byte 0x80 == 0 then pure (byte % 256) else varint_loop 5 32 7 (bit_and byte 0x7f)

-- At most 10 bytes: the eleventh round finds `bitpos >= 64`.
unfoldable pub pb_decode_varint : M Istream ℕ
pb_decode_varint = varint_loop 11 64 0 0

-- Each round takes a byte of `bytes_left`.
unfoldable pub skip_varint_loop : ℕ → M Istream (Unit {0})
skip_varint_loop zero s = stuck
skip_varint_loop (suc n) s =
    (do
      bytes ← pb_read 1
      if bit_and (get_or bytes 0 0) 0x80 == 0 then pure tt else skip_varint_loop n)
      s

unfoldable pub pb_skip_varint : M Istream (Unit {0})
pb_skip_varint s = skip_varint_loop (suc s.bytes_left) s

unfoldable pub pb_skip_string : M Istream (Unit {0})
pb_skip_string = do length ← pb_decode_varint32; pb_read_null length

-- What pb_decode_tag returns, but for `false` with `*eof` unset: that is a failure.
pub data Tag : Type 0 where
  at_eof : Tag
  field_tag : ℕ → ℕ → Tag

-- `field_tag wire_type tag`
abbrev pub tag_of : Outcome Istream ℕ → Outcome Istream Tag
tag_of (ok temp s) =
    if temp == 0 then ok at_eof s else ok (field_tag (bit_and temp 7) (temp / 2 ^ 3)) s
tag_of (fail s) = if s.bytes_left == 0 then ok at_eof s else fail s
tag_of fault = fault
tag_of stuck = stuck

unfoldable pub pb_decode_tag : M Istream Tag
pb_decode_tag s = tag_of (pb_decode_varint32 s)

unfoldable pub pb_skip_field : ℕ → M Istream (Unit {0})
pb_skip_field wire_type =
    if wire_type == pb_wt_varint
    then pb_skip_varint
    else if wire_type == pb_wt_64bit
    then pb_read_null 8
    else if wire_type == pb_wt_string
    then pb_skip_string
    else if wire_type == pb_wt_32bit
    then pb_read_null 4
    else return_error invalid_wire_type

-- The first parameter is the room left: `*size > max_size` is seen when it is used up.
unfoldable pub raw_varint_loop : ℕ → List ℕ → M Istream (List ℕ)
raw_varint_loop zero buf s = fail s
raw_varint_loop (suc room) buf s =
    (do
      bytes ← pb_read 1
      if bit_and (get_or bytes 0 0) 0x80 == 0
          then pure (buf ++ bytes)
          else raw_varint_loop room (buf ++ bytes))
      s

-- The output is the buffer, whose length is `*size` on return.
unfoldable pub read_raw_value : ℕ → ℕ → M Istream (List ℕ)
read_raw_value wire_type max_size =
    if wire_type == pb_wt_varint
    then raw_varint_loop max_size []
    else if wire_type == pb_wt_64bit
    then pb_read 8
    else if wire_type == pb_wt_32bit
    then pb_read 4
    else return_error invalid_wire_type

-- What follows the size: `*substream = *stream`, the check, and the two new counts.
unfoldable pub split_off : ℕ → M Istream Istream
split_off size s =
    if ltb s.bytes_left size
    then return_error parent_stream_too_short s
    else ok (record s { bytes_left = size }) (record s { bytes_left = sub_size s.bytes_left size })

-- The output is `*substream`.
unfoldable pub pb_make_string_substream : M Istream Istream
pb_make_string_substream = do size ← pb_decode_varint32; split_off size

-- The parent takes over what the substream's reads left.
abbrev close_with : Istream → Outcome Istream (Unit {0}) → Outcome Istream (Unit {0})
close_with s (ok _ sub) = ok tt (record s { state = sub.state; errmsg = sub.errmsg })
close_with s (fail sub) = fail s
close_with s fault = fault
close_with s stuck = stuck

unfoldable pub pb_close_string_substream : Istream → M Istream (Unit {0})
pb_close_string_substream substream s = close_with s (
    if substream.bytes_left == 0
    then ok tt substream
    else pb_read_null substream.bytes_left substream)

-- An int64_t is its bit pattern: ~x at 64 bits.
abbrev pub complement64 : ℕ → ℕ
complement64 x = 2 ^ 64 - 1 - x

unfoldable pub pb_decode_svarint : M Istream ℕ
pb_decode_svarint = do
  value ← pb_decode_varint
  pure (if bit_and value 1 == 0 then value / 2 else complement64 (value / 2))

-- `bytes[0] << 0 | bytes[1] << 8 | …`
unfoldable pub pb_decode_fixed32 : M Istream ℕ
pb_decode_fixed32 = do
  bytes ← pb_read 4
  let byte = λ (i : ℕ). get_or bytes i 0
  pure (bit_or (bit_or (bit_or (byte 0) (byte 1 * 2 ^ 8)) (byte 2 * 2 ^ 16)) (byte 3 * 2 ^ 24))

unfoldable pub pb_decode_fixed64 : M Istream ℕ
pb_decode_fixed64 = do
  bytes ← pb_read 8
  let byte = λ (i : ℕ). get_or bytes i 0
  let low = bit_or (bit_or (bit_or (byte 0) (byte 1 * 2 ^ 8)) (byte 2 * 2 ^ 16)) (byte 3 * 2 ^ 24)
  pure (
      bit_or (bit_or (bit_or (bit_or low (byte 4 * 2 ^ 32)) (byte 5 * 2 ^ 40)) (byte 6 * 2 ^ 48))
        (byte 7 * 2 ^ 56))
