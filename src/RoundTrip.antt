-- ===== src/RoundTrip.antt =====
-- What a number encoder of pb_encode.c writes into a buffer, the decoder of pb_decode.c reads back.
mod Runs
pub mod Widths
pub mod Values
pub mod Fixed
pub mod Messages
use breakpoint.Base.{
  ℕ, zero, suc, ◌+◌, ◌-◌, ◌*◌, ◌^◌, ◌≤◌, ◌<◌, ◌≡◌, refl, sym, ap, ◌∙◌, Option, List, [], ◌∷◌, ◌++◌,
  length, arith,
}
use breakpoint.Base.Bytes.{little_endian}
use breakpoint.Errors.{ErrMsg}
use breakpoint.Outcome.{ok, M}
use breakpoint.Input.Reading.{reading}
use breakpoint.Output.{
  Ostream, pb_ostream_from_buffer, pb_write, pb_encode_varint, pb_encode_svarint, zigzag,
  pb_encode_tag, pb_encode_fixed32, pb_encode_fixed64,
}
use breakpoint.Output.Encoding.{
  varint, length-varint, pb_encode_varint_lem, pb_encode_tag_lem, pb_encode_fixed32_lem,
  pb_encode_fixed64_lem,
}
use breakpoint.Output.Writing.{pb_write_fresh}
use breakpoint.Wire.{
  field_tag, pb_decode_varint, pb_decode_varint32, pb_decode_svarint, pb_decode_fixed32,
  pb_decode_fixed64, pb_decode_tag,
}
use breakpoint.Wire.Varint.{pb_decode_varint-varint, pb_decode_varint32-varint}
use breakpoint.Wire.Numbers.{
  zigzag-lt, pb_decode_svarint-zigzag, pb_decode_fixed32-little_endian,
  pb_decode_fixed64-little_endian, pb_decode_tag-varint,
}

-- A buffer of `cap` bytes in which a write left the stream `t`, and a reader that has `n` bytes, the
-- written ones first.
module _ (cap n : ℕ) (t : Ostream) (rest : List ℕ) (e : Option ErrMsg) (fits : cap < 2 ^ 64)
    (enough : length t.state.written ≤ n) (size : n < 2 ^ 64) where
  -- Every uint64_t that pb_encode_varint wrote to a buffer is what pb_decode_varint reads from the bytes
  -- written, whatever follows them, and it stops behind them.
  pub pb_decode_varint-pb_encode_varint :
      (v : ℕ)
      → v < 2 ^ 64
      → pb_encode_varint v (pb_ostream_from_buffer cap) ≡ ok tt t
      → pb_decode_varint (reading (t.state.written ++ rest) n e)
        ≡ ok v (reading rest (n - length t.state.written) e)
  pb_decode_varint-pb_encode_varint v hv w =
      let bytes =
        pb_write_fresh (varint v) cap t fits (length-varint v)
          (sym (pb_encode_varint_lem v _ hv) ∙ w) in
      rw bytes (pb_decode_varint-varint v rest n e hv (rw bytes at enough) size)

  -- Every uint32_t that pb_encode_varint wrote to a buffer is what pb_decode_varint32 reads from the
  -- bytes written, whatever follows them, and it stops behind them.
  pub pb_decode_varint32-pb_encode_varint :
      (v : ℕ)
      → v < 2 ^ 32
      → pb_encode_varint v (pb_ostream_from_buffer cap) ≡ ok tt t
      → pb_decode_varint32 (reading (t.state.written ++ rest) n e)
        ≡ ok v (reading rest (n - length t.state.written) e)
  pb_decode_varint32-pb_encode_varint v hv w =
      let bytes =
        pb_write_fresh (varint v) cap t fits (length-varint v)
          (sym (pb_encode_varint_lem v (pb_ostream_from_buffer cap) (omega arith)) ∙ w) in
      rw bytes (pb_decode_varint32-varint v rest n e hv (rw bytes at enough) size)

  -- Every int64_t, as a bit pattern, that pb_encode_svarint wrote to a buffer is what pb_decode_svarint
  -- reads from the bytes written, whatever follows them, and it stops behind them.
  pub pb_decode_svarint-pb_encode_svarint :
      (v : ℕ)
      → v < 2 ^ 64
      → pb_encode_svarint v (pb_ostream_from_buffer cap) ≡ ok tt t
      → pb_decode_svarint (reading (t.state.written ++ rest) n e)
        ≡ ok v (reading rest (n - length t.state.written) e)
  unfolding pb_encode_svarint
  pb_decode_svarint-pb_encode_svarint v hv w =
      let bytes =
        pb_write_fresh (varint (zigzag v)) cap t fits (length-varint (zigzag v)) (
          sym (pb_encode_varint_lem (zigzag v) (pb_ostream_from_buffer cap) (zigzag-lt v hv))
          ∙ w) in
      rw bytes (pb_decode_svarint-zigzag v rest n e hv (rw bytes at enough) size)

  -- Every uint32_t that pb_encode_fixed32 wrote to a buffer is what pb_decode_fixed32 reads from the
  -- bytes written, whatever follows them, and it stops behind them.
  pub pb_decode_fixed32-pb_encode_fixed32 :
      (v : ℕ)
      → v < 2 ^ 32
      → pb_encode_fixed32 v (pb_ostream_from_buffer cap) ≡ ok tt t
      → pb_decode_fixed32 (reading (t.state.written ++ rest) n e)
        ≡ ok v (reading rest (n - length t.state.written) e)
  unfolding little_endian
  pb_decode_fixed32-pb_encode_fixed32 v hv w =
      let bytes =
        pb_write_fresh (little_endian 4 v) cap t fits (omega arith)
          (sym (ap (λ m. m (pb_ostream_from_buffer cap)) (pb_encode_fixed32_lem v)) ∙ w) in
      rw bytes (pb_decode_fixed32-little_endian v rest n e hv (rw bytes at enough) size)

  -- Every uint64_t that pb_encode_fixed64 wrote to a buffer is what pb_decode_fixed64 reads from the
  -- bytes written, whatever follows them, and it stops behind them.
  pub pb_decode_fixed64-pb_encode_fixed64 :
      (v : ℕ)
      → v < 2 ^ 64
      → pb_encode_fixed64 v (pb_ostream_from_buffer cap) ≡ ok tt t
      → pb_decode_fixed64 (reading (t.state.written ++ rest) n e)
        ≡ ok v (reading rest (n - length t.state.written) e)
  unfolding little_endian
  pb_decode_fixed64-pb_encode_fixed64 v hv w =
      let bytes =
        pb_write_fresh (little_endian 8 v) cap t fits (omega arith)
          (sym (ap (λ m. m (pb_ostream_from_buffer cap)) (pb_encode_fixed64_lem v)) ∙ w) in
      rw bytes (pb_decode_fixed64-little_endian v rest n e hv (rw bytes at enough) size)

  -- A tag from 1 to 2^29 - 1 and a wire type of three bits that pb_encode_tag wrote to a buffer are what
  -- pb_decode_tag reads from the bytes written, whatever follows them, and it stops behind them.
  pub pb_decode_tag-pb_encode_tag :
      (wire_type tag : ℕ)
      → wire_type < 8
      → 0 < tag
      → tag < 2 ^ 29
      → pb_encode_tag wire_type tag (pb_ostream_from_buffer cap) ≡ ok tt t
      → pb_decode_tag (reading (t.state.written ++ rest) n e)
        ≡ ok (field_tag wire_type tag) (reading rest (n - length t.state.written) e)
  pb_decode_tag-pb_encode_tag wire_type tag hw pos ht w =
      let bytes =
        pb_write_fresh (varint (tag * 8 + wire_type)) cap t fits
          (length-varint (tag * 8 + wire_type))
          (sym (pb_encode_tag_lem wire_type tag (pb_ostream_from_buffer cap) hw (omega arith))
            ∙ w) in
      rw bytes (pb_decode_tag-varint wire_type tag rest n e hw pos ht (rw bytes at enough) size)
