-- ===== src/RoundTrip/Fixed.antt =====
-- pb_enc_fixed32 and pb_enc_fixed64 of pb_encode.c against pb_dec_fixed32 and pb_dec_fixed64 of
-- pb_decode.c, from one message structure to another.
use breakpoint.Base.{
  ℕ, ◌-◌, ◌^◌, ◌≤◌, ◌<◌, ◌≡◌, refl, sym, ap, ◌∙◌, Option, List, ◌++◌, length, arith,
}
use breakpoint.Errors.{ErrMsg}
use breakpoint.Outcome.{ok}
use breakpoint.Input.Reading.{reading}
use breakpoint.Output.{pb_ostream_from_buffer, pb_encode_fixed32, pb_encode_fixed64}
use breakpoint.Wire.{pb_decode_fixed32, pb_decode_fixed64}
use breakpoint.Memory.{Memory, load, store}
use breakpoint.Descriptor.{Field}
use breakpoint.Decoder.{DecState, on_input, with_mem}
use breakpoint.Decoder.Values.{pb_dec_fixed32, pb_dec_fixed64}
use breakpoint.Encoder.{EncState}
use breakpoint.Encoder.Values.{pb_enc_fixed32, pb_enc_fixed64}
use breakpoint.RoundTrip.Widths.{IsBytes, load-bound}
use breakpoint.RoundTrip.Values.{stream_of, stream_of-on_output}
use breakpoint.RoundTrip.{pb_decode_fixed32-pb_encode_fixed32, pb_decode_fixed64-pb_encode_fixed64}

pub dec_fixed32 :
    (f : Field) (dest v : ℕ) (s t : DecState)
    → on_input pb_decode_fixed32 s ≡ ok v t
    → pb_dec_fixed32 f dest s ≡ ok tt (record t { mem = store 4 dest v t.mem })
unfolding pb_dec_fixed32
dec_fixed32 f dest v s t r = rw r refl

pub dec_fixed64 :
    (f : Field) (dest v : ℕ) (s t : DecState)
    → on_input pb_decode_fixed64 s ≡ ok v t
    → pb_dec_fixed64 f dest s ≡ ok tt (record t { mem = store 8 dest v t.mem })
unfolding pb_dec_fixed64
dec_fixed64 f dest v s t r = rw r refl

-- A field at `src`, in a memory of bytes, that an encoder wrote to a buffer of `cap` bytes, leaving
-- `t`; a decoder reads the bytes written, with `rest` behind them, and stores to `dest`.
module _ (f : Field) (src dest cap n : ℕ) (m m' : Memory) (t : EncState) (rest : List ℕ)
    (e : Option ErrMsg) (bytes : IsBytes m) (fits : cap < 2 ^ 64)
    (enough : length t.output.state.written ≤ n) (size : n < 2 ^ 64) where
  -- What pb_enc_fixed32 wrote to a buffer for four bytes at `src`, in a memory of bytes, is read by
  -- pb_dec_fixed32: it succeeds, stores the same number at `dest`, and stops behind the bytes written,
  -- whatever follows them.
  pub pb_dec_fixed32-pb_enc_fixed32 :
      pb_enc_fixed32 f src (record { output = pb_ostream_from_buffer cap; mem = m }) ≡ ok tt t
      → pb_dec_fixed32 f dest
          (record { input = reading (t.output.state.written ++ rest) n e; mem = m' })
        ≡ ok tt (record {
          input = reading rest (n - length t.output.state.written) e;
          mem = store 4 dest (load 4 src m) m';
        })
  unfolding pb_enc_fixed32
  pb_dec_fixed32-pb_enc_fixed32 h =
      let v = load 4 src m in
      let wrote : pb_encode_fixed32 v (pb_ostream_from_buffer cap) ≡ ok tt t.output =
        sym (
          stream_of-on_output (pb_encode_fixed32 v)
            (record { output = pb_ostream_from_buffer cap; mem = m }))
        ∙ ap stream_of h in
      dec_fixed32 f dest v _ _ (
        ap (with_mem m') (
          pb_decode_fixed32-pb_encode_fixed32 cap n t.output rest e fits enough size v
            (omega (arith, load-bound 4 src m bytes)) wrote))

  -- What pb_enc_fixed64 wrote to a buffer for eight bytes at `src`, in a memory of bytes, is read by
  -- pb_dec_fixed64: it succeeds, stores the same number at `dest`, and stops behind the bytes written,
  -- whatever follows them.
  pub pb_dec_fixed64-pb_enc_fixed64 :
      pb_enc_fixed64 f src (record { output = pb_ostream_from_buffer cap; mem = m }) ≡ ok tt t
      → pb_dec_fixed64 f dest
          (record { input = reading (t.output.state.written ++ rest) n e; mem = m' })
        ≡ ok tt (record {
          input = reading rest (n - length t.output.state.written) e;
          mem = store 8 dest (load 8 src m) m';
        })
  unfolding pb_enc_fixed64
  pb_dec_fixed64-pb_enc_fixed64 h =
      let v = load 8 src m in
      let wrote : pb_encode_fixed64 v (pb_ostream_from_buffer cap) ≡ ok tt t.output =
        sym (
          stream_of-on_output (pb_encode_fixed64 v)
            (record { output = pb_ostream_from_buffer cap; mem = m }))
        ∙ ap stream_of h in
      dec_fixed64 f dest v _ _ (
        ap (with_mem m') (
          pb_decode_fixed64-pb_encode_fixed64 cap n t.output rest e fits enough size v
            (omega (arith, load-bound 8 src m bytes)) wrote))
