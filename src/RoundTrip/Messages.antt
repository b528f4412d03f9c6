-- ===== src/RoundTrip/Messages.antt =====
-- What pb_encode and pb_encode_delimited of pb_encode.c wrote, pb_decode and pb_decode_delimited of
-- pb_decode.c read back, from one message structure to another.
use breakpoint.Base.{
  ℕ, ◌+◌, ◌-◌, ◌^◌, ◌≤◌, ◌<◌, ◌≡◌, sym, ap, ◌∙◌, Option, List, ◌++◌, length, length-append, arith,
}
use mathlib.Core.Path.{subst}
use breakpoint.Errors.{ErrMsg}
use breakpoint.Outcome.{ok, continue}
use breakpoint.Input.Reading.{reading}
use breakpoint.Output.{pb_ostream_from_buffer}
use breakpoint.Output.Encoding.{varint, length-varint-le}
use breakpoint.Wire.{pb_close_string_substream}
use breakpoint.Memory.{Memory}
use breakpoint.Descriptor.{Field}
use breakpoint.Decoder.{with_mem}
use breakpoint.Decoder.{Env as DecoderEnv}
use breakpoint.Decoder.Fields.{in_substream, close_after}
use breakpoint.Decoder.Messages.{pb_decode, pb_decode_delimited}
use breakpoint.Encoder.{EncState}
use breakpoint.Encoder.{Env as EncoderEnv}
use breakpoint.Encoder.Messages.{pb_encode, pb_encode_delimited}
use breakpoint.Encoder.Sized.{on}
use breakpoint.RoundTrip.Widths.{IsBytes}
use breakpoint.Format.{message_bytes, delimited}
use breakpoint.Format.Plain.{IsPlain}
use breakpoint.Format.Agrees.{Agrees, IsFilled, OnlyIn}
use breakpoint.Format.Cleared.{over}
use breakpoint.Format.Encoded.{Emits-written}
use breakpoint.Format.Emits.Messages.{pb_encode-Emits}
use breakpoint.Format.Emits.Substreams.{Emits-submessage}
use breakpoint.Format.Decoded.{pb_decode-message_bytes}
use breakpoint.Format.Reads.{pb_make_string_substream-delimited}

module _ (enc : EncoderEnv) (dec : DecoderEnv) (n : ℕ) (fields : List Field) (size src dest cap : ℕ)
    (m0 m : Memory) (t : EncState) (rest : List ℕ) (e : Option ErrMsg)
    (linked : dec.fields_at ≡ enc.fields_at) (bytes : IsBytes m0)
    (plain : IsPlain enc.fields_at n fields size) (filled : IsFilled enc.fields_at n fields src m0)
    (there : 0 < src) (fits : cap < 2 ^ 64)
    (short : length (message_bytes enc.fields_at n fields src m0) < 2 ^ 32) where
  abbrev message : List ℕ
  message = message_bytes enc.fields_at n fields src m0

  message_read :
      (m' : Memory) × (pb_decode dec n fields dest
          (over (reading (message ++ rest) (length message) e) m)
        ≡ ok tt (over (reading rest 0 e) m'))
      × OnlyIn dest (dest + size) m m'
      × Agrees dec.fields_at n fields src m0 dest m'
  message_read = rw (sym linked) (
      pb_decode-message_bytes dec n fields size src dest m0 m rest e bytes
        (rw (sym linked) at plain) (rw (sym linked) at filled)
        (subst (λ at. length (message_bytes at n fields src m0) < 2 ^ 32) (sym linked) short))

  -- What pb_encode wrote to a buffer of fewer than 2^64 bytes for a message whose fields are
  -- static, required or optional, and hold numbers, strings, bytes of a fixed length or such
  -- messages (IsPlain: at most `n` levels of messages, distinct tags from 1 to 2^29 - 1, fewer
  -- than 32 required fields, numbers of the widths that the decoder knows, structures laid out
  -- in the order of the fields) and whose strings end within their fields, at an address that
  -- is not NULL in a memory of bytes, of fewer than 2^32 bytes, pb_decode reads back if it is
  -- linked with the same descriptors: it returns true, stops behind the bytes written, whatever
  -- follows them, writes only to the `size` bytes of its structure, and leaves there the same
  -- optional fields present, with the same numbers, strings, bytes and messages.
  pub pb_decode-pb_encode :
      pb_encode enc n fields src (on m0 (pb_ostream_from_buffer cap)) ≡ ok tt t
      → (m' : Memory) × (pb_decode dec n fields dest
            (over (reading (t.output.state.written ++ rest) (length t.output.state.written) e) m)
          ≡ ok tt (over (reading rest 0 e) m'))
        × OnlyIn dest (dest + size) m m'
        × Agrees dec.fields_at n fields src m0 dest m'
  pb_decode-pb_encode run =
      let wrote =
        Emits-written m0 _ message (pb_encode-Emits enc m0 bytes n fields src size plain there) cap
          t fits (omega arith) run in
      rw wrote message_read

  -- What pb_encode_delimited wrote to a buffer of fewer than 2^64 bytes for a message whose
  -- fields are static, required or optional, and hold numbers, strings, bytes of a fixed length
  -- or such messages (IsPlain: at most `n` levels of messages, distinct tags from 1 to 2^29 -
  -- 1, fewer than 32 required fields, numbers of the widths that the decoder knows, structures
  -- laid out in the order of the fields) and whose strings end within their fields, at an
  -- address that is not NULL in a memory of bytes, of fewer than 2^32 bytes,
  -- pb_decode_delimited reads back from any stream with at least the bytes written and fewer
  -- than 2^64, if it is linked with the same descriptors: it returns true, stops behind the
  -- bytes written, writes only to the `size` bytes of its structure, and leaves there the same
  -- optional fields present, with the same numbers, strings, bytes and messages.
  pub pb_decode_delimited-pb_encode_delimited :
      (k : ℕ)
      → k < 2 ^ 64
      → length t.output.state.written ≤ k
      → pb_encode_delimited enc n fields src (on m0 (pb_ostream_from_buffer cap)) ≡ ok tt t
      → (m' : Memory) × (pb_decode_delimited dec n fields dest
            (over (reading (t.output.state.written ++ rest) k e) m)
          ≡ ok tt (over (reading rest (k - length t.output.state.written) e) m'))
        × OnlyIn dest (dest + size) m m'
        × Agrees dec.fields_at n fields src m0 dest m'
  unfolding pb_encode_delimited pb_decode_delimited pb_close_string_substream
  pb_decode_delimited-pb_encode_delimited k small enough run =
      let head = varint (length message) in
      let total = length-append head message in
      let wrote =
        Emits-written m0 _ (delimited message)
          (Emits-submessage m0 _ message
            (pb_encode-Emits enc m0 bytes n fields src size plain there))
          cap t fits (omega (arith, total, length-varint-le (length message))) run in
      let within : length (delimited message) ≤ k = subst (λ bs. length bs ≤ k) wrote enough in
      let left : k - length head - length message ≡ k - length (delimited message) =
        omega (arith, total) in
      let (m', read, only, same) = message_read in
      rw wrote (
        m',
        ap (λ o. continue o (λ sub. in_substream sub (pb_decode dec n fields dest)))
              (ap (with_mem m)
                (pb_make_string_substream-delimited message rest k e short within small))
            ∙ ap (close_after (reading (message ++ rest) (k - length head - length message) e)) read
            ∙ ap (λ j. ok tt (over (reading rest j e) m')) left,
        only,
        same,
      )
