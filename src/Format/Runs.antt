-- ===== src/Format/Runs.antt =====
-- The sample message, written and read back.
use breakpoint.Base.{
  ℕ, ◌+◌, ◌-◌, ◌≤◌, ◌≡◌, refl, none, List, [], ◌∷◌, ◌++◌, length, length-append, arith,
}
use breakpoint.Outcome.{ok}
use breakpoint.Input.Reading.{reading}
use breakpoint.Output.{pb_ostream_from_buffer}
use breakpoint.Output.Encoding.{varint, length-varint-le}
use breakpoint.Memory.{Memory}
use breakpoint.Decoder.Messages.{pb_decode, pb_decode_delimited}
use breakpoint.Encoder.Messages.{pb_encode, pb_encode_delimited, pb_get_encoded_size}
use breakpoint.Encoder.Sized.{on}
use breakpoint.RoundTrip.Messages.{pb_decode-pb_encode, pb_decode_delimited-pb_encode_delimited}
use breakpoint.Format.{message_bytes, delimited}
use breakpoint.Format.Agrees.{Agrees, OnlyIn}
use breakpoint.Format.Cleared.{over}
use breakpoint.Format.Emits.{Emits, Fails}
use breakpoint.Format.Emits.Messages.{pb_encode-Emits}
use breakpoint.Format.Emits.Substreams.{Emits-submessage}
use breakpoint.Format.Encoded.{
  holding, Emits-fits, pb_encode-message_bytes, pb_encode-full, pb_get_encoded_size-message_bytes,
}
use breakpoint.Format.Decoded.{pb_decode-message_bytes}
use breakpoint.Format.Samples.{
  source-IsBytes, outer-IsFilled, outer_fields, fields_at, encoding, decoding, outer-IsPlain,
  source, zeros, sample_length,
}

abbrev sample : List ℕ
sample = message_bytes fields_at 2 outer_fields 1000 source

encodes_sample :
    pb_encode encoding 2 outer_fields 1000 (on source (pb_ostream_from_buffer 64))
    ≡ ok tt (on source (holding (message_bytes fields_at 2 outer_fields 1000 source) 64))
encodes_sample =
    pb_encode-message_bytes encoding 2 outer_fields 26 1000 source source-IsBytes outer-IsPlain
      (omega arith) 64 (omega (arith, sample_length)) (omega arith)

stops_sample :
    Fails (pb_encode encoding 2 outer_fields 1000 (on source (pb_ostream_from_buffer 16)))
stops_sample =
    pb_encode-full encoding 2 outer_fields 26 1000 source source-IsBytes outer-IsPlain (omega arith)
      16 (omega (arith, sample_length)) (omega (arith, sample_length))

measures_sample :
    pb_get_encoded_size encoding 2 outer_fields 1000 (on source (pb_ostream_from_buffer 4))
    ≡ ok
        (length (message_bytes fields_at 2 outer_fields 1000 source))
        (on source (pb_ostream_from_buffer 4))
measures_sample =
    pb_get_encoded_size-message_bytes encoding 2 outer_fields 26 1000 source source-IsBytes
      outer-IsPlain (omega arith) (pb_ostream_from_buffer 4) (omega (arith, sample_length))

decodes_sample :
    (m' : Memory) × (pb_decode decoding 2 outer_fields 2000
        (over (reading (sample ++ (7 ∷ [])) (length sample) none) zeros)
      ≡ ok tt (over (reading (7 ∷ []) 0 none) m'))
    × OnlyIn 2000 (2000 + 26) zeros m'
    × Agrees fields_at 2 outer_fields 1000 source 2000 m'
decodes_sample =
    pb_decode-message_bytes decoding 2 outer_fields 26 1000 2000 source zeros (7 ∷ []) none
      source-IsBytes outer-IsPlain outer-IsFilled (omega (arith, sample_length))

-- The runs of the encoder.
sample-Emits : Emits source (pb_encode encoding 2 outer_fields 1000) sample
sample-Emits =
    pb_encode-Emits encoding source source-IsBytes 2 outer_fields 1000 26 outer-IsPlain
      (omega arith)

encodes_whole :
    pb_encode encoding 2 outer_fields 1000 (on source (pb_ostream_from_buffer 64))
    ≡ ok tt (on source (holding sample 64))
encodes_whole =
    Emits-fits source _ sample sample-Emits 64 (omega (arith, sample_length)) (omega arith)

length-delimited : length (delimited sample) ≤ 32
length-delimited = omega (
  arith,
  sample_length,
  length-append (varint (length sample)) sample,
  length-varint-le (length sample),
)

encodes_delimited :
    pb_encode_delimited encoding 2 outer_fields 1000 (on source (pb_ostream_from_buffer 64))
    ≡ ok tt (on source (holding (delimited sample) 64))
unfolding pb_encode_delimited
encodes_delimited =
    Emits-fits source _ (delimited sample) (Emits-submessage source _ sample sample-Emits) 64
      (omega (arith, length-delimited)) (omega arith)

returns_sample :
    (m' : Memory) × (pb_decode decoding 2 outer_fields 2000
        (over (reading (sample ++ (7 ∷ [])) (length sample) none) zeros)
      ≡ ok tt (over (reading (7 ∷ []) 0 none) m'))
    × OnlyIn 2000 (2000 + 26) zeros m'
    × Agrees fields_at 2 outer_fields 1000 source 2000 m'
returns_sample =
    pb_decode-pb_encode encoding decoding 2 outer_fields 26 1000 2000 64 source zeros
      (on source (holding sample 64)) (7 ∷ []) none refl source-IsBytes outer-IsPlain outer-IsFilled
      (omega arith) (omega arith) (omega (arith, sample_length)) encodes_whole

returns_delimited :
    (m' : Memory) × (pb_decode_delimited decoding 2 outer_fields 2000
        (over (reading (delimited sample ++ (7 ∷ [])) 40 none) zeros)
      ≡ ok tt (over (reading (7 ∷ []) (40 - length (delimited sample)) none) m'))
    × OnlyIn 2000 (2000 + 26) zeros m'
    × Agrees fields_at 2 outer_fields 1000 source 2000 m'
returns_delimited =
    pb_decode_delimited-pb_encode_delimited encoding decoding 2 outer_fields 26 1000 2000 64 source
      zeros (on source (holding (delimited sample) 64)) (7 ∷ []) none refl source-IsBytes
      outer-IsPlain outer-IsFilled (omega arith) (omega arith) (omega (arith, sample_length)) 40
      (omega arith) (omega (arith, length-delimited)) encodes_delimited
