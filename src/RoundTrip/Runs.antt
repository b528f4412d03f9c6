-- ===== src/RoundTrip/Runs.antt =====
-- Numbers written to a buffer of sixteen bytes and read back, the last ones from a structure to
-- another one.
use breakpoint.Base.{ℕ, ◌-◌, ◌^◌, ◌≡◌, refl, none, List, [], ◌∷◌, ◌++◌, length, arith}
use breakpoint.Base.{inl, inr}
use breakpoint.Base.Int.{pos}
use breakpoint.Base.Bytes.{from_little_endian}
use breakpoint.Memory.{Memory, load, store, load_bytes}
use breakpoint.Descriptor.{Field}
use breakpoint.Decoder.{DecState}
use breakpoint.Decoder.Values.{
  pb_dec_varint, pb_dec_uvarint, pb_dec_svarint, pb_dec_fixed32, pb_dec_fixed64,
}
use breakpoint.Encoder.{EncState}
use breakpoint.Encoder.Values.{
  pb_enc_varint, pb_enc_uvarint, pb_enc_svarint, pb_enc_fixed32, pb_enc_fixed64,
}
use breakpoint.RoundTrip.Fixed.{pb_dec_fixed32-pb_enc_fixed32, pb_dec_fixed64-pb_enc_fixed64}
use breakpoint.RoundTrip.Values.{
  pb_dec_varint-pb_enc_varint, pb_dec_uvarint-pb_enc_uvarint, pb_dec_svarint-pb_enc_svarint,
}
use breakpoint.Outcome.{ok}
use breakpoint.Input.Reading.{reading}
use breakpoint.Output.{
  Ostream, buf_write, pb_ostream_from_buffer, pb_write, fill_buffer, unset_top_bit, zigzag,
  pb_encode_varint, pb_encode_svarint, pb_encode_fixed32, pb_encode_fixed64, pb_encode_tag,
}
use breakpoint.Wire.{
  field_tag, pb_decode_varint, pb_decode_varint32, pb_decode_svarint, pb_decode_fixed64,
  pb_decode_tag,
}
use breakpoint.RoundTrip.{
  pb_decode_varint-pb_encode_varint, pb_decode_varint32-pb_encode_varint,
  pb_decode_svarint-pb_encode_svarint, pb_decode_fixed64-pb_encode_fixed64,
  pb_decode_tag-pb_encode_tag,
}

-- The stream after `bytes` went to a buffer of sixteen.
abbrev wrote : List ℕ → Ostream
wrote bytes = record {
  callback = buf_write;
  state = record { written = bytes; room = 16 - length bytes };
  max_size = 16;
  bytes_written = length bytes;
  errmsg = none;
}

encodes_300 : pb_encode_varint 300 (pb_ostream_from_buffer 16) ≡ ok tt (wrote (0xac ∷ 0x02 ∷ []))
unfolding pb_encode_varint pb_ostream_from_buffer pb_write fill_buffer unset_top_bit
encodes_300 = refl

-- -2, as a bit pattern
encodes_minus_two :
    pb_encode_svarint (2 ^ 64 - 2) (pb_ostream_from_buffer 16) ≡ ok tt (wrote (0x03 ∷ []))
unfolding pb_encode_svarint zigzag pb_encode_varint pb_ostream_from_buffer pb_write
encodes_minus_two = refl

encodes_fixed32 :
    pb_encode_fixed32 0x01020304 (pb_ostream_from_buffer 16) ≡ ok tt (wrote (4 ∷ 3 ∷ 2 ∷ 1 ∷ []))
unfolding pb_encode_fixed32 pb_ostream_from_buffer pb_write
encodes_fixed32 = refl

encodes_fixed64 :
    pb_encode_fixed64 258 (pb_ostream_from_buffer 16)
    ≡ ok tt (wrote (2 ∷ 1 ∷ 0 ∷ 0 ∷ 0 ∷ 0 ∷ 0 ∷ 0 ∷ []))
unfolding pb_encode_fixed64 pb_ostream_from_buffer pb_write
encodes_fixed64 = refl

encodes_tag : pb_encode_tag 2 100 (pb_ostream_from_buffer 16) ≡ ok tt (wrote (0xa2 ∷ 0x06 ∷ []))
unfolding pb_encode_tag pb_encode_varint pb_ostream_from_buffer pb_write fill_buffer unset_top_bit
encodes_tag = refl

decodes_300 :
    pb_decode_varint (reading ((0xac ∷ 0x02 ∷ []) ++ (7 ∷ [])) 3 none)
    ≡ ok 300 (reading (7 ∷ []) (3 - 2) none)
decodes_300 =
    pb_decode_varint-pb_encode_varint 16 3 (wrote (0xac ∷ 0x02 ∷ [])) (7 ∷ []) none (omega arith)
      (omega arith) (omega arith) 300 (omega arith) encodes_300

decodes_300_short :
    pb_decode_varint32 (reading ((0xac ∷ 0x02 ∷ []) ++ (7 ∷ [])) 3 none)
    ≡ ok 300 (reading (7 ∷ []) (3 - 2) none)
decodes_300_short =
    pb_decode_varint32-pb_encode_varint 16 3 (wrote (0xac ∷ 0x02 ∷ [])) (7 ∷ []) none (omega arith)
      (omega arith) (omega arith) 300 (omega arith) encodes_300

decodes_minus_two :
    pb_decode_svarint (reading ((0x03 ∷ []) ++ (7 ∷ [])) 2 none)
    ≡ ok (2 ^ 64 - 2) (reading (7 ∷ []) (2 - 1) none)
decodes_minus_two =
    pb_decode_svarint-pb_encode_svarint 16 2 (wrote (0x03 ∷ [])) (7 ∷ []) none (omega arith)
      (omega arith) (omega arith) (2 ^ 64 - 2) (omega arith) encodes_minus_two

decodes_fixed64 :
    pb_decode_fixed64 (reading ((2 ∷ 1 ∷ 0 ∷ 0 ∷ 0 ∷ 0 ∷ 0 ∷ 0 ∷ []) ++ (7 ∷ [])) 9 none)
    ≡ ok 258 (reading (7 ∷ []) (9 - 8) none)
decodes_fixed64 =
    pb_decode_fixed64-pb_encode_fixed64 16 9 (wrote (2 ∷ 1 ∷ 0 ∷ 0 ∷ 0 ∷ 0 ∷ 0 ∷ 0 ∷ [])) (7 ∷ [])
      none (omega arith) (omega arith) (omega arith) 258 (omega arith) encodes_fixed64

decodes_tag :
    pb_decode_tag (reading ((0xa2 ∷ 0x06 ∷ []) ++ (7 ∷ [])) 3 none)
    ≡ ok (field_tag 2 100) (reading (7 ∷ []) (3 - 2) none)
decodes_tag =
    pb_decode_tag-pb_encode_tag 16 3 (wrote (0xa2 ∷ 0x06 ∷ [])) (7 ∷ []) none (omega arith)
      (omega arith) (omega arith) 2 100 (omega arith) (omega arith) (omega arith) encodes_tag

-- A field of two bytes, and structures that hold -258 and 7 there.
abbrev short_field : Field
short_field = record {
  tag = 1;
  type = 0x00;
  data_offset = 0;
  size_offset = pos 0;
  data_size = 2;
  array_size = 0;
  ptr = 0;
}

abbrev filled : Memory
filled = λ a. 254

abbrev other : Memory
other = λ a. 7

abbrev encoded : List ℕ → EncState
encoded bytes = record { output = wrote bytes; mem = filled }

abbrev decoding : List ℕ → DecState
decoding bytes = record { input = reading (bytes ++ (7 ∷ [])) 12 none; mem = other }

abbrev decoded : ℕ → DecState
decoded n = record {
  input = reading (7 ∷ []) (12 - n) none;
  mem = store 2 2000 (load 2 1000 filled) other;
}

abbrev start : EncState
start = record { output = pb_ostream_from_buffer 16; mem = filled }

abbrev ten : List ℕ
ten = 0xfe ∷ 0xfd ∷ 0xff ∷ 0xff ∷ 0xff ∷ 0xff ∷ 0xff ∷ 0xff ∷ 0xff ∷ 0x01 ∷ []

encodes_int : pb_enc_varint short_field 1000 start ≡ ok tt (encoded ten)
unfolding pb_enc_varint load load_bytes from_little_endian pb_encode_varint pb_ostream_from_buffer
    pb_write fill_buffer unset_top_bit
encodes_int = refl

encodes_uint : pb_enc_uvarint short_field 1000 start ≡ ok tt (encoded (0xfe ∷ 0xfd ∷ 0x03 ∷ []))
unfolding pb_enc_uvarint load load_bytes from_little_endian pb_encode_varint pb_ostream_from_buffer
    pb_write fill_buffer unset_top_bit
encodes_uint = refl

encodes_sint : pb_enc_svarint short_field 1000 start ≡ ok tt (encoded (0x83 ∷ 0x04 ∷ []))
unfolding pb_enc_svarint load load_bytes from_little_endian pb_encode_svarint zigzag
    pb_encode_varint pb_ostream_from_buffer pb_write fill_buffer unset_top_bit
encodes_sint = refl

decodes_int : pb_dec_varint short_field 2000 (decoding ten) ≡ ok tt (decoded 10)
decodes_int =
    pb_dec_varint-pb_enc_varint short_field 1000 2000 16 12 filled other (encoded ten) (7 ∷ []) none
      (inr (inl refl)) (λ a. omega arith) (omega arith) (omega arith) (omega arith) encodes_int

decodes_uint :
    pb_dec_uvarint short_field 2000 (decoding (0xfe ∷ 0xfd ∷ 0x03 ∷ [])) ≡ ok tt (decoded 3)
decodes_uint =
    pb_dec_uvarint-pb_enc_uvarint short_field 1000 2000 16 12 filled other
      (encoded (0xfe ∷ 0xfd ∷ 0x03 ∷ [])) (7 ∷ []) none (inr (inl refl)) (λ a. omega arith)
      (omega arith) (omega arith) (omega arith) encodes_uint

decodes_sint : pb_dec_svarint short_field 2000 (decoding (0x83 ∷ 0x04 ∷ [])) ≡ ok tt (decoded 2)
decodes_sint =
    pb_dec_svarint-pb_enc_svarint short_field 1000 2000 16 12 filled other
      (encoded (0x83 ∷ 0x04 ∷ [])) (7 ∷ []) none (inr (inl refl)) (λ a. omega arith) (omega arith)
      (omega arith) (omega arith) encodes_sint

abbrev decoded_wide : ℕ → DecState
decoded_wide size = record {
  input = reading (7 ∷ []) (12 - size) none;
  mem = store size 2000 (load size 1000 filled) other;
}

abbrev four : List ℕ
four = 254 ∷ 254 ∷ 254 ∷ 254 ∷ []

abbrev eight : List ℕ
eight = 254 ∷ 254 ∷ 254 ∷ 254 ∷ four

encodes_four : pb_enc_fixed32 short_field 1000 start ≡ ok tt (encoded four)
unfolding pb_enc_fixed32 load load_bytes from_little_endian pb_encode_fixed32 pb_ostream_from_buffer
    pb_write
encodes_four = refl

encodes_eight : pb_enc_fixed64 short_field 1000 start ≡ ok tt (encoded eight)
unfolding pb_enc_fixed64 load load_bytes from_little_endian pb_encode_fixed64 pb_ostream_from_buffer
    pb_write
encodes_eight = refl

decodes_four : pb_dec_fixed32 short_field 2000 (decoding four) ≡ ok tt (decoded_wide 4)
decodes_four =
    pb_dec_fixed32-pb_enc_fixed32 short_field 1000 2000 16 12 filled other (encoded four) (7 ∷ [])
      none (λ a. omega arith) (omega arith) (omega arith) (omega arith) encodes_four

decodes_eight : pb_dec_fixed64 short_field 2000 (decoding eight) ≡ ok tt (decoded_wide 8)
decodes_eight =
    pb_dec_fixed64-pb_enc_fixed64 short_field 1000 2000 16 12 filled other (encoded eight) (7 ∷ [])
      none (λ a. omega arith) (omega arith) (omega arith) (omega arith) encodes_eight
