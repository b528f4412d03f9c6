-- ===== src/Encoder/Sized/Runs.antt =====
-- A message that has a field for a callback, written to a buffer and measured.
use breakpoint.Base.{
  ℕ, ◌%◌, ◌≡◌, refl, List, [], ◌∷◌, none, length, ◌==◌, ◌||◌, if◌then◌else◌, arith,
}
use breakpoint.Base.Int.{pos}
use breakpoint.Base.Bytes.{from_little_endian}
use breakpoint.Outcome.{ok}
use breakpoint.Input.{size_mod}
use breakpoint.Output.{
  buf_write, pb_ostream_from_buffer, pb_encode_varint, pb_write, pb_encode_tag, fill_buffer,
  unset_top_bit,
}
use breakpoint.Output.Sizing.{IsWriter, Appends, pb_encode_varint-IsSized}
use breakpoint.Memory.{Memory, load, load_bytes}
use breakpoint.Descriptor.{Field}
use breakpoint.Encoder.{EncState, Env, on_output}
use breakpoint.FieldIter.{for_fields, pb_field_iter_begin, each_field, pb_field_iter_next, step_to}
use breakpoint.Encoder.Values.{pb_encode_tag_for_field, wire_type_of, pb_enc_varint}
use breakpoint.Encoder.Fields.{encode_by_rule, pb_encoders}
use breakpoint.Encoder.Messages.{
  pb_encode, pb_get_encoded_size, encode_entry_at, encode_field, encode_basic_field,
  encode_callback_field, size_pointer,
}
use breakpoint.Encoder.Sized.{IsSized-on_output}
use breakpoint.Encoder.Sized.Messages.{pb_get_encoded_size-pb_encode}

-- struct { int32_t a; pb_callback_t c; }
abbrev fields : List Field
fields =
    record {
      tag = 1;
      type = 0x00;
      data_offset = 0;
      size_offset = pos 0;
      data_size = 4;
      array_size = 0;
      ptr = 0;
    }
    ∷ record {
      tag = 2;
      type = 0x50;
      data_offset = 0;
      size_offset = pos 0;
      data_size = 16;
      array_size = 0;
      ptr = 0;
    }
    ∷ []

-- The callback writes the tag of its field, and the varint of its argument.
abbrev callback_env : Env
callback_env = record {
  fields_at = λ a. [];
  extension_type = λ a. record { decode = 0; encode = 0; arg = 0 };
  call_encode = λ fn f arg. on_output (pb_encode_varint arg);
  call_extension = λ fn e. on_output (pb_encode_varint 0);
}

-- `a` is 300, and the callback is at the address 1.
abbrev message : Memory
message = λ a. if a == 1000 then 44 else if a == 1001 || a == 1004 then 1 else 0

abbrev start : EncState
start = record { output = pb_ostream_from_buffer 16; mem = message }

start-IsWriter : IsWriter start.output
unfolding pb_ostream_from_buffer
start-IsWriter = record { callback = refl; small = omega arith }

abbrev finish : EncState
finish = record {
  output = record {
    callback = buf_write;
    state = record { written = 0x08 ∷ 0xac ∷ 0x02 ∷ 0xf4 ∷ 0x07 ∷ []; room = 11 };
    max_size = 16;
    bytes_written = 5;
    errmsg = none;
  };
  mem = message;
}

encodes_both : pb_encode callback_env 2 fields 1000 start ≡ ok tt finish
unfolding pb_encode load load_bytes from_little_endian pb_ostream_from_buffer pb_encode_varint
    for_fields pb_field_iter_begin each_field pb_field_iter_next step_to encode_entry_at
    encode_field encode_basic_field encode_callback_field size_pointer encode_by_rule
    pb_encode_tag_for_field wire_type_of pb_encode_tag pb_write pb_encoders pb_enc_varint
    fill_buffer unset_top_bit
encodes_both = refl

measures_both :
    (bytes : List ℕ) × Appends bytes start.output finish.output
    × (finish.mem ≡ start.mem)
    × (pb_get_encoded_size callback_env 2 fields 1000 start ≡ ok (length bytes % size_mod) start)
measures_both =
    pb_get_encoded_size-pb_encode callback_env
      (λ mem fn f arg. IsSized-on_output mem (pb_encode_varint arg) (pb_encode_varint-IsSized arg))
      (λ mem fn ext. IsSized-on_output mem (pb_encode_varint 0) (pb_encode_varint-IsSized 0)) 2
      fields 1000 start finish start-IsWriter encodes_both
