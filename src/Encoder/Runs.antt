-- ===== src/Encoder/Runs.antt =====
-- Runs of the encoder on the message of two fields.
use breakpoint.Base.{ℕ, ◌≡◌, refl, Option, none, some, List, [], ◌∷◌}
use breakpoint.Base.Int.{pos, negsuc}
use breakpoint.Base.Bytes.{little_endian, from_little_endian}
use breakpoint.Errors.{ErrMsg, stream_full}
use breakpoint.Outcome.{Outcome, ok, fail, fault, stuck}
use breakpoint.Output.{
  pb_ostream_from_buffer, pb_ostream_sizing, pb_write, fill_buffer, unset_top_bit, pb_encode_varint,
  pb_encode_tag,
}
use breakpoint.Memory.{Memory, load, store, load_bytes, store_bytes}
use breakpoint.Descriptor.{Field}
use breakpoint.FieldIter.{each_field, step_to, for_fields, pb_field_iter_begin, pb_field_iter_next}
use breakpoint.Encoder.{EncState, Env}
use breakpoint.Encoder.Values.{pb_enc_varint, pb_encode_tag_for_field, wire_type_of}
use breakpoint.Encoder.Fields.{encode_by_rule, pb_encoders}
use breakpoint.Encoder.Messages.{
  pb_encode, pb_get_encoded_size, encode_entry_at, encode_field, encode_basic_field, size_pointer,
}

abbrev test_env : Env
test_env = record {
  fields_at = λ a. [];
  extension_type = λ a. record { decode = 0; encode = 0; arg = 0 };
  call_encode = λ fn f a s. fault;
  call_extension = λ fn e s. fault;
}

-- struct { int32_t a; bool has_b; int32_t b; }: `a` required and `b` optional.
abbrev two_fields : List Field
two_fields =
    record {
      tag = 1;
      type = 0x00;
      data_offset = 0;
      size_offset = pos 0;
      data_size = 4;
      array_size = 0;
      ptr = 0;
    }
    ∷ record {
      tag = 2;
      type = 0x10;
      data_offset = 4;
      size_offset = negsuc 3;
      data_size = 4;
      array_size = 0;
      ptr = 0;
    }
    ∷ []

-- `a` is 300 and `b` is 5.
abbrev message : Memory
message = store 4 1008 5 (store 1 1004 1 (store 4 1000 300 (λ a. 0)))

abbrev start : ℕ → EncState
start room = record { output = pb_ostream_from_buffer room; mem = message }

data Seen : Type 0 where
  encoded : List ℕ → ℕ → Seen
  refused : Option ErrMsg → Seen
  other : Seen

seen : Outcome EncState (Unit {0}) → Seen
seen (ok _ s) = encoded s.output.state.written s.output.bytes_written
seen (fail s) = refused s.output.errmsg
seen fault = other
seen stuck = other

size_seen : Outcome EncState ℕ → Option ℕ
size_seen (ok n s) = some n
size_seen (fail s) = none
size_seen fault = none
size_seen stuck = none

encodes_two :
    seen (pb_encode test_env 3 two_fields 1000 (start 16))
    ≡ encoded (0x08 ∷ 0xac ∷ 0x02 ∷ 0x10 ∷ 0x05 ∷ []) 5
unfolding seen pb_encode load store load_bytes store_bytes from_little_endian little_endian
    pb_ostream_from_buffer pb_write fill_buffer unset_top_bit pb_encode_varint pb_encode_tag
    each_field step_to for_fields pb_field_iter_begin pb_field_iter_next encode_entry_at
    encode_field encode_basic_field size_pointer encode_by_rule pb_encode_tag_for_field wire_type_of
    pb_encoders pb_enc_varint
encodes_two = refl

counts_two : size_seen (pb_get_encoded_size test_env 3 two_fields 1000 (start 16)) ≡ some 5
unfolding size_seen pb_get_encoded_size load store load_bytes store_bytes from_little_endian
    little_endian pb_ostream_from_buffer pb_write fill_buffer unset_top_bit pb_encode_varint
    pb_encode pb_encode_tag pb_ostream_sizing each_field step_to for_fields pb_field_iter_begin
    pb_field_iter_next encode_entry_at encode_field encode_basic_field size_pointer encode_by_rule
    pb_encode_tag_for_field wire_type_of pb_encoders pb_enc_varint
counts_two = refl

overflows : seen (pb_encode test_env 3 two_fields 1000 (start 4)) ≡ refused (some stream_full)
unfolding seen pb_encode load store load_bytes store_bytes from_little_endian little_endian
    pb_ostream_from_buffer pb_write fill_buffer unset_top_bit pb_encode_varint pb_encode_tag
    each_field step_to for_fields pb_field_iter_begin pb_field_iter_next encode_entry_at
    encode_field encode_basic_field size_pointer encode_by_rule pb_encode_tag_for_field wire_type_of
    pb_encoders pb_enc_varint
overflows = refl
