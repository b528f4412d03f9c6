-- ===== src/Decoder/Runs.antt =====
-- Runs of the decoder on small messages, and on single fields.
use breakpoint.Base.{ℕ, ◌-◌, arith, inl, ◌≡◌, refl, Option, some, List, [], ◌∷◌}
use breakpoint.Base.Int.{pos, negsuc}
use breakpoint.Base.Bytes.{little_endian, from_little_endian}
use breakpoint.Errors.{ErrMsg, missing_required_field}
use breakpoint.Outcome.{Outcome, ok, fail, fault, stuck}
use breakpoint.Input.{pb_istream_from_buffer, pb_read, pb_readbyte, pb_read_null}
use breakpoint.Wire.{
  varint_loop, pb_decode_varint32, pb_decode_varint, pb_skip_field, skip_varint_loop,
  pb_skip_varint,
}
use breakpoint.Memory.{load, store, load_bytes, store_bytes, memset_zero}
use breakpoint.Descriptor.{Field}
use breakpoint.FieldIter.{pb_field_iter_begin, each_field, step_to, find_from, is_wanted}
use breakpoint.Decoder.{DecState, Env}
use breakpoint.FieldIter.{pb_field_iter_next, for_fields, pb_field_iter_find, find_extension_field}
use breakpoint.Wire.{pb_decode_tag}
use breakpoint.Decoder.Fields.{decode_static_field, pb_decoders}
use breakpoint.Decoder.Callbacks.{decode_field}
use breakpoint.Decoder.Defaults.{pb_message_set_to_defaults, pb_field_set_to_default, set_static}
use breakpoint.Decoder.Required.{required_fields, mark_seen, seek_end, check_words}
use breakpoint.Decoder.Messages.{
  pb_decode, pb_decode_noinit, decode_level, decode_loop, one_field, unknown_field,
  decode_extension,
}
use breakpoint.Decoder.Values.{
  pb_dec_varint, pb_dec_svarint, pb_dec_bytes, pb_dec_string, pb_dec_fixed_length_bytes,
}
use breakpoint.Decoder.Values.Bounds.{
  InField, pb_dec_varint-InField, pb_dec_svarint-InField, pb_dec_bytes-InField,
  pb_dec_string-InField, pb_dec_fixed_length_bytes-InField,
}
use breakpoint.Decoder.Required.{Loop, complete, undefined, allbits, check_required}
use breakpoint.Decoder.Required.Words.{check_required_undefined}
use breakpoint.Decoder.Required.Marks.{has_bit, check_required-has_bit}
use breakpoint.Decoder.Required.Trail.{mark_all, any_required_at, check_required-mark_all}
use breakpoint.Base.Digits.{bit-power}
use breakpoint.FieldIter.{Iter, place}
use breakpoint.Base.{ℕ, true, false, ◌-◌, ◌≤◌, ◌<◌, ◌↔◌, ◌∙◌, le→ltb, arith, inl}

abbrev test_env : Env
test_env = record {
  fields_at = λ a. [];
  extension_type = λ a. record { decode = 0; encode = 0; arg = 0 };
  call_decode = λ fn f a s. fault;
  call_extension = λ fn e t w s. fault;
}

-- struct { int32_t a; bool has_b; int32_t b; }: `a` required and `b` optional.
abbrev two_fields : List Field
two_fields =
    record {
      tag = 1;
      type = 0x00;
      data_offset = 0;
      size_offset = pos 0;
      data_size = 4;
      array_size = 0;
      ptr = 0;
    }
    ∷ record {
      tag = 2;
      type = 0x10;
      data_offset = 4;
      size_offset = negsuc 3;
      data_size = 4;
      array_size = 0;
      ptr = 0;
    }
    ∷ []

abbrev run : List ℕ → ℕ → Outcome DecState (Unit {0})
run bytes n =
    pb_decode test_env 3 two_fields 1000
      (record { input = pb_istream_from_buffer bytes n; mem = λ a. 7 })

data Seen : Type 0 where
  decoded : ℕ → ℕ → ℕ → Seen
  refused : Option ErrMsg → Seen
  other : Seen

seen : Outcome DecState (Unit {0}) → Seen
seen (ok _ s) = decoded (load 4 1000 s.mem) (load 1 1004 s.mem) (load 4 1008 s.mem)
seen (fail s) = refused s.input.errmsg
seen fault = other
seen stuck = other

decodes_two : seen (run (0x08 ∷ 0xac ∷ 0x02 ∷ 0x10 ∷ 0x05 ∷ 0x18 ∷ 1 ∷ []) 7) ≡ decoded 300 1 5
unfolding seen pb_decode load store load_bytes store_bytes from_little_endian little_endian
    memset_zero pb_istream_from_buffer pb_read pb_readbyte pb_read_null pb_decode_varint32
    pb_decode_varint varint_loop pb_skip_field pb_skip_varint skip_varint_loop each_field step_to
    find_from is_wanted pb_field_iter_next seek_end check_required pb_decode_noinit decode_level
    decode_loop one_field unknown_field decode_field decode_static_field pb_decoders pb_dec_varint
    pb_message_set_to_defaults pb_field_set_to_default set_static for_fields required_fields
    mark_seen pb_field_iter_find pb_field_iter_begin find_extension_field pb_decode_tag
    decode_extension check_words
decodes_two = refl

missing_first : seen (run (0x10 ∷ 0x05 ∷ []) 2) ≡ refused (some missing_required_field)
unfolding seen pb_decode load store load_bytes store_bytes from_little_endian little_endian
    memset_zero pb_istream_from_buffer pb_read pb_readbyte pb_read_null pb_decode_varint32
    pb_decode_varint varint_loop each_field step_to find_from is_wanted pb_field_iter_next seek_end
    check_required pb_decode_noinit decode_level decode_loop one_field unknown_field decode_field
    decode_static_field pb_decoders pb_dec_varint pb_message_set_to_defaults pb_field_set_to_default
    set_static for_fields required_fields mark_seen pb_field_iter_find pb_field_iter_begin
    find_extension_field pb_decode_tag decode_extension check_words
missing_first = refl

-- A bytes field of a structure: room for four bytes behind the size.
abbrev bytes_field : Field
bytes_field = record {
  tag = 1;
  type = 0x05;
  data_offset = 0;
  size_offset = pos 0;
  data_size = 8;
  array_size = 0;
  ptr = 0;
}

bytes-InField : InField bytes_field 1000 (pb_dec_bytes bytes_field 1000)
bytes-InField = pb_dec_bytes-InField 1000 bytes_field

string-InField : InField bytes_field 1000 (pb_dec_string bytes_field 1000)
string-InField = pb_dec_string-InField 1000 bytes_field

fixed_length_bytes-InField : InField bytes_field 1000 (pb_dec_fixed_length_bytes bytes_field 1000)
fixed_length_bytes-InField = pb_dec_fixed_length_bytes-InField 1000 bytes_field

varint-InField : InField bytes_field 1000 (pb_dec_varint bytes_field 1000)
varint-InField = pb_dec_varint-InField 1000 bytes_field

svarint-InField : InField bytes_field 1000 (pb_dec_svarint bytes_field 1000)
svarint-InField = pb_dec_svarint-InField 1000 bytes_field

-- The last descriptor reached, and the bits of some required fields.
abbrev seen_state : ℕ → ℕ → Loop
seen_state low high = record {
  iter = (pb_field_iter_begin two_fields 1000).0;
  seen_low = low;
  seen_high = high;
  extension_range_start = 0;
}

-- The message of the two fields `a` and `b`, of which `a` is required.
abbrev both_entries : List Iter
both_entries = place two_fields 0 0 1000 1000 ∷ place two_fields 1 1 1000 1008 ∷ []

one_required :
    (check_required (mark_all both_entries (seen_state 0 0)) 1 ≡ complete)
    ↔ ((k : ℕ) → k < 1 → any_required_at k both_entries ≡ true)
one_required =
    check_required-mark_all (seen_state 0 0) both_entries 1 refl refl (omega arith) (omega arith)
      (λ k e. ground (arith, e), (λ k e. ground (arith, e), tt))

one_above : (k : ℕ) → 33 ≤ k → has_bit (seen_state allbits 1) k ≡ false
one_above k le = rw (le→ltb k 32 (omega arith)) (bit-power (k - 32) 0 ∙ ground arith)

thirty_three_required :
    (check_required (seen_state allbits 1) 33 ≡ complete)
    ↔ ((k : ℕ) → k < 33 → has_bit (seen_state allbits 1) k ≡ true)
thirty_three_required =
    check_required-has_bit (seen_state allbits 1) 33
      (record { low = omega arith; high = omega arith }) (omega arith) (omega arith)
      (λ k le lt. one_above k le)

thirty_two_required : check_required (seen_state allbits allbits) 32 ≡ undefined
thirty_two_required = check_required_undefined (seen_state allbits allbits) 32 (inl refl) refl refl
