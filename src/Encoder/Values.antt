-- ===== src/Encoder/Values.antt =====
-- The encoders of single values, pb_enc_* of Pods/nanopb/pb_encode.c, with pb_encode_submessage and
-- pb_encode_tag_for_field. `src` is an address.
use breakpoint.Base.{
  ℕ, zero, suc, ◌+◌, ◌-◌, ◌*◌, ◌^◌, Bool, true, false, ◌&&◌, ◌||◌, ltb, ◌==◌, if◌then◌else◌, Option,
  none, some, [],
}
use breakpoint.Errors.{
  invalid_data_size, bytes_size_exceeded, invalid_field_type, stream_full, submsg_size_changed,
}
use breakpoint.Outcome.{Outcome, ok, fail, fault, stuck, M, ◌>>=◌, ◌>>◌}
use breakpoint.Output
use breakpoint.Output.{
  Ostream, WriteCallback, sizing, buf_write, user_write, add_size, pb_ostream_sizing, pb_write,
  pb_encode_varint, pb_encode_svarint, pb_encode_fixed32, pb_encode_fixed64, pb_encode_tag,
  pb_encode_string,
}
use breakpoint.Wire.{pb_wt_varint, pb_wt_64bit, pb_wt_string, pb_wt_32bit}
use breakpoint.Memory.{Memory, load, load_bytes}
use breakpoint.Descriptor.{Field, pb_ltype, pb_atype}
use breakpoint.Descriptor.LType
use breakpoint.Descriptor.AType
use breakpoint.Decoder.Values.{sign_extend, bytes_alloc_size}
use breakpoint.Encoder.{EncState, return_error, on_output, read_mem}

-- The ladders on `field->data_size`.
abbrev pub by_size : (ℕ → M EncState (Unit {0})) → ℕ → M EncState (Unit {0})
by_size write data_size =
    if data_size == 1
    then write 1
    else if data_size == 2
    then write 2
    else if data_size == 4
    then write 4
    else if data_size == 8
    then write 8
    else return_error invalid_data_size

-- `*(const intN_t*)src` as the bit pattern of an int64_t
abbrev pub load_signed : ℕ → ℕ → Memory → ℕ
load_signed size src m = sign_extend (8 * size) (load size src m)

unfoldable pub pb_enc_varint : Field → ℕ → M EncState (Unit {0})
pb_enc_varint f src =
    by_size (λ size. do v ← read_mem (load_signed size src); on_output (pb_encode_varint v))
      f.data_size

unfoldable pub pb_enc_uvarint : Field → ℕ → M EncState (Unit {0})
pb_enc_uvarint f src =
    by_size (λ size. do v ← read_mem (load size src); on_output (pb_encode_varint v)) f.data_size

unfoldable pub pb_enc_svarint : Field → ℕ → M EncState (Unit {0})
pb_enc_svarint f src =
    by_size (λ size. do v ← read_mem (load_signed size src); on_output (pb_encode_svarint v))
      f.data_size

unfoldable pub pb_enc_fixed32 : Field → ℕ → M EncState (Unit {0})
pb_enc_fixed32 f src = do v ← read_mem (load 4 src); on_output (pb_encode_fixed32 v)

unfoldable pub pb_enc_fixed64 : Field → ℕ → M EncState (Unit {0})
pb_enc_fixed64 f src = do v ← read_mem (load 8 src); on_output (pb_encode_fixed64 v)

unfoldable pub pb_enc_bytes : Field → ℕ → M EncState (Unit {0})
pb_enc_bytes f src = do
  size ← read_mem (load 4 src)
  bytes ← read_mem (load_bytes size (src + 4))
  if src == 0
      then on_output (pb_encode_string [] 0)
      else if pb_atype f.type == AType.static && ltb f.data_size (bytes_alloc_size size)
      then return_error bytes_size_exceeded
      else on_output (pb_encode_string bytes size)

-- `while (size < max_size && *p != '\0')`
unfoldable pub string_length : ℕ → ℕ → Memory → ℕ
string_length zero p m = 0
string_length (suc n) p m =
    let rest = suc (string_length n (p + 1) m) in if m p == 0 then 0 else rest

unfoldable pub pb_enc_string : Field → ℕ → M EncState (Unit {0})
pb_enc_string f src = do
  let max_size = if pb_atype f.type == AType.pointer then 2 ^ 64 - 1 else f.data_size
  size ← read_mem (λ m. if src == 0 then 0 else string_length max_size src m)
  bytes ← read_mem (load_bytes size src)
  on_output (pb_encode_string bytes size)

unfoldable pub pb_enc_fixed_length_bytes : Field → ℕ → M EncState (Unit {0})
pb_enc_fixed_length_bytes f src = do
  bytes ← read_mem (load_bytes f.data_size src)
  on_output (pb_encode_string bytes f.data_size)

-- The wire type of a field's data, `none` in the default case.
unfoldable pub wire_type_of : ℕ → Option ℕ
wire_type_of ltype =
    if ltype == LType.varint || ltype == LType.uvarint || ltype == LType.svarint
    then some pb_wt_varint
    else if ltype == LType.fixed32
    then some pb_wt_32bit
    else if ltype == LType.fixed64
    then some pb_wt_64bit
    else if ltype == LType.bytes
        || ltype == LType.string
        || ltype == LType.submessage
        || ltype == LType.fixed_length_bytes
    then some pb_wt_string
    else none

abbrev pub tag_or_error : Option ℕ → ℕ → M Ostream (Unit {0})
tag_or_error none tag = Output.return_error invalid_field_type
tag_or_error (some wire_type) tag = pb_encode_tag wire_type tag

unfoldable pub pb_encode_tag_for_field : Field → M Ostream (Unit {0})
pb_encode_tag_for_field f = tag_or_error (wire_type_of (pb_ltype f.type)) f.tag

-- `stream->callback == NULL`
abbrev pub is_sizing : WriteCallback → Bool
is_sizing sizing = true
is_sizing buf_write = false
is_sizing (user_write f) = false

-- A stream that only counts, with the state's memory.
abbrev pub sizing_state : EncState → EncState
sizing_state s = record s { output = pb_ostream_sizing }

-- The substream of the second pass, for `size` bytes at the parent's pointer.
abbrev pub sub_state : ℕ → EncState → EncState
sub_state size s = record s {
  output = record s.output { max_size = size; bytes_written = 0; errmsg = none };
}

-- What the parent takes over from it.
abbrev pub adopt : Ostream → Ostream → Ostream
adopt parent sub = record parent {
  bytes_written = add_size parent.bytes_written sub.bytes_written;
  state = sub.state;
  errmsg = sub.errmsg;
}

abbrev pub size_changed :
    ℕ → EncState → EncState → Outcome EncState (Unit {0}) → Outcome EncState (Unit {0})
size_changed size parent t result =
    if t.output.bytes_written == size
    then result
    else return_error submsg_size_changed
        (record { output = adopt parent.output t.output; mem = t.mem })

abbrev pub second_pass : ℕ → EncState → Outcome EncState (Unit {0}) → Outcome EncState (Unit {0})
second_pass size parent (ok _ t) =
    size_changed size parent t
      (ok tt (record { output = adopt parent.output t.output; mem = t.mem }))
second_pass size parent (fail t) =
    size_changed size parent t
      (fail (record { output = adopt parent.output t.output; mem = t.mem }))
second_pass size parent fault = fault
second_pass size parent stuck = stuck

-- Behind the first pass, which counted `size` bytes. `encode` is the encoding of the message.
unfoldable pub write_submessage : M EncState (Unit {0}) → ℕ → M EncState (Unit {0})
write_submessage encode size = do
  on_output (pb_encode_varint size)
  λ s.
      if is_sizing s.output.callback
      then on_output (pb_write [] size) s
      else if ltb s.output.max_size (add_size s.output.bytes_written size)
      then return_error stream_full s
      else second_pass size s (encode (sub_state size s))

abbrev pub first_pass :
    M EncState (Unit {0}) → EncState → Outcome EncState (Unit {0}) → Outcome EncState (Unit {0})
first_pass encode s (ok _ t) =
    write_submessage encode t.output.bytes_written (record s { mem = t.mem })
first_pass encode s (fail t) =
    fail (record { output = record s.output { errmsg = t.output.errmsg }; mem = t.mem })
first_pass encode s fault = fault
first_pass encode s stuck = stuck

unfoldable pub pb_encode_submessage : M EncState (Unit {0}) → M EncState (Unit {0})
pb_encode_submessage encode s = first_pass encode s (encode (sizing_state s))
