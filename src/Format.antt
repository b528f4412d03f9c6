-- ===== src/Format.antt =====
-- The wire format of a message of static fields that are required or optional: what the bytes of a
-- message structure in memory stand for, said without streams. `at` gives the descriptors at an address.
pub mod Texts
pub mod Plain
pub mod Emits
pub mod Agrees
pub mod Cleared
pub mod Reads
pub mod Encoded
pub mod Decoded
mod Samples
mod Runs
use breakpoint.Base.{
  ℕ, zero, suc, ◌+◌, ◌*◌, ◌==◌, ◌&&◌, ◌||◌, Bool, true, false, if◌then◌else◌, List, [], ◌∷◌, ◌++◌,
  length,
}
use breakpoint.Base.Bytes.{little_endian}
use breakpoint.Memory.{Memory, load, load_bytes}
use breakpoint.Descriptor.{Field, field_at, offset_by, pb_ltype, pb_htype}
use breakpoint.Descriptor.LType
use breakpoint.Descriptor.HType
use breakpoint.FieldIter.Layout.{iter_at}
use breakpoint.Wire.{pb_wt_varint, pb_wt_64bit, pb_wt_string, pb_wt_32bit}
use breakpoint.Output.{zigzag}
use breakpoint.Output.Encoding.{varint}
use breakpoint.Decoder.Values.{sign_extend}
use breakpoint.Encoder.Values.{string_length}

-- The bytes of a message at an address.
abbrev pub Writer : Type 0
Writer = List Field → ℕ → Memory → List ℕ

-- A message behind its length.
abbrev pub delimited : List ℕ → List ℕ
delimited bytes = varint (length bytes) ++ bytes

-- The string in `size` bytes, up to its NUL.
abbrev pub text : ℕ → ℕ → Memory → List ℕ
text size p m = load_bytes (string_length size p m) p m

abbrev pub wire_type : ℕ → ℕ
wire_type ltype =
    if ltype == LType.fixed32
    then pb_wt_32bit
    else if ltype == LType.fixed64
    then pb_wt_64bit
    else if ltype == LType.submessage || ltype == LType.string || ltype == LType.fixed_length_bytes
    then pb_wt_string
    else pb_wt_varint

-- An optional field with its flag at 0 is absent.
abbrev pub is_absent : Field → ℕ → Memory → Bool
is_absent f p m = pb_htype f.type == HType.optional && load 1 (offset_by p f.size_offset) m == 0

module _ (at : ℕ → List Field) (nested : Writer) where
  -- The value of a field whose data is at `p`: a number sign-extended, plain or zig-zag as a varint, a
  -- fixed number of bytes, or a message, a string or bytes behind their length.
  unfoldable pub value_bytes : Field → ℕ → Memory → List ℕ
  value_bytes f p m =
      let ltype = pb_ltype f.type in
      let number = load f.data_size p m in
      let signed = sign_extend (8 * f.data_size) number in
      if ltype == LType.varint
      then varint signed
      else if ltype == LType.uvarint
      then varint number
      else if ltype == LType.svarint
      then varint (zigzag signed)
      else if ltype == LType.submessage
      then delimited (nested (at f.ptr) p m)
      else if ltype == LType.string
      then delimited (text f.data_size p m)
      else if ltype == LType.fixed_length_bytes
      then delimited (load_bytes f.data_size p m)
      else little_endian f.data_size number

  unfoldable pub entry_bytes : Field → ℕ → Memory → List ℕ
  entry_bytes f p m =
      if is_absent f p m
      then []
      else varint (f.tag * 8 + wire_type (pb_ltype f.type)) ++ value_bytes f p m

  -- The entries of the fields from `i` on, `count` of them.
  unfoldable pub fields_bytes : ℕ → ℕ → Writer
  fields_bytes zero i fields src m = []
  fields_bytes (suc count) i fields src m =
      entry_bytes (field_at fields i) (iter_at fields src i).p_data m
      ++ fields_bytes count (suc i) fields src m

-- A message with at most `n` levels of messages, itself included.
unfoldable pub message_bytes : (ℕ → List Field) → ℕ → Writer
message_bytes at zero fields src m = []
message_bytes at (suc n) fields src m =
    fields_bytes at (λ fs p m'. message_bytes at n fs p m') (length fields) 0 fields src m
