-- ===== src/Encoder/Fields.antt =====
-- Encoding one field (Pods/nanopb/pb_encode.c, "Encode a single field").
use breakpoint.Base.{
  ℕ, zero, suc, ◌+◌, ◌*◌, Bool, true, false, ◌&&◌, ◌||◌, not, ltb, leb, ◌==◌, if◌then◌else◌, Option,
  none, some, List, [], length,
}
use breakpoint.Errors.{
  array_max_size_exceeded, missing_required_field, invalid_field_type, invalid_field_descriptor,
}
use breakpoint.Outcome.{Outcome, ok, fail, fault, stuck, M, pure, ◌>>=◌, ◌>>◌}
use breakpoint.Output.{pb_write, pb_encode_varint, pb_encode_tag}
use breakpoint.Wire.{pb_wt_string}
use breakpoint.Memory.{Memory, load}
use breakpoint.Descriptor.{Field, pb_ltype, pb_htype, pb_atype}
use breakpoint.Descriptor.LType
use breakpoint.Descriptor.HType
use breakpoint.Descriptor.AType
use breakpoint.FieldIter.{Iter, field, pb_field_iter_begin, pb_field_iter_next}
use breakpoint.Encoder.{EncState, Env, return_error, on_output, read_mem}
use breakpoint.Encoder.Values.{
  pb_enc_varint, pb_enc_uvarint, pb_enc_svarint, pb_enc_fixed32, pb_enc_fixed64, pb_enc_bytes,
  pb_enc_string, pb_enc_fixed_length_bytes, pb_encode_tag_for_field, pb_encode_submessage,
  is_sizing, sizing_state,
}

-- `p[0 .. n - 1]` are all zero.
unfoldable pub all_zero : ℕ → ℕ → Memory → Bool
all_zero zero p m = true
all_zero (suc n) p m = m p == 0 && all_zero n (p + 1) m

-- The loop over the fields of a submessage; `none` means that the rounds ran out.
abbrev pub and_rest : Option Bool → Option Bool → Option Bool
and_rest none rest = none
and_rest (some false) rest = some false
and_rest (some true) rest = rest

unfoldable pub all_default : ℕ → (Field → ℕ → Option Bool) → Iter → Option Bool
all_default zero check it = none
all_default (suc n) check it =
    let (it', more) = pb_field_iter_next it in
    let rest = all_default n check it' in
    and_rest (check (field it) it.p_data) (if more then rest else some true)

module _ (env : Env) where
  -- The first parameter bounds the nesting of submessages.
  unfoldable pub pb_check_proto3_default_value : ℕ → Memory → Field → ℕ → Option Bool
  pb_check_proto3_default_value zero m f p_data = none
  pb_check_proto3_default_value (suc n) m f p_data =
      let ltype = pb_ltype f.type in
      let static = pb_atype f.type == AType.static in
      let fields = env.fields_at f.ptr in
      let (it, nonempty) = pb_field_iter_begin fields p_data in
      let nested = all_default (length fields) (λ g p. pb_check_proto3_default_value n m g p) it in
      if static && ltype == LType.bytes
      then some (load 4 p_data m == 0)
      else if static && ltype == LType.string
      then some (m p_data == 0)
      else if static && ltype == LType.fixed_length_bytes
      then some (f.data_size == 0)
      else if static && ltype == LType.submessage
      then (if nonempty then nested else some true)
      else some (all_zero f.data_size p_data m)

-- The encoding of nested messages: pb_encode on the descriptors at `field->ptr`.
abbrev pub Nested : Type 0
Nested = List Field → ℕ → M EncState (Unit {0})

module _ (env : Env) (nested : Nested) where
  unfoldable pub pb_enc_submessage : Field → ℕ → M EncState (Unit {0})
  pb_enc_submessage f src =
      if f.ptr == 0
      then return_error invalid_field_descriptor
      else pb_encode_submessage (nested (env.fields_at f.ptr) src)

  -- PB_ENCODERS. A call of the NULL entry, or of one behind the table, is a fault.
  unfoldable pub pb_encoders : ℕ → Field → ℕ → M EncState (Unit {0})
  pb_encoders ltype =
      if ltype == LType.varint
      then pb_enc_varint
      else if ltype == LType.uvarint
      then pb_enc_uvarint
      else if ltype == LType.svarint
      then pb_enc_svarint
      else if ltype == LType.fixed32
      then pb_enc_fixed32
      else if ltype == LType.fixed64
      then pb_enc_fixed64
      else if ltype == LType.bytes
      then pb_enc_bytes
      else if ltype == LType.string
      then pb_enc_string
      else if ltype == LType.submessage
      then pb_enc_submessage
      else if ltype == LType.fixed_length_bytes
      then pb_enc_fixed_length_bytes
      else (λ f src s. fault)

-- `for (i = 0; i < count; i++) { step(p); p += data_size; }`
unfoldable pub each_item : ℕ → (ℕ → M EncState (Unit {0})) → ℕ → ℕ → M EncState (Unit {0})
each_item zero step p data_size s = ok tt s
each_item (suc n) step p data_size s =
    (do step p; λ t. each_item n step (p + data_size) data_size t) s

-- `size = sizestream.bytes_written`; the stream that counted is dropped.
abbrev pub counted : EncState → Outcome EncState (Unit {0}) → Outcome EncState ℕ
counted s (ok _ t) = ok t.output.bytes_written (record s { mem = t.mem })
counted s (fail t) = fail (record s { mem = t.mem })
counted s fault = fault
counted s stuck = stuck

-- The size of a packed array's data.
unfoldable pub packed_size : Field → ℕ → ℕ → (ℕ → M EncState (Unit {0})) → M EncState ℕ
packed_size f p_data count func s =
    if pb_ltype f.type == LType.fixed32
    then ok (4 * count) s
    else if pb_ltype f.type == LType.fixed64
    then ok (8 * count) s
    else counted s (each_item count func p_data f.data_size (sizing_state s))

unfoldable pub encode_packed : Field → ℕ → ℕ → (ℕ → M EncState (Unit {0})) → M EncState (Unit {0})
encode_packed f p_data count func = do
  on_output (pb_encode_tag pb_wt_string f.tag)
  size ← packed_size f p_data count func
  on_output (pb_encode_varint size)
  λ s.
      if is_sizing s.output.callback
      then on_output (pb_write [] size) s
      else each_item count func p_data f.data_size s

-- An entry that is not packed: the data of pointer-type strings and bytes is behind a pointer.
unfoldable pub encode_entry : Field → (ℕ → M EncState (Unit {0})) → ℕ → M EncState (Unit {0})
encode_entry f func p = do
  on_output (pb_encode_tag_for_field f)
  target ← read_mem (load 8 p)
  let ltype = pb_ltype f.type
  if pb_atype f.type == AType.pointer && (ltype == LType.string || ltype == LType.bytes)
      then func target
      else func p

unfoldable pub encode_array : Field → ℕ → ℕ → (ℕ → M EncState (Unit {0})) → M EncState (Unit {0})
encode_array f p_data count func =
    if count == 0
    then pure tt
    else if not (pb_atype f.type == AType.pointer) && ltb f.array_size count
    then return_error array_max_size_exceeded
    else if leb (pb_ltype f.type) LType.last_packable
    then encode_packed f p_data count func
    else each_item count (encode_entry f func) p_data f.data_size

-- Where `pSize` points: at the local `implicit_has`, or into the message.
pub data SizePointer : Type 0 where
  local : Bool → SizePointer
  member : ℕ → SizePointer

-- `*(const bool*)pSize`
abbrev pub read_has : SizePointer → Memory → Bool
read_has (local has) m = has
read_has (member a) m = not (load 1 a m == 0)

-- `*(const pb_size_t*)pSize`; four bytes are more than a local `bool` has.
abbrev pub read_count : SizePointer → M EncState ℕ
read_count (local has) s = fault
read_count (member a) s = ok (load 4 a s.mem) s

module _ (env : Env) (nested : Nested) where
  -- The switch on the repetition rule.
  unfoldable pub encode_by_rule : Field → ℕ → SizePointer → M EncState (Unit {0})
  encode_by_rule f p_data size =
      let func = pb_encoders env nested (pb_ltype f.type) f in
      let write = (do on_output (pb_encode_tag_for_field f); func p_data) in
      if pb_htype f.type == HType.required
      then (if p_data == 0 then return_error missing_required_field else write)
      else if pb_htype f.type == HType.optional
      then (do has ← read_mem (read_has size); if has then write else pure tt)
      else if pb_htype f.type == HType.repeated
      then (do count ← read_count size; encode_array f p_data count func)
      else if pb_htype f.type == HType.oneof
      then (do which ← read_count size; if which == f.tag then write else pure tt)
      else return_error invalid_field_type
