-- ===== src/Encoder/Messages.antt =====
-- Fields by allocation type, extensions and whole messages (Pods/nanopb/pb_encode.c).
use breakpoint.Base.{
  ℕ, zero, suc, ◌+◌, Bool, true, false, ◌||◌, not, ◌==◌, if◌then◌else◌, Option, none, some, List,
}
use breakpoint.Base.Int.{ℤ, pos, negsuc}
use breakpoint.Errors.{invalid_field_type, callback_error}
use breakpoint.Outcome.{Outcome, ok, fail, fault, stuck, M, pure, ◌>>=◌, ◌>>◌}
use breakpoint.Memory.{load}
use breakpoint.Descriptor.{Field, field_at, offset_by, pb_ltype, pb_htype, pb_atype}
use breakpoint.Descriptor.LType
use breakpoint.Descriptor.HType
use breakpoint.Descriptor.AType
use breakpoint.FieldIter.{Iter, field, for_fields}
use breakpoint.Decoder.Defaults.{extension_dest, extension_next}
use breakpoint.Encoder.{EncState, Env, return_error, read_mem}
use breakpoint.Encoder.Values.{pb_encode_submessage, sizing_state}
use breakpoint.Encoder.Fields.{
  Nested, pb_check_proto3_default_value, SizePointer, local, member, encode_by_rule,
}

-- `if (field->size_offset)`
abbrev pub is_zero : ℤ → Bool
is_zero (pos n) = n == 0
is_zero (negsuc n) = false

-- `none` cannot say whether the value is a default: the nesting passed the bound.
abbrev pub implicit : Option Bool → M EncState SizePointer
implicit none s = stuck
implicit (some default) s = ok (local (not default)) s

-- `implicit_has = (pData != NULL)`, which `*pSize` shows if `pSize` points at it
abbrev pub through : SizePointer → ℕ → SizePointer
through (local has) target = local (not (target == 0))
through (member a) target = member a

abbrev pub or_callback_error : Outcome EncState (Unit {0}) → Outcome EncState (Unit {0})
or_callback_error (ok _ t) = ok tt t
or_callback_error (fail t) = return_error callback_error t
or_callback_error fault = fault
or_callback_error stuck = stuck

module _ (env : Env) (nested : Nested) (n : ℕ) where
  -- The choice of `pSize`, before a pointer is followed.
  unfoldable pub size_pointer : Field → ℕ → M EncState SizePointer
  size_pointer f p_data =
      if not (is_zero f.size_offset)
      then pure (member (offset_by p_data f.size_offset))
      else if pb_htype f.type == HType.optional
      then (λ s. implicit (pb_check_proto3_default_value env n s.mem f p_data) s)
      else pure (local true)

  unfoldable pub encode_basic_field : Field → ℕ → M EncState (Unit {0})
  encode_basic_field f p_data = do
    size ← size_pointer f p_data
    target ← read_mem (load 8 p_data)
    if pb_atype f.type == AType.pointer
        then encode_by_rule env nested f target (through size target)
        else encode_by_rule env nested f p_data size

  unfoldable pub encode_callback_field : Field → ℕ → M EncState (Unit {0})
  encode_callback_field f p_data = do
    fn ← read_mem (load 8 p_data)
    if fn == 0 then pure tt else (λ s. or_callback_error (env.call_encode fn f (p_data + 8) s))

  unfoldable pub encode_field : Field → ℕ → M EncState (Unit {0})
  encode_field f p_data =
      let atype = pb_atype f.type in
      if atype == AType.static || atype == AType.pointer
      then encode_basic_field f p_data
      else if atype == AType.callback
      then encode_callback_field f p_data
      else return_error invalid_field_type

  unfoldable pub default_extension_encoder : ℕ → M EncState (Unit {0})
  default_extension_encoder ext s =
      let f = field_at (env.fields_at (env.extension_type (load 8 ext s.mem)).arg) 0 in
      (if pb_atype f.type == AType.pointer
          then encode_field f (extension_dest ext)
          else encode_field f (load 8 (extension_dest ext) s.mem))
        s

  unfoldable pub encode_one_extension : ℕ → M EncState (Unit {0})
  encode_one_extension ext s =
      let fn = (env.extension_type (load 8 ext s.mem)).encode in
      if fn == 0 then default_extension_encoder ext s else env.call_extension fn ext s

  -- `while (extension)`, for a list no longer than the first parameter
  unfoldable pub extension_loop : ℕ → ℕ → M EncState (Unit {0})
  extension_loop zero ext s = stuck
  extension_loop (suc k) ext s =
      let rest =
        (do
          encode_one_extension ext
          next ← read_mem (load 8 (extension_next ext))
          extension_loop k next)
          s in
      if ext == 0 then ok tt s else rest

  unfoldable pub encode_extension_field : ℕ → M EncState (Unit {0})
  encode_extension_field p_data = do ext ← read_mem (load 8 p_data); extension_loop n ext

  -- One round of the loop in pb_encode.
  unfoldable pub encode_entry_at : Iter → M EncState (Unit {0})
  encode_entry_at it =
      if pb_ltype (field it).type == LType.extension
      then encode_extension_field it.p_data
      else encode_field (field it) it.p_data

module _ (env : Env) where
  -- The first parameter bounds the nesting of messages, and the length of a list of extensions.
  unfoldable pub pb_encode : ℕ → List Field → ℕ → M EncState (Unit {0})
  pb_encode zero fields src s = stuck
  pb_encode (suc n) fields src s =
      for_fields (encode_entry_at env (λ fs p t. pb_encode n fs p t) n) fields src s

  unfoldable pub pb_encode_delimited : ℕ → List Field → ℕ → M EncState (Unit {0})
  pb_encode_delimited n fields src = pb_encode_submessage (pb_encode n fields src)

  abbrev pub size_of : EncState → Outcome EncState (Unit {0}) → Outcome EncState ℕ
  size_of s (ok _ t) = ok t.output.bytes_written (record s { mem = t.mem })
  size_of s (fail t) = fail (record s { mem = t.mem })
  size_of s fault = fault
  size_of s stuck = stuck

  -- The stream is a local of the function; the state's own is not touched.
  unfoldable pub pb_get_encoded_size : ℕ → List Field → ℕ → M EncState ℕ
  pb_get_encoded_size n fields src s = size_of s (pb_encode n fields src (sizing_state s))
