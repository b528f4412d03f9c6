-- ===== src/Decoder/Fields.antt =====
-- Decoding one field (Pods/nanopb/pb_decode.c, "Decode a single field"), with the extensions.
use breakpoint.Decoder.{not_null}
use breakpoint.Base.{
  ℕ, zero, suc, ◌+◌, ◌*◌, ◌%◌, ◌^◌, Bool, true, false, ◌&&◌, ltb, leb, ◌==◌, if◌then◌else◌, List,
}
use breakpoint.Errors.{set_error, array_overflow, invalid_field_type, invalid_field_descriptor}
use breakpoint.Outcome.{Outcome, ok, fail, fault, stuck, M, pure, ◌>>=◌, ◌>>◌}
use breakpoint.Input.{Istream}
use breakpoint.Wire.{pb_wt_string, pb_make_string_substream, pb_close_string_substream}
use breakpoint.Memory.{Memory, load, store, memset_zero}
use breakpoint.Descriptor.{Field, pb_ltype, pb_htype}
use breakpoint.Descriptor.LType
use breakpoint.Descriptor.HType
use breakpoint.FieldIter.{Iter, field}
use breakpoint.Decoder.{DecState, Env, return_error, on_input, on_mem, read_mem}
use breakpoint.Decoder.Values.{
  pb_dec_varint, pb_dec_uvarint, pb_dec_svarint, pb_dec_fixed32, pb_dec_fixed64, pb_dec_bytes,
  pb_dec_string, pb_dec_fixed_length_bytes,
}

-- How a nested message is treated: pb_decode, pb_decode_noinit and pb_message_set_to_defaults, for
-- one level less of nesting.
pub record Nested : Type 0 where
  pub decode : List Field → ℕ → M DecState (Unit {0})
  pub decode_noinit : List Field → ℕ → M DecState (Unit {0})
  pub set_to_defaults : List Field → ℕ → M DecState (Unit {0})

-- `if (!pb_close_string_substream(stream, &substream)) return false; return status;`
abbrev pub close_returning :
    Bool → Memory → Outcome Istream (Unit {0}) → Outcome DecState (Unit {0})
close_returning true m (ok _ i) = ok tt (record { input = i; mem = m })
close_returning false m (ok _ i) = fail (record { input = i; mem = m })
close_returning status m (fail i) = fail (record { input = i; mem = m })
close_returning status m fault = fault
close_returning status m stuck = stuck

abbrev pub close_after : Istream → Outcome DecState (Unit {0}) → Outcome DecState (Unit {0})
close_after parent (ok _ t) = close_returning true t.mem (pb_close_string_substream t.input parent)
close_after parent (fail t) = close_returning false t.mem (pb_close_string_substream t.input parent)
close_after parent fault = fault
close_after parent stuck = stuck

-- `status = body(&substream); ` and the closing; the stream of the state is the parent.
abbrev pub in_substream : Istream → M DecState (Unit {0}) → M DecState (Unit {0})
in_substream sub body s = close_after s.input (body (record s { input = sub }))

module _ (env : Env) (nested : Nested) where
  unfoldable pub pb_dec_submessage : Field → ℕ → M DecState (Unit {0})
  pb_dec_submessage f dest = do
    sub ← on_input pb_make_string_substream
    if f.ptr == 0
        then return_error invalid_field_descriptor
        else if pb_htype f.type == HType.repeated
        then in_substream sub (nested.decode (env.fields_at f.ptr) dest)
        else in_substream sub (nested.decode_noinit (env.fields_at f.ptr) dest)

  -- PB_DECODERS. A call of the NULL entry, or of one behind the table, is a fault.
  unfoldable pub pb_decoders : ℕ → Field → ℕ → M DecState (Unit {0})
  pb_decoders ltype =
      if ltype == LType.varint
      then pb_dec_varint
      else if ltype == LType.uvarint
      then pb_dec_uvarint
      else if ltype == LType.svarint
      then pb_dec_svarint
      else if ltype == LType.fixed32
      then pb_dec_fixed32
      else if ltype == LType.fixed64
      then pb_dec_fixed64
      else if ltype == LType.bytes
      then pb_dec_bytes
      else if ltype == LType.string
      then pb_dec_string
      else if ltype == LType.submessage
      then pb_dec_submessage
      else if ltype == LType.fixed_length_bytes
      then pb_dec_fixed_length_bytes
      else (λ f dest s. fault)

-- `(*size)++` on a pb_size_t
abbrev pub increment : ℕ → Memory → Memory
increment a m = store 4 a ((load 4 a m + 1) % 2 ^ 32) m

-- The loop over a packed array. Each round takes a byte at least, so one round more than the bytes
-- of the substream is enough.
unfoldable pub packed_loop : ℕ → (Field → ℕ → M DecState (Unit {0})) → Iter → M DecState (Unit {0})
packed_loop zero func it s = stuck
packed_loop (suc n) func it s =
    let count = load 4 it.p_size s.mem in
    let f = field it in
    let rest =
      (do
        func f (it.p_data + f.data_size * count % 2 ^ 32)
        on_mem (increment it.p_size)
        packed_loop n func it)
        s in
    if ltb 0 s.input.bytes_left && ltb count f.array_size then rest else ok tt s

-- What follows the loop: bytes that are left do not fit.
abbrev pub overflow_or :
    Istream → DecState → Outcome DecState (Unit {0}) → Outcome DecState (Unit {0})
overflow_or parent t closed =
    if t.input.bytes_left == 0
    then closed
    else fail (record {
      input = record parent { errmsg = set_error parent.errmsg array_overflow };
      mem = t.mem;
    })

abbrev pub packed_end : Istream → Outcome DecState (Unit {0}) → Outcome DecState (Unit {0})
packed_end parent (ok _ t) = overflow_or parent t (close_after parent (ok tt t))
packed_end parent (fail t) = overflow_or parent t (close_after parent (fail t))
packed_end parent fault = fault
packed_end parent stuck = stuck

module _ (env : Env) (nested : Nested) where
  unfoldable pub decode_repeated : ℕ → Iter → M DecState (Unit {0})
  decode_repeated wire_type it =
      let f = field it in
      let func = pb_decoders env nested (pb_ltype f.type) in
      if wire_type == pb_wt_string && leb (pb_ltype f.type) LType.last_packable
      then (do
        sub ← on_input pb_make_string_substream
        λ s.
            packed_end s.input
              (packed_loop (suc sub.bytes_left) func it (record s { input = sub })))
      else (do
        count ← read_mem (load 4 it.p_size)
        if leb f.array_size count then return_error array_overflow else (do
          on_mem (increment it.p_size)
          func f (it.p_data + f.data_size * count % 2 ^ 32)))

  unfoldable pub decode_static_field : ℕ → Iter → M DecState (Unit {0})
  decode_static_field wire_type it =
      let f = field it in
      let func = pb_decoders env nested (pb_ltype f.type) f it.p_data in
      if pb_htype f.type == HType.required
      then func
      else if pb_htype f.type == HType.optional
      then (if it.p_size == it.p_data then func else (do on_mem (store 1 it.p_size 1); func))
      else if pb_htype f.type == HType.repeated
      then decode_repeated wire_type it
      else if pb_htype f.type == HType.oneof
      then (do
        on_mem (store 4 it.p_size f.tag)
        if pb_ltype f.type == LType.submessage
            then (do
              on_mem (memset_zero it.p_data f.data_size)
              not_null f.ptr (nested.set_to_defaults (env.fields_at f.ptr) it.p_data))
            else pure tt
        func)
      else return_error invalid_field_type
