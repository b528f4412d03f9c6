-- ===== src/Format/Reads/Values.antt =====
-- The value decoders pb_dec_* of PB_DECODERS on a value's bytes.
use breakpoint.Base.{
  ℕ, ◌+◌, ◌^◌, ◌<◌, ◌≡◌, ◌≢◌, refl, sym, ap, ◌∙◌, false, List, length, length-append, neq→==, ◌==◌,
  arith,
}
use breakpoint.Base.Bytes.{little_endian}
use breakpoint.Outcome.{ok, M}
use breakpoint.Input.Reading.{reading}
use breakpoint.Output.{zigzag}
use breakpoint.Output.Encoding.{varint}
use breakpoint.Wire.{pb_close_string_substream}
use breakpoint.Memory.{Memory, load}
use breakpoint.Descriptor.{Field, pb_ltype, pb_htype}
use breakpoint.Descriptor.LType
use breakpoint.Descriptor.HType
use breakpoint.Decoder.{DecState, Env}
use breakpoint.Decoder.Values.{
  pb_dec_varint, pb_dec_uvarint, pb_dec_svarint, pb_dec_fixed32, pb_dec_fixed64,
}
use breakpoint.Decoder.Fields.{Nested, pb_dec_submessage, pb_decoders}
use breakpoint.RoundTrip.Widths.{IsBytes}
use breakpoint.Format.{Writer, delimited, value_bytes}
use breakpoint.Format.Plain.{
  string, fixed_length_bytes, Kind, varint as signed, uvarint as plain, svarint as zigzagged,
  fixed32, fixed64, message,
}
use breakpoint.Format.Agrees.{Relation}
use breakpoint.Format.Cleared.{over}
use breakpoint.Base.Bytes.{from_little_endian}
use breakpoint.Memory.{store_byte, store_bytes, load_bytes}
use breakpoint.Memory.Stores.{load_bytes-store_bytes}
use breakpoint.Descriptor.{pb_atype}
use breakpoint.Descriptor.AType
use breakpoint.Decoder.Values.{pb_dec_string, pb_dec_fixed_length_bytes}
use breakpoint.Decoder.Kept.{length-load_bytes}
use breakpoint.Encoder.Values.{string_length}
use breakpoint.Format.{text}
use breakpoint.Format.Agrees.{OnlyIn-wider}
use breakpoint.Format.Texts.{string_length-stored}
use breakpoint.Format.Reads.Texts.{
  pb_dec_string-delimited, pb_dec_fixed_length_bytes-delimited, terminated-OnlyIn,
  store_bytes-OnlyIn,
}
use breakpoint.Format.Reads.{pb_make_string_substream-delimited}
use breakpoint.Format.Reads.Numbers.{
  NestedReads, ReadsValue, number, extended, varint-Reads, uvarint-Reads, svarint-Reads,
  fixed32-Reads, fixed64-Reads,
}

module _ (env : Env) (nested : Nested) (inner : Writer) (cleared : List Field → ℕ → Memory → Type 0)
    (agrees : Relation) (m0 : Memory) (bytes : IsBytes m0) (f : Field) (p0 p : ℕ)
    (single : (pb_htype f.type == HType.repeated) ≡ false) where
  abbrev value : List ℕ
  value = value_bytes env.fields_at inner f p0 m0

  message-Reads :
      pb_ltype f.type ≡ LType.submessage
      → f.ptr ≢ 0
      → NestedReads env nested inner cleared agrees m0 f p0 p
      → ReadsValue env nested inner cleared agrees m0 bytes f p0 p single
          (pb_dec_submessage env nested f p)
          (delimited (inner (env.fields_at f.ptr) p0 m0))
  unfolding pb_dec_submessage pb_close_string_substream
  message-Reads l there below rest k e m fits small short clear =
      let body = inner (env.fields_at f.ptr) p0 m0 in
      let total = length-append (varint (length body)) body in
      let (m', run, only, holds) = below l (omega arith) rest e m (clear l) in
      (
        m',
        rw
            (
              pb_make_string_substream-delimited body rest k e (omega arith) fits small,
              neq→== f.ptr 0 there,
              single,
              run,
            )
            (ap (λ n. ok tt (over (reading rest n e) m')) (omega arith)),
        only,
        (λ o. holds, λ o. absurd (omega (arith, l, o)), λ o s. absurd (o l)),
      )

  string-Reads :
      pb_ltype f.type ≡ LType.string
      → f.data_size < 2 ^ 32
      → pb_atype f.type ≡ AType.static
      → string_length f.data_size p0 m0 < f.data_size
      → ReadsValue env nested inner cleared agrees m0 bytes f p0 p single
          (pb_dec_string f p)
          (delimited (text f.data_size p0 m0))
  string-Reads l small static filled rest k e m fits bounded short clear =
      let bs = text f.data_size p0 m0 in
      let counted = length-load_bytes (string_length f.data_size p0 m0) p0 m0 in
      (
        store_byte (p + length bs) 0 (store_bytes p bs m),
        pb_dec_string-delimited f p bs rest k e m small fits bounded static
            (omega (arith, counted)),
        OnlyIn-wider p (p + length bs + 1) p (p + f.data_size) m _ (omega arith)
            (omega (arith, counted)) (terminated-OnlyIn bs p m),
        (
          λ o. absurd (omega (arith, l, o)),
          λ o. sym (
              ap (λ n. text f.data_size p (store_byte (p + n) 0 (store_bytes p bs m))) counted
              ∙ string_length-stored f.data_size p0 p m0 m filled),
          λ o s. absurd (s l),
        ),
      )

  fixed_length_bytes-Reads :
      pb_ltype f.type ≡ LType.fixed_length_bytes
      → 0 < f.data_size
      → f.data_size < 2 ^ 32
      → ReadsValue env nested inner cleared agrees m0 bytes f p0 p single
          (pb_dec_fixed_length_bytes f p)
          (delimited (load_bytes f.data_size p0 m0))
  fixed_length_bytes-Reads l some small rest k e m fits bounded short clear =
      let bs = load_bytes f.data_size p0 m0 in
      let counted = length-load_bytes f.data_size p0 m0 in
      let loaded : load_bytes f.data_size p (store_bytes p bs m) ≡ bs =
        ap (λ n. load_bytes n p (store_bytes p bs m)) (sym counted)
        ∙ load_bytes-store_bytes bs p m in
      (
        store_bytes p bs m,
        pb_dec_fixed_length_bytes-delimited f p bs rest k e m small fits bounded some counted,
        OnlyIn-wider p (p + length bs) p (p + f.data_size) m _ (omega arith)
            (omega (arith, counted)) (store_bytes-OnlyIn bs p m),
        (
          λ o. absurd (omega (arith, l, o)),
          λ o. absurd (omega (arith, l, o)),
          λ o s. unfold load in ap from_little_endian (sym loaded),
        ),
      )

  abbrev Same2 : M DecState (Unit {0}) → List ℕ → Type 0
  Same2 step v = (pb_decoders env nested (pb_ltype f.type) f p ≡ step) × (value ≡ v)

  choose :
      (step : M DecState (Unit {0})) (v : List ℕ)
      → Same2 step v
      → ReadsValue env nested inner cleared agrees m0 bytes f p0 p single step v
      → ReadsValue env nested inner cleared agrees m0 bytes f p0 p single
          (pb_decoders env nested (pb_ltype f.type) f p)
          value
  choose step v (a, b) h = rw (a, b) h

  -- The decoder of the field's type reads the field's value.
  pub value-Reads :
      Kind f
      → pb_atype f.type ≡ AType.static
      → (pb_ltype f.type ≡ LType.string → string_length f.data_size p0 m0 < f.data_size)
      → NestedReads env nested inner cleared agrees m0 f p0 p
      → ReadsValue env nested inner cleared agrees m0 bytes f p0 p single
          (pb_decoders env nested (pb_ltype f.type) f p)
          value
  unfolding pb_decoders value_bytes
  value-Reads (signed l w) static filled below =
      choose (pb_dec_varint f p)
        (varint (extended env nested inner cleared agrees m0 bytes f p0 p single))
        (rw l refl, rw l refl)
        (varint-Reads env nested inner cleared agrees m0 bytes f p0 p single l w)
  value-Reads (plain l w) static filled below =
      choose (pb_dec_uvarint f p)
        (varint (number env nested inner cleared agrees m0 bytes f p0 p single))
        (rw l refl, rw l refl)
        (uvarint-Reads env nested inner cleared agrees m0 bytes f p0 p single l w)
  value-Reads (zigzagged l w) static filled below =
      choose (pb_dec_svarint f p)
        (varint (zigzag (extended env nested inner cleared agrees m0 bytes f p0 p single)))
        (rw l refl, rw l refl)
        (svarint-Reads env nested inner cleared agrees m0 bytes f p0 p single l w)
  value-Reads (fixed32 l w) static filled below =
      choose (pb_dec_fixed32 f p)
        (little_endian 4 (number env nested inner cleared agrees m0 bytes f p0 p single))
        (rw l refl, rw (l, w) refl)
        (fixed32-Reads env nested inner cleared agrees m0 bytes f p0 p single l w)
  value-Reads (fixed64 l w) static filled below =
      choose (pb_dec_fixed64 f p)
        (little_endian 8 (number env nested inner cleared agrees m0 bytes f p0 p single))
        (rw l refl, rw (l, w) refl)
        (fixed64-Reads env nested inner cleared agrees m0 bytes f p0 p single l w)
  value-Reads (message l there) static filled below =
      choose (pb_dec_submessage env nested f p) (delimited (inner (env.fields_at f.ptr) p0 m0))
        (rw l refl, rw l refl) (message-Reads l there below)
  value-Reads (string l w) static filled below =
      choose (pb_dec_string f p) (delimited (text f.data_size p0 m0)) (rw l refl, rw l refl)
        (string-Reads l w static (filled l))
  value-Reads (fixed_length_bytes l some w) static filled below =
      choose (pb_dec_fixed_length_bytes f p) (delimited (load_bytes f.data_size p0 m0))
        (rw l refl, rw l refl) (fixed_length_bytes-Reads l some w)
