-- ===== src/Format/Reads/Numbers.antt =====
-- The decoders of numbers of PB_DECODERS on a value's bytes.
use breakpoint.Base.{
  ℕ, ◌+◌, ◌-◌, ◌*◌, ◌^◌, ◌≤◌, ◌<◌, ◌≡◌, sym, ap, ◌∙◌, false, Option, List, ◌++◌, length, ◌==◌,
  arith,
}
use breakpoint.Base.Bytes.{little_endian}
use breakpoint.Errors.{ErrMsg}
use breakpoint.Outcome.{ok, M}
use breakpoint.Input.Reading.{reading}
use breakpoint.Output.{zigzag}
use breakpoint.Output.Encoding.{varint}
use breakpoint.Wire.Varint.{pb_decode_varint-varint}
use breakpoint.Wire.Numbers.{
  pb_decode_svarint-zigzag, pb_decode_fixed32-little_endian, pb_decode_fixed64-little_endian,
}
use breakpoint.Memory.{Memory, load, store}
use breakpoint.Memory.Stores.{load-store, length-little_endian}
use breakpoint.Descriptor.{Field, pb_ltype, pb_htype}
use breakpoint.Descriptor.LType
use breakpoint.Descriptor.HType
use breakpoint.Decoder.{DecState, Env, with_mem}
use mathlib.Core.Path.{subst}
use breakpoint.Decoder.Values.{
  sign_extend, pb_dec_varint, pb_dec_uvarint, pb_dec_svarint, pb_dec_fixed32, pb_dec_fixed64,
}
use breakpoint.Decoder.Fields.{Nested}
use breakpoint.RoundTrip.Widths.{IsWidth, IsBytes, sign_extend-lt, load-bound, width-lt}
use breakpoint.RoundTrip.Values.{dec_varint, dec_uvarint, dec_svarint}
use breakpoint.RoundTrip.Fixed.{dec_fixed32, dec_fixed64}
use breakpoint.Format.{Writer}
use breakpoint.Format.Agrees.{Relation, SameValue}
use breakpoint.Format.Cleared.{over, store-OnlyIn}
use breakpoint.Base.{◌≤◌}
use breakpoint.Format.Reads.{Reads}

module _ (env : Env) (nested : Nested) (inner : Writer) (cleared : List Field → ℕ → Memory → Type 0)
    (agrees : Relation) (m0 : Memory) (f : Field) (p0 p : ℕ) where
  -- The nested message, in its substream, into a structure whose flags are at 0.
  abbrev pub NestedReads : Type 0
  NestedReads =
      pb_ltype f.type ≡ LType.submessage
      → length (inner (env.fields_at f.ptr) p0 m0) < 2 ^ 32
      → (rest : List ℕ) (e : Option ErrMsg) (m : Memory) → cleared (env.fields_at f.ptr) p m
      → Reads (nested.decode_noinit (env.fields_at f.ptr) p)
          (reading (inner (env.fields_at f.ptr) p0 m0 ++ rest)
            (length (inner (env.fields_at f.ptr) p0 m0)) e)
          (reading rest 0 e) p (p + f.data_size) m (λ m'. agrees (env.fields_at f.ptr) p0 m0 p m')

module _ (env : Env) (nested : Nested) (inner : Writer) (cleared : List Field → ℕ → Memory → Type 0)
    (agrees : Relation) (m0 : Memory) (bytes : IsBytes m0) (f : Field) (p0 p : ℕ)
    (single : (pb_htype f.type == HType.repeated) ≡ false) where
  -- A decoder of the field on the bytes `v` of its value.
  abbrev pub ReadsValue : M DecState (Unit {0}) → List ℕ → Type 0
  ReadsValue step v =
      (rest : List ℕ) (k : ℕ) (e : Option ErrMsg) (m : Memory)
      → length v ≤ k
      → k < 2 ^ 64
      → length v < 2 ^ 32
      → (pb_ltype f.type ≡ LType.submessage → cleared (env.fields_at f.ptr) p m)
      → Reads step (reading (v ++ rest) k e) (reading rest (k - length v) e) p (p + f.data_size) m
          (λ m'. SameValue env.fields_at agrees f p0 m0 p m')

  abbrev pub number : ℕ
  number = load f.data_size p0 m0

  abbrev pub extended : ℕ
  extended = sign_extend (8 * f.data_size) number

  stored :
      (step : M DecState (Unit {0})) (v rest : List ℕ) (k : ℕ) (e : Option ErrMsg) (m : Memory)
      → pb_ltype f.type ≤ LType.last_packable
      → step (over (reading (v ++ rest) k e) m)
        ≡ ok tt (over (reading rest (k - length v) e) (store f.data_size p number m))
      → Reads step
          (reading (v ++ rest) k e)
          (reading rest (k - length v) e)
          p
          (p + f.data_size)
          m
          (λ m'. SameValue env.fields_at agrees f p0 m0 p m')
  stored step v rest k e m scalar run = (
    store f.data_size p number m,
    run,
    store-OnlyIn f.data_size p number m,
    (
      λ l. absurd (omega (arith, l)),
      λ l. absurd (omega (arith, l)),
      λ o s. sym (load-store f.data_size p number m (load-bound f.data_size p0 m0 bytes)),
    ),
  )

  pub varint-Reads :
      pb_ltype f.type ≡ LType.varint
      → IsWidth f.data_size
      → ReadsValue (pb_dec_varint f p) (varint extended)
  varint-Reads l w rest k e m fits small short clear =
      let bound = load-bound f.data_size p0 m0 bytes in
      stored (pb_dec_varint f p) (varint extended) rest k e m (omega (arith, l)) (
        dec_varint f p number _ _ w bound (
          ap (with_mem m) (
            pb_decode_varint-varint extended rest k e (sign_extend-lt f.data_size number w bound)
              fits small)))

  pub uvarint-Reads :
      pb_ltype f.type ≡ LType.uvarint
      → IsWidth f.data_size
      → ReadsValue (pb_dec_uvarint f p) (varint number)
  uvarint-Reads l w rest k e m fits small short clear =
      let bound = load-bound f.data_size p0 m0 bytes in
      stored (pb_dec_uvarint f p) (varint number) rest k e m (omega (arith, l)) (
        dec_uvarint f p number _ _ w bound (
          ap (with_mem m) (
            pb_decode_varint-varint number rest k e (width-lt f.data_size number w bound) fits
              small)))

  pub svarint-Reads :
      pb_ltype f.type ≡ LType.svarint
      → IsWidth f.data_size
      → ReadsValue (pb_dec_svarint f p) (varint (zigzag extended))
  svarint-Reads l w rest k e m fits small short clear =
      let bound = load-bound f.data_size p0 m0 bytes in
      stored (pb_dec_svarint f p) (varint (zigzag extended)) rest k e m (omega (arith, l)) (
        dec_svarint f p number _ _ w bound (
          ap (with_mem m) (
            pb_decode_svarint-zigzag extended rest k e (sign_extend-lt f.data_size number w bound)
              fits small)))

  pub fixed32-Reads :
      pb_ltype f.type ≡ LType.fixed32
      → f.data_size ≡ 4
      → ReadsValue (pb_dec_fixed32 f p) (little_endian 4 number)
  fixed32-Reads l w rest k e m fits small short clear =
      let wide = length-little_endian 4 number in
      let bound : number < 256 ^ 4 =
        subst (λ n. number < 256 ^ n) w (load-bound f.data_size p0 m0 bytes) in
      stored (pb_dec_fixed32 f p) (little_endian 4 number) rest k e m (omega (arith, l)) (
        dec_fixed32 f p number _ (over (reading rest (k - length (little_endian 4 number)) e) m) (
          ap (with_mem m) (
            pb_decode_fixed32-little_endian number rest k e (omega arith) (omega arith) small
            ∙ ap (λ n. ok number (reading rest (k - n) e)) (sym wide)))
        ∙ ap
            (λ n.
              ok tt
                (over (reading rest (k - length (little_endian 4 number)) e) (store n p number m)))
            (sym w))

  pub fixed64-Reads :
      pb_ltype f.type ≡ LType.fixed64
      → f.data_size ≡ 8
      → ReadsValue (pb_dec_fixed64 f p) (little_endian 8 number)
  fixed64-Reads l w rest k e m fits small short clear =
      let wide = length-little_endian 8 number in
      let bound : number < 256 ^ 8 =
        subst (λ n. number < 256 ^ n) w (load-bound f.data_size p0 m0 bytes) in
      stored (pb_dec_fixed64 f p) (little_endian 8 number) rest k e m (omega (arith, l)) (
        dec_fixed64 f p number _ (over (reading rest (k - length (little_endian 8 number)) e) m) (
          ap (with_mem m) (
            pb_decode_fixed64-little_endian number rest k e (omega arith) (omega arith) small
            ∙ ap (λ n. ok number (reading rest (k - n) e)) (sym wide)))
        ∙ ap
            (λ n.
              ok tt
                (over (reading rest (k - length (little_endian 8 number)) e) (store n p number m)))
            (sym w))
