-- ===== src/Format/Reads/Fields.antt =====
-- Decoding one field reads the value of its entry.
use breakpoint.Base.{
  ℕ, ◌+◌, ◌-◌, ◌^◌, ◌≤◌, ◌<◌, ◌≡◌, refl, sym, ap, ◌∙◌, false, Option, List, ◌++◌, length, neq→==,
  inl, inr, arith,
}
use breakpoint.Base.Int.{negsuc}
use breakpoint.Errors.{ErrMsg}
use breakpoint.Outcome.{M}
use breakpoint.Input.{Istream}
use breakpoint.Input.Reading.{reading}
use breakpoint.Memory.{Memory, load, store}
use breakpoint.Memory.Stores.{load-store}
use breakpoint.Descriptor.{Field, field_at, offset_by, pb_ltype, pb_htype}
use breakpoint.Descriptor.LType
use breakpoint.Descriptor.HType
use breakpoint.FieldIter.{Iter}
use breakpoint.FieldIter.Layout.{iter_at}
use breakpoint.Decoder.{DecState, Env}
use breakpoint.Decoder.Fields.{Nested, pb_decoders, decode_static_field}
use breakpoint.Decoder.Callbacks.{decode_field}
use breakpoint.Decoder.Required.Count.{field-iter_at}
use breakpoint.Encoder.Values.{string_length}
use breakpoint.RoundTrip.Widths.{IsBytes}
use breakpoint.Format.{Writer, is_absent, value_bytes}
use breakpoint.Format.Plain.{
  Rule, required, optional, offset_at, p_data-iter_at, p_size-iter_at, IsPlainField, not_repeated,
}
use breakpoint.Format.Agrees.{
  Relation, Alike, SameEntry, OnlyIn-wider, OnlyIn-trans, OnlyIn-Alike, load-Alike,
}
use breakpoint.Format.Cleared.{over, store-OnlyIn}
use breakpoint.Format.Reads.{Reads}
use breakpoint.Format.Reads.Numbers.{NestedReads}
use breakpoint.Format.Reads.Values.{value-Reads}

module _ (env : Env) (nested : Nested) (inner : Writer) (cleared : List Field → ℕ → Memory → Type 0)
    (agrees : Relation) (m0 : Memory) (bytes : IsBytes m0) (fields : List Field)
    (dest i lo hi p0 : ℕ) (here : IsPlainField fields i lo hi)
    (below : NestedReads env nested inner cleared agrees m0
      (field_at fields i)
      p0
      (iter_at fields dest i).p_data)
    (stable : pb_ltype (field_at fields i).type ≡ LType.submessage
      → (m m' : Memory)
      → Alike
          (iter_at fields dest i).p_data
          ((iter_at fields dest i).p_data + (field_at fields i).data_size)
          m
          m'
      → cleared (env.fields_at (field_at fields i).ptr) (iter_at fields dest i).p_data m
      → cleared (env.fields_at (field_at fields i).ptr) (iter_at fields dest i).p_data m')
    (filled : pb_ltype (field_at fields i).type ≡ LType.string
      → string_length (field_at fields i).data_size p0 m0 < (field_at fields i).data_size)
    (present : is_absent (field_at fields i) p0 m0 ≡ false) where
  abbrev f : Field
  f = field_at fields i

  abbrev it : Iter
  it = iter_at fields dest i

  abbrev value : List ℕ
  value = value_bytes env.fields_at inner f p0 m0

  -- The decoder of the field on its value.
  abbrev ReadsEntry : M DecState (Unit {0}) → Memory → Type 0
  ReadsEntry step m =
      (rest : List ℕ) (k : ℕ) (e : Option ErrMsg)
      → length value ≤ k
      → k < 2 ^ 64
      → length value < 2 ^ 32
      → (pb_ltype f.type ≡ LType.submessage → cleared (env.fields_at f.ptr) it.p_data m)
      → Reads step (reading (value ++ rest) k e) (reading rest (k - length value) e) (dest + lo)
          (dest + hi) m (λ m'. SameEntry env.fields_at agrees f p0 m0 it.p_data m')

  required-Reads :
      (wire_type : ℕ) (m : Memory)
      → pb_htype f.type ≡ HType.required
      → ReadsEntry (decode_field env nested wire_type it) m
  unfolding decode_field decode_static_field
  required-Reads wire_type m r rest k e fits small short clear =
      let place = p_data-iter_at fields dest i in
      let (m', run, only, same) =
        value-Reads env nested inner cleared agrees m0 bytes f p0 it.p_data
          (not_repeated f (offset_at fields i) lo here.rule) here.kind here.static filled below rest
          k e m fits small short clear in
      (
        m',
        rw (field-iter_at fields dest i, here.static, r) run,
        OnlyIn-wider it.p_data (it.p_data + f.data_size) (dest + lo) (dest + hi) m m'
            (omega (arith, place, here.low)) (omega (arith, place, here.high)) only,
        (rw r refl, λ _. same),
      )

  optional_step :
      (wire_type j : ℕ) (input : Istream) (m : Memory)
      → pb_htype f.type ≡ HType.optional
      → f.size_offset ≡ negsuc j
      → lo + j + 1 ≤ offset_at fields i
      → decode_field env nested wire_type it (over input m)
        ≡ pb_decoders env nested
            (pb_ltype f.type)
            f
            it.p_data
            (over input (store 1 (it.p_data - (j + 1)) 1 m))
  unfolding decode_field decode_static_field
  optional_step wire_type j input m o at room =
      let place = p_data-iter_at fields dest i in
      let flag : it.p_size ≡ it.p_data - (j + 1) =
        p_size-iter_at fields dest i (offset_at fields i) lo here.rule
        ∙ ap (offset_by it.p_data) at in
      rw
        (
          field-iter_at fields dest i,
          here.static,
          o,
          flag,
          neq→== (it.p_data - (j + 1)) it.p_data (omega (arith, place)),
        )
        refl

  optional-Reads :
      (wire_type : ℕ) (m : Memory) (j : ℕ)
      → pb_htype f.type ≡ HType.optional
      → f.size_offset ≡ negsuc j
      → lo + j + 1 ≤ offset_at fields i
      → ReadsEntry (decode_field env nested wire_type it) m
  optional-Reads wire_type m j o at room rest k e fits small short clear =
      let p = it.p_data in
      let place = p_data-iter_at fields dest i in
      let q = p - (j + 1) in
      let m1 = store 1 q 1 m in
      let apart =
        OnlyIn-Alike q (q + 1) p (p + f.data_size) m m1 (inr (omega (arith, place)))
          (store-OnlyIn 1 q 1 m) in
      let (m', run, only, same) =
        value-Reads env nested inner cleared agrees m0 bytes f p0 p
          (not_repeated f (offset_at fields i) lo here.rule) here.kind here.static filled below rest
          k e m1 fits small short (λ l. stable l m m1 apart (clear l)) in
      let kept =
        load-Alike 1 q m1 m'
          (OnlyIn-Alike p (p + f.data_size) q (q + 1) m1 m' (inl (omega (arith, place))) only) in
      let set : load 1 q m' ≡ 1 = sym kept ∙ load-store 1 q 1 m (omega arith) in
      let shown : is_absent f p m' ≡ false = rw (o, ap (offset_by p) at, set) refl in
      (
        m',
        optional_step wire_type j (reading (value ++ rest) k e) m o at room ∙ run,
        OnlyIn-trans (dest + lo) p (dest + hi) m m1 m' (omega (arith, place, here.low))
            (omega (arith, place, here.high))
            (OnlyIn-wider q (q + 1) (dest + lo) p m m1 (omega (arith, place)) (omega (arith, place))
              (store-OnlyIn 1 q 1 m))
            (OnlyIn-wider p (p + f.data_size) p (dest + hi) m1 m' (omega arith)
              (omega (arith, place, here.high)) only),
        (present ∙ sym shown, λ _. same),
      )

  pub entry-Reads :
      (wire_type : ℕ) (m : Memory) → ReadsEntry (decode_field env nested wire_type it) m
  entry-Reads wire_type m = by_rule here.rule
    where
      by_rule : Rule f (offset_at fields i) lo → ReadsEntry (decode_field env nested wire_type it) m
      by_rule (required e) = required-Reads wire_type m e
      by_rule (optional e k at fits) = optional-Reads wire_type m k e at fits
