-- ===== src/Decoder/Steady/Fields.antt =====
-- Static fields are steady, over steady functions for nested messages.
use breakpoint.Base.{◌≢◌, neq→==}
use breakpoint.Base.{
  ℕ, zero, suc, ◌<◌, ◌≡◌, inl, inr, refl, Bool, true, false, ◌&&◌, List, ltb, leb, ◌==◌, ==_iff,
  if◌then◌else◌, arith, Bool-cases,
}
use breakpoint.Errors.{invalid_field_descriptor}
use breakpoint.Outcome.{Outcome, ok, fail, fault, stuck, M, continue}
use breakpoint.Input.{Istream}
use breakpoint.Input.Reading.{IsSound}
use breakpoint.Input.Safety.{Follows-refl}
use breakpoint.Wire.{pb_wt_string}
use breakpoint.Memory.{load}
use breakpoint.Descriptor.{Field, pb_ltype, pb_htype}
use breakpoint.Descriptor.LType
use breakpoint.Descriptor.HType
use breakpoint.FieldIter.{Iter, field}
use breakpoint.Decoder.Decodable.{HasDecoder}
use breakpoint.Decoder.{DecState, Env}
use breakpoint.Decoder.Steady.{
  Steady, Steady-after, IsSteady, Eager, IsEager, IsEager-IsSteady, steady_rules,
}
use breakpoint.Decoder.Steady.Values.{
  pb_dec_varint-IsEager, pb_dec_uvarint-IsEager, pb_dec_svarint-IsEager, pb_dec_fixed32-IsEager,
  pb_dec_fixed64-IsEager, pb_dec_bytes-IsSteady, pb_dec_string-IsSteady,
  pb_dec_fixed_length_bytes-IsSteady,
}
use breakpoint.Decoder.Steady.Substreams.{
  parent-Lags, close_after-Steady, packed_end-Steady, IsSteady-open,
}
use breakpoint.Decoder.Fields.{
  Nested, pb_dec_submessage, pb_decoders, packed_loop, increment, decode_repeated,
  decode_static_field,
}

-- The functions for nested messages are steady on these descriptors.
pub record IsBelow (nested : Nested) (fields : List Field) : Type 0 where
  pub decode : (dest : ℕ) → IsSteady (nested.decode fields dest)
  pub decode_noinit : (dest : ℕ) → IsSteady (nested.decode_noinit fields dest)
  pub set_to_defaults : (dest : ℕ) → IsSteady (nested.set_to_defaults fields dest)

-- A descriptor that can be decoded.
pub record Suits (env : Env) (nested : Nested) (f : Field) : Type 0 where
  pub decoder : HasDecoder (pb_ltype f.type)
  pub there : pb_ltype f.type ≡ LType.submessage → f.ptr ≢ 0
  pub below : pb_ltype f.type ≡ LType.submessage → IsBelow nested (env.fields_at f.ptr)

module _ (f : Field) (dest : ℕ) where
  choose-IsSteady :
      (b : Bool) (g h : Field → ℕ → M DecState (Unit {0}))
      → (b ≡ true → IsSteady (g f dest))
      → (b ≡ false → IsSteady (h f dest))
      → IsSteady ((if b then g else h) f dest)
  choose-IsSteady true g h p q = p refl
  choose-IsSteady false g h p q = q refl

  choose-IsEager :
      (b : Bool) (g h : Field → ℕ → M DecState (Unit {0}))
      → IsEager (g f dest)
      → (b ≡ false → IsEager (h f dest))
      → IsEager ((if b then g else h) f dest)
  choose-IsEager true g h p q = p
  choose-IsEager false g h p q = q refl

module _ (env : Env) (nested : Nested) where
  pb_dec_submessage-IsSteady :
      (f : Field) (dest : ℕ)
      → IsBelow nested (env.fields_at f.ptr)
      → IsSteady (pb_dec_submessage env nested f dest)
  unfolding pb_dec_submessage
  pb_dec_submessage-IsSteady f dest below = IsSteady-open _ λ i parent sub m made.
      elim (Bool-cases (f.ptr == 0)) [
        | inl null ↦ rw null (parent-Lags i parent sub made invalid_field_descriptor)
        | inr there ↦ rw there (elim (Bool-cases (pb_htype f.type == HType.repeated)) [
          | inl e ↦ rw e (
              close_after-Steady i parent sub made _
                ((below.decode dest).at (record { input = sub; mem = m }) made.sound))
          | inr e ↦ rw e (
              close_after-Steady i parent sub made _
                ((below.decode_noinit dest).at (record { input = sub; mem = m }) made.sound))
        ])
      ]

  pb_decoders-IsSteady :
      (f : Field) (dest ltype : ℕ)
      → HasDecoder ltype
      → (ltype ≡ LType.submessage → IsBelow nested (env.fields_at f.ptr))
      → IsSteady (pb_decoders env nested ltype f dest)
  unfolding pb_decoders
  pb_decoders-IsSteady f dest ltype has below =
      choose-IsSteady f dest (ltype == LType.varint) _ _
        (λ e. IsEager-IsSteady _ (pb_dec_varint-IsEager f dest))
        λ n0.
          choose-IsSteady f dest (ltype == LType.uvarint) _ _
            (λ e. IsEager-IsSteady _ (pb_dec_uvarint-IsEager f dest))
            λ n1.
              choose-IsSteady f dest (ltype == LType.svarint) _ _
                (λ e. IsEager-IsSteady _ (pb_dec_svarint-IsEager f dest))
                λ n2.
                  choose-IsSteady f dest (ltype == LType.fixed32) _ _
                    (λ e. IsEager-IsSteady _ (pb_dec_fixed32-IsEager f dest))
                    λ n3.
                      choose-IsSteady f dest (ltype == LType.fixed64) _ _
                        (λ e. IsEager-IsSteady _ (pb_dec_fixed64-IsEager f dest))
                        λ n4.
                          choose-IsSteady f dest (ltype == LType.bytes) _ _
                            (λ e. pb_dec_bytes-IsSteady f dest)
                            λ n5.
                              choose-IsSteady f dest (ltype == LType.string) _ _
                                (λ e. pb_dec_string-IsSteady f dest)
                                λ n6.
                                  choose-IsSteady f dest (ltype == LType.submessage) _ _
                                    (λ e.
                                      pb_dec_submessage-IsSteady f dest
                                        (below ((==_iff ltype LType.submessage).0 e)))
                                    λ n7.
                                      choose-IsSteady f dest (ltype == LType.fixed_length_bytes) _ _
                                        (λ e. pb_dec_fixed_length_bytes-IsSteady f dest)
                                        λ n9. absurd (ground arith)

  pub pb_decoders-IsEager :
      (f : Field) (dest ltype : ℕ)
      → leb ltype LType.last_packable ≡ true
      → IsEager (pb_decoders env nested ltype f dest)
  unfolding pb_decoders
  pb_decoders-IsEager f dest ltype packable =
      choose-IsEager f dest (ltype == LType.varint) _ _ (pb_dec_varint-IsEager f dest) λ n0.
        choose-IsEager f dest (ltype == LType.uvarint) _ _ (pb_dec_uvarint-IsEager f dest) λ n1.
          choose-IsEager f dest (ltype == LType.svarint) _ _ (pb_dec_svarint-IsEager f dest) λ n2.
            choose-IsEager f dest (ltype == LType.fixed32) _ _ (pb_dec_fixed32-IsEager f dest) λ n3.
              choose-IsEager f dest (ltype == LType.fixed64) _ _ (pb_dec_fixed64-IsEager f dest)
                λ n4. absurd (ground arith)

pub Steady-then :
    (i : Istream) (o : Outcome DecState (Unit {0})) (k : M DecState (Unit {0}))
    → Eager i o
    → ((t : DecState) → IsSound t.input → t.input.bytes_left < i.bytes_left → Steady t.input (k t))
    → Steady i (continue o (λ _. k))
Steady-then i (ok a t) k p q = Steady-after i t.input (k t) p.0 (q t p.0.sound p.1)
Steady-then i (fail t) k p q = p
Steady-then i fault k p q = p
Steady-then i stuck k p q = p

-- Each entry takes a byte, so that the rounds do not run out.
packed_loop-Steady :
    (n : ℕ) (func : Field → ℕ → M DecState (Unit {0})) (it : Iter) (s : DecState)
    → ((a : ℕ) → IsEager (func (field it) a))
    → IsSound s.input
    → s.input.bytes_left < n
    → Steady s.input (packed_loop n func it s)
unfolding packed_loop
packed_loop-Steady zero func it s eager h fuel = absurd (omega arith)
packed_loop-Steady (suc n) func it s eager h fuel =
    elim (Bool-cases
      (ltb 0 s.input.bytes_left && ltb (load 4 it.p_size s.mem) (field it).array_size)) [
        | inl more ↦ rw more (
            Steady-then s.input _ _ ((eager _).at s h) λ t sound less.
              packed_loop-Steady n func it
                (record { input = t.input; mem = increment it.p_size t.mem }) eager sound
                (omega arith))
        | inr done ↦ rw done (Follows-refl s.input h)
      ]

module _ (env : Env) (nested : Nested) (it : Iter) (suits : Suits env nested (field it)) where
  func-IsSteady :
      (dest : ℕ) → IsSteady (pb_decoders env nested (pb_ltype (field it).type) (field it) dest)
  func-IsSteady dest =
      pb_decoders-IsSteady env nested (field it) dest (pb_ltype (field it).type) suits.decoder
        suits.below

  decode_repeated-IsSteady : (wire_type : ℕ) → IsSteady (decode_repeated env nested wire_type it)
  unfolding decode_repeated
  decode_repeated-IsSteady wire_type =
      elim (Bool-cases
        (wire_type == pb_wt_string && leb (pb_ltype (field it).type) LType.last_packable)) [
          | inl packed ↦ rw packed (
              IsSteady-open _ λ i parent sub m made. packed_end-Steady i parent sub made _ (
                packed_loop-Steady (suc sub.bytes_left) _ it (record { input = sub; mem = m })
                  (λ a.
                    pb_decoders-IsEager env nested (field it) a (pb_ltype (field it).type)
                      (ground arith))
                  made.sound (omega arith)))
          | inr single ↦ rw single (search (steady_rules, func-IsSteady) depth 12)
        ]

  -- decode_static_field, for any wire type.
  pub decode_static_field-IsSteady :
      (wire_type : ℕ) → IsSteady (decode_static_field env nested wire_type it)
  unfolding decode_static_field
  decode_static_field-IsSteady wire_type =
      elim (Bool-cases (pb_ltype (field it).type == LType.submessage)) [
        | inl sub ↦
            let nests = (==_iff _ LType.submessage).0 sub in
            let defaults = (suits.below nests).set_to_defaults in
            rw (sub, neq→== (field it).ptr 0 (suits.there nests))
              (search (steady_rules, func-IsSteady, decode_repeated-IsSteady, defaults) depth 16)
        | inr other ↦
            rw other (search (steady_rules, func-IsSteady, decode_repeated-IsSteady) depth 16)
      ]
