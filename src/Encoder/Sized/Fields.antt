-- ===== src/Encoder/Sized/Fields.antt =====
-- Single fields are counted right.
use breakpoint.Base.{ℕ, ◌≡◌, ap, ◌∙◌, Bool, true, false, List, if◌then◌else◌}
use breakpoint.Outcome.{ok, fault, M}
use breakpoint.Output.{Ostream}
use breakpoint.Output.Sizing.{IsSizer, ahead}
use breakpoint.Memory.{Memory, load}
use breakpoint.Descriptor.{Field, pb_ltype}
use breakpoint.Descriptor.LType
use breakpoint.Encoder.{EncState, Env, read_mem}
use breakpoint.Encoder.Fields.{
  Nested, pb_enc_submessage, pb_encoders, SizePointer, local, member, read_has, read_count,
  encode_by_rule,
}
use breakpoint.Encoder.Sized.{on, IsSized, IsSized-read_mem, sized_rules}
use breakpoint.Encoder.Sized.Arrays.{
  encode_array-IsSized, pb_enc_fixed32_width, pb_enc_fixed64_width,
}
use breakpoint.Encoder.Sized.Values.{
  pb_enc_varint-IsSized, pb_enc_uvarint-IsSized, pb_enc_svarint-IsSized, pb_enc_fixed32-IsSized,
  pb_enc_fixed64-IsSized, pb_enc_bytes-IsSized, pb_enc_string-IsSized,
  pb_enc_fixed_length_bytes-IsSized, pb_encode_tag_for_field-IsSized,
}
use breakpoint.Encoder.Sized.Substreams.{pb_encode_submessage-IsSized}

module _ (mem : Memory) where
  module _ (env : Env) (nested : Nested)
      (h : (fields : List Field) (src : ℕ) → IsSized mem (nested fields src)) where
    pb_enc_submessage-IsSized :
        (f : Field) (src : ℕ) → IsSized mem (pb_enc_submessage env nested f src)
    unfolding pb_enc_submessage
    pb_enc_submessage-IsSized f src = search (sized_rules, pb_encode_submessage-IsSized, h) depth 8

    no_encoder-IsSized : IsSized mem {A = Unit {0}} (λ s. fault)
    no_encoder-IsSized = record { writing = λ s w. tt; counting = λ z w. tt }

    choose-IsSized :
        (b : Bool) (m n : Field → ℕ → M EncState (Unit {0})) (f : Field) (src : ℕ)
        → IsSized mem (m f src)
        → IsSized mem (n f src)
        → IsSized mem ((if b then m else n) f src)
    choose-IsSized true m n f src hm hn = hm
    choose-IsSized false m n f src hm hn = hn

    pub pb_encoders-IsSized :
        (ltype : ℕ) (f : Field) (src : ℕ) → IsSized mem (pb_encoders env nested ltype f src)
    unfolding pb_encoders
    pb_encoders-IsSized ltype f src =
        search
          (
            choose-IsSized, pb_enc_varint-IsSized, pb_enc_uvarint-IsSized, pb_enc_svarint-IsSized,
            pb_enc_fixed32-IsSized, pb_enc_fixed64-IsSized, pb_enc_bytes-IsSized,
            pb_enc_string-IsSized, pb_enc_submessage-IsSized, pb_enc_fixed_length_bytes-IsSized,
            no_encoder-IsSized,
          )
          depth 12

    fixed32_width :
        (f : Field)
        → pb_ltype f.type ≡ LType.fixed32
        → (p : ℕ) (z : Ostream) → IsSizer z
        → pb_encoders env nested (pb_ltype f.type) f p (on mem z) ≡ ok tt (on mem (ahead 4 z))
    unfolding pb_encoders
    fixed32_width f e p z h =
        ap (λ t. pb_encoders env nested t f p (on mem z)) e ∙ pb_enc_fixed32_width mem f p z h

    fixed64_width :
        (f : Field)
        → pb_ltype f.type ≡ LType.fixed64
        → (p : ℕ) (z : Ostream) → IsSizer z
        → pb_encoders env nested (pb_ltype f.type) f p (on mem z) ≡ ok tt (on mem (ahead 8 z))
    unfolding pb_encoders
    fixed64_width f e p z h =
        ap (λ t. pb_encoders env nested t f p (on mem z)) e ∙ pb_enc_fixed64_width mem f p z h

    read_has-IsSized : (size : SizePointer) → IsSized mem (read_mem (read_has size))
    read_has-IsSized size = search sized_rules

    read_count-IsSized : (size : SizePointer) → IsSized mem (read_count size)
    read_count-IsSized (local has) = record { writing = λ s w. tt; counting = λ z w. tt }
    read_count-IsSized (member a) = IsSized-read_mem mem (load 4 a)

    pub encode_by_rule-IsSized :
        (f : Field) (p_data : ℕ) (size : SizePointer)
        → IsSized mem (encode_by_rule env nested f p_data size)
    unfolding encode_by_rule
    encode_by_rule-IsSized f p_data size =
        let array = λ (count : ℕ).
          encode_array-IsSized mem f count p_data (pb_encoders env nested (pb_ltype f.type) f)
            (pb_encoders-IsSized (pb_ltype f.type) f) (fixed32_width f) (fixed64_width f) in
        search
          (
            sized_rules, pb_encoders-IsSized, read_count-IsSized, array,
            pb_encode_tag_for_field-IsSized,
          )
          depth 16
