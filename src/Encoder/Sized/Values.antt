-- ===== src/Encoder/Sized/Values.antt =====
-- The encoders of single values are counted right, whatever the descriptor.
use breakpoint.Base.{ℕ, Option, none, some}
use breakpoint.Outcome.{M}
use breakpoint.Memory.{Memory}
use breakpoint.Output.Sizing
use breakpoint.Output.Sizing.{
  pb_encode_varint-IsSized, pb_encode_svarint-IsSized, pb_encode_fixed32-IsSized,
  pb_encode_fixed64-IsSized, pb_encode_tag-IsSized, pb_encode_string-IsSized,
}
use breakpoint.Descriptor.{Field, pb_ltype}
use breakpoint.Encoder.{EncState}
use breakpoint.Encoder.Values.{
  by_size, pb_enc_varint, pb_enc_uvarint, pb_enc_svarint, pb_enc_fixed32, pb_enc_fixed64,
  pb_enc_bytes, pb_enc_string, pb_enc_fixed_length_bytes, wire_type_of, tag_or_error,
  pb_encode_tag_for_field,
}
use breakpoint.Encoder.Sized.{IsSized, sized_rules}

ruleset output_rules = (
  pb_encode_varint-IsSized, pb_encode_svarint-IsSized, pb_encode_fixed32-IsSized,
  pb_encode_fixed64-IsSized, pb_encode_tag-IsSized, pb_encode_string-IsSized,
)

module _ (mem : Memory) where
  by_size-IsSized :
      (write : ℕ → M EncState (Unit {0})) (data_size : ℕ)
      → ((size : ℕ) → IsSized mem (write size))
      → IsSized mem (by_size write data_size)
  by_size-IsSized write data_size h = search sized_rules depth 12

  pub pb_enc_varint-IsSized : (f : Field) (src : ℕ) → IsSized mem (pb_enc_varint f src)
  unfolding pb_enc_varint
  pb_enc_varint-IsSized f src = search (by_size-IsSized, sized_rules, output_rules) depth 12

  pub pb_enc_uvarint-IsSized : (f : Field) (src : ℕ) → IsSized mem (pb_enc_uvarint f src)
  unfolding pb_enc_uvarint
  pb_enc_uvarint-IsSized f src = search (by_size-IsSized, sized_rules, output_rules) depth 12

  pub pb_enc_svarint-IsSized : (f : Field) (src : ℕ) → IsSized mem (pb_enc_svarint f src)
  unfolding pb_enc_svarint
  pb_enc_svarint-IsSized f src = search (by_size-IsSized, sized_rules, output_rules) depth 12

  pub pb_enc_fixed32-IsSized : (f : Field) (src : ℕ) → IsSized mem (pb_enc_fixed32 f src)
  unfolding pb_enc_fixed32
  pb_enc_fixed32-IsSized f src = search (sized_rules, output_rules) depth 8

  pub pb_enc_fixed64-IsSized : (f : Field) (src : ℕ) → IsSized mem (pb_enc_fixed64 f src)
  unfolding pb_enc_fixed64
  pb_enc_fixed64-IsSized f src = search (sized_rules, output_rules) depth 8

  pub pb_enc_bytes-IsSized : (f : Field) (src : ℕ) → IsSized mem (pb_enc_bytes f src)
  unfolding pb_enc_bytes
  pb_enc_bytes-IsSized f src = search (sized_rules, output_rules) depth 12

  pub pb_enc_string-IsSized : (f : Field) (src : ℕ) → IsSized mem (pb_enc_string f src)
  unfolding pb_enc_string
  pb_enc_string-IsSized f src = search (sized_rules, output_rules) depth 12

  pub pb_enc_fixed_length_bytes-IsSized :
      (f : Field) (src : ℕ) → IsSized mem (pb_enc_fixed_length_bytes f src)
  unfolding pb_enc_fixed_length_bytes
  pb_enc_fixed_length_bytes-IsSized f src = search (sized_rules, output_rules) depth 8

tag_or_error-IsSized : (w : Option ℕ) (tag : ℕ) → Sizing.IsSized (tag_or_error w tag)
tag_or_error-IsSized none tag = Sizing.IsSized-error _
tag_or_error-IsSized (some w) tag = pb_encode_tag-IsSized w tag

pub pb_encode_tag_for_field-IsSized : (f : Field) → Sizing.IsSized (pb_encode_tag_for_field f)
unfolding pb_encode_tag_for_field
pb_encode_tag_for_field-IsSized f = tag_or_error-IsSized (wire_type_of (pb_ltype f.type)) f.tag
