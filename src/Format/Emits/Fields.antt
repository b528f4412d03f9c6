-- ===== src/Format/Emits/Fields.antt =====
-- Encoding one field writes its entry.
use breakpoint.Base.{
  ℕ, ◌+◌, ◌*◌, ◌^◌, ◌<◌, ◌≡◌, ◌≢◌, refl, ap, ◌∙◌, true, some, ◌++◌, neq→==, ◌==◌, Bool-cases, inl,
  inr, arith,
}
use breakpoint.Outcome.{◌>>◌}
use breakpoint.Output.Encoding.{varint, pb_encode_tag_lem}
use breakpoint.Memory.{Memory, load}
use breakpoint.Descriptor.{Field, offset_by, pb_ltype, pb_htype, pb_atype}
use breakpoint.Descriptor.LType
use breakpoint.Descriptor.HType
use breakpoint.Descriptor.AType
use breakpoint.Encoder.{Env, on_output, with_mem}
use breakpoint.Encoder.Values.{pb_encode_tag_for_field, wire_type_of, tag_or_error}
use breakpoint.Encoder.Fields.{Nested, pb_encoders, SizePointer, local, member, encode_by_rule}
use breakpoint.Encoder.Messages.{is_zero, size_pointer, encode_basic_field, encode_field}
use breakpoint.RoundTrip.Widths.{IsBytes}
use breakpoint.Format.{Writer, wire_type, value_bytes, entry_bytes}
use breakpoint.Format.Plain.{
  string, fixed_length_bytes, Kind, varint as signed, uvarint, svarint, fixed32, fixed64, message,
  Rule, required, optional,
}
use breakpoint.Format.Emits.{Emits, Emits-as, Emits-pb_write, Emits-then, Emits-nothing}
use breakpoint.Format.Emits.Values.{Emits-value}

wire_type_of-Kind :
    (f : Field) → Kind f → wire_type_of (pb_ltype f.type) ≡ some (wire_type (pb_ltype f.type))
unfolding wire_type_of
wire_type_of-Kind f (signed e w) = rw e refl
wire_type_of-Kind f (uvarint e w) = rw e refl
wire_type_of-Kind f (svarint e w) = rw e refl
wire_type_of-Kind f (fixed32 e w) = rw e refl
wire_type_of-Kind f (fixed64 e w) = rw e refl
wire_type_of-Kind f (message e w) = rw e refl
wire_type_of-Kind f (string e w) = rw e refl
wire_type_of-Kind f (fixed_length_bytes e more w) = rw e refl

pub wire_type-small : (ltype : ℕ) → wire_type ltype < 8
wire_type-small ltype = ground arith

Emits-tag :
    (mem : Memory) (f : Field)
    → Kind f
    → f.tag < 2 ^ 29
    → Emits mem
        (on_output (pb_encode_tag_for_field f))
        (varint (f.tag * 8 + wire_type (pb_ltype f.type)))
unfolding pb_encode_tag_for_field
Emits-tag mem f kind small =
    Emits-as mem _ _ _
      (λ s.
        ap (λ wt. with_mem mem (tag_or_error wt f.tag s)) (wire_type_of-Kind f kind)
        ∙ ap (with_mem mem) (
            pb_encode_tag_lem (wire_type (pb_ltype f.type)) f.tag s
              (wire_type-small (pb_ltype f.type)) (omega arith)))
      (Emits-pb_write mem (varint (f.tag * 8 + wire_type (pb_ltype f.type))))

module _ (env : Env) (nested : Nested) (inner : Writer) (mem : Memory) (bytes : IsBytes mem) (n : ℕ)
    (f : Field) (p : ℕ) (kind : Kind f) (small : f.tag < 2 ^ 29)
    (static : pb_atype f.type ≡ AType.static) (there : p ≢ 0)
    (below : pb_ltype f.type ≡ LType.submessage
      → Emits mem (nested (env.fields_at f.ptr) p) (inner (env.fields_at f.ptr) p mem)) where
  written :
      Emits mem
        (on_output (pb_encode_tag_for_field f) >> pb_encoders env nested (pb_ltype f.type) f p)
        (varint (f.tag * 8 + wire_type (pb_ltype f.type))
          ++ value_bytes env.fields_at inner f p mem)
  written =
      Emits-then mem _ _ _ _ (Emits-tag mem f kind small)
        (Emits-value env nested inner mem bytes f p static there kind below)

  Emits-required :
      pb_htype f.type ≡ HType.required
      → (size : SizePointer)
      → Emits mem (encode_by_rule env nested f p size) (entry_bytes env.fields_at inner f p mem)
  unfolding encode_by_rule entry_bytes
  Emits-required e size = rw (e, neq→== p 0 there) written

  Emits-optional :
      pb_htype f.type ≡ HType.optional
      → Emits mem
          (encode_by_rule env nested f p (member (offset_by p f.size_offset)))
          (entry_bytes env.fields_at inner f p mem)
  unfolding encode_by_rule entry_bytes
  Emits-optional e = elim (Bool-cases (load 1 (offset_by p f.size_offset) mem == 0)) [
    | inl absent ↦ rw (e, absent) (Emits-as mem _ _ _ (λ s. rw absent refl) (Emits-nothing mem))
    | inr present ↦ rw (e, present) (Emits-as mem _ _ _ (λ s. rw present refl) written)
  ]

  pub Emits-field :
      (offset lo : ℕ)
      → Rule f offset lo
      → Emits mem (encode_field env nested n f p) (entry_bytes env.fields_at inner f p mem)
  unfolding encode_field encode_basic_field size_pointer
  Emits-field offset lo (required e) = elim (Bool-cases (is_zero f.size_offset)) [
    | inl zero ↦ Emits-as mem _ _ _ (λ s. rw (static, zero, e) refl) (Emits-required e (local true))
    | inr other ↦
        Emits-as mem _ _ _ (λ s. rw (static, other) refl)
          (Emits-required e (member (offset_by p f.size_offset)))
  ]
  Emits-field offset lo (optional e k at fits) =
      Emits-as mem _ _ _ (λ s. rw (static, ap is_zero at) refl) (Emits-optional e)
