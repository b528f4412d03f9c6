-- ===== src/Format/Samples.antt =====
-- A message of a number, an optional number, an optional message and a string.
use breakpoint.Base.{
  ℕ, zero, suc, ◌+◌, ◌<◌, ◌≡◌, refl, ap, inl, inr, List, [], ◌∷◌, length, ◌==◌, if◌then◌else◌,
  arith,
}
use breakpoint.Base.Int.{pos, negsuc}
use breakpoint.Base.Bytes.{from_little_endian, little_endian}
use breakpoint.Outcome.{fault}
use breakpoint.Output.{zigzag}
use breakpoint.Output.Encoding.{varint, groups}
use breakpoint.Memory.{Memory, load, load_bytes}
use breakpoint.Descriptor.{Field, field_at, pb_ltype}
use breakpoint.Descriptor.LType
use breakpoint.FieldIter.{pb_field_iter_begin, step_to, same_union, size_in_struct}
use breakpoint.FieldIter.Layout.{iter_at}
use breakpoint.Decoder.{Env as DecoderEnv}
use breakpoint.Encoder.{Env as EncoderEnv}
use breakpoint.Format.{value_bytes, entry_bytes, fields_bytes, message_bytes}
use breakpoint.Format.Plain.{
  string, varint as signed, svarint, fixed32, message, required, optional, offset_at, IsPlainField,
  IsPlain,
}
use breakpoint.RoundTrip.Widths.{IsBytes}
use breakpoint.Encoder.Values.{string_length}
use breakpoint.Format.Agrees.{IsFilled}

-- A fixed32 at the start of a structure of four bytes.
abbrev pub inner_fields : List Field
inner_fields =
    record {
      tag = 1;
      type = 0x03;
      data_offset = 0;
      size_offset = pos 0;
      data_size = 4;
      array_size = 0;
      ptr = 0;
    }
    ∷ []

-- An int32 at 0, a sint32 at 8 with its flag at 4, a message at 16 with its flag at 12, and a string at 20.
abbrev pub outer_fields : List Field
outer_fields =
    record {
      tag = 1;
      type = 0x00;
      data_offset = 0;
      size_offset = pos 0;
      data_size = 4;
      array_size = 0;
      ptr = 0;
    }
    ∷ record {
      tag = 2;
      type = 0x12;
      data_offset = 4;
      size_offset = negsuc 3;
      data_size = 4;
      array_size = 0;
      ptr = 0;
    }
    ∷ record {
      tag = 3;
      type = 0x17;
      data_offset = 4;
      size_offset = negsuc 3;
      data_size = 4;
      array_size = 0;
      ptr = 500;
    }
    ∷ record {
      tag = 4;
      type = 0x06;
      data_offset = 0;
      size_offset = pos 0;
      data_size = 6;
      array_size = 0;
      ptr = 0;
    }
    ∷ []

abbrev pub fields_at : ℕ → List Field
fields_at a = if a == 500 then inner_fields else outer_fields

abbrev pub encoding : EncoderEnv
encoding = record {
  fields_at = fields_at;
  extension_type = λ a. record { decode = 0; encode = 0; arg = 0 };
  call_encode = λ fn f arg s. fault;
  call_extension = λ fn ext s. fault;
}

abbrev pub decoding : DecoderEnv
decoding = record {
  fields_at = fields_at;
  extension_type = λ a. record { decode = 0; encode = 0; arg = 0 };
  call_decode = λ fn f arg s. fault;
  call_extension = λ fn ext tag wt s. fault;
}

abbrev pub inner_bound : ℕ → ℕ
inner_bound i = if i == 0 then 0 else 4

inner-IsPlain : IsPlain fields_at 1 inner_fields 4
unfolding IsPlain offset_at
inner-IsPlain = (
  inner_bound,
  omega arith,
  omega arith,
  λ i j hi hj e. omega arith,
  λ i lt. (each i lt, nothing i lt),
)
  where
    each : (i : ℕ) → i < 1 → IsPlainField inner_fields i (inner_bound i) (inner_bound (suc i))
    each zero lt = record {
      tag_pos = omega arith;
      tag_small = omega arith;
      static = refl;
      kind = fixed32 refl refl;
      rule = required refl;
      low = omega arith;
      high = omega arith;
    }
    each (suc i) lt = absurd (omega arith)

    nothing :
        (i : ℕ)
        → i < 1
        → pb_ltype (field_at inner_fields i).type ≡ LType.submessage
        → IsPlain fields_at 0
            (fields_at (field_at inner_fields i).ptr)
            (field_at inner_fields i).data_size
    nothing zero lt e = absurd (omega (arith, e))
    nothing (suc i) lt e = absurd (omega arith)

abbrev pub outer_bound : ℕ → ℕ
outer_bound i =
    if i == 0 then 0 else if i == 1 then 4 else if i == 2 then 12 else if i == 3 then 20 else 26

outer_tag : (i : ℕ) → i < 4 → (field_at outer_fields i).tag ≡ i + 1
outer_tag zero lt = refl
outer_tag (suc zero) lt = refl
outer_tag (suc (suc zero)) lt = refl
outer_tag (suc (suc (suc zero))) lt = refl
outer_tag (suc (suc (suc (suc i)))) lt = absurd (omega arith)

pub outer-IsPlain : IsPlain fields_at 2 outer_fields 26
unfolding IsPlain offset_at same_union size_in_struct
outer-IsPlain = (
  outer_bound,
  omega arith,
  omega arith,
  λ i j hi hj e. omega (arith, outer_tag i hi, outer_tag j hj),
  λ i lt. (each i lt, nested i lt),
)
  where
    each : (i : ℕ) → i < 4 → IsPlainField outer_fields i (outer_bound i) (outer_bound (suc i))
    each zero lt = record {
      tag_pos = omega arith;
      tag_small = omega arith;
      static = refl;
      kind = signed refl (inr (inr (inl refl)));
      rule = required refl;
      low = omega arith;
      high = omega arith;
    }
    each (suc zero) lt = record {
      tag_pos = omega arith;
      tag_small = omega arith;
      static = refl;
      kind = svarint refl (inr (inr (inl refl)));
      rule = optional refl 3 refl (omega arith);
      low = omega arith;
      high = omega arith;
    }
    each (suc (suc zero)) lt = record {
      tag_pos = omega arith;
      tag_small = omega arith;
      static = refl;
      kind = message refl (omega arith);
      rule = optional refl 3 refl (omega arith);
      low = omega arith;
      high = omega arith;
    }
    each (suc (suc (suc zero))) lt = record {
      tag_pos = omega arith;
      tag_small = omega arith;
      static = refl;
      kind = string refl (omega arith);
      rule = required refl;
      low = omega arith;
      high = omega arith;
    }
    each (suc (suc (suc (suc i)))) lt = absurd (omega arith)

    nested :
        (i : ℕ)
        → i < 4
        → pb_ltype (field_at outer_fields i).type ≡ LType.submessage
        → IsPlain fields_at 1
            (fields_at (field_at outer_fields i).ptr)
            (field_at outer_fields i).data_size
    nested zero lt e = absurd (omega (arith, e))
    nested (suc zero) lt e = absurd (omega (arith, e))
    nested (suc (suc zero)) lt e = inner-IsPlain
    nested (suc (suc (suc zero))) lt e = absurd (omega (arith, e))
    nested (suc (suc (suc (suc i)))) lt e = absurd (omega arith)

-- Every byte is 1, but for the NUL behind three bytes of the string in a structure at 1000.
abbrev pub source : Memory
source = λ a. if a == 1023 then 0 else 1

abbrev pub zeros : Memory
zeros = λ a. 0

pub source-IsBytes : IsBytes source
source-IsBytes a = ground arith

inner-IsFilled : IsFilled fields_at 1 inner_fields 1016 source
unfolding IsFilled
inner-IsFilled zero lt present = (λ e. absurd (omega (arith, e)), λ e. absurd (omega (arith, e)))
inner-IsFilled (suc i) lt present = absurd (omega arith)

pub outer-IsFilled : IsFilled fields_at 2 outer_fields 1000 source
unfolding IsFilled string_length iter_at step_to pb_field_iter_begin
outer-IsFilled zero lt present = (λ e. absurd (omega (arith, e)), λ e. absurd (omega (arith, e)))
outer-IsFilled (suc zero) lt present =
    (λ e. absurd (omega (arith, e)), λ e. absurd (omega (arith, e)))
outer-IsFilled (suc (suc zero)) lt present = (λ e. absurd (omega (arith, e)), λ e. inner-IsFilled)
outer-IsFilled (suc (suc (suc zero))) lt present =
    (λ e. omega arith, λ e. absurd (omega (arith, e)))
outer-IsFilled (suc (suc (suc (suc i)))) lt present = absurd (omega arith)

pub sample_bytes :
    message_bytes fields_at 2 outer_fields 1000 source
    ≡ 0x08 ∷ 0x81 ∷ 0x82 ∷ 0x84 ∷ 0x08 ∷ 0x10 ∷ 0x82 ∷ 0x84 ∷ 0x88 ∷ 0x10 ∷ 0x1a ∷ 0x05 ∷ 0x0d ∷ 1
      ∷ 1 ∷ 1 ∷ 1 ∷ 0x22 ∷ 0x03 ∷ 1 ∷ 1 ∷ 1 ∷ []
unfolding message_bytes fields_bytes entry_bytes value_bytes iter_at step_to pb_field_iter_begin
    load load_bytes string_length from_little_endian little_endian varint groups zigzag
sample_bytes = refl

pub sample_length : length (message_bytes fields_at 2 outer_fields 1000 source) ≡ 22
sample_length = ap (λ bs. length bs) sample_bytes
