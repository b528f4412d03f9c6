-- ===== src/Format/Plain.antt =====
-- Messages of static fields, required or optional, with numbers, strings, bytes of a fixed length and
-- messages in them, whose structures are laid out in the order of the fields.
use breakpoint.Base.{
  false, true, neq→==, ℕ, zero, suc, ◌+◌, ◌-◌, ◌^◌, ◌≤◌, ◌<◌, ◌≡◌, ◌≢◌, refl, List, [], ◌∷◌, length,
  All, if◌then◌else◌, arith, Bool-cases, inl, inr, ◌==◌,
}
use breakpoint.Base.Int.{negsuc}
use breakpoint.Descriptor.{Field, field_at, offset_by, pb_ltype, pb_htype, pb_atype}
use breakpoint.Descriptor.LType
use breakpoint.Descriptor.HType
use breakpoint.Descriptor.AType
use breakpoint.FieldIter.{same_union, size_in_struct, step_to, pb_field_iter_begin}
use native.Mathlib.Numerals.{add-one}
use breakpoint.FieldIter.Layout.{IsTagged, iter_at, start-iter_at, pos-iter_at}
use breakpoint.Decoder.Required.Count.{count_required}
use breakpoint.RoundTrip.Widths.{IsWidth}

-- What the field holds, and how wide it is.
pub data Kind (f : Field) : Type 0 where
  varint : pb_ltype f.type ≡ LType.varint → IsWidth f.data_size → Kind f
  uvarint : pb_ltype f.type ≡ LType.uvarint → IsWidth f.data_size → Kind f
  svarint : pb_ltype f.type ≡ LType.svarint → IsWidth f.data_size → Kind f
  fixed32 : pb_ltype f.type ≡ LType.fixed32 → f.data_size ≡ 4 → Kind f
  fixed64 : pb_ltype f.type ≡ LType.fixed64 → f.data_size ≡ 8 → Kind f
  message : pb_ltype f.type ≡ LType.submessage → f.ptr ≢ 0 → Kind f
  string : pb_ltype f.type ≡ LType.string → f.data_size < 2 ^ 32 → Kind f
  fixed_length_bytes :
      pb_ltype f.type ≡ LType.fixed_length_bytes → 0 < f.data_size → f.data_size < 2 ^ 32 → Kind f

pub not_extension : (f : Field) → Kind f → (pb_ltype f.type == LType.extension) ≡ false
not_extension f (varint e w) = rw e refl
not_extension f (uvarint e w) = rw e refl
not_extension f (svarint e w) = rw e refl
not_extension f (fixed32 e w) = rw e refl
not_extension f (fixed64 e w) = rw e refl
not_extension f (message e w) = rw e refl
not_extension f (string e w) = rw e refl
not_extension f (fixed_length_bytes e some w) = rw e refl

-- The descriptors of a nested message are there.
pub message_there : (f : Field) → Kind f → pb_ltype f.type ≡ LType.submessage → f.ptr ≢ 0
message_there f (varint e w) h = absurd (omega (arith, e, h))
message_there f (uvarint e w) h = absurd (omega (arith, e, h))
message_there f (svarint e w) h = absurd (omega (arith, e, h))
message_there f (fixed32 e w) h = absurd (omega (arith, e, h))
message_there f (fixed64 e w) h = absurd (omega (arith, e, h))
message_there f (message e w) h = w
message_there f (string e w) h = absurd (omega (arith, e, h))
message_there f (fixed_length_bytes e some w) h = absurd (omega (arith, e, h))

pub All-IsTagged :
    (fields : List Field)
    → ((i : ℕ) → i < length fields → 0 < (field_at fields i).tag)
    → All IsTagged fields
All-IsTagged [] h = tt
All-IsTagged (f ∷ fs) h =
    (omega (arith, h 0 (omega arith)), All-IsTagged fs (λ i lt. h (suc i) (omega arith)))

pub no_fields : (fields : List Field) → length fields ≡ 0 → fields ≡ []
no_fields [] e = refl
no_fields (f ∷ fs) e = absurd (omega arith)

pub begin_some :
    (fields : List Field) (src : ℕ)
    → 0 < (field_at fields 0).tag
    → pb_field_iter_begin fields src ≡ (iter_at fields src 0, true)
unfolding iter_at pb_field_iter_begin
begin_some fields src pos = rw (neq→== (field_at fields 0).tag 0 (omega arith)) refl

-- Required, or optional with a flag `k + 1` bytes before its data, at or behind `lo`.
pub data Rule (f : Field) (offset lo : ℕ) : Type 0 where
  required : pb_htype f.type ≡ HType.required → Rule f offset lo
  optional :
      pb_htype f.type ≡ HType.optional
      → (k : ℕ) → f.size_offset ≡ negsuc k
      → lo + k + 1 ≤ offset
      → Rule f offset lo

-- Where the data of the entry `i` is in the structure.
unfoldable pub offset_at : List Field → ℕ → ℕ
offset_at fields zero = (field_at fields 0).data_offset
offset_at fields (suc i) =
    let prev = field_at fields i in
    let next = field_at fields (suc i) in
    if same_union prev next
    then offset_at fields i
    else offset_at fields i + size_in_struct prev + next.data_offset

pub p_data-iter_at :
    (fields : List Field) (dest i : ℕ) → (iter_at fields dest i).p_data ≡ dest + offset_at fields i
unfolding iter_at step_to pb_field_iter_begin offset_at
p_data-iter_at fields dest zero = refl
p_data-iter_at fields dest (suc i) =
    elim (Bool-cases (same_union (field_at fields i) (field_at fields (suc i)))) [
      | inl same ↦ rw same (p_data-iter_at fields dest i)
      | inr other ↦ rw other (omega (arith, p_data-iter_at fields dest i))
    ]

-- The entry `i`, in the bytes from `lo` up to `hi` of its structure.
pub record IsPlainField (fields : List Field) (i lo hi : ℕ) : Type 0 where
  pub tag_pos : 0 < (field_at fields i).tag
  pub tag_small : (field_at fields i).tag < 2 ^ 29
  pub static : pb_atype (field_at fields i).type ≡ AType.static
  pub kind : Kind (field_at fields i)
  pub rule : Rule (field_at fields i) (offset_at fields i) lo
  pub low : lo ≤ offset_at fields i
  pub high : offset_at fields i + (field_at fields i).data_size ≤ hi

-- A message structure of `size` bytes; the entry `i` has the bytes from `bound i` up to `bound (i + 1)`.
unfoldable pub IsPlain : (ℕ → List Field) → ℕ → List Field → ℕ → Type 0
IsPlain at zero fields size = ⊥
IsPlain at (suc n) fields size =
    (bound : ℕ → ℕ) × (bound (length fields) ≤ size)
    × (count_required fields < 32)
    × ((i j : ℕ)
        → i < length fields
        → j < length fields
        → (field_at fields i).tag ≡ (field_at fields j).tag
        → i ≡ j)
    × ((i : ℕ)
        → i < length fields
        → IsPlainField fields i (bound i) (bound (suc i))
          × (pb_ltype (field_at fields i).type ≡ LType.submessage
              → IsPlain at n (at (field_at fields i).ptr) (field_at fields i).data_size))

not_oneof :
    (f : Field) (offset lo : ℕ) → Rule f offset lo → (pb_htype f.type == HType.oneof) ≡ false
not_oneof f offset lo (required e) = rw e refl
not_oneof f offset lo (optional e k at fits) = rw e refl

pub not_repeated :
    (f : Field) (offset lo : ℕ) → Rule f offset lo → (pb_htype f.type == HType.repeated) ≡ false
not_repeated f offset lo (required e) = rw e refl
not_repeated f offset lo (optional e k at fits) = rw e refl

next_apart :
    (prev next : Field) → (pb_htype next.type == HType.oneof) ≡ false → same_union prev next ≡ false
unfolding same_union
next_apart prev next h = ground arith

-- The flag of an entry that is in no union is where its descriptor says.
pub p_size-iter_at :
    (fields : List Field) (dest i offset lo : ℕ)
    → Rule (field_at fields i) offset lo
    → (iter_at fields dest i).p_size
      ≡ offset_by (iter_at fields dest i).p_data (field_at fields i).size_offset
unfolding iter_at step_to pb_field_iter_begin
p_size-iter_at fields dest zero offset lo rule = refl
p_size-iter_at fields dest (suc i) offset lo rule =
    rw
      (next_apart (field_at fields i) (field_at fields (suc i))
        (not_oneof (field_at fields (suc i)) offset lo rule))
      (rw (start-iter_at fields dest i, pos-iter_at fields dest i, add-one) refl)

module _ (fields : List Field) (bound : ℕ → ℕ)
    (plain : (i : ℕ) → i < length fields → IsPlainField fields i (bound i) (bound (suc i))) where
  pub bound-up : (i : ℕ) → i < length fields → bound i ≤ bound (suc i)
  bound-up i lt = let low = (plain i lt).low in let high = (plain i lt).high in omega arith

  pub bound-le : (k i : ℕ) → i + k ≤ length fields → bound i ≤ bound (i + k)
  bound-le zero i h = le_of (i + 0) (omega arith)
    where
      le_of : (j : ℕ) → i ≡ j → bound i ≤ bound j
      le_of j e = rw e (omega arith)
  bound-le (suc k) i h =
      let step : i + suc k ≡ suc i + k = omega arith in
      rw step (omega (arith, bound-up i (omega arith), bound-le k (suc i) (omega arith)))

  pub bound_end : (i : ℕ) → i < length fields → bound (suc i) ≤ bound (length fields)
  bound_end i lt =
      let e : suc i + (length fields - suc i) ≡ length fields = omega arith in
      rw e at (bound-le (length fields - suc i) (suc i) (omega arith))
