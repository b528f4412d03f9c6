-- ===== src/Decoder/Required/Count.antt =====
-- The number of required fields that pb_decode_noinit finds at the end, against the descriptors.
use breakpoint.Base.{
  ℕ, zero, suc, ◌+◌, ◌-◌, ◌≤◌, ◌<◌, ◌≡◌, ◌⊎◌, inl, inr, refl, ap, ◌∙◌, true, false, ◌&&◌, some,
  List, [], ◌∷◌, length, ◌==◌, if◌then◌else◌, arith, All, Bool-cases, ==_iff, neq→==,
}
use breakpoint.Descriptor.{Field, field_at, pb_htype}
use breakpoint.Descriptor.HType
use breakpoint.FieldIter.{field, pb_field_iter_begin, pb_field_iter_next, step_to, same_union}
use breakpoint.FieldIter.Layout.{
  IsTagged, iter_at, pb_field_iter_next-iter_at, pos-iter_at, start-iter_at, tag-field_at,
}
use breakpoint.Decoder.Required.{
  Loop, seek_end, fix_count, check_after, check_required, required_fields,
}

abbrev pub required_one : Field → ℕ
required_one f = if pb_htype f.type == HType.required then 1 else 0

-- How many of the descriptors are of required fields.
abbrev pub count_required : List Field → ℕ
count_required [] = 0
count_required (f ∷ fs) = required_one f + count_required fs

-- Those before the entry `i`.
abbrev pub required_before : List Field → ℕ → ℕ
required_before fields zero = 0
required_before fields (suc i) = required_before fields i + required_one (field_at fields i)

required_before-cons :
    (f : Field) (fs : List Field) (i : ℕ)
    → required_before (f ∷ fs) (suc i) ≡ required_one f + required_before fs i
required_before-cons f fs zero = omega arith
required_before-cons f fs (suc i) = omega (arith, required_before-cons f fs i)

pub required_before-length :
    (fields : List Field) → required_before fields (length fields) ≡ count_required fields
required_before-length [] = refl
required_before-length (f ∷ fs) =
    required_before-cons f fs (length fs) ∙ omega (arith, required_before-length fs)

-- A field of a union is not required, so the step that leaves the counter alone is right to.
union_not_required :
    (prev next : Field)
    → same_union prev next ≡ true
    → (pb_htype prev.type == HType.required) ≡ false
unfolding same_union
union_not_required prev next h = ground arith

pub index-iter_at :
    (fields : List Field) (dest i : ℕ)
    → (iter_at fields dest i).required_field_index ≡ required_before fields i
unfolding iter_at step_to pb_field_iter_begin
index-iter_at fields dest zero = refl
index-iter_at fields dest (suc i) =
    elim (Bool-cases (same_union (field_at fields i) (field_at fields (suc i)))) [
      | inl same ↦
          rw (same, union_not_required (field_at fields i) (field_at fields (suc i)) same)
            (omega (arith, index-iter_at fields dest i))
      | inr other ↦ rw other (ground (arith, index-iter_at fields dest i))
    ]

pub field-iter_at :
    (fields : List Field) (dest i : ℕ) → field (iter_at fields dest i) ≡ field_at fields i
field-iter_at fields dest i = rw (start-iter_at fields dest i, pos-iter_at fields dest i) refl

-- From any entry the do-while finds the last one, and wraps.
seek_end-iter_at :
    (n i : ℕ) (fields : List Field) (dest : ℕ)
    → All IsTagged fields
    → i < length fields
    → length fields ≤ i + n
    → seek_end n (iter_at fields dest i)
      ≡ some (
        required_before fields (length fields - 1),
        (field_at fields (length fields - 1)).type,
        iter_at fields dest 0,
      )
unfolding seek_end
seek_end-iter_at zero i fields dest tagged lt fuel = absurd (omega arith)
seek_end-iter_at (suc n) i fields dest tagged lt fuel =
    rw (pb_field_iter_next-iter_at fields dest i tagged lt)
      (elim (Bool-cases (suc i == length fields)) [
        | inl last ↦
            let e : length fields - 1 ≡ i =
              omega (arith, (==_iff (suc i) (length fields)).0 last) in
            rw (last, e, index-iter_at fields dest i, field-iter_at fields dest i) refl
        | inr more ↦
            rw more (seek_end-iter_at n (suc i) fields dest tagged (ground arith) (omega arith))
      ])

count_last :
    (fields : List Field)
    → 0 < length fields
    → required_before fields (length fields - 1)
        + required_one (field_at fields (length fields - 1))
      ≡ count_required fields
count_last fields pos =
    ap (required_before fields) (again (length fields) pos) ∙ required_before-length fields
  where
    again : (n : ℕ) → 0 < n → suc (n - 1) ≡ n
    again n h = omega arith

fix_count-last :
    (fields : List Field) (dest : ℕ)
    → All IsTagged fields
    → 0 < length fields
    → fix_count (
      required_before fields (length fields - 1),
      (field_at fields (length fields - 1)).type,
      iter_at fields dest 0,
    )
      ≡ count_required fields
fix_count-last fields dest tagged pos =
    rw (field-iter_at fields dest 0, neq→== _ 0 (tag-field_at fields 0 tagged pos))
      (added ∙ count_last fields pos)
  where
    added :
        (if pb_htype (field_at fields (length fields - 1)).type == HType.required && true
          then required_before fields (length fields - 1) + 1
          else required_before fields (length fields - 1))
        ≡ required_before fields (length fields - 1)
          + required_one (field_at fields (length fields - 1))
    added = ground arith

-- An index that the iterator can have: of an entry, or 0 in an empty message.
abbrev pub IsEntry : List Field → ℕ → Type 0
IsEntry fields i = (i < length fields) ⊎ ((i ≡ 0) × (fields ≡ []))

-- Wherever the iterator stands in a list of descriptors whose tags are not 0, the block at the end of
-- pb_decode_noinit ends, and checks for as many required fields as the list has, a field of a union
-- not counted.
pub required_fields-count :
    (l : Loop) (fields : List Field) (dest i : ℕ)
    → All IsTagged fields
    → IsEntry fields i
    → l.iter ≡ iter_at fields dest i
    → required_fields l ≡ some (check_required l (count_required fields))
unfolding required_fields
required_fields-count l fields dest i tagged (inl lt) e =
    ap (check_after l) (
      ap (λ it. seek_end (suc (length it.start)) it) e
      ∙ ap (λ fs. seek_end (suc (length fs)) (iter_at fields dest i)) (start-iter_at fields dest i)
      ∙ seek_end-iter_at (suc (length fields)) i fields dest tagged lt (omega arith))
    ∙ ap (λ c. some (check_required l c)) (fix_count-last fields dest tagged (omega arith))
required_fields-count l fields dest i tagged (inr (first, empty)) e =
    ap (check_after l)
      (ap (λ it. seek_end (suc (length it.start)) it) (e ∙ ap (λ k. iter_at fields dest k) first))
    ∙ rw empty (unfold seek_end iter_at pb_field_iter_begin pb_field_iter_next in refl)
