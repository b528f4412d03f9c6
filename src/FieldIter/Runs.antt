-- ===== src/FieldIter/Runs.antt =====
-- The descriptors of a small message: `a` required, `b` optional, and an extension field.
use breakpoint.Base.{
  ℕ, zero, suc, ◌+◌, ◌<◌, ◌≢◌, get_or, ◌≡◌, ◌⊎◌, refl, true, false, not, some, List, [], ◌∷◌,
  length, ◌==◌, All, arith,
}
use breakpoint.Base.Int.{pos, negsuc}
use breakpoint.Descriptor.{Field, field_at, pb_htype, pb_atype, pb_size_max}
use breakpoint.Descriptor.HType
use breakpoint.Descriptor.AType
use breakpoint.FieldIter.{
  place, pb_field_iter_begin, pb_field_iter_next, pb_field_iter_find, find_extension_field,
  is_wanted, is_extension, find_from, step_to, size_in_struct, same_union,
}
use breakpoint.FieldIter.Layout.{IsTagged, iter_at, next_pos}
use breakpoint.FieldIter.Members.{
  Struct, IsApart, InUnion, Describes, PointsAt, pb_field_iter_next-PointsAt,
}
use breakpoint.FieldIter.Search.{Stops, Missing, pb_field_iter_find_lem, find_extension_field_lem}

abbrev three_fields : List Field
three_fields =
    record {
      tag = 1;
      type = 0x00;
      data_offset = 0;
      size_offset = pos 0;
      data_size = 4;
      array_size = 0;
      ptr = 0;
    }
    ∷ record {
      tag = 2;
      type = 0x10;
      data_offset = 4;
      size_offset = negsuc 3;
      data_size = 4;
      array_size = 0;
      ptr = 0;
    }
    ∷ record {
      tag = 100;
      type = 0x58;
      data_offset = 0;
      size_offset = pos 0;
      data_size = 8;
      array_size = 0;
      ptr = 0;
    }
    ∷ []

tagged : All IsTagged three_fields
tagged = (omega arith, (omega arith, (omega arith, tt)))

-- From `b` round to `a`.
finds_first :
    pb_field_iter_find (iter_at three_fields 1000 1) 1 ≡ some (iter_at three_fields 1000 0, true)
unfolding pb_field_iter_find find_from pb_field_iter_next is_wanted iter_at pb_field_iter_begin
    step_to size_in_struct same_union
finds_first = refl

finds :
    Stops three_fields 1000 (is_wanted 1) (pb_field_iter_find (iter_at three_fields 1000 1) 1)
    ⊎ ((pb_field_iter_find (iter_at three_fields 1000 1) 1
          ≡ some (iter_at three_fields 1000 1, false))
        × Missing three_fields 1000 (is_wanted 1) 0 (length three_fields))
finds = pb_field_iter_find_lem three_fields 1000 1 1 tagged (omega arith)

finds_extension :
    Stops three_fields 1000 is_extension (find_extension_field (iter_at three_fields 1000 1))
    ⊎ ((find_extension_field (iter_at three_fields 1000 1)
          ≡ some (iter_at three_fields 1000 1, false))
        × Missing three_fields 1000 is_extension 0 (length three_fields))
finds_extension = find_extension_field_lem three_fields 1000 1 tagged (omega arith)

-- struct { int32_t a; bool has_b; int32_t b; int which_u; union { int64_t c; int32_t d; } u; }
abbrev four_fields : List Field
four_fields =
    record {
      tag = 1;
      type = 0x00;
      data_offset = 0;
      size_offset = pos 0;
      data_size = 4;
      array_size = 0;
      ptr = 0;
    }
    ∷ record {
      tag = 2;
      type = 0x10;
      data_offset = 4;
      size_offset = negsuc 3;
      data_size = 4;
      array_size = 0;
      ptr = 0;
    }
    ∷ record {
      tag = 3;
      type = 0x30;
      data_offset = 4;
      size_offset = negsuc 3;
      data_size = 8;
      array_size = 0;
      ptr = 0;
    }
    ∷ record {
      tag = 4;
      type = 0x30;
      data_offset = pb_size_max;
      size_offset = negsuc 3;
      data_size = 4;
      array_size = 0;
      ptr = 0;
    }
    ∷ []

four_fields-IsTagged : All IsTagged four_fields
four_fields-IsTagged = (omega arith, (omega arith, (omega arith, (omega arith, tt))))

abbrev with_union : Struct
with_union = record {
  offset_of = λ i. get_or (0 ∷ 8 ∷ 16 ∷ 16 ∷ []) i 0;
  size_of = λ i. get_or (4 ∷ 4 ∷ 8 ∷ 4 ∷ []) i 0;
  count_of = λ i. get_or (0 ∷ 4 ∷ 12 ∷ 12 ∷ []) i 0;
}

not_repeated : (i : ℕ) → pb_htype (field_at four_fields i).type ≢ HType.repeated
not_repeated zero = omega arith
not_repeated (suc zero) = omega arith
not_repeated (suc (suc zero)) = omega arith
not_repeated (suc (suc (suc zero))) = omega arith
not_repeated (suc (suc (suc (suc i)))) = omega arith

not_pointer : (i : ℕ) → pb_atype (field_at four_fields i).type ≢ AType.pointer
not_pointer zero = omega arith
not_pointer (suc zero) = omega arith
not_pointer (suc (suc zero)) = omega arith
not_pointer (suc (suc (suc zero))) = omega arith
not_pointer (suc (suc (suc (suc i)))) = omega arith

sizes : (i : ℕ) → with_union.size_of i ≡ (field_at four_fields i).data_size
sizes zero = refl
sizes (suc zero) = refl
sizes (suc (suc zero)) = refl
sizes (suc (suc (suc zero))) = refl
sizes (suc (suc (suc (suc i)))) = refl

members_behind :
    (i : ℕ)
    → suc i < length four_fields
    → ¬ InUnion four_fields i
    → with_union.offset_of (suc i)
      ≡ with_union.offset_of i + with_union.size_of i + (field_at four_fields (suc i)).data_offset
members_behind zero lt u = refl
members_behind (suc zero) lt u = refl
members_behind (suc (suc zero)) lt u = absurd (u (record { this = refl; that = refl; mark = refl }))
members_behind (suc (suc (suc i))) lt u = absurd (omega arith)

union_members :
    (i : ℕ)
    → suc i < length four_fields
    → InUnion four_fields i
    → (with_union.offset_of (suc i) ≡ with_union.offset_of i)
      × (with_union.count_of (suc i) ≡ with_union.count_of i)
union_members zero lt u = absurd (omega (arith, u.this))
union_members (suc zero) lt u = absurd (omega (arith, u.this))
union_members (suc (suc zero)) lt u = (refl, refl)
union_members (suc (suc (suc i))) lt u = absurd (omega arith)

counts :
    (i : ℕ)
    → i < length four_fields
    → IsApart (with_union.offset_of i) (field_at four_fields i).size_offset (with_union.count_of i)
counts zero lt = refl
counts (suc zero) lt = refl
counts (suc (suc zero)) lt = refl
counts (suc (suc (suc zero))) lt = refl
counts (suc (suc (suc (suc i)))) lt = absurd (omega arith)

described : Describes with_union four_fields
described = record {
  array = λ i a r. absurd (not_repeated i r);
  pointer = λ i a. absurd (not_pointer i a);
  single = λ i a r. sizes i;
  first = refl;
  behind = members_behind;
  union = union_members;
  counted = counts;
}

-- From `b` to `c`.
steps_to_union :
    PointsAt with_union four_fields 1000
      (next_pos four_fields 1)
      (pb_field_iter_next (place four_fields 1 1 1000 1008)).0
    × ((pb_field_iter_next (place four_fields 1 1 1000 1008)).1 ≡ not (2 == length four_fields))
steps_to_union =
    pb_field_iter_next-PointsAt with_union four_fields 1000 1 (place four_fields 1 1 1000 1008)
      described four_fields-IsTagged (omega arith)
      (record {
        start = refl;
        position = refl;
        dest_struct = refl;
        member = refl;
        count = refl;
        required = refl;
      })
