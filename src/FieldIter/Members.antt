-- ===== src/FieldIter/Members.antt =====
-- The iterator over a structure of C: where its members are, as the compiler has laid them out.
use breakpoint.Base.{
  ℕ, suc, ◌+◌, ◌*◌, ◌<◌, ◌≡◌, ◌≢◌, refl, ap, true, false, not, List, length, ◌==◌, if◌then◌else◌,
  arith, All, Bool-cases, neq→==, inl, inr, ==_iff,
}
use native.Mathlib.Numerals.{add-one}
use breakpoint.Base.Int.{ℤ, pos, negsuc}
use breakpoint.Descriptor.{Field, field_at, offset_by, pb_htype, pb_atype, pb_size_max}
use breakpoint.Descriptor.HType
use breakpoint.Descriptor.AType
use breakpoint.FieldIter.{
  Iter, place, pb_field_iter_begin, pb_field_iter_next, step_to, size_in_struct, same_union,
}
use breakpoint.FieldIter.Layout.{IsTagged, next_pos, tag-field_at, tag-field_at_end, step_from}
use breakpoint.Decoder.Required.Count.{required_before}

-- A structure: `offsetof` and `sizeof` of the member of each entry, and `offsetof` of the member that
-- counts it, its has_ or which_ member or its count.
pub record Struct : Type 0 where
  pub offset_of : ℕ → ℕ
  pub size_of : ℕ → ℕ
  pub count_of : ℕ → ℕ

-- `count` is as far from `member` as the signed offset says.
abbrev pub IsApart : ℕ → ℤ → ℕ → Type 0
IsApart member (pos n) count = count ≡ member + n
IsApart member (negsuc n) count = count + (n + 1) ≡ member

-- The entries `i` and `i + 1` are members of one union: PB_DATAOFFSET_UNION gives the second one the
-- data_offset PB_SIZE_MAX.
pub record InUnion (fields : List Field) (i : ℕ) : Type 0 where
  pub this : pb_htype (field_at fields i).type ≡ HType.oneof
  pub that : pb_htype (field_at fields (suc i)).type ≡ HType.oneof
  pub mark : (field_at fields (suc i)).data_offset ≡ pb_size_max

-- The descriptors of a structure, as the macros of pb.h write them. PB_DATAOFFSET_OTHER takes the
-- offset of an entry from the end of the member before; the members of one union begin at one place.
pub record Describes (s : Struct) (fields : List Field) : Type 0 where
  pub array :
      (i : ℕ)
      → pb_atype (field_at fields i).type ≡ AType.static
      → pb_htype (field_at fields i).type ≡ HType.repeated
      → s.size_of i ≡ (field_at fields i).data_size * (field_at fields i).array_size
  pub pointer : (i : ℕ) → pb_atype (field_at fields i).type ≡ AType.pointer → s.size_of i ≡ 8
  pub single :
      (i : ℕ)
      → pb_atype (field_at fields i).type ≢ AType.pointer
      → (pb_atype (field_at fields i).type ≡ AType.static
          → pb_htype (field_at fields i).type ≢ HType.repeated)
      → s.size_of i ≡ (field_at fields i).data_size
  pub first : (field_at fields 0).data_offset ≡ s.offset_of 0
  pub behind :
      (i : ℕ)
      → suc i < length fields
      → ¬ InUnion fields i
      → s.offset_of (suc i) ≡ s.offset_of i + s.size_of i + (field_at fields (suc i)).data_offset
  pub union :
      (i : ℕ)
      → suc i < length fields
      → InUnion fields i
      → (s.offset_of (suc i) ≡ s.offset_of i) × (s.count_of (suc i) ≡ s.count_of i)
  pub counted :
      (i : ℕ)
      → i < length fields
      → IsApart (s.offset_of i) (field_at fields i).size_offset (s.count_of i)

-- The iterator at the entry `i` of a structure at `dest`: its pointers are at the member and at what
-- counts it, and its counter is the number of required entries before.
pub record PointsAt (s : Struct) (fields : List Field) (dest i : ℕ) (it : Iter) : Type 0 where
  pub start : it.start ≡ fields
  pub position : it.pos ≡ i
  pub dest_struct : it.dest_struct ≡ dest
  pub member : it.p_data ≡ dest + s.offset_of i
  pub count : it.p_size ≡ dest + s.count_of i
  pub required : it.required_field_index ≡ required_before fields i

offset_by-IsApart :
    (dest member count : ℕ) (d : ℤ)
    → IsApart member d count
    → offset_by (dest + member) d ≡ dest + count
offset_by-IsApart dest member count (pos n) h = omega (arith, h)
offset_by-IsApart dest member count (negsuc n) h = omega (arith, h)

same_union-InUnion :
    (fields : List Field) (i : ℕ)
    → same_union (field_at fields i) (field_at fields (suc i)) ≡ true
    → InUnion fields i
unfolding same_union
same_union-InUnion fields i h = record {
  this = ground (arith, h);
  that = ground (arith, h);
  mark = ground (arith, h);
}

InUnion-same_union :
    (fields : List Field) (i : ℕ)
    → InUnion fields i
    → same_union (field_at fields i) (field_at fields (suc i)) ≡ true
unfolding same_union
InUnion-same_union fields i u = ground (arith, u.this, u.that, u.mark)

module _ (s : Struct) (fields : List Field) (h : Describes s fields) where
  size_in_struct-size_of : (i : ℕ) → size_in_struct (field_at fields i) ≡ s.size_of i
  unfolding size_in_struct
  size_in_struct-size_of i = ground (arith, h.array i, h.pointer i, h.single i)

  -- To the next member of one union.
  inside-PointsAt :
      (dest i : ℕ) (it : Iter)
      → suc i < length fields
      → InUnion fields i
      → PointsAt s fields dest i it
      → PointsAt s fields dest (suc i) (record it { pos = it.pos + 1 })
  inside-PointsAt dest i it lt u p = record {
    start = p.start;
    position = omega (arith, p.position);
    dest_struct = p.dest_struct;
    member = omega (arith, p.member, (h.union i lt u).0);
    count = omega (arith, p.count, (h.union i lt u).1);
    required = rw u.this (omega (arith, p.required));
  }

  -- To a member behind the one before.
  outside-PointsAt :
      (dest i required : ℕ) (it : Iter)
      → suc i < length fields
      → ¬ InUnion fields i
      → PointsAt s fields dest i it
      → required ≡ required_before fields (suc i)
      → PointsAt s fields dest (suc i) (
          place it.start (it.pos + 1) required it.dest_struct (
            it.p_data + size_in_struct (field_at fields i) + (field_at fields (suc i)).data_offset))
  outside-PointsAt dest i required it lt other p e = record {
    start = p.start;
    position = omega (arith, p.position);
    dest_struct = p.dest_struct;
    member = address;
    count =
        rw (address, p.start, p.position, add-one i)
          (offset_by-IsApart dest (s.offset_of (suc i)) (s.count_of (suc i))
            (field_at fields (suc i)).size_offset (h.counted (suc i) lt));
    required = e;
  }
    where
      address :
          it.p_data + size_in_struct (field_at fields i) + (field_at fields (suc i)).data_offset
          ≡ dest + s.offset_of (suc i)
      address = omega (arith, p.member, size_in_struct-size_of i, h.behind i lt other)

  step_to-PointsAt :
      (dest i : ℕ) (it : Iter)
      → suc i < length fields
      → PointsAt s fields dest i it
      → PointsAt s fields dest (suc i) (step_to (field_at fields i) (field_at fields (suc i)) it)
  unfolding step_to
  step_to-PointsAt dest i it lt p =
      elim (Bool-cases (same_union (field_at fields i) (field_at fields (suc i)))) [
        | inl same ↦ rw same (inside-PointsAt dest i it lt (same_union-InUnion fields i same) p)
        | inr other ↦ rw other (
            outside-PointsAt dest i _ it lt (λ u. let same = InUnion-same_union fields i u in cc) p
              (ground (arith, p.required)))
      ]

  pb_field_iter_begin-PointsAt :
      (dest : ℕ) → 0 < length fields → PointsAt s fields dest 0 (pb_field_iter_begin fields dest).0
  unfolding pb_field_iter_begin
  pb_field_iter_begin-PointsAt dest some_field = record {
    start = refl;
    position = refl;
    dest_struct = refl;
    member = ap (λ n. dest + n) h.first;
    count = rw h.first (
        offset_by-IsApart dest (s.offset_of 0) (s.count_of 0) (field_at fields 0).size_offset
          (h.counted 0 some_field));
    required = refl;
  }

-- pb_field_iter_next, over the descriptors of a structure, all with tags that are not 0. If the
-- iterator points at the member of an entry and at what counts it, and its counter is the number of
-- required entries before, then the same holds of the next entry afterwards, or, behind the last one,
-- of the first; and it returns whether it was not the last.
pub pb_field_iter_next-PointsAt :
    (s : Struct) (fields : List Field) (dest i : ℕ) (it : Iter)
    → Describes s fields
    → All IsTagged fields
    → i < length fields
    → PointsAt s fields dest i it
    → PointsAt s fields dest (next_pos fields i) (pb_field_iter_next it).0
      × ((pb_field_iter_next it).1 ≡ not (suc i == length fields))
pb_field_iter_next-PointsAt s fields dest i it h tagged lt p =
    elim (Bool-cases (suc i == length fields)) [
      | inl last ↦
          rw (last, next, (==_iff _ 0).1 (tag-field_at_end fields (suc i) (ground arith)))
            (pb_field_iter_begin-PointsAt s fields h dest (omega arith), refl)
      | inr more ↦
          rw (more, next, neq→== _ 0 (tag-field_at fields (suc i) tagged (ground arith)))
            (step_to-PointsAt s fields h dest i it (ground arith) p, refl)
    ]
  where
    next : pb_field_iter_next it ≡ (
        if (field_at fields (suc i)).tag == 0
        then ((pb_field_iter_begin fields dest).0, false)
        else (step_to (field_at fields i) (field_at fields (suc i)) it, true))
    next =
        step_from fields dest i it p.start p.position p.dest_struct
          (tag-field_at fields i tagged lt)
