-- ===== src/Format/Reads/Rounds.antt =====
-- One round of the decoder's loop: the tag, the field that has it, and the bit of a required field.
use breakpoint.Base.{
  ℕ, zero, suc, ◌+◌, ◌-◌, ◌*◌, ◌/◌, ◌^◌, ◌≤◌, ◌<◌, ◌≡◌, refl, ap, true, false, bit_and, bit_or,
  some, List, length, leb, ◌==◌, ==_iff, inl, inr, Bool-cases, arith, All,
}
use breakpoint.Base.Bits.{bit_and-31, bit_or-shift}
use breakpoint.Base.Digits.{power_positive}
use mathlib.Core.Path.{subst}
use breakpoint.Descriptor.{Field, field_at, pb_ltype, pb_htype}
use breakpoint.Descriptor.LType
use breakpoint.Descriptor.HType
use breakpoint.FieldIter.{is_wanted, pb_field_iter_find}
use breakpoint.FieldIter.Layout.{IsTagged, iter_at}
use breakpoint.FieldIter.Search.{pb_field_iter_find_lem}
use breakpoint.Decoder.Required.{Loop, mark_seen, check_required, complete}
use breakpoint.Decoder.Required.Words.{check_required_few}
use breakpoint.Decoder.Required.Marks.{shifted}
use breakpoint.Decoder.Required.Count.{
  count_required, required_before, required_before-length, index-iter_at, field-iter_at,
}

-- The words `2 ^ k - 1` of the first `k` bits.
set_next : (k : ℕ) → bit_or (2 ^ k - 1) (2 ^ k) ≡ 2 ^ suc k - 1
set_next k =
    let positive = power_positive k in
    let one : 1 * 2 ^ k ≡ 2 ^ k = omega arith in
    omega (
      arith,
      subst (λ t. bit_or (2 ^ k - 1) t ≡ (2 ^ k - 1) + t) one
          (bit_or-shift k (2 ^ k - 1) 1 (omega arith)),
    )

-- All bits are set, so nothing is missing.
pub check_required-all :
    (l : Loop) (count : ℕ)
    → count < 32
    → l.seen_low ≡ 2 ^ count - 1
    → check_required l count ≡ complete
check_required-all l zero few seen = unfold check_required in refl
check_required-all l (suc c) few seen =
    rw
      (
        check_required_few l (suc c) (omega arith) few,
        shifted (suc c) few,
        seen,
        (==_iff (2 ^ suc c - 1) (2 ^ suc c - 1)).1 refl,
      )
      refl

required_before-le :
    (fields : List Field) (k i : ℕ)
    → i + k ≡ length fields
    → required_before fields i ≤ count_required fields
required_before-le fields zero i e =
    let at_end : i ≡ length fields = omega arith in
    rw at_end (omega (arith, required_before-length fields))
required_before-le fields (suc k) i e =
    omega (arith, required_before-le fields k (suc i) (omega arith))

module _ (fields : List Field) (dest : ℕ) (few : count_required fields < 32) where
  -- Before the entry `i`: the bits of the required fields before it are set.
  abbrev pub Started : ℕ → Loop → Type 0
  Started i l =
      (j : ℕ) × (j < length fields)
      × (l.iter ≡ iter_at fields dest j)
      × (l.seen_low ≡ 2 ^ required_before fields i - 1)

  -- The entry is found.
  abbrev pub at_entry : ℕ → Loop → Loop
  at_entry i l = record l { iter = iter_at fields dest i }

  pub mark_seen-iter : (i : ℕ) (l : Loop) → (mark_seen (at_entry i l)).iter ≡ iter_at fields dest i
  unfolding mark_seen
  mark_seen-iter i l = ground arith

  pub mark_seen-low :
      (i : ℕ) (l : Loop)
      → i < length fields
      → l.seen_low ≡ 2 ^ required_before fields i - 1
      → (mark_seen (at_entry i l)).seen_low ≡ 2 ^ required_before fields (suc i) - 1
  unfolding mark_seen
  mark_seen-low i l lt seen =
      elim (Bool-cases (pb_htype (field_at fields i).type == HType.required)) [
        | inl r ↦
            let b = required_before fields i in
            let le = required_before-le fields (length fields - suc i) (suc i) (omega arith) in
            let small : b < 32 = ground (arith, le, few) in
            let high : leb 64 b ≡ false = ground arith in
            let word : b / 2 ^ 5 ≡ 0 = omega arith in
            let bit : bit_and b 31 ≡ b = omega (arith, bit_and-31 b) in
            let next : b + 1 ≡ suc b = omega arith in
            rw
              (
                field-iter_at fields dest i,
                index-iter_at fields dest i,
                r,
                high,
                word,
                bit,
                seen,
                next,
              )
              (set_next b)
        | inr o ↦ rw (field-iter_at fields dest i, o, seen) (ap (λ t. 2 ^ t - 1) (omega arith))
      ]

-- The search finds the one entry that has the tag.
pub pb_field_iter_find-tag :
    (fields : List Field) (dest i j : ℕ)
    → All IsTagged fields
    → ((x y : ℕ)
        → x < length fields
        → y < length fields
        → (field_at fields x).tag ≡ (field_at fields y).tag
        → x ≡ y)
    → (pb_ltype (field_at fields i).type == LType.extension) ≡ false
    → i < length fields
    → j < length fields
    → pb_field_iter_find (iter_at fields dest j) (field_at fields i).tag
      ≡ some (iter_at fields dest i, true)
unfolding is_wanted
pb_field_iter_find-tag fields dest i j tagged distinct ordinary lt start =
    let tag = (field_at fields i).tag in
    elim (pb_field_iter_find_lem fields dest j tag tagged start) [
      | inl (x, below, wanted, found) ↦
          let same : x ≡ i = distinct x i below lt (ground (arith, wanted)) in
          subst
            (λ y.
              pb_field_iter_find (iter_at fields dest j) tag ≡ some (iter_at fields dest y, true))
            same found
      | inr (e, missing) ↦
          absurd (ground (arith, missing i (omega arith) lt, (==_iff tag tag).1 refl, ordinary))
    ]
