-- ===== src/Decoder/Required/Trail.antt =====
-- What mark_seen has marked, entry after entry, against what the check asks at the end.
use breakpoint.Base.{
  ℕ, ◌-◌, ◌/◌, ◌%◌, ◌^◌, ◌≤◌, ◌<◌, ◌≡◌, ◌≢◌, ◌↔◌, refl, sym, ap, ◌∙◌, Bool, true, false, ◌&&◌, ◌||◌,
  not, bit_and, bit_or, List, [], ◌∷◌, ltb, leb, ltb→lt, ◌==◌, if◌then◌else◌, All, arith,
  Bool-cases, inl, inr,
}
use breakpoint.Base.Bits.{bit_and-31, bit_or-lt}
use breakpoint.Base.Digits.{bit, bit-0, bit-bit_or, bit-power, power_le}
use breakpoint.Descriptor.{pb_htype}
use breakpoint.Descriptor.HType
use breakpoint.FieldIter.{Iter, field}
use breakpoint.Decoder.Required.{Loop, complete, check_required, mark_seen}
use breakpoint.Decoder.Required.Marks.{IsWords, has_bit, check_required-has_bit}

-- The entry is of a required field with the index `k`.
abbrev pub is_required_at : ℕ → Iter → Bool
is_required_at k it = pb_htype (field it).type == HType.required && it.required_field_index == k

abbrev pub any_required_at : ℕ → List Iter → Bool
any_required_at k [] = false
any_required_at k (it ∷ its) = is_required_at k it || any_required_at k its

-- mark_seen at each entry in turn.
abbrev pub mark_all : List Iter → Loop → Loop
mark_all [] l = l
mark_all (it ∷ its) l = mark_all its (mark_seen (record l { iter = it }))

bit_of_word : (w i : ℕ) → w < 2 ^ 32 → bit_or w (2 ^ bit_and i 31) < 2 ^ 32
bit_of_word w i h =
    let low : bit_and i 31 ≤ 31 = omega (arith, bit_and-31 i) in
    bit_or-lt 32 w (2 ^ bit_and i 31) h (omega (arith, power_le (bit_and i 31) 31 low))

mark_seen-IsWords : (l : Loop) → IsWords l → IsWords (mark_seen l)
unfolding mark_seen
mark_seen-IsWords l h =
    elim (Bool-cases (
      not (pb_htype (field l.iter).type == HType.required) || leb 64 l.iter.required_field_index)) [
        | inl skipped ↦ rw skipped h
        | inr marked ↦ elim (Bool-cases (l.iter.required_field_index / 2 ^ 5 == 0)) [
          | inl first ↦
              rw (marked, first)
                (record {
                  low = bit_of_word l.seen_low l.iter.required_field_index h.low;
                  high = h.high;
                })
          | inr second ↦
              rw (marked, second)
                (record {
                  low = h.low;
                  high = bit_of_word l.seen_high l.iter.required_field_index h.high;
                })
        ]
      ]

-- A bit that is set in a word.
bit-set : (k w i : ℕ) → bit k (bit_or w (2 ^ bit_and i 31)) ≡ (bit k w || k == i % 32)
bit-set k w i =
    rw (bit-bit_or k w (2 ^ bit_and i 31), bit-power k (bit_and i 31), bit_and-31 i) refl

or_false : (b : Bool) → b ≡ (b || false)
or_false true = refl
or_false false = refl

-- In the first word, and in the second one.
set_low :
    (k w i : ℕ) (other : Bool)
    → (i / 2 ^ 5 == 0) ≡ true
    → (if ltb k 32 then bit k (bit_or w (2 ^ bit_and i 31)) else other)
      ≡ ((if ltb k 32 then bit k w else other) || i == k)
set_low k w i other first = rw (bit-set k w i) (elim (Bool-cases (ltb k 32)) [
  | inl low ↦ rw low (ap (λ b. bit k w || b) (same_test (ltb→lt k 32 low)))
  | inr high ↦ rw (high, no_test (ground (arith, high))) (or_false other)
])
  where
    same_test : k < 32 → (k == i % 32) ≡ (i == k)
    same_test lt = ground (arith, first)

    no_test : 32 ≤ k → (i == k) ≡ false
    no_test le = ground (arith, first)

set_high :
    (k w i : ℕ) (other : Bool)
    → k < 64
    → leb 64 i ≡ false
    → (i / 2 ^ 5 == 0) ≡ false
    → (if ltb k 32 then other else bit (k - 32) (bit_or w (2 ^ bit_and i 31)))
      ≡ ((if ltb k 32 then other else bit (k - 32) w) || i == k)
set_high k w i other small fits second = rw (bit-set (k - 32) w i) (elim (Bool-cases (ltb k 32)) [
  | inl low ↦ rw (low, no_test (ltb→lt k 32 low)) (or_false other)
  | inr high ↦ rw high (ap (λ b. bit (k - 32) w || b) (same_test (ground (arith, high))))
])
  where
    same_test : 32 ≤ k → (k - 32 == i % 32) ≡ (i == k)
    same_test le = ground (arith, fits, second)

    no_test : k < 32 → (i == k) ≡ false
    no_test lt = ground (arith, second)

mark_seen-has_bit :
    (l : Loop) (k : ℕ) → k < 64 → has_bit (mark_seen l) k ≡ (has_bit l k || is_required_at k l.iter)
unfolding mark_seen
mark_seen-has_bit l k small =
    let i = l.iter.required_field_index in
    elim (Bool-cases (pb_htype (field l.iter).type == HType.required)) [
      | inl required ↦ elim (Bool-cases (leb 64 i)) [
        | inl large ↦
            let apart : (i == k) ≡ false = ground (arith, large, small) in
            rw (required, large, apart) (or_false (has_bit l k))
        | inr fits ↦ elim (Bool-cases (i / 2 ^ 5 == 0)) [
          | inl first ↦
              rw (required, fits, first) (set_low k l.seen_low i (bit (k - 32) l.seen_high) first)
          | inr second ↦
              rw (required, fits, second)
                (set_high k l.seen_high i (bit k l.seen_low) small fits second)
        ]
      ]
      | inr other ↦ rw other (or_false (has_bit l k))
    ]

or_assoc : (a b c : Bool) → ((a || b) || c) ≡ (a || (b || c))
or_assoc true b c = refl
or_assoc false b c = refl

mark_all-IsWords : (its : List Iter) (l : Loop) → IsWords l → IsWords (mark_all its l)
mark_all-IsWords [] l h = h
mark_all-IsWords (it ∷ its) l h =
    mark_all-IsWords its (mark_seen (record l { iter = it }))
      (mark_seen-IsWords (record l { iter = it }) (record { low = h.low; high = h.high }))

mark_all-has_bit :
    (its : List Iter) (l : Loop) (k : ℕ)
    → k < 64
    → has_bit (mark_all its l) k ≡ (has_bit l k || any_required_at k its)
mark_all-has_bit [] l k small = or_false (has_bit l k)
mark_all-has_bit (it ∷ its) l k small =
    mark_all-has_bit its (mark_seen (record l { iter = it })) k small
    ∙ (ap (λ b. b || any_required_at k its) (mark_seen-has_bit (record l { iter = it }) k small)
        ∙ or_assoc (has_bit l k) (is_required_at k it) (any_required_at k its))

-- The index of a required entry is below `count`.
abbrev pub IsBelow : ℕ → Iter → Type 0
IsBelow count it = (k : ℕ) → is_required_at k it ≡ true → k < count

none_above :
    (count k : ℕ) (its : List Iter)
    → All (IsBelow count) its
    → count ≤ k
    → any_required_at k its ≡ false
none_above count k [] h le = refl
none_above count k (it ∷ its) h le = elim (Bool-cases (is_required_at k it)) [
  | inl here ↦ absurd (omega (arith, h.0 k here))
  | inr other ↦ rw other (none_above count k its h.1 le)
]

-- From two words that are 0, after mark_seen at some entries, with fewer than 64 required fields, but
-- not 32, and no entry with a greater index: the check succeeds exactly if there was a required entry
-- with every index below their number among them.
pub check_required-mark_all :
    (l : Loop) (its : List Iter) (count : ℕ)
    → l.seen_low ≡ 0
    → l.seen_high ≡ 0
    → count < 64
    → count ≢ 32
    → All (IsBelow count) its
    → (check_required (mark_all its l) count ≡ complete)
      ↔ ((k : ℕ) → k < count → any_required_at k its ≡ true)
check_required-mark_all l its count low high small not_32 below =
    let checked =
      check_required-has_bit (mark_all its l) count
        (mark_all-IsWords its l (record { low = omega (arith, low); high = omega (arith, high) }))
        small not_32 (λ k le lt. bits k lt ∙ none_above count k its below le) in
    (
      λ e k lt. sym (bits k (omega arith)) ∙ checked.0 e k lt,
      λ h. checked.1 λ k lt. bits k (omega arith) ∙ h k lt,
    )
  where
    empty : (k : ℕ) → has_bit l k ≡ false
    empty k = elim (Bool-cases (ltb k 32)) [
      | inl first ↦ rw (first, low) (bit-0 k)
      | inr second ↦ rw (second, high) (bit-0 (k - 32))
    ]

    bits : (k : ℕ) → k < 64 → has_bit (mark_all its l) k ≡ any_required_at k its
    bits k lt = mark_all-has_bit its l k lt ∙ ap (λ b. b || any_required_at k its) (empty k)
