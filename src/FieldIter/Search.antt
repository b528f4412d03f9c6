-- ===== src/FieldIter/Search.antt =====
-- The searches go once round the descriptors, from any entry: pb_field_iter_find and
-- find_extension_field stop at a wanted field if there is one.
use breakpoint.Base.{
  ℕ, zero, suc, ◌+◌, ◌≤◌, ◌<◌, ◌≡◌, ◌⊎◌, refl, Bool, true, false, Option, some, List, length, ◌==◌,
  if◌then◌else◌, arith, All, Bool-cases, inl, inr, ==_iff, neq→==, ltb, ltb→lt, ltb→le,
}
use breakpoint.Descriptor.{Field, field_at}
use breakpoint.FieldIter.{
  Iter, find_from, pb_field_iter_find, find_extension_field, is_wanted, is_extension,
}
use breakpoint.FieldIter.Layout.{
  IsTagged, iter_at, next_pos, pb_field_iter_next-iter_at, start-iter_at, pos-iter_at,
}

module _ (fields : List Field) (dest : ℕ) (wanted : Field → Bool) where
  -- The search stopped at an entry that is wanted.
  abbrev pub Stops : Option (Iter × Bool) → Type 0
  Stops r =
      (j : ℕ) × (j < length fields)
      × (wanted (field_at fields j) ≡ true)
      × (r ≡ some (iter_at fields dest j, true))

  -- No entry from `lo` up to `hi` is wanted.
  abbrev pub Missing : ℕ → ℕ → Type 0
  Missing lo hi = (i : ℕ) → lo ≤ i → i < hi → wanted (field_at fields i) ≡ false

  module _ (tagged : All IsTagged fields) (start : ℕ) where
    -- One round from the entry `k`.
    round :
        (n k : ℕ)
        → k < length fields
        → find_from wanted start (suc n) (iter_at fields dest k) ≡ (
            if wanted (field_at fields k)
            then some (iter_at fields dest k, true)
            else if next_pos fields k == start
            then some (iter_at fields dest (next_pos fields k), false)
            else find_from wanted start n (iter_at fields dest (next_pos fields k)))
    unfolding find_from
    round n k lt =
        simp (pb_field_iter_next-iter_at fields dest k tagged lt, pos-iter_at, start-iter_at)

    next_of : (k : ℕ) → suc k < length fields → next_pos fields k ≡ suc k
    next_of k lt = ground arith

    -- What one round says of the whole search.
    abbrev Half : ℕ → ℕ → Option (Iter × Bool) → Type 0
    Half lo hi r = Stops r ⊎ ((r ≡ some (iter_at fields dest start, false)) × Missing lo hi)

    extend : (k hi : ℕ) → wanted (field_at fields k) ≡ false → Missing (suc k) hi → Missing k hi
    extend k hi e more i lo lt = elim (Bool-cases (i == k)) [
      | inl same ↦ rw ((==_iff i k).0 same) e
      | inr other ↦ more i (ground arith) lt
    ]

    -- From an entry before `start`.
    find_low :
        (n k : ℕ)
        → start < length fields
        → k < start
        → start ≤ k + n
        → Half k start (find_from wanted start n (iter_at fields dest k))
    find_low zero k hs lt fuel = absurd (omega arith)
    find_low (suc n) k hs lt fuel =
        rw (round n k (omega arith), next_of k (omega arith))
          (elim (Bool-cases (wanted (field_at fields k))) [
            | inl found ↦ rw found (inl (k, omega arith, found, refl))
            | inr miss ↦ rw miss (elim (Bool-cases (suc k == start)) [
              | inl back ↦ rw back (
                  inr (
                    rw ((==_iff (suc k) start).0 back),
                    extend k start miss (λ i lo hi. absurd (ground arith)),
                  ))
              | inr on ↦ rw on (elim (find_low n (suc k) hs (ground arith) (omega arith)) [
                | inl f ↦ inl f
                | inr (e, more) ↦ inr (e, extend k start miss more)
              ])
            ])
          ])

    abbrev Around : ℕ → Option (Iter × Bool) → Type 0
    Around k r =
        Stops r
        ⊎ ((r ≡ some (iter_at fields dest start, false))
            × Missing k (length fields)
            × Missing 0 start)

    -- From `start` on, over the end and up to `start` again.
    find_high :
        (n k : ℕ)
        → start ≤ k
        → k < length fields
        → length fields + start ≤ k + n
        → Around k (find_from wanted start n (iter_at fields dest k))
    find_high zero k hs lt fuel = absurd (omega arith)
    find_high (suc n) k hs lt fuel =
        rw (round n k lt) (elim (Bool-cases (wanted (field_at fields k))) [
          | inl found ↦ rw found (inl (k, lt, found, refl))
          | inr miss ↦ rw miss (elim (Bool-cases (suc k == length fields)) [
            | inl last ↦ rw last (elim (Bool-cases (0 == start)) [
              | inl first ↦ rw first (
                  inr (
                    rw ((==_iff 0 start).0 first),
                    extend k (length fields) miss (λ i lo hi. absurd (ground arith)),
                    λ i lo hi. absurd (ground arith),
                  ))
              | inr on ↦ rw on (elim (find_low n 0 (omega arith) (ground arith) (ground arith)) [
                | inl f ↦ inl f
                | inr (e, low) ↦
                    inr (e, extend k (length fields) miss (λ i lo hi. absurd (ground arith)), low)
              ])
            ])
            | inr more ↦
                rw (more, neq→== (suc k) start (omega arith))
                  (elim (find_high n (suc k) (omega arith) (ground arith) (omega arith)) [
                    | inl f ↦ inl f
                    | inr (e, high, low) ↦ inr (e, extend k (length fields) miss high, low)
                  ])
          ])
        ])

  -- A whole turn from the entry `start`: the search stops at a wanted entry, or none is wanted
  -- and the iterator is where it was.
  pub find_from_around :
      (start : ℕ)
      → All IsTagged fields
      → start < length fields
      → Stops (find_from wanted start (suc (length fields)) (iter_at fields dest start))
        ⊎ ((find_from wanted start (suc (length fields)) (iter_at fields dest start)
              ≡ some (iter_at fields dest start, false))
            × Missing 0 (length fields))
  find_from_around start tagged lt =
      elim (find_high tagged start (suc (length fields)) start (omega arith) lt (omega arith)) [
        | inl f ↦ inl f
        | inr (e, high, low) ↦ inr (e, whole high low)
      ]
    where
      whole : Missing start (length fields) → Missing 0 start → Missing 0 (length fields)
      whole high low i lo hi = elim (Bool-cases (ltb i start)) [
        | inl before ↦ low i lo (ltb→lt i start before)
        | inr behind ↦ high i (ltb→le i start behind) hi
      ]

find_is_search :
    (fields : List Field) (dest start tag : ℕ)
    → pb_field_iter_find (iter_at fields dest start) tag
      ≡ find_from (is_wanted tag) start (suc (length fields)) (iter_at fields dest start)
unfolding pb_field_iter_find
find_is_search fields dest start tag = simp (start-iter_at, pos-iter_at)

find_extension_is_search :
    (fields : List Field) (dest start : ℕ)
    → find_extension_field (iter_at fields dest start)
      ≡ find_from is_extension start (suc (length fields)) (iter_at fields dest start)
unfolding find_extension_field
find_extension_is_search fields dest start = simp (start-iter_at, pos-iter_at)

-- pb_field_iter_find, from any entry of a list of descriptors whose tags are not 0: the search ends,
-- at an entry that has the tag and is no extension placeholder, or, if there is none in the whole list,
-- false and at the entry where it began.
pub pb_field_iter_find_lem :
    (fields : List Field) (dest start tag : ℕ)
    → All IsTagged fields
    → start < length fields
    → Stops fields dest (is_wanted tag) (pb_field_iter_find (iter_at fields dest start) tag)
      ⊎ ((pb_field_iter_find (iter_at fields dest start) tag
            ≡ some (iter_at fields dest start, false))
          × Missing fields dest (is_wanted tag) 0 (length fields))
pb_field_iter_find_lem fields dest start tag tagged lt =
    rw (find_is_search fields dest start tag)
      (find_from_around fields dest (is_wanted tag) start tagged lt)

-- find_extension_field, from any entry of a list of descriptors whose tags are not 0: the search ends,
-- at an extension placeholder, or, if there is none in the whole list, false and at the entry where it
-- began.
pub find_extension_field_lem :
    (fields : List Field) (dest start : ℕ)
    → All IsTagged fields
    → start < length fields
    → Stops fields dest is_extension (find_extension_field (iter_at fields dest start))
      ⊎ ((find_extension_field (iter_at fields dest start)
            ≡ some (iter_at fields dest start, false))
          × Missing fields dest is_extension 0 (length fields))
find_extension_field_lem fields dest start tagged lt =
    rw (find_extension_is_search fields dest start)
      (find_from_around fields dest is_extension start tagged lt)
