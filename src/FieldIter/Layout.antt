-- ===== src/FieldIter/Layout.antt =====
-- The iterator's address and counters depend on its position alone, however it got there.
use breakpoint.Base.{
  ℕ, zero, suc, ◌≤◌, ◌<◌, ◌≡◌, ◌≢◌, refl, ◌∙◌, true, false, not, List, [], ◌∷◌, length, ◌==◌,
  if◌then◌else◌, arith, All, Bool-cases, neq→==, inl, inr, ==_iff,
}
use native.Mathlib.Numerals.{add-one}
use breakpoint.Descriptor.{Field, field_at}
use breakpoint.FieldIter.{Iter, pb_field_iter_begin, pb_field_iter_next, step_to}

-- Descriptors as they are generated: no entry before the terminator has tag 0.
abbrev pub IsTagged : Field → Type 0
IsTagged f = f.tag ≢ 0

-- The iterator at the entry `i`, reached from the first one step by step.
unfoldable pub iter_at : List Field → ℕ → ℕ → Iter
iter_at fields dest zero = (pb_field_iter_begin fields dest).0
iter_at fields dest (suc i) =
    step_to (field_at fields i) (field_at fields (suc i)) (iter_at fields dest i)

pub pos-iter_at : (fields : List Field) (dest i : ℕ) → (iter_at fields dest i).pos ≡ i
unfolding iter_at step_to pb_field_iter_begin
pos-iter_at fields dest zero = refl
pos-iter_at fields dest (suc i) = ground (arith, pos-iter_at fields dest i)

pub start-iter_at : (fields : List Field) (dest i : ℕ) → (iter_at fields dest i).start ≡ fields
unfolding iter_at step_to pb_field_iter_begin
start-iter_at fields dest zero = refl
start-iter_at fields dest (suc i) = ground (arith, start-iter_at fields dest i)

pub dest_struct-iter_at :
    (fields : List Field) (dest i : ℕ) → (iter_at fields dest i).dest_struct ≡ dest
unfolding iter_at step_to pb_field_iter_begin
dest_struct-iter_at fields dest zero = refl
dest_struct-iter_at fields dest (suc i) = ground (arith, dest_struct-iter_at fields dest i)

pub tag-field_at :
    (fields : List Field) (i : ℕ)
    → All IsTagged fields
    → i < length fields
    → (field_at fields i).tag ≢ 0
tag-field_at [] i h lt = absurd (omega arith)
tag-field_at (f ∷ fs) zero h lt = h.0
tag-field_at (f ∷ fs) (suc i) h lt = tag-field_at fs i h.1 (omega arith)

pub tag-field_at_end :
    (fields : List Field) (i : ℕ) → length fields ≤ i → (field_at fields i).tag ≡ 0
tag-field_at_end [] i h = refl
tag-field_at_end (f ∷ fs) zero h = absurd (omega arith)
tag-field_at_end (f ∷ fs) (suc i) h = tag-field_at_end fs i (omega arith)

-- Where the step from the entry `i` leads.
abbrev pub next_pos : List Field → ℕ → ℕ
next_pos fields i = if suc i == length fields then 0 else suc i

-- One step from any iterator, with what it finds at its two entries.
pub step_from :
    (fields : List Field) (dest i : ℕ) (it : Iter)
    → (it.start ≡ fields)
    → (it.pos ≡ i)
    → (it.dest_struct ≡ dest)
    → (field_at fields i).tag ≢ 0
    → pb_field_iter_next it ≡ (
        if (field_at fields (suc i)).tag == 0
        then ((pb_field_iter_begin fields dest).0, false)
        else (step_to (field_at fields i) (field_at fields (suc i)) it, true))
unfolding pb_field_iter_next
step_from fields dest i it hs hp hd tag = simp (hs, hp, hd, add-one) (ground arith)

-- pb_field_iter_next, from any entry of a list of descriptors whose tags are not 0: it goes to the next
-- entry, or behind the last one back to the first, and returns whether it was not the last.
pub pb_field_iter_next-iter_at :
    (fields : List Field) (dest i : ℕ)
    → All IsTagged fields
    → i < length fields
    → pb_field_iter_next (iter_at fields dest i)
      ≡ (iter_at fields dest (next_pos fields i), not (suc i == length fields))
unfolding iter_at
pb_field_iter_next-iter_at fields dest i tagged lt = elim (Bool-cases (suc i == length fields)) [
  | inl last ↦
      rw last (stepped ∙ rw ((==_iff _ 0).1 (tag-field_at_end fields (suc i) (ground arith))))
  | inr more ↦
      rw more (stepped ∙ rw (neq→== _ 0 (tag-field_at fields (suc i) tagged (ground arith))))
]
  where
    stepped : pb_field_iter_next (iter_at fields dest i) ≡ (
        if (field_at fields (suc i)).tag == 0
        then ((pb_field_iter_begin fields dest).0, false)
        else (step_to (field_at fields i) (field_at fields (suc i)) (iter_at fields dest i), true))
    stepped =
        step_from fields dest i (iter_at fields dest i) (start-iter_at fields dest i)
          (pos-iter_at fields dest i) (dest_struct-iter_at fields dest i)
          (tag-field_at fields i tagged lt)
