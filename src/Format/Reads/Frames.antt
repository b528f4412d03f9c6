-- ===== src/Format/Reads/Frames.antt =====
-- What the decoder of one message asks of its descriptors and of the messages nested in it.
use breakpoint.Base.{
  false, ℕ, suc, ◌+◌, ◌-◌, ◌≤◌, ◌<◌, ◌≡◌, sym, inl, inr, Bool-cases, ==_iff, List, length, ◌==◌,
  arith,
}
use mathlib.Core.Path.{subst}
use breakpoint.Memory.{Memory}
use breakpoint.Descriptor.{Field, field_at, pb_ltype}
use breakpoint.Descriptor.LType
use breakpoint.FieldIter.Layout.{iter_at}
use breakpoint.Decoder.{Env}
use breakpoint.Decoder.Fields.{Nested}
use breakpoint.Decoder.Required.Count.{count_required}
use breakpoint.Encoder.Values.{string_length}
use breakpoint.Format.{is_absent}
use breakpoint.RoundTrip.Widths.{IsBytes}
use breakpoint.Format.{Writer}
use breakpoint.Format.Plain.{p_data-iter_at, bound-le, IsPlainField}
use breakpoint.Format.Agrees.{
  Relation, Alike, SameEntry, SameEntry-Alike, ClearedEntry, ClearedEntry-Alike, data-Alike, OnlyIn,
  OnlyIn-Alike,
}
use breakpoint.Format.Reads.Numbers.{NestedReads}

-- A message at `src` in `m0`, and a structure at `dest`.
pub record Setting (env : Env) (nested : Nested) (inner : Writer)
    (cleared : List Field → ℕ → Memory → Type 0) (agrees : Relation) (m0 : Memory)
    (fields : List Field) (src dest : ℕ) : Type 0 where
  pub bytes : IsBytes m0
  pub bound : ℕ → ℕ
  pub few : count_required fields < 32
  pub distinct :
      (x y : ℕ)
      → x < length fields
      → y < length fields
      → (field_at fields x).tag ≡ (field_at fields y).tag
      → x ≡ y
  pub plain : (i : ℕ) → i < length fields → IsPlainField fields i (bound i) (bound (suc i))
  pub filled :
      (i : ℕ)
      → i < length fields
      → is_absent (field_at fields i) (iter_at fields src i).p_data m0 ≡ false
      → pb_ltype (field_at fields i).type ≡ LType.string
      → string_length (field_at fields i).data_size (iter_at fields src i).p_data m0
        < (field_at fields i).data_size
  pub below :
      (i : ℕ)
      → i < length fields
      → is_absent (field_at fields i) (iter_at fields src i).p_data m0 ≡ false
      → NestedReads env nested inner cleared agrees m0
          (field_at fields i)
          (iter_at fields src i).p_data
          (iter_at fields dest i).p_data
  pub stable :
      (i : ℕ)
      → i < length fields
      → pb_ltype (field_at fields i).type ≡ LType.submessage
      → (m m' : Memory)
      → Alike
          (iter_at fields dest i).p_data
          ((iter_at fields dest i).p_data + (field_at fields i).data_size)
          m
          m'
      → cleared (env.fields_at (field_at fields i).ptr) (iter_at fields dest i).p_data m
      → cleared (env.fields_at (field_at fields i).ptr) (iter_at fields dest i).p_data m'
  pub settled :
      (i : ℕ)
      → i < length fields
      → pb_ltype (field_at fields i).type ≡ LType.submessage
      → (m m' : Memory)
      → Alike
          (iter_at fields dest i).p_data
          ((iter_at fields dest i).p_data + (field_at fields i).data_size)
          m
          m'
      → agrees
          (env.fields_at (field_at fields i).ptr)
          (iter_at fields src i).p_data
          m0
          (iter_at fields dest i).p_data
          m
      → agrees
          (env.fields_at (field_at fields i).ptr)
          (iter_at fields src i).p_data
          m0
          (iter_at fields dest i).p_data
          m'

module _ (env : Env) (nested : Nested) (inner : Writer) (cleared : List Field → ℕ → Memory → Type 0)
    (agrees : Relation) (m0 : Memory) (fields : List Field) (src dest : ℕ)
    (h : Setting env nested inner cleared agrees m0 fields src dest) where
  abbrev pub Same : ℕ → Memory → Type 0
  Same i m =
      SameEntry env.fields_at agrees (field_at fields i) (iter_at fields src i).p_data m0
        (iter_at fields dest i).p_data m

  abbrev pub Clear : ℕ → Memory → Type 0
  Clear i m =
      ClearedEntry env.fields_at cleared (field_at fields i) (iter_at fields dest i).p_data m

  -- The entries from `i` on.
  abbrev pub SameFrom : ℕ → Memory → Type 0
  SameFrom i m = (j : ℕ) → i ≤ j → j < length fields → Same j m

  abbrev pub ClearFrom : ℕ → Memory → Type 0
  ClearFrom i m = (j : ℕ) → i ≤ j → j < length fields → Clear j m

  Same-Alike :
      (j : ℕ) (m m' : Memory)
      → j < length fields
      → Alike (dest + h.bound j) (dest + h.bound (suc j)) m m'
      → Same j m
      → Same j m'
  Same-Alike j m m' lt inside =
      let p = (iter_at fields dest j).p_data in
      let place = p_data-iter_at fields dest j in
      SameEntry-Alike fields j (h.bound j) (h.bound (suc j)) dest p m m' (h.plain j lt) place inside
        env.fields_at agrees (iter_at fields src j).p_data m0
        (λ e. h.settled j lt e m m' (
          data-Alike fields j (h.bound j) (h.bound (suc j)) dest p m m' (h.plain j lt) place
            inside))

  Clear-Alike :
      (j : ℕ) (m m' : Memory)
      → j < length fields
      → Alike (dest + h.bound j) (dest + h.bound (suc j)) m m'
      → Clear j m
      → Clear j m'
  Clear-Alike j m m' lt inside =
      let p = (iter_at fields dest j).p_data in
      let place = p_data-iter_at fields dest j in
      ClearedEntry-Alike fields j (h.bound j) (h.bound (suc j)) dest p m m' (h.plain j lt) place
        inside env.fields_at cleared
        (λ e. h.stable j lt e m m' (
          data-Alike fields j (h.bound j) (h.bound (suc j)) dest p m m' (h.plain j lt) place
            inside))

  pub SameFrom-cons :
      (i : ℕ) (m m' : Memory)
      → i < length fields
      → Same i m
      → OnlyIn (dest + h.bound (suc i)) (dest + h.bound (length fields)) m m'
      → SameFrom (suc i) m'
      → SameFrom i m'
  SameFrom-cons i m m' lt first only rest j low up = elim (Bool-cases (j == i)) [
    | inl same ↦
        let inside =
          OnlyIn-Alike (dest + h.bound (suc i)) (dest + h.bound (length fields)) (dest + h.bound i)
            (dest + h.bound (suc i)) m m' (inl (omega arith)) only in
        subst (λ k. Same k m') (sym ((==_iff j i).0 same)) (Same-Alike i m m' lt inside first)
    | inr other ↦ rest j (ground arith) up
  ]

  -- What one entry changes leaves the ones behind it clear.
  pub ClearFrom-next :
      (i : ℕ) (m m' : Memory)
      → i < length fields
      → OnlyIn (dest + h.bound i) (dest + h.bound (suc i)) m m'
      → ClearFrom i m
      → ClearFrom (suc i) m'
  ClearFrom-next i m m' lt only clear j low up =
      let e : suc i + (j - suc i) ≡ j = omega arith in
      let above : h.bound (suc i) ≤ h.bound j =
        subst (λ x. h.bound (suc i) ≤ h.bound x) e
          (bound-le fields h.bound h.plain (j - suc i) (suc i) (omega arith)) in
      Clear-Alike j m m' up
        (OnlyIn-Alike (dest + h.bound i) (dest + h.bound (suc i)) (dest + h.bound j)
          (dest + h.bound (suc j)) m m' (inr (omega arith)) only)
        (clear j (omega arith) up)
