-- ===== src/Format/Cleared/Messages.antt =====
-- All fields of a message are set to their defaults, one behind the other.
use breakpoint.Base.{
  ℕ, zero, suc, ◌+◌, ◌≤◌, ◌<◌, ◌≡◌, refl, sym, ap, ◌∙◌, List, length, ◌==◌, arith, Bool-cases, inl,
  inr, ==_iff, neq→==,
}
use mathlib.Core.Path.{subst}
use breakpoint.Outcome.{M, continue}
use breakpoint.Input.{Istream}
use breakpoint.Memory.{Memory}
use breakpoint.Descriptor.{Field, field_at, pb_ltype}
use breakpoint.Descriptor.LType
use breakpoint.FieldIter.{each_field, for_fields, pb_field_iter_begin}
use breakpoint.FieldIter.Layout.{iter_at, pb_field_iter_next-iter_at}
use breakpoint.Decoder.{DecState, Env}
use breakpoint.Decoder.Defaults.{pb_field_set_to_default, pb_message_set_to_defaults}
use breakpoint.Format.Plain.{
  p_data-iter_at, All-IsTagged, IsPlainField, IsPlain, bound_end, no_fields, begin_some,
}
use breakpoint.Format.Agrees.{
  OnlyIn, OnlyIn-trans, OnlyIn-wider, OnlyIn-Alike, Alike, data-Alike, ClearedEntry,
  ClearedEntry-Alike, IsCleared, IsCleared-Alike,
}
use breakpoint.Format.Cleared.{Fills, Below, entry-Fills}

module _ (env : Env) (input : Istream) (n : ℕ) (inner : List Field → ℕ → Memory → Type 0)
    (fields : List Field) (dest : ℕ) (bound : ℕ → ℕ)
    (plain : (i : ℕ) → i < length fields → IsPlainField fields i (bound i) (bound (suc i)))
    (below : (i : ℕ)
      → i < length fields
      → Below env input inner
          (λ fs p. pb_message_set_to_defaults env n fs p)
          (field_at fields i)
          (iter_at fields dest i).p_data)
    (stable : (i : ℕ)
      → i < length fields
      → pb_ltype (field_at fields i).type ≡ LType.submessage
      → (m m' : Memory)
      → Alike
          (iter_at fields dest i).p_data
          ((iter_at fields dest i).p_data + (field_at fields i).data_size)
          m
          m'
      → inner (env.fields_at (field_at fields i).ptr) (iter_at fields dest i).p_data m
      → inner (env.fields_at (field_at fields i).ptr) (iter_at fields dest i).p_data m') where
  abbrev each : ℕ → ℕ → M DecState (Unit {0})
  each c i = each_field c (λ it. pb_field_set_to_default env (suc n) it) (iter_at fields dest i)

  abbrev ClearAt : ℕ → Memory → Type 0
  ClearAt j m =
      ClearedEntry env.fields_at inner (field_at fields j) (iter_at fields dest j).p_data m

  -- The entries from `i` on.
  abbrev ClearFrom : ℕ → Memory → Type 0
  ClearFrom i m = (j : ℕ) → i ≤ j → j < length fields → ClearAt j m

  ClearFrom-cons :
      (i : ℕ) (m1 m' : Memory)
      → i < length fields
      → ClearAt i m1
      → OnlyIn (dest + bound (suc i)) (dest + bound (length fields)) m1 m'
      → ClearFrom (suc i) m'
      → ClearFrom i m'
  ClearFrom-cons i m1 m' lt first only rest j low up = elim (Bool-cases (j == i)) [
    | inl same ↦
        let p = (iter_at fields dest i).p_data in
        let place = p_data-iter_at fields dest i in
        let inside =
          OnlyIn-Alike (dest + bound (suc i)) (dest + bound (length fields)) (dest + bound i)
            (dest + bound (suc i)) m1 m' (inl (omega arith)) only in
        subst (λ k. ClearAt k m') (sym ((==_iff j i).0 same))
          (ClearedEntry-Alike fields i (bound i) (bound (suc i)) dest p m1 m' (plain i lt) place
            inside env.fields_at inner
            (λ e. stable i lt e m1 m' (
              data-Alike fields i (bound i) (bound (suc i)) dest p m1 m' (plain i lt) place inside))
            first)
    | inr other ↦ rest j (ground arith) up
  ]

  each-Fills :
      (c i : ℕ) (m : Memory)
      → i + suc c ≡ length fields
      → Fills
          (each (suc c) i)
          input
          (dest + bound i)
          (dest + bound (length fields))
          m
          (λ m'. ClearFrom i m')
  unfolding each_field
  each-Fills zero i m e =
      let lt : i < length fields = omega arith in
      let next =
        pb_field_iter_next-iter_at fields dest i (All-IsTagged fields (λ j l. (plain j l).tag_pos))
          lt in
      let (m1, run, only, holds) =
        entry-Fills env input n inner fields dest i (bound i) (bound (suc i)) (plain i lt)
          (below i lt) m in
      (
        m1,
        rw (next, (==_iff (suc i) (length fields)).1 (omega arith)) run,
        OnlyIn-wider _ _ (dest + bound i) (dest + bound (length fields)) m m1 (omega arith)
            (omega (arith, bound_end fields bound plain i lt)) only,
        ClearFrom-cons i m1 m1 lt holds (λ x out. refl) (λ j low up. absurd (omega arith)),
      )
  each-Fills (suc c) i m e =
      let lt : i < length fields = omega arith in
      let next =
        pb_field_iter_next-iter_at fields dest i (All-IsTagged fields (λ j l. (plain j l).tag_pos))
          lt in
      let (m1, run, only, holds) =
        entry-Fills env input n inner fields dest i (bound i) (bound (suc i)) (plain i lt)
          (below i lt) m in
      let (m', run', only', rest) = each-Fills c (suc i) m1 (omega arith) in
      let up = bound_end fields bound plain i lt in
      let low = (plain i lt).low in
      let high = (plain i lt).high in
      (
        m',
        rw (next, neq→== (suc i) (length fields) (omega arith))
            (ap (λ o. continue o (λ _. each (suc c) (suc i))) run ∙ run'),
        OnlyIn-trans (dest + bound i) (dest + bound (suc i)) (dest + bound (length fields)) m m1 m'
            (omega arith) (omega arith) only only',
        ClearFrom-cons i m1 m' lt holds only' rest,
      )

  all-Fills :
      (count : ℕ) (m : Memory)
      → length fields ≡ count
      → Fills
          (for_fields (λ it. pb_field_set_to_default env (suc n) it) fields dest)
          input
          dest
          (dest + bound (length fields))
          m
          (λ m'. ClearFrom 0 m')
  unfolding for_fields
  all-Fills zero m e = (
    m,
    rw (no_fields fields e) (unfold pb_field_iter_begin in refl),
    (λ x out. refl),
    λ j low up. absurd (omega arith),
  )
  all-Fills (suc c) m e =
      let (m', run, only, holds) = each-Fills c 0 m (omega (arith, e)) in
      (
        m',
        rw (begin_some fields dest (plain 0 (omega arith)).tag_pos, e) (unfold iter_at in run),
        OnlyIn-wider _ _ dest (dest + bound (length fields)) m m' (omega arith) (omega arith) only,
        holds,
      )

-- The whole structure, from any memory.
pub pb_message_set_to_defaults-IsCleared :
    (env : Env) (input : Istream) (n : ℕ) (fields : List Field) (size dest : ℕ)
    → IsPlain env.fields_at n fields size
    → (m : Memory)
    → Fills
        (pb_message_set_to_defaults env n fields dest)
        input
        dest
        (dest + size)
        m
        (λ m'. IsCleared env.fields_at n fields dest m')
unfolding IsPlain IsCleared pb_message_set_to_defaults
pb_message_set_to_defaults-IsCleared env input zero fields size dest plain = absurd plain
pb_message_set_to_defaults-IsCleared env input (suc n) fields size dest
      (bound, fits, few, distinct, plain) =
    λ m.
      let (m', run, only, holds) =
        all-Fills env input n (λ fs p l. IsCleared env.fields_at n fs p l) fields dest bound
          (λ i lt. (plain i lt).0)
          (λ i lt e.
            pb_message_set_to_defaults-IsCleared env input n (env.fields_at (field_at fields i).ptr)
              (field_at fields i).data_size (iter_at fields dest i).p_data ((plain i lt).1 e))
          (λ i lt e m1 m2.
            IsCleared-Alike env.fields_at n (env.fields_at (field_at fields i).ptr)
              (field_at fields i).data_size (iter_at fields dest i).p_data m1 m2 ((plain i lt).1 e))
          (length fields) m refl in
      (
        m',
        run,
        OnlyIn-wider _ _ dest (dest + size) m m' (omega arith) (omega arith) only,
        λ j lt. holds j (omega arith) lt,
      )
