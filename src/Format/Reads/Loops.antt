-- ===== src/Format/Reads/Loops.antt =====
-- The decoder's loop reads the entries of a message one behind the other.
use breakpoint.Base.{
  ℕ, zero, suc, ◌+◌, ◌-◌, ◌^◌, ◌<◌, ◌≡◌, refl, sym, ap, ◌∙◌, inl, inr, Bool-cases, [], true, false,
  Option, List, ◌++◌, length, length-append, arith,
}
use mathlib.Core.Path.{subst}
use mathlib.Core.List.{append_assoc}
use breakpoint.Errors.{ErrMsg}
use breakpoint.Outcome.{ok}
use breakpoint.Input.Reading.{reading}
use breakpoint.Memory.{Memory}
use breakpoint.Descriptor.{Field, field_at}
use breakpoint.FieldIter.Layout.{iter_at}
use breakpoint.Decoder.{Env}
use breakpoint.Decoder.Fields.{Nested}
use breakpoint.Decoder.Messages.{decode_loop}
use breakpoint.Decoder.Required.{Loop, mark_seen}
use breakpoint.Decoder.Required.Count.{required_before}
use breakpoint.Format.{Writer, is_absent, entry_bytes, fields_bytes}
use breakpoint.Format.Plain.{bound_end, bound-up}
use breakpoint.Format.Agrees.{Relation, OnlyIn, OnlyIn-wider, OnlyIn-trans}
use breakpoint.Format.Cleared.{over}
use breakpoint.Format.Reads.Rounds.{Started, at_entry}
use breakpoint.Format.Reads.Rounds.{mark_seen-iter, mark_seen-low}
use breakpoint.Format.Reads.Entries.{round-Reads, entry_positive}
use breakpoint.Format.Reads.Frames.{
  Setting, Same, Clear, SameFrom, ClearFrom, SameFrom-cons, ClearFrom-next,
}

module _ (env : Env) (nested : Nested) (n : ℕ) (inner : Writer)
    (cleared : List Field → ℕ → Memory → Type 0) (agrees : Relation) (m0 : Memory)
    (fields : List Field) (src dest : ℕ)
    (h : Setting env nested inner cleared agrees m0 fields src dest) where
  abbrev pub entries : ℕ → ℕ → List ℕ
  entries c i = fields_bytes env.fields_at inner c i fields src m0

  -- The loop ends behind the entries from `i` on, with all of them the same as at `src`.
  abbrev pub LoopReads : ℕ → List ℕ → ℕ → Loop → Memory → List ℕ → Option ErrMsg → Type 0
  LoopReads i bs fuel l m rest e =
      (l' : Loop) × (m' : Memory) × (decode_loop env nested n fuel l
          (over (reading (bs ++ rest) (length bs) e) m)
        ≡ ok l' (over (reading rest 0 e) m'))
      × OnlyIn (dest + h.bound i) (dest + h.bound (length fields)) m m'
      × Started fields dest h.few (length fields) l'
      × SameFrom env nested inner cleared agrees m0 fields src dest h i m'

  abbrev pub LoopRule : ℕ → ℕ → Type 0
  LoopRule c i =
      (fuel : ℕ) (l : Loop) (m : Memory) (rest : List ℕ) (e : Option ErrMsg)
      → Started fields dest h.few i l
      → ClearFrom env nested inner cleared agrees m0 fields src dest h i m
      → length (entries c i) < fuel
      → length (entries c i) < 2 ^ 32
      → LoopReads i (entries c i) fuel l m rest e

  loop_end : (i : ℕ) → i ≡ length fields → LoopRule 0 i
  unfolding decode_loop fields_bytes
  loop_end i at_end zero l m rest e started clear fuel short = absurd (omega arith)
  loop_end i at_end (suc k) l m rest e started clear fuel short = (
    l,
    m,
    refl,
    (λ x out. refl),
    subst (λ x. Started fields dest h.few x l) at_end started,
    λ j low up. absurd (omega arith),
  )

  entry : ℕ → List ℕ
  entry i = entry_bytes env.fields_at inner (field_at fields i) (iter_at fields src i).p_data m0

  entries_first : (c i : ℕ) → entries (suc c) i ≡ entry i ++ entries c (suc i)
  unfolding fields_bytes entry
  entries_first c i = refl

  absent_entry :
      (i : ℕ) → is_absent (field_at fields i) (iter_at fields src i).p_data m0 ≡ true → entry i ≡ []
  unfolding entry entry_bytes
  absent_entry i absent = rw absent refl

  -- An optional field's entry is no required one.
  absent_not_required :
      (i : ℕ)
      → is_absent (field_at fields i) (iter_at fields src i).p_data m0 ≡ true
      → required_before fields (suc i) ≡ required_before fields i
  absent_not_required i absent = ground (arith, absent)

  is_absent-Same :
      (i : ℕ) (m : Memory)
      → is_absent (field_at fields i) (iter_at fields src i).p_data m0 ≡ true
      → Clear env nested inner cleared agrees m0 fields src dest h i m
      → Same env nested inner cleared agrees m0 fields src dest h i m
  is_absent-Same i m absent clear =
      (absent ∙ sym (clear.0 (ground (arith, absent))), λ present. absurd (cc (absent, present)))

  absent-LoopRule :
      (c i : ℕ)
      → i + suc c ≡ length fields
      → is_absent (field_at fields i) (iter_at fields src i).p_data m0 ≡ true
      → LoopRule c (suc i)
      → LoopRule (suc c) i
  absent-LoopRule c i e absent next fuel l m rest msg (j, start, at, seen) clear enough short =
      let lt : i < length fields = omega arith in
      let shape : entries (suc c) i ≡ entries c (suc i) =
        entries_first c i ∙ ap (λ bs. bs ++ entries c (suc i)) (absent_entry i absent) in
      let size = ap (λ bs. length bs) shape in
      let same_bits = absent_not_required i absent in
      let (l', m', run, only, started, same) =
        next fuel l m rest msg (j, start, at, seen ∙ ap (λ b. 2 ^ b - 1) (sym same_bits))
          (λ x low up. clear x (omega arith) up) (omega (arith, size)) (omega (arith, size)) in
      let low = bound-up fields h.bound h.plain i lt in
      (
        l',
        m',
        rw shape run,
        OnlyIn-wider _ _ (dest + h.bound i) (dest + h.bound (length fields)) m m' (omega arith)
            (omega arith) only,
        started,
        SameFrom-cons env nested inner cleared agrees m0 fields src dest h i m m' lt
            (is_absent-Same i m absent (clear i (omega arith) lt)) only same,
      )

  present-LoopRule :
      (c i : ℕ)
      → i + suc c ≡ length fields
      → is_absent (field_at fields i) (iter_at fields src i).p_data m0 ≡ false
      → LoopRule c (suc i)
      → LoopRule (suc c) i
  unfolding entry
  present-LoopRule c i e present next zero l m rest msg started clear enough short =
      absurd (omega arith)
  present-LoopRule c i e present next (suc fuel) l m rest msg (j, start, at, seen) clear enough
        short =
      let lt : i < length fields = omega arith in
      let shape = entries_first c i in
      let later = entries c (suc i) in
      let size = ap (λ bs. length bs) shape ∙ length-append (entry i) later in
      let k = length (entries (suc c) i) in
      let positive =
        entry_positive env nested n inner cleared agrees m0 fields src dest h i present in
      let (m1, run, only, same) =
        round-Reads env nested n inner cleared agrees m0 fields src dest h i fuel l m
          (later ++ rest) k msg lt (j, start, at, seen) present (omega (arith, size)) (omega arith)
          (omega (arith, size)) ((clear i (omega arith) lt).1) in
      let l1 = mark_seen (at_entry fields dest h.few i l) in
      let (l', m', run', only', started, rest_same) =
        next fuel l1 m1 rest msg
          (i, lt, mark_seen-iter fields dest h.few i l, mark_seen-low fields dest h.few i l lt seen)
          (ClearFrom-next env nested inner cleared agrees m0 fields src dest h i m m1 lt only clear)
          (omega (arith, size, positive)) (omega (arith, size)) in
      let left : k - length (entry i) ≡ length later = omega (arith, size) in
      let apart = ap (λ bs. bs ++ rest) shape ∙ append_assoc (entry i) later rest in
      (
        l',
        m',
        ap (λ bs. decode_loop env nested n (suc fuel) l (over (reading bs k msg) m)) apart
            ∙ run
            ∙ ap (λ t. decode_loop env nested n fuel l1 (over (reading (later ++ rest) t msg) m1))
                left
            ∙ run',
        OnlyIn-trans (dest + h.bound i) (dest + h.bound (suc i)) (dest + h.bound (length fields)) m
            m1 m' (omega (arith, bound-up fields h.bound h.plain i lt))
            (omega (arith, bound_end fields h.bound h.plain i lt)) only only',
        started,
        SameFrom-cons env nested inner cleared agrees m0 fields src dest h i m1 m' lt same only'
            rest_same,
      )

  pub loop-Reads : (c i : ℕ) → i + c ≡ length fields → LoopRule c i
  loop-Reads zero i e = loop_end i (omega arith)
  loop-Reads (suc c) i e =
      elim (Bool-cases (is_absent (field_at fields i) (iter_at fields src i).p_data m0)) [
        | inl absent ↦ absent-LoopRule c i e absent (loop-Reads c (suc i) (omega arith))
        | inr present ↦ present-LoopRule c i e present (loop-Reads c (suc i) (omega arith))
      ]
