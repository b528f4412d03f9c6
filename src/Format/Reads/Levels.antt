-- ===== src/Format/Reads/Levels.antt =====
-- One level of pb_decode_noinit: the loop, and the check of the required fields behind it.
use breakpoint.Base.{
  ℕ, zero, suc, ◌+◌, ◌-◌, ◌^◌, ◌<◌, ◌≡◌, refl, ap, ◌∙◌, inl, inr, Option, some, List, [], ◌++◌,
  length, arith,
}
use breakpoint.Errors.{ErrMsg}
use breakpoint.Outcome.{ok, continue}
use breakpoint.Input.{Istream}
use breakpoint.Input.Reading.{reading}
use breakpoint.Memory.{Memory}
use breakpoint.Descriptor.{Field, field_at}
use breakpoint.FieldIter.{pb_field_iter_begin}
use breakpoint.FieldIter.Layout.{iter_at}
use breakpoint.Decoder.{Env}
use breakpoint.Decoder.Fields.{Nested}
use breakpoint.Decoder.Messages.{decode_loop, verdict_of, decode_level}
use breakpoint.Decoder.Required.{Loop, required_fields, check_required, complete}
use breakpoint.Decoder.Required.Count.{
  count_required, required_before-length, required_fields-count,
}
use breakpoint.Format.{Writer, fields_bytes}
use breakpoint.Format.Plain.{no_fields, All-IsTagged}
use breakpoint.Format.Agrees.{Relation, OnlyIn-wider}
use breakpoint.Format.Cleared.{over}
use breakpoint.Format.Reads.{Reads}
use breakpoint.Format.Reads.Rounds.{Started, check_required-all}
use breakpoint.Format.Reads.Frames.{Setting, ClearFrom, SameFrom}
use breakpoint.Format.Reads.Loops.{loop-Reads}

-- The local variables before the loop.
abbrev fresh : List Field → ℕ → Loop
fresh fields dest = record {
  iter = (pb_field_iter_begin fields dest).0;
  seen_low = 0;
  seen_high = 0;
  extension_range_start = 0;
}

level_end :
    (env : Env) (nested : Nested) (n : ℕ) (fields : List Field) (dest : ℕ) (i i' : Istream)
    (m m' : Memory) (l : Loop)
    → decode_loop env nested n (suc i.bytes_left) (fresh fields dest) (over i m) ≡ ok l (over i' m')
    → required_fields l ≡ some complete
    → decode_level env nested n fields dest (over i m) ≡ ok tt (over i' m')
unfolding decode_level
level_end env nested n fields dest i i' m m' l run all =
    ap (λ o. continue o (λ x. verdict_of (required_fields x))) run
    ∙ ap (λ v. verdict_of v (over i' m')) all

fresh-Started :
    (fields : List Field) (dest : ℕ) (few : count_required fields < 32)
    → 0 < length fields
    → Started fields dest few 0 (fresh fields dest)
unfolding iter_at
fresh-Started fields dest few lt = (0, lt, refl, refl)

-- Behind the last entry no required field is missing.
none_missing :
    (fields : List Field) (dest : ℕ) (few : count_required fields < 32) (l : Loop)
    → ((i : ℕ) → i < length fields → 0 < (field_at fields i).tag)
    → Started fields dest few (length fields) l
    → required_fields l ≡ some complete
none_missing fields dest few l tags (j, lt, at, seen) =
    required_fields-count l fields dest j (All-IsTagged fields tags) (inl lt) at
    ∙ ap some (
        check_required-all l (count_required fields) few
          (seen ∙ ap (λ c. 2 ^ c - 1) (required_before-length fields)))

empty_complete : (dest : ℕ) → required_fields (fresh [] dest) ≡ some complete
unfolding check_required
empty_complete dest =
    required_fields-count (fresh [] dest) [] dest 0 tt (inr (refl, refl)) (unfold iter_at in refl)

-- A message with no fields has no bytes.
empty_level :
    (env : Env) (nested : Nested) (n : ℕ) (inner : Writer) (m0 : Memory) (fields : List Field)
    (src dest : ℕ) (rest : List ℕ) (e : Option ErrMsg) (m : Memory)
    → length fields ≡ 0
    → decode_level env nested n fields dest (
        over
          (reading
            (fields_bytes env.fields_at inner (length fields) 0 fields src m0 ++ rest)
            (length (fields_bytes env.fields_at inner (length fields) 0 fields src m0))
            e)
          m)
      ≡ ok tt (over (reading rest 0 e) m)
unfolding fields_bytes
empty_level env nested n inner m0 fields src dest rest e m none_there =
    rw (no_fields fields none_there) (
      level_end env nested n [] dest (reading rest 0 e) (reading rest 0 e) m m (fresh [] dest)
        (unfold decode_loop in refl) (empty_complete dest))

module _ (env : Env) (nested : Nested) (n : ℕ) (inner : Writer)
    (cleared : List Field → ℕ → Memory → Type 0) (agrees : Relation) (m0 : Memory)
    (fields : List Field) (src dest : ℕ)
    (h : Setting env nested inner cleared agrees m0 fields src dest) where
  abbrev pub entries : List ℕ
  entries = fields_bytes env.fields_at inner (length fields) 0 fields src m0

  -- One level of messages.
  pub level-Reads :
      (rest : List ℕ) (e : Option ErrMsg) (m : Memory)
      → length entries < 2 ^ 32
      → ClearFrom env nested inner cleared agrees m0 fields src dest h 0 m
      → Reads
          (decode_level env nested n fields dest)
          (reading (entries ++ rest) (length entries) e)
          (reading rest 0 e)
          dest
          (dest + h.bound (length fields))
          m
          (λ m'. SameFrom env nested inner cleared agrees m0 fields src dest h 0 m')
  level-Reads rest e m short clear = by_length (length fields) refl
    where
      by_length :
          (count : ℕ)
          → length fields ≡ count
          → Reads
              (decode_level env nested n fields dest)
              (reading (entries ++ rest) (length entries) e)
              (reading rest 0 e)
              dest
              (dest + h.bound (length fields))
              m
              (λ m'. SameFrom env nested inner cleared agrees m0 fields src dest h 0 m')
      by_length zero none_there = (
        m,
        empty_level env nested n inner m0 fields src dest rest e m none_there,
        (λ x out. refl),
        λ j low up. absurd (omega arith),
      )
      by_length (suc c) some_there =
          let (l', m', run, only, started, same) =
            loop-Reads env nested n inner cleared agrees m0 fields src dest h (length fields) 0
              (omega arith) (suc (length entries)) (fresh fields dest) m rest e
              (fresh-Started fields dest h.few (omega arith)) clear (omega arith) short in
          (
            m',
            level_end env nested n fields dest (reading (entries ++ rest) (length entries) e)
                (reading rest 0 e) m m' l' run
                (none_missing fields dest h.few l' (λ i lt. (h.plain i lt).tag_pos) started),
            OnlyIn-wider _ _ dest (dest + h.bound (length fields)) m m' (omega arith) (omega arith)
                only,
            same,
          )
