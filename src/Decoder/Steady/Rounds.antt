-- ===== src/Decoder/Steady/Rounds.antt =====
-- One round of the loop of pb_decode_noinit: it returns, and the iterator stands at an entry again.
use breakpoint.Base.{
  ℕ, ◌<◌, ◌^◌, ◌≡◌, inl, inr, refl, ap, ◌∙◌, Bool, true, false, some, List, length, ltb, lt→ltb,
  arith, All, Bool-cases,
}
use breakpoint.Outcome.{Outcome, ok, fail, fault, stuck, pure, continue}
use breakpoint.Input.{Istream}
use breakpoint.Input.Reading.{IsSound}
use breakpoint.Input.Safety.{Follows}
use breakpoint.Wire.{pb_skip_field}
use breakpoint.Wire.Safety.{pb_skip_field-IsSafe}
use breakpoint.Descriptor.{Field, field_at, pb_last_field, pb_size_max}
use breakpoint.FieldIter.{
  pb_field_iter_begin, pb_field_iter_next, pb_field_iter_find, find_extension_field, find_from,
  is_wanted, is_extension,
}
use breakpoint.FieldIter.Layout.{IsTagged, iter_at}
use breakpoint.FieldIter.Search.{pb_field_iter_find_lem, find_extension_field_lem}
use breakpoint.Decoder.{DecState, Env}
use breakpoint.Decoder.Required.{Loop, mark_seen}
use breakpoint.Decoder.Required.Count.{IsEntry, field-iter_at}
use breakpoint.Decoder.Steady.{Lags, Steady, IsSteady-on_input}
use breakpoint.Decoder.Steady.Fields.{Suits}
use breakpoint.Decoder.Steady.Callbacks.{IsReader, decode_field-IsSteady}
use breakpoint.Decoder.Fields.{Nested}
use breakpoint.Decoder.Messages.{one_field, unknown_field, found_or_not, skip_unknown}

-- The iterator of the loop is at an entry of the message.
abbrev pub IsPlaced : List Field → ℕ → Loop → Type 0
IsPlaced fields dest l = (i : ℕ) × IsEntry fields i × (l.iter ≡ iter_at fields dest i)

-- A round is steady, and leaves the iterator at an entry.
abbrev pub Round : List Field → ℕ → Istream → Outcome DecState Loop → Type 0
Round fields dest i (ok l t) = Follows i t.input × IsPlaced fields dest l
Round fields dest i (fail t) = Lags i t.input
Round fields dest i fault = ⊥
Round fields dest i stuck = ⊥

module _ (fields : List Field) (dest : ℕ) (tagged : All IsTagged fields) where
  -- pb_field_iter_find ends at an entry, in an empty message too.
  pub find_at-IsEntry :
      (i tag : ℕ)
      → IsEntry fields i
      → (j : ℕ) × (found : Bool) × IsEntry fields j
        × (pb_field_iter_find (iter_at fields dest i) tag ≡ some (iter_at fields dest j, found))
  find_at-IsEntry i tag (inl lt) = elim (pb_field_iter_find_lem fields dest i tag tagged lt) [
    | inl (j, below, wanted, e) ↦ (j, true, inl below, e)
    | inr (e, missing) ↦ (i, false, inl lt, e)
  ]
  find_at-IsEntry i tag (inr (first, empty)) =
      rw (first, empty)
        (elim (Bool-cases (is_wanted tag pb_last_field)) [
          | inl e ↦ (
            0,
            true,
            inr (refl, refl),
            unfold pb_field_iter_find find_from iter_at pb_field_iter_begin in rw e refl,
          )
          | inr e ↦ (
            0,
            false,
            inr (refl, refl),
            unfold pb_field_iter_find find_from iter_at pb_field_iter_begin pb_field_iter_next in
                rw e refl,
          )
        ])

  -- In a message without extensions find_extension_field finds nothing.
  pub no_extension :
      (i : ℕ)
      → IsEntry fields i
      → ((j : ℕ) → j < length fields → is_extension (field_at fields j) ≡ false)
      → find_extension_field (iter_at fields dest i) ≡ some (iter_at fields dest i, false)
  no_extension i (inl lt) plain = elim (find_extension_field_lem fields dest i tagged lt) [
    | inl (j, below, wanted, e) ↦ absurd (cc (plain j below, wanted))
    | inr (e, missing) ↦ e
  ]
  no_extension i (inr (first, empty)) plain =
      rw (first, empty)
        (unfold find_extension_field find_from iter_at pb_field_iter_begin pb_field_iter_next in
          refl)

  -- A steady step, and then the loop's variables as they are.
  finish :
      (i : Istream) (o : Outcome DecState (Unit {0})) (l : Loop)
      → Steady i o
      → IsPlaced fields dest l
      → Round fields dest i (continue o (λ _. pure l))
  finish i (ok a t) l p q = (p, q)
  finish i (fail t) l p q = p
  finish i fault l p q = p
  finish i stuck l p q = p

  skip_unknown-Round :
      (l : Loop) (wire_type : ℕ) (s : DecState)
      → IsSound s.input
      → IsPlaced fields dest l
      → Round fields dest s.input (skip_unknown l wire_type s)
  skip_unknown-Round l wire_type s h placed =
      finish s.input _ l
        ((IsSteady-on_input (pb_skip_field wire_type) (pb_skip_field-IsSafe wire_type)).at s h)
        placed

  iter-mark_seen : (l : Loop) → (mark_seen l).iter ≡ l.iter
  unfolding mark_seen
  iter-mark_seen l = ground arith

  module _ (env : Env)
      (calls : (fn : ℕ) (f : Field) (arg : ℕ) → IsReader (env.call_decode fn f arg))
      (nested : Nested) (n : ℕ)
      (suits : (i : ℕ) → IsEntry fields i → Suits env nested (field_at fields i)) where
    plain : (j : ℕ) → j < length fields → is_extension (field_at fields j) ≡ false
    plain j lt = let has = (suits j (inl lt)).decoder in ground arith

    unknown_field-Round :
        (tag wire_type : ℕ) (l : Loop) (s : DecState)
        → IsSound s.input
        → tag < 2 ^ 29
        → IsPlaced fields dest l
        → Round fields dest s.input (unknown_field env nested n tag wire_type l s)
    unfolding unknown_field
    unknown_field-Round tag wire_type l s h small (i, entry, e) =
        elim (Bool-cases (ltb tag l.extension_range_start)) [
          | inl below ↦ rw below (skip_unknown-Round l wire_type s h (i, entry, e))
          | inr above ↦
              rw
                (
                  above,
                  ap find_extension_field e,
                  no_extension i entry plain,
                  lt→ltb tag pb_size_max (omega arith),
                )
                (skip_unknown-Round
                  (record l { iter = iter_at fields dest i; extension_range_start = pb_size_max })
                  wire_type s h (i, entry, refl))
        ]

    -- One round behind a tag of 29 bits.
    pub one_field-Round :
        (tag wire_type : ℕ) (l : Loop) (s : DecState)
        → IsSound s.input
        → tag < 2 ^ 29
        → IsPlaced fields dest l
        → Round fields dest s.input (one_field env nested n tag wire_type l s)
    unfolding one_field
    one_field-Round tag wire_type l s h small (i, entry, e) =
        let (j, found, entry', r) = find_at-IsEntry i tag entry in
        rw (ap (λ it. pb_field_iter_find it tag) e ∙ r) (by_found j found entry')
      where
        by_found :
            (j : ℕ) (found : Bool)
            → IsEntry fields j
            → Round fields dest s.input
                (found_or_not env nested n tag wire_type l (some (iter_at fields dest j, found)) s)
        by_found j true entry' =
            finish s.input _ (mark_seen (record l { iter = iter_at fields dest j }))
              ((decode_field-IsSteady env calls nested wire_type (iter_at fields dest j)
                  (rw (field-iter_at fields dest j) (suits j entry'))).at
                s h)
              (j, entry', iter-mark_seen (record l { iter = iter_at fields dest j }))
        by_found j false entry' =
            unknown_field-Round tag wire_type (record l { iter = iter_at fields dest j }) s h small
              (j, entry', refl)
