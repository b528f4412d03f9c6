-- ===== src/Decoder/Kept/Rounds.antt =====
-- The rounds of the loop of pb_decode_noinit write where the message is, and where the callbacks may
-- write.
use breakpoint.Base.{
  ℕ, zero, suc, ◌+◌, ◌<◌, ◌^◌, ◌≡◌, inl, inr, refl, ap, ◌∙◌, Bool, true, false, Option, none, some,
  List, [], ◌∷◌, length, ltb, lt→ltb, ◌==◌, arith, Bool-cases,
}
use breakpoint.Outcome.{Outcome, ok, fail, fault, stuck, M, continue}
use breakpoint.Input.{Istream}
use breakpoint.Input.Reading.{IsSound}
use breakpoint.Wire.{Tag, at_eof, field_tag, pb_decode_tag, pb_skip_field}
use breakpoint.Wire.Safety.{pb_skip_field-IsSafe}
use breakpoint.Wire.Progress.{TagTaken, pb_decode_tag-TagTaken}
use breakpoint.Memory.{Memory}
use breakpoint.Descriptor.{Field, field_at, pb_size_max}
use breakpoint.FieldIter.{
  pb_field_iter_begin, pb_field_iter_find, find_extension_field, is_extension,
}
use breakpoint.FieldIter.Layout.{iter_at}
use breakpoint.Decoder.{DecState, Env, with_mem}
use breakpoint.Decoder.Fields.{Nested}
use breakpoint.Decoder.Required.{
  Loop, Verdict, complete, missing, undefined, mark_seen, required_fields,
}
use breakpoint.Decoder.Required.Count.{IsEntry, field-iter_at}
use breakpoint.Decoder.Messages.{
  skip_unknown, unknown_field, found_or_not, one_field, loop_on, decode_loop, verdict_of,
  decode_level,
}
use breakpoint.Decoder.Decodable.{IsDecodable, IsTagged-IsDecodable}
use breakpoint.Decoder.Steady.{IsSteady-on_input}
use breakpoint.Decoder.Steady.Fields.{Suits}
use breakpoint.Decoder.Steady.Callbacks.{IsReader, decode_field-IsSteady}
use breakpoint.Decoder.Steady.Rounds.{
  IsPlaced, Round, one_field-Round, find_at-IsEntry, no_extension,
}
use breakpoint.Decoder.Kept.{
  Owns, Kept, Kept-after, IsKept, IsKept-bind, IsKept-pure, IsKept-on_input,
}
use breakpoint.Decoder.Kept.Fields.{Confines}
use breakpoint.Decoder.Kept.Callbacks.{Keeps, decode_field-IsKept}
use breakpoint.Decoder.Kept.Layout.{IsLaidOut, InStruct-IsLaidOut, InStruct-IsOwned}

module _ (Own : ℕ → Type 0) where
  skip_unknown-IsKept : (l : Loop) (wire_type : ℕ) → IsKept Own (skip_unknown l wire_type)
  skip_unknown-IsKept l wire_type =
      IsKept-bind Own _ _
        (IsSteady-on_input (pb_skip_field wire_type) (pb_skip_field-IsSafe wire_type))
        (IsKept-on_input Own (pb_skip_field wire_type)) (λ _. IsKept-pure Own l)

  verdict-Kept : (v : Option Verdict) (t : DecState) → Kept Own t.mem (verdict_of v t)
  verdict-Kept none t = tt
  verdict-Kept (some complete) t = λ x out. refl
  verdict-Kept (some missing) t = λ x out. refl
  verdict-Kept (some undefined) t = tt

  -- What goes on with the loop's variables behind a round.
  Kept-round :
      (fields : List Field) (dest : ℕ) (i : Istream) (m : Memory) (o : Outcome DecState Loop)
      (again : Loop → M DecState Loop)
      → Round fields dest i o
      → Kept Own m o
      → ((l : Loop) (t : DecState)
          → IsSound t.input
          → IsPlaced fields dest l
          → Kept Own t.mem (again l t))
      → Kept Own m (continue o again)
  Kept-round fields dest i m (ok l t) again p q h =
      Kept-after Own m t.mem (again l t) q (h l t p.0.sound p.1)
  Kept-round fields dest i m (fail t) again p q h = q
  Kept-round fields dest i m fault again p q h = tt
  Kept-round fields dest i m stuck again p q h = tt

  module _ (env : Env)
      (readers : (fn : ℕ) (f : Field) (arg : ℕ) → IsReader (env.call_decode fn f arg))
      (calls : (fn : ℕ) (f : Field) (arg : ℕ) → Keeps Own (env.call_decode fn f arg)) where
    -- One level, over the functions for the levels below.
    module _ (nested : Nested) (n : ℕ) (fields : List Field) (dest size : ℕ)
        (h : IsDecodable env (suc n) fields) (laid : IsLaidOut env (suc n) fields size)
        (own : Owns Own dest (dest + size))
        (suits : (i : ℕ) → IsEntry fields i → Suits env nested (field_at fields i))
        (confines : (i : ℕ) → IsEntry fields i → Confines Own env nested (field_at fields i)) where
      plain : (j : ℕ) → j < length fields → is_extension (field_at fields j) ≡ false
      plain j lt = let has = (suits j (inl lt)).decoder in ground arith

      unknown_field-Kept :
          (tag wire_type : ℕ) (l : Loop) (s : DecState)
          → IsSound s.input
          → tag < 2 ^ 29
          → IsPlaced fields dest l
          → Kept Own s.mem (unknown_field env nested n tag wire_type l s)
      unfolding unknown_field
      unknown_field-Kept tag wire_type l s sound small (i, entry, e) =
          elim (Bool-cases (ltb tag l.extension_range_start)) [
            | inl below ↦ rw below ((skip_unknown-IsKept l wire_type).at s sound)
            | inr above ↦
                rw
                  (
                    above,
                    ap find_extension_field e,
                    no_extension fields dest (IsTagged-IsDecodable env n fields h) i entry plain,
                    lt→ltb tag pb_size_max (omega arith),
                  )
                  ((skip_unknown-IsKept
                      (record l {
                        iter = iter_at fields dest i;
                        extension_range_start = pb_size_max;
                      })
                      wire_type).at
                    s sound)
          ]

      one_field-Kept :
          (tag wire_type : ℕ) (l : Loop) (s : DecState)
          → IsSound s.input
          → tag < 2 ^ 29
          → IsPlaced fields dest l
          → Kept Own s.mem (one_field env nested n tag wire_type l s)
      unfolding one_field
      one_field-Kept tag wire_type l s sound small (i, entry, e) =
          let (j, found, entry', r) =
            find_at-IsEntry fields dest (IsTagged-IsDecodable env n fields h) i tag entry in
          rw (ap (λ it. pb_field_iter_find it tag) e ∙ r) (by_found j found entry')
        where
          by_found :
              (j : ℕ) (found : Bool)
              → IsEntry fields j
              → Kept Own s.mem (
                  found_or_not env nested n tag wire_type l (some (iter_at fields dest j, found)) s)
          by_found j true entry' =
              let it = iter_at fields dest j in
              let same = field-iter_at fields dest j in
              let owned =
                InStruct-IsOwned Own size fields j dest
                  (InStruct-IsLaidOut env n fields size laid j entry') own in
              (IsKept-bind Own _ _
                  (decode_field-IsSteady env readers nested wire_type it (rw same (suits j entry')))
                  (decode_field-IsKept Own env calls nested wire_type it owned
                    (rw same (suits j entry')) (rw same (confines j entry')))
                  (λ _. IsKept-pure Own (mark_seen (record l { iter = it })))).at
                s sound
          by_found j false entry' =
              unknown_field-Kept tag wire_type (record l { iter = iter_at fields dest j }) s sound
                small (j, entry', refl)

      decode_loop-Kept :
          (k : ℕ) (l : Loop) (s : DecState)
          → IsSound s.input
          → IsPlaced fields dest l
          → Kept Own s.mem (decode_loop env nested n k l s)
      unfolding decode_loop
      decode_loop-Kept zero l s sound placed = tt
      decode_loop-Kept (suc k) l s sound placed = elim (Bool-cases (s.input.bytes_left == 0)) [
        | inl done ↦ rw done (λ x out. refl)
        | inr more ↦ rw more (
            on_tag s.input s.mem (pb_decode_tag s.input) (λ l' s'. decode_loop env nested n k l' s')
              (pb_decode_tag-TagTaken s.input sound)
              (λ l' t sound' placed'. decode_loop-Kept k l' t sound' placed'))
      ]
        where
          on_tag :
              (i : Istream) (m : Memory) (o : Outcome Istream Tag) (again : Loop → M DecState Loop)
              → TagTaken i o
              → ((l' : Loop) (t : DecState)
                  → IsSound t.input
                  → IsPlaced fields dest l'
                  → Kept Own t.mem (again l' t))
              → Kept Own m (continue (with_mem m o) (loop_on env nested n again l))
          on_tag i m (ok at_eof j) again p q = λ x out. refl
          on_tag i m (ok (field_tag wire_type tag) j) again p q =
              Kept-round fields dest j m _ again
                (one_field-Round fields dest (IsTagged-IsDecodable env n fields h) env readers
                  nested n suits tag wire_type l (record { input = j; mem = m }) p.0.sound p.2
                  placed)
                (one_field-Kept tag wire_type l (record { input = j; mem = m }) p.0.sound p.2
                  placed)
                q
          on_tag i m (fail j) again p q = λ x out. refl
          on_tag i m fault again p q = tt
          on_tag i m stuck again p q = tt

      pub decode_level-IsKept : IsKept Own (decode_level env nested n fields dest)
      unfolding decode_level iter_at
      decode_level-IsKept = record {
        at = λ s sound.
            checked s.mem _ (decode_loop-Kept (suc s.input.bytes_left) _ s sound (first fields));
      }
        where
          first :
              (fs : List Field)
              → (i : ℕ) × IsEntry fs i × ((pb_field_iter_begin fs dest).0 ≡ iter_at fs dest i)
          first [] = (0, inr (refl, refl), refl)
          first (f ∷ fs) = (0, inl (omega arith), refl)

          checked :
              (m : Memory) (o : Outcome DecState Loop)
              → Kept Own m o
              → Kept Own m (continue o (λ l. verdict_of (required_fields l)))
          checked m (ok l t) p = Kept-after Own m t.mem _ p (verdict-Kept (required_fields l) t)
          checked m (fail t) p = p
          checked m fault p = tt
          checked m stuck p = tt
