-- ===== src/Decoder/Steady/Messages.antt =====
-- Decoding a whole message returns, whatever the input is.
use breakpoint.Base.{
  ℕ, zero, suc, ◌-◌, ◌/◌, ◌^◌, ◌<◌, ◌≡◌, ◌⊎◌, inl, inr, refl, ◌∙◌, Bool, true, false, some, List,
  [], ◌∷◌, ltb, ◌==◌, if◌then◌else◌, arith, Bool-cases, ==_iff,
}
use breakpoint.Errors.{missing_required_field}
use breakpoint.Outcome.{Outcome, ok, fail, fault, stuck, M, continue}
use breakpoint.Input.{Istream}
use breakpoint.Input.Reading.{IsSound}
use breakpoint.Input.Safety.{Follows, Follows-refl, Follows-trans}
use breakpoint.Wire.{Tag, at_eof, field_tag, pb_decode_tag}
use breakpoint.Wire.Progress.{TagTaken, pb_decode_tag-TagTaken}
use breakpoint.Memory.{Memory}
use breakpoint.Descriptor.{Field, field_at}
use breakpoint.FieldIter.{pb_field_iter_begin}
use breakpoint.FieldIter.Layout.{iter_at}
use breakpoint.Decoder.{DecState, Env, with_mem}
use breakpoint.Decoder.Required.{Loop, complete, missing, check_required, required_fields, allbits}
use breakpoint.Decoder.Required.Count.{IsEntry, count_required, required_fields-count}
use breakpoint.Decoder.Required.Words.{check_required_few, check_required_many}
use breakpoint.Decoder.Decodable.{
  IsChecked, IsDecodable, IsTagged-IsDecodable, count-IsDecodable, decoder-IsDecodable,
  below-IsDecodable, there-IsDecodable,
}
use breakpoint.Decoder.Steady.{
  Lags-Follows, Lags-trans, Steady, Steady-after, IsSteady, IsSteady-bind, IsSteady-error,
}
use breakpoint.Decoder.Steady.Substreams.{IsSteady-open, close_after-Steady}
use breakpoint.Decoder.Steady.Fields.{Suits}
use breakpoint.Decoder.Steady.Callbacks.{IsReader}
use breakpoint.Decoder.Steady.Defaults.{pb_message_set_to_defaults-IsSteady}
use breakpoint.Decoder.Steady.Rounds.{IsPlaced, Round, one_field-Round}
use breakpoint.Decoder.Fields.{Nested, in_substream}
use breakpoint.Decoder.Messages.{
  loop_on, decode_loop, verdict_of, decode_level, pb_decode_noinit, pb_decode, pb_decode_delimited,
}

module _ (fields : List Field) (dest : ℕ) where
  Round-after :
      (i j : Istream) (o : Outcome DecState Loop)
      → Follows i j
      → Round fields dest j o
      → Round fields dest i o
  Round-after i j (ok l t) p q = (Follows-trans i j t.input p q.0, q.1)
  Round-after i j (fail t) p q = Lags-trans i j t.input p q
  Round-after i j fault p q = q
  Round-after i j stuck p q = q

  Round-continue :
      (i : Istream) (o : Outcome DecState Loop) (k : Loop → M DecState Loop)
      → Round fields dest i o
      → ((l : Loop) (t : DecState)
          → Follows i t.input
          → IsPlaced fields dest l
          → Round fields dest t.input (k l t))
      → Round fields dest i (continue o k)
  Round-continue i (ok l t) k p q = Round-after i t.input (k l t) p.0 (q l t p.0 p.1)
  Round-continue i (fail t) k p q = p
  Round-continue i fault k p q = p
  Round-continue i stuck k p q = p

  module _ (env : Env)
      (calls : (fn : ℕ) (f : Field) (arg : ℕ) → IsReader (env.call_decode fn f arg))
      (nested : Nested) (n : ℕ) (h : IsDecodable env (suc n) fields)
      (suits : (i : ℕ) → IsEntry fields i → Suits env nested (field_at fields i)) where
    -- Each round takes a byte for its tag, so that the rounds do not run out.
    decode_loop-Round :
        (k : ℕ) (l : Loop) (s : DecState)
        → IsSound s.input
        → IsPlaced fields dest l
        → s.input.bytes_left < k
        → Round fields dest s.input (decode_loop env nested n k l s)
    unfolding decode_loop
    decode_loop-Round zero l s sound placed fuel = absurd (omega arith)
    decode_loop-Round (suc k) l s sound placed fuel = elim (Bool-cases (s.input.bytes_left == 0)) [
      | inl done ↦ rw done (Follows-refl s.input sound, placed)
      | inr more ↦ rw more (
          on_tag s.input s.mem (pb_decode_tag s.input) (λ l' s'. decode_loop env nested n k l' s')
            (pb_decode_tag-TagTaken s.input sound)
            λ l' t sound' placed' less. decode_loop-Round k l' t sound' placed' (omega arith))
    ]
      where
        on_tag :
            (i : Istream) (m : Memory) (o : Outcome Istream Tag) (again : Loop → M DecState Loop)
            → TagTaken i o
            → ((l' : Loop) (t : DecState)
                → IsSound t.input
                → IsPlaced fields dest l'
                → t.input.bytes_left < i.bytes_left
                → Round fields dest t.input (again l' t))
            → Round fields dest i (continue (with_mem m o) (loop_on env nested n again l))
        on_tag i m (ok at_eof j) again p q = (p, placed)
        on_tag i m (ok (field_tag wire_type tag) j) again p q = Round-after i j _ p.0 (
            Round-continue j _ again
              (one_field-Round fields dest (IsTagged-IsDecodable env n fields h) env calls nested n
                suits tag wire_type l (record { input = j; mem = m }) p.0.sound p.2 placed)
              λ l' t f placed'. q l' t f.sound placed' (omega (arith, f.fewer, p.1)))
        on_tag i m (fail j) again p q = Lags-Follows i j p
        on_tag i m fault again p q = p
        on_tag i m stuck again p q = p

-- The check has a result: complete or missing.
verdict :
    (l : Loop) (count : ℕ)
    → IsChecked count
    → (check_required l count ≡ complete) ⊎ (check_required l count ≡ missing)
verdict l count (small, not_32) = elim (Bool-cases (count == 0)) [
  | inl e ↦ inl (rw ((==_iff count 0).0 e) (unfold check_required in refl))
  | inr some_required ↦ elim (Bool-cases (ltb count 32)) [
    | inl few ↦
        either (l.seen_low == allbits / 2 ^ (32 - count))
          (check_required_few l count (ground arith) (ground arith))
    | inr many ↦ elim (Bool-cases (l.seen_low == allbits)) [
      | inl e ↦
          either (l.seen_high == allbits / 2 ^ (64 - count))
            (check_required_many l count (ground arith) small ∙ rw e refl)
      | inr e ↦ inr (check_required_many l count (ground arith) small ∙ rw e refl)
    ]
  ]
]
  where
    either :
        (b : Bool)
        → check_required l count ≡ (if b then complete else missing)
        → (check_required l count ≡ complete) ⊎ (check_required l count ≡ missing)
    either true e = inl e
    either false e = inr e

verdict-Steady :
    (i : Istream) (l : Loop) (t : DecState) (count : ℕ)
    → IsChecked count
    → Follows i t.input
    → Steady i (verdict_of (some (check_required l count)) t)
verdict-Steady i l t count checked f = elim (verdict l count checked) [
  | inl e ↦ rw e f
  | inr e ↦ rw e (
      Steady-after i t.input (verdict_of (some missing) t) f
        ((IsSteady-error {A = Unit {0}} missing_required_field).at t f.sound))
]

module _ (env : Env)
    (calls : (fn : ℕ) (f : Field) (arg : ℕ) → IsReader (env.call_decode fn f arg)) where
  -- One level, over steady functions for the levels below.
  decode_level-IsSteady :
      (nested : Nested) (n : ℕ) (fields : List Field) (dest : ℕ)
      → IsDecodable env (suc n) fields
      → ((i : ℕ) → IsEntry fields i → Suits env nested (field_at fields i))
      → IsSteady (decode_level env nested n fields dest)
  unfolding decode_level iter_at
  decode_level-IsSteady nested n fields dest h suits = record {
    at = λ s sound. checked s.input _ (
        decode_loop-Round fields dest env calls nested n h suits (suc s.input.bytes_left) _ s sound
          (first fields) (omega arith));
  }
    where
      first :
          (fs : List Field)
          → (i : ℕ) × IsEntry fs i × ((pb_field_iter_begin fs dest).0 ≡ iter_at fs dest i)
      first [] = (0, inr (refl, refl), refl)
      first (f ∷ fs) = (0, inl (omega arith), refl)

      checked :
          (i : Istream) (o : Outcome DecState Loop)
          → Round fields dest i o
          → Steady i (continue o (λ l. verdict_of (required_fields l)))
      checked i (ok l t) (f, (j, entry, e)) =
          rw (required_fields-count l fields dest j (IsTagged-IsDecodable env n fields h) entry e)
            (verdict-Steady i l t (count_required fields) (count-IsDecodable env n fields h) f)
      checked i (fail t) p = p
      checked i fault p = p
      checked i stuck p = p

  -- pb_decode_noinit, for a message that can be decoded and callbacks that read as they should: from
  -- any sound buffer it returns. With true the stream has moved forward inside the buffer, with false
  -- it is sound.
  pub pb_decode_noinit-IsSteady :
      (n : ℕ) (fields : List Field) (dest : ℕ)
      → IsDecodable env n fields
      → IsSteady (pb_decode_noinit env n fields dest)
  unfolding pb_decode_noinit
  pb_decode_noinit-IsSteady zero fields dest h = absurd (unfold IsDecodable in h)
  pb_decode_noinit-IsSteady (suc n) fields dest h =
      decode_level-IsSteady _ n fields dest h λ i entry. record {
        decoder = decoder-IsDecodable env n fields h i entry;
        there = there-IsDecodable env n fields h i entry;
        below = λ e.
            let nested = below-IsDecodable env n fields h i entry e in
            let fs = env.fields_at (field_at fields i).ptr in
            record {
              decode = λ d.
                  IsSteady-bind _ _ (pb_message_set_to_defaults-IsSteady n env fs d nested)
                    (λ _. pb_decode_noinit-IsSteady n fs d nested);
              decode_noinit = λ d. pb_decode_noinit-IsSteady n fs d nested;
              set_to_defaults = λ d. pb_message_set_to_defaults-IsSteady n env fs d nested;
            };
      }

  -- pb_decode, for a message that can be decoded and callbacks that read as they should: from any
  -- sound buffer it returns, whatever the bytes are. With true the stream has moved forward inside the
  -- buffer, with false it is sound.
  pub pb_decode-IsSteady :
      (n : ℕ) (fields : List Field) (dest : ℕ)
      → IsDecodable env n fields
      → IsSteady (pb_decode env n fields dest)
  unfolding pb_decode
  pb_decode-IsSteady n fields dest h =
      IsSteady-bind _ _ (pb_message_set_to_defaults-IsSteady n env fields dest h)
        (λ _. pb_decode_noinit-IsSteady n fields dest h)

  -- pb_decode_delimited, for a message that can be decoded and callbacks that read as they should:
  -- from any sound buffer it returns. With true the stream has moved forward inside the buffer, with
  -- false it is sound.
  pub pb_decode_delimited-IsSteady :
      (n : ℕ) (fields : List Field) (dest : ℕ)
      → IsDecodable env n fields
      → IsSteady (pb_decode_delimited env n fields dest)
  unfolding pb_decode_delimited
  pb_decode_delimited-IsSteady n fields dest h =
      IsSteady-open (λ sub. in_substream sub (pb_decode env n fields dest))
        λ i parent sub m made.
          close_after-Steady i parent sub made _
            ((pb_decode-IsSteady n fields dest h).at (record { input = sub; mem = m }) made.sound)
