-- ===== src/Decoder/Steady/Callbacks.antt =====
-- Callback fields, over callbacks that read as the documentation asks; and the choice by allocation
-- type.
use breakpoint.Base.{
  ℕ, zero, suc, ◌+◌, ◌≤◌, ◌<◌, ◌≡◌, ◌⊎◌, inl, inr, refl, Bool, true, false, List, length, ◌==◌,
  arith,
}
use breakpoint.Errors.{no_malloc_support, invalid_field_type}
use breakpoint.Outcome.{Outcome, ok, fail, fault, stuck, M, ◌>>=◌, continue}
use breakpoint.Input.{Istream, pb_istream_from_buffer}
use breakpoint.Input.Reading.{IsSound}
use breakpoint.Input.Safety.{Follows}
use breakpoint.Wire.{pb_wt_string, pb_skip_field, read_raw_value}
use breakpoint.Wire.Safety.{pb_skip_field-IsSafe}
use breakpoint.Memory.{Memory, load}
use breakpoint.Descriptor.{Field}
use breakpoint.FieldIter.{Iter, field}
use breakpoint.Decoder.{DecState, Env, with_mem, on_input}
use breakpoint.Wire.Raw.{Short, read_raw_value-Short}
use breakpoint.Decoder.Steady.{
  Lags, Lags-Follows, Steady, Steady-after, IsSteady, IsSteady-bind, IsSteady-if, IsSteady-error,
  IsSteady-read_mem, IsSteady-on_input,
}
use breakpoint.Decoder.Steady.Substreams.{callback_end-Steady, IsSteady-open}
use breakpoint.Decoder.Steady.Fields.{Suits, decode_static_field-IsSteady}
use breakpoint.Decoder.Fields.{Nested}
use breakpoint.Decoder.Callbacks.{
  callback_again, callback_loop, callback_end, scalar_end, run_callback, decode_callback_field,
  decode_field,
}

-- A user's function that returns, stays inside the stream, and with true has taken a byte or
-- everything.
abbrev pub Reads : Istream → Outcome DecState (Unit {0}) → Type 0
Reads i (ok a t) =
    Follows i t.input × ((t.input.bytes_left < i.bytes_left) ⊎ (t.input.bytes_left ≡ 0))
Reads i (fail t) = Lags i t.input
Reads i fault = ⊥
Reads i stuck = ⊥

pub record IsReader (m : M DecState (Unit {0})) : Type 0 where
  pub at : (s : DecState) → IsSound s.input → Reads s.input (m s)

-- After a round: done, or another one on a shorter stream.
again-Steady :
    (i : Istream) (t : DecState) (k : M DecState (Unit {0})) (empty : Bool)
    → (t.input.bytes_left == 0) ≡ empty
    → Follows i t.input
    → (t.input.bytes_left < i.bytes_left) ⊎ (t.input.bytes_left ≡ 0)
    → (t.input.bytes_left < i.bytes_left → Steady t.input (k t))
    → Steady i (elim empty [ true ↦ ok tt t | false ↦ k t ])
again-Steady i t k true e f progress q = f
again-Steady i t k false e f (inl less) q = Steady-after i t.input (k t) f (q less)
again-Steady i t k false e f (inr none_left) q = absurd (ground arith)

next-Steady :
    (i : Istream) (o : Outcome DecState (Unit {0})) (k : M DecState (Unit {0}))
    → Reads i o
    → ((t : DecState) → IsSound t.input → t.input.bytes_left < i.bytes_left → Steady t.input (k t))
    → Steady i (continue o (λ _. callback_again k))
next-Steady i (ok a t) k p q =
    again-Steady i t k (t.input.bytes_left == 0) refl p.0 p.1 (q t p.0.sound)
next-Steady i (fail t) k p q = p
next-Steady i fault k p q = p
next-Steady i stuck k p q = p

-- Each round takes a byte, so that the rounds do not run out.
callback_loop-Steady :
    (n : ℕ) (callback : M DecState (Unit {0})) (s : DecState)
    → IsReader callback
    → IsSound s.input
    → s.input.bytes_left < n
    → Steady s.input (callback_loop n callback s)
unfolding callback_loop
callback_loop-Steady zero callback s reader h fuel = absurd (omega arith)
callback_loop-Steady (suc n) callback s reader h fuel =
    next-Steady s.input (callback s) (λ t. callback_loop n callback t) (reader.at s h)
      λ t sound less. callback_loop-Steady n callback t reader sound (omega arith)

scalar_end-Steady :
    (i j sub : Istream) (o : Outcome DecState (Unit {0}))
    → Follows i j
    → Reads sub o
    → Steady i (scalar_end j o)
scalar_end-Steady i j sub (ok a t) p q = p
scalar_end-Steady i j sub (fail t) p q = Lags-Follows i j p
scalar_end-Steady i j sub fault p q = q
scalar_end-Steady i j sub stuck p q = q

-- A scalar for a callback, read to the stack.
scalar-IsSteady :
    (callback : M DecState (Unit {0})) (wire_type : ℕ)
    → IsReader callback
    → IsSteady (do
      buffer ← on_input (read_raw_value wire_type 10)
      λ s.
          scalar_end s.input
            (callback (record s { input = pb_istream_from_buffer buffer (length buffer) })))
unfolding pb_istream_from_buffer
scalar-IsSteady callback wire_type reader = record {
  at = λ s h.
      read s.input s.mem (read_raw_value wire_type 10 s.input)
        (read_raw_value-Short wire_type s.input h);
}
  where
    fresh :
        (bytes : List ℕ) → length bytes ≤ 10 → IsSound (pb_istream_from_buffer bytes (length bytes))
    fresh bytes short = record { buffer = refl; within = omega arith; size = omega arith }

    read :
        (i : Istream) (m : Memory) (o : Outcome Istream (List ℕ))
        → Short 10 i o
        → Steady i (
            continue (with_mem m o) λ buffer s.
              scalar_end s.input
                (callback (record s { input = pb_istream_from_buffer buffer (length buffer) })))
    read i m (ok bytes t) p = scalar_end-Steady i t _ _ p.0 (
        reader.at (record { input = pb_istream_from_buffer bytes (length bytes); mem = m })
          (fresh bytes p.1))
    read i m (fail t) p = Lags-Follows i t p
    read i m fault p = p
    read i m stuck p = p

module _ (env : Env)
    (calls : (fn : ℕ) (f : Field) (arg : ℕ) → IsReader (env.call_decode fn f arg)) where
  decode_callback_field-IsSteady :
      (wire_type : ℕ) (it : Iter) → IsSteady (decode_callback_field env wire_type it)
  unfolding decode_callback_field
  decode_callback_field-IsSteady wire_type it =
      IsSteady-bind _ _ (IsSteady-read_mem (load 8 it.p_data)) λ fn.
        let callback = run_callback env it in
        let reader : IsReader callback = record {
          at = λ s h. (calls (load 8 it.p_data s.mem) (field it) (it.p_data + 8)).at s h;
        } in
        IsSteady-if (fn == 0) _ _
          (IsSteady-on_input (pb_skip_field wire_type) (pb_skip_field-IsSafe wire_type))
          (IsSteady-if (wire_type == pb_wt_string) _ _
            (IsSteady-open
              (λ sub s.
                callback_end s.input
                  (callback_loop (suc sub.bytes_left) callback (record s { input = sub })))
              λ i parent sub m made. callback_end-Steady i parent sub made _ (
                callback_loop-Steady (suc sub.bytes_left) callback (record { input = sub; mem = m })
                  reader made.sound (omega arith)))
            (scalar-IsSteady callback wire_type reader))

  -- decode_field, for any wire type.
  pub decode_field-IsSteady :
      (nested : Nested) (wire_type : ℕ) (it : Iter)
      → Suits env nested (field it)
      → IsSteady (decode_field env nested wire_type it)
  unfolding decode_field
  decode_field-IsSteady nested wire_type it suits =
      IsSteady-if _ _ _ (decode_static_field-IsSteady env nested it suits wire_type) (
        IsSteady-if _ _ _ (IsSteady-error no_malloc_support) (
          IsSteady-if _ _ _ (decode_callback_field-IsSteady wire_type it)
            (IsSteady-error invalid_field_type)))
