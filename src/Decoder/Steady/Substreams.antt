-- ===== src/Decoder/Steady/Substreams.antt =====
-- What is done with a substream, and its closing on each way out.
use breakpoint.Base.{true, false, length-drop, ◌==◌, arith, Bool-cases, inl, inr}
use breakpoint.Errors.{ErrMsg, set_error, array_overflow, callback_failed}
use breakpoint.Outcome.{Outcome, ok, fail, fault, stuck, M, ◌>>=◌, continue}
use breakpoint.Input.{Istream}
use breakpoint.Input.Safety.{Safe}
use breakpoint.Wire.{pb_make_string_substream, pb_close_string_substream}
use breakpoint.Wire.Substreams.{
  IsSubstream, MadeFrom, pb_make_string_substream-MadeFrom, pb_close_string_substream_lem,
  close-Follows,
}
use breakpoint.Memory.{Memory}
use breakpoint.Decoder.{DecState, with_mem, on_input}
use breakpoint.Decoder.Steady.{Lags, Lags-Follows, Steady, IsSteady}
use breakpoint.Decoder.Fields.{close_returning, close_after, packed_end}
use breakpoint.Decoder.Callbacks.{callback_end}

module _ (i parent sub : Istream) (made : IsSubstream i parent sub) where
  -- The parent as it is while the substream is open.
  pub parent-Lags : (msg : ErrMsg) → Lags i (record parent { errmsg = set_error parent.errmsg msg })
  parent-Lags msg = record {
    sound = record { buffer = made.buffer; within = omega (arith, made.room); size = made.size };
    fewer = omega (arith, made.left);
    behind = omega (arith, made.in_step);
  }

  close-Lags :
      (sub' : Istream) (m : Memory)
      → Lags sub sub'
      → Steady i (close_returning false m (pb_close_string_substream sub' parent))
  close-Lags sub' m p = rw (pb_close_string_substream_lem sub' parent p.sound) (record {
    sound = record {
      buffer = made.buffer;
      within =
          omega
            (arith, length-drop sub'.bytes_left sub'.state, p.behind, made.room, made.state_length);
      size = made.size;
    };
    fewer = omega (arith, made.left);
    behind = omega (
      arith,
      length-drop sub'.bytes_left sub'.state,
      p.behind,
      made.in_step,
      made.state_length,
      p.sound.within,
    );
  })

  close-ok :
      (m : Memory) (o : Outcome Istream (Unit {0})) → Safe i o → Steady i (close_returning true m o)
  close-ok m (ok a t) p = p
  close-ok m (fail t) p = Lags-Follows i t p
  close-ok m fault p = p
  close-ok m stuck p = p

  -- Closing after any steady use of the substream.
  pub close_after-Steady :
      (o : Outcome DecState (Unit {0})) → Steady sub o → Steady i (close_after parent o)
  close_after-Steady (ok a t) p =
      close-ok t.mem (pb_close_string_substream t.input parent)
        (close-Follows i parent sub t.input made p)
  close_after-Steady (fail t) p = close-Lags t.input t.mem p
  close_after-Steady fault p = p
  close_after-Steady stuck p = p

  pub packed_end-Steady :
      (o : Outcome DecState (Unit {0})) → Steady sub o → Steady i (packed_end parent o)
  packed_end-Steady (ok a t) p = elim (Bool-cases (t.input.bytes_left == 0)) [
    | inl e ↦ rw e (close_after-Steady (ok a t) p)
    | inr e ↦ rw e (parent-Lags array_overflow)
  ]
  packed_end-Steady (fail t) p = elim (Bool-cases (t.input.bytes_left == 0)) [
    | inl e ↦ rw e (close_after-Steady (fail t) p)
    | inr e ↦ rw e (parent-Lags array_overflow)
  ]
  packed_end-Steady fault p = p
  packed_end-Steady stuck p = p

  pub callback_end-Steady :
      (o : Outcome DecState (Unit {0})) → Steady sub o → Steady i (callback_end parent o)
  callback_end-Steady (ok a t) p = close_after-Steady (ok a t) p
  callback_end-Steady (fail t) p = parent-Lags callback_failed
  callback_end-Steady fault p = p
  callback_end-Steady stuck p = p

-- Opening a substream, and what is done with it.
pub IsSteady-open :
    (use_it : Istream → M DecState (Unit {0}))
    → ((i parent sub : Istream) (m : Memory)
        → IsSubstream i parent sub
        → Steady i (use_it sub (record { input = parent; mem = m })))
    → IsSteady (do sub ← on_input pb_make_string_substream; use_it sub)
IsSteady-open use_it h = record {
  at = λ s p.
      opened s.input s.mem (pb_make_string_substream s.input)
        (pb_make_string_substream-MadeFrom s.input p);
}
  where
    opened :
        (i : Istream) (m : Memory) (o : Outcome Istream Istream)
        → MadeFrom i o
        → Steady i (continue (with_mem m o) use_it)
    opened i m (ok sub parent) p = h i parent sub m p
    opened i m (fail t) p = Lags-Follows i t p
    opened i m fault p = p
    opened i m stuck p = p
