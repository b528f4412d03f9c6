-- ===== src/Encoder/Sized/Substreams.antt =====
-- What is measured on a sizing stream first, and then written: submessages and packed arrays.
use breakpoint.Base.{
  ℕ, ◌%◌, ◌≡◌, refl, ap, ◌∙◌, true, false, List, [], length, ltb, ◌==◌, if◌then◌else◌, arith,
  Bool-cases, inl, inr,
}
use breakpoint.Errors.{stream_full}
use breakpoint.Outcome.{Outcome, ok, fail, fault, stuck, M}
use breakpoint.Input.{size_mod}
use breakpoint.Output.{Ostream, add_size, pb_ostream_sizing, pb_write}
use breakpoint.Output.Sizing.{
  IsWriter, IsSizer, Appends, ahead, ahead-mod, pb_encode_varint-IsSized, sizing_run,
}
use breakpoint.Memory.{Memory}
use breakpoint.Encoder.{EncState, on_output, return_error}
use breakpoint.Encoder.Values.{
  is_sizing, sub_state, adopt, second_pass, write_submessage, first_pass, pb_encode_submessage,
}
use breakpoint.Encoder.Sized.{on, Sizes, Counts, IsSized, IsSized-bind, IsSized-on_output}

-- The fresh sizing stream.
pub pb_ostream_sizing-IsSizer : IsSizer pb_ostream_sizing
unfolding pb_ostream_sizing
pb_ostream_sizing-IsSizer = record { callback = refl; small = omega arith }

-- pb_write of nothing but a count, on a stream that only counts.
pub count_only :
    (n : ℕ) (mem : Memory) (z : Ostream)
    → IsSizer z
    → on_output (pb_write [] n) (on mem z) ≡ ok tt (on mem (ahead n z))
unfolding pb_write
count_only n mem z h = rw (sizing_run [] n z z.callback h.callback) refl

writer : (s : Ostream) → IsWriter s → is_sizing s.callback ≡ false
writer s h = ap is_sizing h.callback

sizer : (z : Ostream) → IsSizer z → is_sizing z.callback ≡ true
sizer z h = ap is_sizing h.callback

module _ (mem : Memory) where
  -- A run on a buffer that writes as much as `size` says, if it succeeds.
  abbrev pub Writes : ℕ → Ostream → Outcome EncState (Unit {0}) → Type 0
  Writes size s (ok _ t) =
      (bytes : List ℕ) × Appends bytes s t.output
      × (t.mem ≡ mem)
      × (size % size_mod ≡ length bytes % size_mod)
  Writes size s (fail t) = Unit {0}
  Writes size s fault = Unit {0}
  Writes size s stuck = Unit {0}

  -- `if (stream->callback == NULL) return pb_write(stream, NULL, size);`, and then the second pass.
  abbrev pub unless_sizing : ℕ → M EncState (Unit {0}) → M EncState (Unit {0})
  unless_sizing size write s =
      if is_sizing s.output.callback then on_output (pb_write [] size) s else write s

  module _ (size : ℕ) (write : M EncState (Unit {0})) where
    Writes-Sizes :
        (s : Ostream) (o : Outcome EncState (Unit {0}))
        → Writes size s o
        → Sizes mem (unless_sizing size write) s o
    Writes-Sizes s (ok _ t) (bs, p, same, e) = (
      bs,
      p,
      same,
      λ z h.
          rw (sizer z h) (
            count_only size mem z h
            ∙ ap (λ z'. ok tt (on mem z')) (ahead-mod size (length bs) z e)),
    )
    Writes-Sizes s (fail t) p = tt
    Writes-Sizes s fault p = tt
    Writes-Sizes s stuck p = tt

    pub IsSized-unless_sizing :
        ((s : Ostream) → IsWriter s → Writes size s (write (on mem s)))
        → IsSized mem (unless_sizing size write)
    IsSized-unless_sizing h = record {
      writing = λ s w. rw (writer s w) (Writes-Sizes s (write (on mem s)) (h s w));
      counting = λ z w. rw (sizer z w) (rw (count_only size mem z w) (size, refl));
    }

  module _ (encode : M EncState (Unit {0})) (h : IsSized mem encode) where
    adopt-Appends :
        (size : ℕ) (s : Ostream) (bs : List ℕ) (t : Ostream)
        → Appends bs (sub_state size (on mem s)).output t
        → IsWriter s
        → Appends bs s (adopt s t)
    adopt-Appends size s bs t p w = record {
      callback = w.callback;
      written = p.written;
      counted = omega (arith, p.counted);
    }

    second_pass-Writes :
        (size : ℕ) (s : Ostream) (o : Outcome EncState (Unit {0}))
        → IsWriter s
        → Sizes mem encode (sub_state size (on mem s)).output o
        → Writes size s (second_pass size (on mem s) o)
    second_pass-Writes size s (ok _ t) w (bs, p, same, _) =
        elim (Bool-cases (t.output.bytes_written == size)) [
          | inl e ↦
              rw e
                (bs, adopt-Appends size s bs t.output p w, same, let q = p.counted in ground arith)
          | inr e ↦ rw e tt
        ]
    second_pass-Writes size s (fail t) w p = elim (Bool-cases (t.output.bytes_written == size)) [
      | inl e ↦ rw e tt
      | inr e ↦ rw e tt
    ]
    second_pass-Writes size s fault w p = tt
    second_pass-Writes size s stuck w p = tt

    sub_state-IsWriter :
        (size : ℕ) (s : Ostream) → IsWriter s → IsWriter (sub_state size (on mem s)).output
    sub_state-IsWriter size s w = record { callback = w.callback; small = omega arith }

    write_submessage-IsSized : (size : ℕ) → IsSized mem (write_submessage encode size)
    unfolding write_submessage
    write_submessage-IsSized size =
        IsSized-bind mem _ _ (IsSized-on_output mem _ (pb_encode_varint-IsSized size)) λ _.
          IsSized-unless_sizing size
            (λ s.
              if ltb s.output.max_size (add_size s.output.bytes_written size)
              then return_error stream_full s
              else second_pass size s (encode (sub_state size s)))
            λ s w. elim (Bool-cases (ltb s.max_size (add_size s.bytes_written size))) [
              | inl full ↦ rw full tt
              | inr room ↦ rw room (
                  second_pass-Writes size s _ w
                    (h.writing (sub_state size (on mem s)).output (sub_state-IsWriter size s w)))
            ]

    first_pass-IsSized :
        (o : Outcome EncState (Unit {0}))
        → Counts mem pb_ostream_sizing o
        → IsSized mem (λ s. first_pass encode s o)
    first_pass-IsSized (ok _ t) (n, e) = record {
      writing = λ s w. rw e ((write_submessage-IsSized _).writing s w);
      counting = λ z w. rw e ((write_submessage-IsSized _).counting z w);
    }
    first_pass-IsSized (fail t) c = record { writing = λ s w. tt; counting = λ z w. tt }
    first_pass-IsSized fault c = record { writing = λ s w. tt; counting = λ z w. tt }
    first_pass-IsSized stuck c = record { writing = λ s w. tt; counting = λ z w. tt }

    pub pb_encode_submessage-IsSized : IsSized mem (pb_encode_submessage encode)
    unfolding pb_encode_submessage
    pb_encode_submessage-IsSized =
        let passes =
          first_pass-IsSized (encode (on mem pb_ostream_sizing))
            (h.counting pb_ostream_sizing pb_ostream_sizing-IsSizer) in
        record { writing = λ s w. passes.writing s w; counting = λ z w. passes.counting z w }
