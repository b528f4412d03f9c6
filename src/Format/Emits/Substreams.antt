-- ===== src/Format/Emits/Substreams.antt =====
-- pb_encode_submessage writes the message's bytes behind their length.
use breakpoint.Base.{
  ℕ, ◌+◌, ◌^◌, ◌≤◌, ◌<◌, ◌≡◌, refl, ap, ap₂, ◌∙◌, true, false, none, List, [], length,
  length-append, ltb, leb, Bool-cases, inl, inr, ==_iff, if◌then◌else◌, arith,
}
use breakpoint.Errors.{stream_full, set_error}
use breakpoint.Outcome.{ok, M, continue}
use breakpoint.Output.{Sink, add_size, pb_ostream_sizing, pb_write, pb_encode_varint}
use breakpoint.Output.Writing.{writing, counting, append, HasRoom, pb_write_counts}
use breakpoint.Output.Encoding.{varint}
use breakpoint.Memory.{Memory}
use breakpoint.Encoder.{EncState, on_output, return_error, with_mem}
use breakpoint.Encoder.Values.{
  is_sizing, sub_state, second_pass, write_submessage, first_pass, pb_encode_submessage,
}
use breakpoint.Encoder.Sized.{on}
use breakpoint.Format.{delimited}
use breakpoint.Format.Emits.{Emits, Fails, Emits-varint, append-append, sum}

-- Behind the length.
abbrev after_size : M EncState (Unit {0}) → ℕ → M EncState (Unit {0})
after_size encode size s =
    if is_sizing s.output.callback
    then on_output (pb_write [] size) s
    else if ltb s.output.max_size (add_size s.output.bytes_written size)
    then return_error stream_full s
    else second_pass size s (encode (sub_state size s))

small_sum :
    (a b max : ℕ)
    → a + b ≤ max
    → max < 2 ^ 64
    → (ltb max (add_size a b) ≡ false) × (add_size a b ≡ a + b)
small_sum a b max h k = ground arith

module _ (mem : Memory) (encode : M EncState (Unit {0})) (bytes : List ℕ)
    (h : Emits mem encode bytes) where
  first :
      length bytes < 2 ^ 64
      → encode (on mem pb_ostream_sizing) ≡ ok tt (on mem (counting 0 (length bytes) none))
  unfolding pb_ostream_sizing
  first small =
      h.counts 0 0 (omega arith) ∙ ap (λ k. ok tt (on mem (counting 0 k none))) (omega arith)

  second :
      (sink : Sink) (max n : ℕ)
      → HasRoom sink max n
      → n + length bytes ≤ max
      → max < 2 ^ 64
      → after_size encode (length bytes) (on mem (writing sink max n none))
        ≡ ok tt (on mem (writing (append bytes sink) max (n + length bytes) none))
  second sink max n room fits small =
      let sub = h.writes sink (length bytes) 0 (omega arith) (omega arith) (omega arith) in
      let sums = small_sum n (length bytes) max fits small in
      let whole : 0 + length bytes ≡ length bytes = omega arith in
      rw (sums.0, sub, whole, (==_iff (length bytes) (length bytes)).1 refl, sums.1) refl

  -- No room for the message behind its length.
  second_stops :
      (sink : Sink) (max n : ℕ)
      → max < n + length bytes
      → n + length bytes < 2 ^ 64
      → Fails (after_size encode (length bytes) (on mem (writing sink max n none)))
  second_stops sink max n full small =
      let beyond : ltb max (add_size n (length bytes)) ≡ true = ground arith in
      (on mem (writing sink max n (set_error none stream_full)), rw beyond refl)

  abbrev behind_size : M EncState (Unit {0})
  behind_size s =
      continue (on_output (pb_encode_varint (length bytes)) s)
        (λ _. after_size encode (length bytes))

  behind_size-stops :
      (sink : Sink) (max n : ℕ)
      → HasRoom sink max n
      → n ≤ max
      → max < n + length (delimited bytes)
      → n + length (delimited bytes) < 2 ^ 64
      → Fails (behind_size (on mem (writing sink max n none)))
  behind_size-stops sink max n room inside full small =
      let head = varint (length bytes) in
      let total = length-append head bytes in
      let hv = Emits-varint mem (length bytes) (omega arith) in
      elim (Bool-cases (leb (n + length head) max)) [
        | inl fits ↦
            let (t, run) =
              second_stops (append head sink) max (n + length head) (omega (arith, total))
                (omega (arith, total)) in
            (
              t,
              ap (λ o. continue o (λ _. after_size encode (length bytes)))
                    (hv.writes sink max n room (ground arith) (omega arith))
                  ∙ run,
            )
        | inr over ↦
            let (t, run) = hv.stops sink max n room inside (ground arith) (omega (arith, total)) in
            (t, ap (λ o. continue o (λ _. after_size encode (length bytes))) run)
      ]

  pub Emits-submessage : Emits mem (pb_encode_submessage encode) (delimited bytes)
  unfolding pb_encode_submessage write_submessage
  Emits-submessage =
      let size = length bytes in
      let total = length-append (varint size) bytes in
      record {
        writes = λ sink max n room fits small.
            ap (first_pass encode (on mem (writing sink max n none))) (first (omega arith))
            ∙ ap (λ o. continue o (λ _. after_size encode size))
                ((Emits-varint mem size (omega arith)).writes sink max n room (omega arith) small)
            ∙ second (append (varint size) sink) max (n + length (varint size)) (omega arith)
                (omega arith) small
            ∙ ap₂ (λ t i. ok tt (on mem (writing t max i none)))
                (append-append (varint size) bytes sink) (sum n (varint size) bytes);
        stops = λ sink max n room inside full small.
            let (t, run) = behind_size-stops sink max n room inside full small in
            (
              t,
              ap (first_pass encode (on mem (writing sink max n none)))
                    (first (omega (arith, total)))
                  ∙ run,
            );
        counts = λ max n small.
            ap (first_pass encode (on mem (counting max n none))) (first (omega arith))
            ∙ ap (λ o. continue o (λ _. after_size encode size))
                ((Emits-varint mem size (omega arith)).counts max n (omega arith))
            ∙ ap (with_mem mem)
                (pb_write_counts [] size max (n + length (varint size)) none (omega arith))
            ∙ ap (λ i. ok tt (on mem (counting max i none))) (sum n (varint size) bytes);
      }
