-- ===== src/Output/Fits.antt =====
-- pb_encode_varint on streams of both kinds: the buffer that pb_ostream_from_buffer makes, and the
-- stream that only counts.
use breakpoint.Base.{
  ℕ, ◌+◌, ◌^◌, ◌≤◌, ◌<◌, ◌≡◌, ◌∙◌, Option, length, leb, if◌then◌else◌, arith, Bool-cases, inl, inr,
}
use breakpoint.Errors.{ErrMsg, stream_full, set_error}
use breakpoint.Outcome.{ok, fail}
use breakpoint.Output.{Sink, pb_encode_varint}
use breakpoint.Output.Encoding.{varint, length-groups, pb_encode_varint_lem}
use breakpoint.Output.Writing.{
  writing, counting, HasRoom, append, pb_write_fits, pb_write_full, pb_write_counts,
}

length-varint_le : (v : ℕ) → length (varint v) ≤ 10
unfolding varint
length-varint_le v = omega (arith, length-groups 9 v)

-- On a buffer whose room the stream's limit allows: pb_encode_varint appends the varint of any
-- uint64_t if it fits the limit, and else writes nothing and reports "stream full".
pub pb_encode_varint-writing :
    (v : ℕ) (sink : Sink) (max n : ℕ) (e : Option ErrMsg)
    → v < 2 ^ 64
    → HasRoom sink max n
    → n ≤ max
    → max + 10 < 2 ^ 64
    → pb_encode_varint v (writing sink max n e) ≡ (
        if leb (n + length (varint v)) max
        then ok tt (writing (append (varint v) sink) max (n + length (varint v)) e)
        else fail (writing sink max n (set_error e stream_full)))
pb_encode_varint-writing v sink max n e hv room inside size =
    pb_encode_varint_lem v (writing sink max n e) hv
    ∙ (elim (Bool-cases (leb (n + length (varint v)) max)) [
      | inl fits ↦ rw fits (pb_write_fits (varint v) sink max n e room (ground arith) (omega arith))
      | inr full ↦ rw full (
          pb_write_full (varint v) sink max n e inside (ground arith)
            (omega (arith, length-varint_le v)))
    ])

-- On a sizing stream pb_encode_varint succeeds, and counts the bytes of the varint.
pub pb_encode_varint-counting :
    (v max n : ℕ) (e : Option ErrMsg)
    → v < 2 ^ 64
    → n + 10 < 2 ^ 64
    → pb_encode_varint v (counting max n e) ≡ ok tt (counting max (n + length (varint v)) e)
pb_encode_varint-counting v max n e hv size =
    pb_encode_varint_lem v (counting max n e) hv
    ∙ pb_write_counts (varint v) (length (varint v)) max n e (omega (arith, length-varint_le v))
