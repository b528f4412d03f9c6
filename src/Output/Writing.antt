-- ===== src/Output/Writing.antt =====
-- Writes to a buffer and to a sizing stream: when they succeed, and what they leave.
use breakpoint.Base.{
  ℕ, ◌+◌, ◌-◌, ◌^◌, ◌≤◌, ◌<◌, ◌≡◌, Option, List, [], ◌++◌, length, take, take-append, arith,
}
use breakpoint.Errors.{ErrMsg, stream_full, set_error}
use breakpoint.Outcome.{ok, fail}
use breakpoint.Output.{Ostream, Sink, buf_write, sizing, pb_write, pb_ostream_from_buffer}
use mathlib.Core.List.{append-nil}

-- A stream over a buffer, and one that only counts.
abbrev pub writing : Sink → ℕ → ℕ → Option ErrMsg → Ostream
writing sink max n e = record {
  callback = buf_write;
  state = sink;
  max_size = max;
  bytes_written = n;
  errmsg = e;
}

abbrev pub counting : ℕ → ℕ → Option ErrMsg → Ostream
counting max n e = record {
  callback = sizing;
  state = record { written = []; room = 0 };
  max_size = max;
  bytes_written = n;
  errmsg = e;
}

-- The buffer behind the stream holds what the stream's limit allows.
abbrev pub HasRoom : Sink → ℕ → ℕ → Type 0
HasRoom sink max n = max ≤ n + sink.room

abbrev pub append : List ℕ → Sink → Sink
append bs sink = record { written = sink.written ++ bs; room = sink.room - length bs }

take_all : (bs : List ℕ) → take (length bs) bs ≡ bs
take_all bs = rw (append-nil) at (take-append bs [])

-- A write that fits appends its bytes.
pub pb_write_fits :
    (bs : List ℕ) (sink : Sink) (max n : ℕ) (e : Option ErrMsg)
    → HasRoom sink max n
    → n + length bs ≤ max
    → max < 2 ^ 64
    → pb_write bs (length bs) (writing sink max n e)
      ≡ ok tt (writing (append bs sink) max (n + length bs) e)
unfolding pb_write
pb_write_fits bs sink max n e room fits h = ground (arith, take_all bs)

-- One that does not fit writes nothing and reports it.
pub pb_write_full :
    (bs : List ℕ) (sink : Sink) (max n : ℕ) (e : Option ErrMsg)
    → n ≤ max
    → max < n + length bs
    → n + length bs < 2 ^ 64
    → pb_write bs (length bs) (writing sink max n e)
      ≡ fail (writing sink max n (set_error e stream_full))
unfolding pb_write
pb_write_full bs sink max n e inside full h = ground arith

pub pb_write_counts :
    (bs : List ℕ) (k max n : ℕ) (e : Option ErrMsg)
    → n + k < 2 ^ 64
    → pb_write bs k (counting max n e) ≡ ok tt (counting max (n + k) e)
unfolding pb_write
pb_write_counts bs k max n e h = ground arith

-- The buffer of a stream that pb_ostream_from_buffer made, after one write that succeeded.
pub pb_write_fresh :
    (bs : List ℕ) (cap : ℕ) (t : Ostream)
    → cap < 2 ^ 64
    → length bs < 2 ^ 64
    → pb_write bs (length bs) (pb_ostream_from_buffer cap) ≡ ok tt t
    → t.state.written ≡ bs
unfolding pb_write pb_ostream_from_buffer
pb_write_fresh bs cap t hc hb h = ground (arith, take_all bs)
