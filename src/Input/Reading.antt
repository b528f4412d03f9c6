-- ===== src/Input/Reading.antt =====
-- Reads from a buffer: what they return and where they leave the stream.
use breakpoint.Base.{
  ℕ, ◌+◌, ◌-◌, ◌^◌, ◌≤◌, ◌<◌, ◌≡◌, Option, List, ◌∷◌, ◌++◌, length, length-append, take-append,
  drop-append, le→ltb, arith,
}
use breakpoint.Errors.{ErrMsg}
use breakpoint.Outcome.{ok}
use breakpoint.Input.{Istream, buf_read, pb_read, pb_readbyte, sub_size}

-- A stream over a buffer.
abbrev pub reading : List ℕ → ℕ → Option ErrMsg → Istream
reading state n e = record { callback = buf_read; state = state; bytes_left = n; errmsg = e }

-- `bytes_left` lies within the buffer: what pb_istream_from_buffer is called with.
pub record IsSound (s : Istream) : Type 0 where
  pub buffer : s.callback ≡ buf_read
  pub within : s.bytes_left ≤ length s.state
  pub size : s.bytes_left < 2 ^ 64

sub_size_lem : (a b : ℕ) → b ≤ a → a < 2 ^ 64 → sub_size a b ≡ a - b
sub_size_lem a b h k = omega arith

pub pb_readbyte_lem :
    (b : ℕ) (bs : List ℕ) (n : ℕ) (e : Option ErrMsg)
    → 0 < n
    → n < 2 ^ 64
    → pb_readbyte (reading (b ∷ bs) n e) ≡ ok b (reading bs (n - 1) e)
unfolding pb_readbyte
pb_readbyte_lem b bs n e pos h = ground arith

-- pb_read takes exactly the bytes asked for.
pub pb_read_lem :
    (bs rest : List ℕ) (n : ℕ) (e : Option ErrMsg)
    → length bs ≤ n
    → n < 2 ^ 64
    → pb_read (length bs) (reading (bs ++ rest) n e) ≡ ok bs (reading rest (n - length bs) e)
unfolding pb_read
pb_read_lem bs rest n e fits h = rw (
  le→ltb n (length bs) fits,
  length-append bs rest,
  le→ltb (length bs + length rest) (length bs) (omega arith),
  take-append bs rest,
  drop-append bs rest,
  sub_size_lem n (length bs) fits h,
)
