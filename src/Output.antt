-- ===== src/Output.antt =====
-- pb_ostream_t and the functions that write numbers and strings to it (Pods/nanopb/pb_encode.c,
-- pb_encode.h).
pub mod Encoding
pub mod Writing
pub mod Fits
pub mod Sizing
mod Runs
use breakpoint.Base.{
  ℕ, zero, suc, ◌+◌, ◌-◌, ◌*◌, ◌/◌, ◌%◌, ◌^◌, bit_and, bit_or, ◌||◌, Bool, true, false, Option,
  none, some, List, [], ◌∷◌, ◌++◌, length, take, ltb, leb, ◌==◌, if◌then◌else◌,
}
use breakpoint.Errors.{ErrMsg, stream_full, io_error, set_error}
use breakpoint.Outcome.{Outcome, ok, fail, fault, M, ◌>>=◌, ◌>>◌}
use breakpoint.Input.{size_mod}

-- Where `stream->state` points: the bytes written before it, in order, and the room behind it.
pub record Sink : Type 0 where
  pub written : List ℕ
  pub room : ℕ

-- `sizing` is the NULL callback of PB_OSTREAM_SIZING. `user_write f`: `f sink bytes` is whether the
-- user's callback returned true, and the state that it leaves.
pub data WriteCallback : Type 0 where
  sizing : WriteCallback
  buf_write : WriteCallback
  user_write : (Sink → List ℕ → Bool × Sink) → WriteCallback

pub record Ostream : Type 0 where
  pub callback : WriteCallback
  pub state : Sink
  pub max_size : ℕ
  pub bytes_written : ℕ
  pub errmsg : Option ErrMsg

-- PB_RETURN_ERROR
abbrev pub return_error {κ} : {A : Type κ} → ErrMsg → M Ostream A
return_error msg s = fail (record s { errmsg = set_error s.errmsg msg })

-- size_t a + b
abbrev pub add_size : ℕ → ℕ → ℕ
add_size a b = (a + b) % size_mod

-- The buffer of `bufsize` bytes at `buf`, with nothing written yet.
unfoldable pub pb_ostream_from_buffer : ℕ → Ostream
pb_ostream_from_buffer bufsize = record {
  callback = buf_write;
  state = record { written = []; room = bufsize };
  max_size = bufsize;
  bytes_written = 0;
  errmsg = none;
}

-- PB_OSTREAM_SIZING; its `state` is NULL.
unfoldable pub pb_ostream_sizing : Ostream
pb_ostream_sizing = record {
  callback = sizing;
  state = record { written = []; room = 0 };
  max_size = 0;
  bytes_written = 0;
  errmsg = none;
}

-- `stream->bytes_written += count`
abbrev pub count_bytes : ℕ → M Ostream (Unit {0})
count_bytes count s = ok tt (record s { bytes_written = add_size s.bytes_written count })

-- The loop of buf_write. A write past the buffer, or a read past `buf`, is a fault.
abbrev pub copy_bytes : List ℕ → ℕ → M Ostream (Unit {0})
copy_bytes buf count s =
    if ltb s.state.room count || ltb (length buf) count
    then fault
    else ok tt (record s {
      state = record { written = s.state.written ++ take count buf; room = s.state.room - count };
    })

abbrev callback_result : Ostream → Bool × Sink → Outcome Ostream (Unit {0})
callback_result s (true, state) = ok tt (record s { state = state })
callback_result s (false, state) = return_error io_error (record s { state = state })

abbrev pub write_by : WriteCallback → List ℕ → ℕ → M Ostream (Unit {0})
write_by sizing buf count s = count_bytes count s
write_by buf_write buf count s =
    if ltb s.max_size (add_size s.bytes_written count)
    then return_error stream_full s
    else (do copy_bytes buf count; count_bytes count) s
write_by (user_write f) buf count s =
    if ltb s.max_size (add_size s.bytes_written count)
    then return_error stream_full s
    else (do λ t. callback_result t (f t.state (take count buf)); count_bytes count) s

-- `buf` is what the pointer points at, nothing for NULL.
unfoldable pub pb_write : List ℕ → ℕ → M Ostream (Unit {0})
pb_write buf count s = write_by s.callback buf count s

abbrev push : ℕ → Option (List ℕ) → Option (List ℕ)
push b none = none
push b (some bs) = some (b ∷ bs)

-- The loop that fills `buffer`, with the room left in it. `none`: a write behind `buffer[9]`.
unfoldable pub fill_buffer : ℕ → ℕ → Option (List ℕ)
fill_buffer zero value = if value == 0 then some [] else none
fill_buffer (suc room) value =
    let rest = push (bit_or (bit_and value 0x7f) 0x80) (fill_buffer room (value / 2 ^ 7)) in
    if value == 0 then some [] else rest

-- `buffer[i-1] &= 0x7F`
unfoldable pub unset_top_bit : List ℕ → List ℕ
unset_top_bit [] = []
unset_top_bit (b ∷ []) = bit_and b 0x7f ∷ []
unset_top_bit (b ∷ c ∷ bs) = b ∷ unset_top_bit (c ∷ bs)

abbrev pub write_buffer : Option (List ℕ) → M Ostream (Unit {0})
write_buffer none s = fault
write_buffer (some buffer) s = pb_write (unset_top_bit buffer) (length buffer) s

unfoldable pub pb_encode_varint : ℕ → M Ostream (Unit {0})
pb_encode_varint value =
    if leb value 0x7f then pb_write ((value % 256) ∷ []) 1 else write_buffer (fill_buffer 10 value)

-- An int64_t is its bit pattern. `~((uint64_t)value << 1)` for a negative value.
unfoldable pub zigzag : ℕ → ℕ
zigzag value = if leb (2 ^ 63) value then 2 ^ 64 - 1 - value * 2 % 2 ^ 64 else value * 2 % 2 ^ 64

unfoldable pub pb_encode_svarint : ℕ → M Ostream (Unit {0})
pb_encode_svarint value = pb_encode_varint (zigzag value)

-- `(val >> shift) & 0xFF`
abbrev pub byte_at : ℕ → ℕ → ℕ
byte_at val shift = bit_and (val / 2 ^ shift) 0xff

unfoldable pub pb_encode_fixed32 : ℕ → M Ostream (Unit {0})
pb_encode_fixed32 val =
    pb_write (bit_and val 0xff ∷ byte_at val 8 ∷ byte_at val 16 ∷ byte_at val 24 ∷ []) 4

unfoldable pub pb_encode_fixed64 : ℕ → M Ostream (Unit {0})
pb_encode_fixed64 val =
    pb_write
      (bit_and val 0xff
        ∷ byte_at val 8
        ∷ byte_at val 16
        ∷ byte_at val 24
        ∷ byte_at val 32
        ∷ byte_at val 40
        ∷ byte_at val 48
        ∷ byte_at val 56
        ∷ [])
      8

-- `((uint64_t)field_number << 3) | wiretype`
unfoldable pub pb_encode_tag : ℕ → ℕ → M Ostream (Unit {0})
pb_encode_tag wiretype field_number =
    pb_encode_varint (bit_or (field_number * 2 ^ 3 % 2 ^ 64) wiretype)

unfoldable pub pb_encode_string : List ℕ → ℕ → M Ostream (Unit {0})
pb_encode_string buffer size = do pb_encode_varint (size % 2 ^ 64); pb_write buffer size
