-- ===== src/Input.antt =====
-- pb_istream_t and the functions that read from it (Pods/nanopb/pb_decode.c, pb_decode.h).
pub mod Reading
pub mod Safety
use breakpoint.Base.{
  ℕ, zero, suc, ◌+◌, ◌-◌, ◌/◌, ◌%◌, ◌^◌, Option, none, some, List, [], ◌∷◌, length, take, drop,
  get_or, ltb, ◌==◌, if◌then◌else◌,
}
use breakpoint.Errors.{ErrMsg, end_of_stream, io_error, set_error}
use breakpoint.Outcome.{Outcome, ok, fail, fault, stuck, M, pure, ◌>>=◌, ◌>>◌}

-- What a user's callback leaves: the bytes that it put in `buf` if it returned true, and the
-- `state`, `bytes_left` and `errmsg` of the stream that it was given.
pub record Reply : Type 0 where
  pub bytes : Option (List ℕ)
  pub state : List ℕ
  pub bytes_left : ℕ
  pub errmsg : Option ErrMsg

-- `user_read f`: `f state bytes_left errmsg count`, a callback that is not in pb_decode.c.
pub data ReadCallback : Type 0 where
  buf_read : ReadCallback
  user_read : (List ℕ → ℕ → Option ErrMsg → ℕ → Reply) → ReadCallback

-- `state` stands for the bytes from the stream's pointer to the end of its buffer.
pub record Istream : Type 0 where
  pub callback : ReadCallback
  pub state : List ℕ
  pub bytes_left : ℕ
  pub errmsg : Option ErrMsg

abbrev pub size_mod : ℕ
size_mod = 2 ^ 64

-- size_t a - b
abbrev pub sub_size : ℕ → ℕ → ℕ
sub_size a b = (a + size_mod - b) % size_mod

-- PB_RETURN_ERROR
abbrev pub return_error {κ} : {A : Type κ} → ErrMsg → M Istream A
return_error msg s = fail (record s { errmsg = set_error s.errmsg msg })

-- `stream->callback(stream, buf, count)`. A read past the buffer is a fault.
abbrev reply_with : Option (List ℕ) → M Istream (List ℕ)
reply_with none s = fail s
reply_with (some bytes) s = ok bytes s

abbrev pub call : ReadCallback → ℕ → M Istream (List ℕ)
call buf_read count s =
    if ltb (length s.state) count
    then fault
    else ok (take count s.state) (record s { state = drop count s.state })
call (user_read f) count s =
    let r = f s.state s.bytes_left s.errmsg count in
    reply_with r.bytes (record s { state = r.state; bytes_left = r.bytes_left; errmsg = r.errmsg })

abbrev pub or_io_error : Outcome Istream (List ℕ) → Outcome Istream (List ℕ)
or_io_error (ok bytes s) = ok bytes s
or_io_error (fail s) = return_error io_error s
or_io_error fault = fault
or_io_error stuck = stuck

-- `stream->bytes_left -= count`
abbrev pub consume : ℕ → M Istream (Unit {0})
consume count s = ok tt (record s { bytes_left = sub_size s.bytes_left count })

-- pb_read with a `buf` that is not NULL; the output is what it holds afterwards.
unfoldable pub pb_read : ℕ → M Istream (List ℕ)
pb_read count s =
    if ltb s.bytes_left count
    then return_error end_of_stream s
    else (do bytes ← λ t. or_io_error (call t.callback count t); consume count; pure bytes) s

-- `while (count > 16) { pb_read(stream, tmp, 16); count -= 16; }`, then `pb_read(stream, tmp, count)`
unfoldable pub skip_chunks : ℕ → ℕ → M Istream (Unit {0})
skip_chunks zero count s = stuck
skip_chunks (suc n) count s =
    let more = (do pb_read 16; skip_chunks n (count - 16)) s in
    if ltb 16 count then more else (do pb_read count; pure tt) s

-- pb_read with `buf == NULL`; each chunk takes 16 from `count`, so `count / 16 + 1` rounds are enough.
abbrev skip_by : ReadCallback → ℕ → M Istream (Unit {0})
skip_by buf_read count = do pb_read count; pure tt
skip_by (user_read f) count = skip_chunks (count / 16 + 1) count

unfoldable pub pb_read_null : ℕ → M Istream (Unit {0})
pb_read_null count s = skip_by s.callback count s

-- One byte: the callback's, for a `buf` of size 1.
abbrev first_byte : List ℕ → ℕ
first_byte bytes = get_or bytes 0 0

unfoldable pub pb_readbyte : M Istream ℕ
pb_readbyte s =
    if s.bytes_left == 0
    then return_error end_of_stream s
    else (do bytes ← λ t. or_io_error (call t.callback 1 t); consume 1; pure (first_byte bytes)) s

unfoldable pub pb_istream_from_buffer : List ℕ → ℕ → Istream
pb_istream_from_buffer buf bufsize = record {
  callback = buf_read;
  state = buf;
  bytes_left = bufsize;
  errmsg = none;
}
