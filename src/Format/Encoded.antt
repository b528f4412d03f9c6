-- ===== src/Format/Encoded.antt =====
-- pb_encode and pb_get_encoded_size of pb_encode.c against the wire format.
use breakpoint.Base.{
  ℕ, ◌-◌, ◌^◌, ◌≤◌, ◌<◌, ◌≡◌, sym, ap, ◌∙◌, Bool, true, false, none, List, [], length, leb, inl,
  inr, Bool-cases, arith,
}
use breakpoint.Outcome.{Outcome, ok, fail, fault, stuck, M}
use breakpoint.Output.{Ostream, buf_write, pb_ostream_from_buffer, pb_ostream_sizing}
use breakpoint.Memory.{Memory}
use breakpoint.Descriptor.{Field}
use breakpoint.Encoder.{EncState, Env}
use breakpoint.Encoder.Messages.{size_of, pb_encode, pb_get_encoded_size}
use breakpoint.Encoder.Sized.{on}
use breakpoint.RoundTrip.Widths.{IsBytes}
use breakpoint.Format.{message_bytes}
use breakpoint.Format.Plain.{IsPlain}
use breakpoint.Format.Emits.{Emits, Fails}
use breakpoint.Format.Emits.Messages.{pb_encode-Emits}

-- The stream after `bytes` went to a fresh buffer.
abbrev pub holding : List ℕ → ℕ → Ostream
holding bytes cap = record {
  callback = buf_write;
  state = record { written = bytes; room = cap - length bytes };
  max_size = cap;
  bytes_written = length bytes;
  errmsg = none;
}

module _ (mem : Memory) (m : M EncState (Unit {0})) (bytes : List ℕ) (h : Emits mem m bytes)
    (cap : ℕ) where
  pub Emits-fits :
      length bytes ≤ cap
      → cap < 2 ^ 64
      → m (on mem (pb_ostream_from_buffer cap)) ≡ ok tt (on mem (holding bytes cap))
  unfolding pb_ostream_from_buffer
  Emits-fits fits small =
      h.writes (record { written = []; room = cap }) cap 0 (omega arith) (omega arith) small
      ∙ ap (λ n. ok tt (on mem (record (holding bytes cap) { bytes_written = n }))) (omega arith)

  pub Emits-full :
      cap < length bytes → length bytes < 2 ^ 64 → Fails (m (on mem (pb_ostream_from_buffer cap)))
  unfolding pb_ostream_from_buffer
  Emits-full full small =
      h.stops (record { written = []; room = cap }) cap 0 (omega arith) (omega arith) (omega arith)
        (omega arith)

  abbrev written_by : Outcome EncState (Unit {0}) → List ℕ
  written_by (ok _ t) = t.output.state.written
  written_by (fail t) = []
  written_by fault = []
  written_by stuck = []

  abbrev returned_true : Outcome EncState (Unit {0}) → Bool
  returned_true (ok _ t) = true
  returned_true (fail t) = false
  returned_true fault = false
  returned_true stuck = false

  -- A run that returned true wrote the bytes.
  pub Emits-written :
      (t : EncState)
      → cap < 2 ^ 64
      → length bytes < 2 ^ 64
      → m (on mem (pb_ostream_from_buffer cap)) ≡ ok tt t
      → t.output.state.written ≡ bytes
  Emits-written t small short run = elim (Bool-cases (leb (length bytes) cap)) [
    | inl fits ↦ ap written_by (sym run ∙ Emits-fits (ground arith) small)
    | inr full ↦
        let (u, failed) = Emits-full (ground arith) short in
        let wrong : true ≡ false = ap returned_true (sym run ∙ failed) in absurd (cc wrong)
  ]

module _ (env : Env) (n : ℕ) (fields : List Field) (size src : ℕ) (m : Memory) (bytes : IsBytes m)
    (plain : IsPlain env.fields_at n fields size) (there : 0 < src) where
  -- For a message whose fields are static, required or optional, and hold numbers, strings,
  -- bytes of a fixed length or such messages (IsPlain: at most `n` levels of messages, distinct
  -- tags from 1 to 2^29 - 1, fewer than 32 required fields, numbers of the widths that the
  -- decoder knows, structures laid out in the order of the fields), at an address that is not
  -- NULL in a memory of bytes: if its bytes fit a buffer of fewer than 2^64 bytes, pb_encode
  -- returns true, and has written just them, and memory is as before.
  pub pb_encode-message_bytes :
      (cap : ℕ)
      → length (message_bytes env.fields_at n fields src m) ≤ cap
      → cap < 2 ^ 64
      → pb_encode env n fields src (on m (pb_ostream_from_buffer cap))
        ≡ ok tt (on m (holding (message_bytes env.fields_at n fields src m) cap))
  pb_encode-message_bytes cap =
      Emits-fits m _ (message_bytes env.fields_at n fields src m)
        (pb_encode-Emits env m bytes n fields src size plain there) cap

  -- For a message whose fields are static, required or optional, and hold numbers, strings,
  -- bytes of a fixed length or such messages (IsPlain: at most `n` levels of messages, distinct
  -- tags from 1 to 2^29 - 1, fewer than 32 required fields, numbers of the widths that the
  -- decoder knows, structures laid out in the order of the fields), at an address that is not
  -- NULL in a memory of bytes: if the buffer is smaller than its bytes, which are fewer than
  -- 2^64, pb_encode returns false.
  pub pb_encode-full :
      (cap : ℕ)
      → cap < length (message_bytes env.fields_at n fields src m)
      → length (message_bytes env.fields_at n fields src m) < 2 ^ 64
      → Fails (pb_encode env n fields src (on m (pb_ostream_from_buffer cap)))
  pb_encode-full cap =
      Emits-full m _ (message_bytes env.fields_at n fields src m)
        (pb_encode-Emits env m bytes n fields src size plain there) cap

  -- For a message whose fields are static, required or optional, and hold numbers, strings,
  -- bytes of a fixed length or such messages (IsPlain: at most `n` levels of messages, distinct
  -- tags from 1 to 2^29 - 1, fewer than 32 required fields, numbers of the widths that the
  -- decoder knows, structures laid out in the order of the fields), at an address that is not
  -- NULL in a memory of bytes: pb_get_encoded_size returns the number of its bytes if that is
  -- below 2^64, and changes neither memory nor the stream.
  pub pb_get_encoded_size-message_bytes :
      (s : Ostream)
      → length (message_bytes env.fields_at n fields src m) < 2 ^ 64
      → pb_get_encoded_size env n fields src (on m s)
        ≡ ok (length (message_bytes env.fields_at n fields src m)) (on m s)
  unfolding pb_get_encoded_size pb_ostream_sizing
  pb_get_encoded_size-message_bytes s small =
      ap (size_of env (on m s))
        ((pb_encode-Emits env m bytes n fields src size plain there).counts 0 0 (omega arith))
      ∙ ap (λ k. ok k (on m s)) (omega arith)
