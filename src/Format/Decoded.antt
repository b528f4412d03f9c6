-- ===== src/Format/Decoded.antt =====
-- pb_decode of pb_decode.c against the wire format.
use breakpoint.Base.{ℕ, ◌+◌, ◌^◌, ◌<◌, ◌≡◌, Option, List, ◌++◌, length}
use breakpoint.Errors.{ErrMsg}
use breakpoint.Outcome.{ok}
use breakpoint.Input.Reading.{reading}
use breakpoint.Memory.{Memory}
use breakpoint.Descriptor.{Field}
use breakpoint.Decoder.{Env}
use breakpoint.Decoder.Messages.{pb_decode}
use breakpoint.RoundTrip.Widths.{IsBytes}
use breakpoint.Format.{message_bytes}
use breakpoint.Format.Plain.{IsPlain}
use breakpoint.Format.Agrees.{Agrees, IsFilled, OnlyIn}
use breakpoint.Format.Cleared.{over}
use breakpoint.Format.Reads.Messages.{pb_decode-Reads}

-- On the bytes of a message whose fields are static, required or optional, and hold numbers,
-- strings, bytes of a fixed length or such messages (IsPlain: at most `n` levels of messages,
-- distinct tags from 1 to 2^29 - 1, fewer than 32 required fields, numbers of the widths that the
-- decoder knows, structures laid out in the order of the fields) and whose strings end within
-- their fields, in a memory of bytes, fewer than 2^32, with anything behind them, pb_decode
-- returns true and stops behind them. It writes only to the `size` bytes of its structure, and
-- leaves there the message that the bytes were of: the same optional fields present, with the
-- same numbers, strings, bytes and messages, and the others absent.
pub pb_decode-message_bytes :
    (env : Env) (n : ℕ) (fields : List Field) (size src dest : ℕ) (m0 m : Memory) (rest : List ℕ)
    (e : Option ErrMsg)
    → IsBytes m0
    → IsPlain env.fields_at n fields size
    → IsFilled env.fields_at n fields src m0
    → length (message_bytes env.fields_at n fields src m0) < 2 ^ 32
    → (m' : Memory) × (pb_decode env n fields dest (
          over
            (reading
              (message_bytes env.fields_at n fields src m0 ++ rest)
              (length (message_bytes env.fields_at n fields src m0))
              e)
            m)
        ≡ ok tt (over (reading rest 0 e) m'))
      × OnlyIn dest (dest + size) m m'
      × Agrees env.fields_at n fields src m0 dest m'
pb_decode-message_bytes env n fields size src dest m0 m rest e bytes plain filled short =
    pb_decode-Reads env m0 bytes n fields size src dest plain filled short rest e m
