-- ===== src/Wire/Safety.antt =====
-- Every step of the wire format returns, and stays inside the buffer, on any bytes.
use breakpoint.Base.{
  ℕ, zero, suc, ◌+◌, ◌*◌, ◌%◌, ◌≤◌, bit_and, Bool, true, false, List, ◌++◌, ltb, leb, ◌==◌,
  if◌then◌else◌, arith, Bool-cases, lt→ltb, ltb→le, le→leb, take, inl, inr, get_or,
}
use breakpoint.Errors.{end_of_stream, varint_overflow}
use breakpoint.Outcome.{Outcome, ok, fail, fault, stuck, M, pure}
use breakpoint.Input.{Istream, pb_read, pb_readbyte}
use breakpoint.Input.Reading.{IsSound}
use breakpoint.Input.Safety.{
  IsSafe, Safe, Follows-refl, Safe-after, safe_rules, IsSafe-pure, IsSafe-bind, IsSafe-if,
  pb_read-IsSafe, pb_readbyte-IsSafe, pb_read_sound, moved, moved-Follows, error-Safe,
}
use breakpoint.Wire.{
  varint_loop, next_bitpos, pb_decode_varint, pb_decode_varint32, pb_skip_varint, skip_varint_loop,
  pb_skip_string, pb_decode_tag, pb_skip_field, read_raw_value, raw_varint_loop, tag_of,
  pb_decode_svarint, pb_decode_fixed32, pb_decode_fixed64,
}

-- With `n` more rounds the position passes the width, so the fuel does not run out.
pub varint_loop-IsSafe :
    (n w bitpos result : ℕ)
    → w ≤ bitpos + 7 * n
    → w ≤ 64
    → IsSafe (λ s. varint_loop (suc n) w bitpos result s)
unfolding varint_loop
varint_loop-IsSafe zero w bitpos result rounds width = record {
  at = λ s h. rw (le→leb w bitpos (omega arith)) (error-Safe ℕ varint_overflow s h);
}
varint_loop-IsSafe (suc n) w bitpos result rounds width = record {
  at = λ s h. elim (Bool-cases (leb w bitpos)) [
    | inl over ↦ rw over (error-Safe ℕ varint_overflow s h)
    | inr within ↦ rw within (
        (IsSafe-bind pb_readbyte _ pb_readbyte-IsSafe λ byte.
            IsSafe-if (bit_and byte 0x80 == 0) _ _ (IsSafe-pure _)
              (varint_loop-IsSafe n w (next_bitpos bitpos) _ (ground arith) width)).at
          s h)
  ];
}

-- pb_decode_varint, from any sound buffer: it returns (eleven rounds are enough), and the stream has
-- moved forward inside the buffer.
pub pb_decode_varint-IsSafe : IsSafe pb_decode_varint
unfolding pb_decode_varint
pb_decode_varint-IsSafe = record {
  at = λ s h. (varint_loop-IsSafe 10 64 0 0 (omega arith) (omega arith)).at s h;
}

-- pb_decode_varint32, from any sound buffer: it returns (six bytes at most are looked for), and the
-- stream has moved forward inside the buffer.
pub pb_decode_varint32-IsSafe : IsSafe pb_decode_varint32
unfolding pb_decode_varint32
pb_decode_varint32-IsSafe = IsSafe-bind pb_readbyte _ pb_readbyte-IsSafe λ byte.
    IsSafe-if (bit_and byte 0x80 == 0) _ _ (IsSafe-pure (byte % 256))
      (varint_loop-IsSafe 4 32 7 (bit_and byte 0x7f) (omega arith) (omega arith))

pub pb_skip_string-IsSafe : IsSafe pb_skip_string
unfolding pb_skip_string
pb_skip_string-IsSafe = search (safe_rules, pb_decode_varint32-IsSafe)

pub pb_decode_svarint-IsSafe : IsSafe pb_decode_svarint
unfolding pb_decode_svarint
pb_decode_svarint-IsSafe = search (safe_rules, pb_decode_varint-IsSafe)

pub pb_decode_fixed32-IsSafe : IsSafe pb_decode_fixed32
unfolding pb_decode_fixed32
pb_decode_fixed32-IsSafe = search safe_rules

pub pb_decode_fixed64-IsSafe : IsSafe pb_decode_fixed64
unfolding pb_decode_fixed64
pb_decode_fixed64-IsSafe = search safe_rules

raw_varint_loop-IsSafe : (room : ℕ) (buf : List ℕ) → IsSafe (λ s. raw_varint_loop room buf s)
unfolding raw_varint_loop
raw_varint_loop-IsSafe zero buf = record { at = λ s h. Follows-refl s h }
raw_varint_loop-IsSafe (suc room) buf = IsSafe-bind (pb_read 1) _ (pb_read-IsSafe 1) λ bytes.
    IsSafe-if (bit_and (get_or bytes 0 0) 0x80 == 0) _ _ (IsSafe-pure (buf ++ bytes))
      (raw_varint_loop-IsSafe room (buf ++ bytes))

Safe-if :
    {A : Type 0} (b : Bool) (m n : M Istream A) (s t : Istream)
    → Safe s (m t)
    → Safe s (n t)
    → Safe s ((if b then m else n) t)
Safe-if true m n s t p q = p
Safe-if false m n s t p q = q

-- Each round takes a byte, so `bytes_left` rounds are enough.
skip_varint_loop-Safe :
    (n : ℕ) (s : Istream) → IsSound s → s.bytes_left ≤ n → Safe s (skip_varint_loop (suc n) s)
unfolding skip_varint_loop
skip_varint_loop-Safe zero s h fuel =
    rw (pb_read_sound 1 s h, lt→ltb s.bytes_left 1 (omega arith))
      (error-Safe (Unit {0}) end_of_stream s h)
skip_varint_loop-Safe (suc n) s h fuel =
    rw (pb_read_sound 1 s h) (elim (Bool-cases (ltb s.bytes_left 1)) [
      | inl none_left ↦ rw none_left (error-Safe (Unit {0}) end_of_stream s h)
      | inr left ↦
          let f = moved-Follows 1 s h (ltb→le _ _ left) in
          rw left (
            Safe-if {A = Unit {0}} (bit_and (get_or (take 1 s.state) 0 0) 0x80 == 0) (pure tt)
              (λ t. skip_varint_loop (suc n) t) s (moved 1 s) f
              (Safe-after s (moved 1 s) (skip_varint_loop (suc n) (moved 1 s)) f (
                skip_varint_loop-Safe n (moved 1 s) f.sound
                  (omega (arith, ltb→le s.bytes_left 1 left)))))
    ])

pub pb_skip_varint-IsSafe : IsSafe pb_skip_varint
unfolding pb_skip_varint
pb_skip_varint-IsSafe = record { at = λ s h. skip_varint_loop-Safe s.bytes_left s h (omega arith) }

-- pb_skip_field, for every wire type, from any sound buffer and whatever length the input claims: it
-- returns, and the stream has moved forward inside the buffer.
pub pb_skip_field-IsSafe : (wire_type : ℕ) → IsSafe (pb_skip_field wire_type)
unfolding pb_skip_field
pb_skip_field-IsSafe wire_type =
    search (safe_rules, pb_skip_varint-IsSafe, pb_skip_string-IsSafe) depth 8

-- read_raw_value, for every wire type and size of its buffer, from any sound buffer: it returns, and
-- the stream has moved forward inside the buffer.
pub read_raw_value-IsSafe : (wire_type max_size : ℕ) → IsSafe (read_raw_value wire_type max_size)
unfolding read_raw_value
read_raw_value-IsSafe wire_type max_size = search (safe_rules, raw_varint_loop-IsSafe) depth 8

-- pb_decode_tag, from any sound buffer: it returns, and the stream has moved forward inside the
-- buffer.
pub pb_decode_tag-IsSafe : IsSafe pb_decode_tag
unfolding pb_decode_tag
pb_decode_tag-IsSafe = record {
  at = λ s h. tag_cases s (pb_decode_varint32 s) (pb_decode_varint32-IsSafe.at s h);
}
  where
    tag_cases : (s : Istream) (o : Outcome Istream ℕ) → Safe s o → Safe s (tag_of o)
    tag_cases s (ok temp t) p = elim (Bool-cases (temp == 0)) [ inl e ↦ rw e p | inr e ↦ rw e p ]
    tag_cases s (fail t) p = elim (Bool-cases (t.bytes_left == 0)) [
      | inl e ↦ rw e p
      | inr e ↦ rw e p
    ]
    tag_cases s fault p = p
    tag_cases s stuck p = p
