-- ===== src/Wire/Progress.antt =====
-- Steps that take at least one byte when they succeed: the decoders of numbers and tags.
use breakpoint.Base.{
  ℕ, zero, suc, ◌%◌, ◌^◌, ◌<◌, bit_and, List, ltb, leb, ◌==◌, arith, Bool-cases, ltb→le, inl, inr,
}
use breakpoint.Base.Bits.{bit_and-0x7f, bit_or-lt}
use breakpoint.Errors.{end_of_stream}
use breakpoint.Outcome.{Outcome, ok, fail, fault, stuck, M, ◌>>=◌, continue}
use breakpoint.Input.{Istream, pb_read, pb_readbyte}
use breakpoint.Input.Reading.{IsSound}
use breakpoint.Input.Safety.{
  IsSafe, Safe, Follows, Follows-trans, IsSafe-pure, IsSafe-if, pb_read_sound, pb_readbyte_sound,
  moved-Follows, error-Safe,
}
use breakpoint.Wire.{
  varint_loop, add_group, next_bitpos, pb_decode_varint, pb_decode_varint32, pb_decode_svarint,
  pb_decode_fixed32, pb_decode_fixed64, pb_decode_tag, Tag, tag_of, at_eof, field_tag,
}
use breakpoint.Wire.Safety.{varint_loop-IsSafe}

-- The step returned; if with true, it has taken a byte.
abbrev pub Taken : {A : Type 0} → Istream → Outcome Istream A → Type 0
Taken s (ok a t) = Follows s t × (t.bytes_left < s.bytes_left)
Taken s (fail t) = Follows s t
Taken s fault = ⊥
Taken s stuck = ⊥

pub record IsTaking {A : Type 0} (m : M Istream A) : Type 0 where
  pub at : (s : Istream) → IsSound s → Taken s (m s)

module _ {A : Type 0} where
  Taken-after :
      (s t : Istream) (o : Outcome Istream A)
      → Follows s t
      → t.bytes_left < s.bytes_left
      → Safe t o
      → Taken s o
  Taken-after s t (ok a u) p less q = (Follows-trans s t u p q, omega (arith, q.fewer))
  Taken-after s t (fail u) p less q = Follows-trans s t u p q
  Taken-after s t fault p less q = q
  Taken-after s t stuck p less q = q

module _ {A B : Type 0} where
  Taken-continue :
      (s : Istream) (o : Outcome Istream A) (k : A → M Istream B)
      → Taken s o
      → ((a : A) → IsSafe (k a))
      → Taken s (continue o k)
  Taken-continue s (ok a t) k p q = Taken-after s t (k a t) p.0 p.1 ((q a).at t p.0.sound)
  Taken-continue s (fail t) k p q = p
  Taken-continue s fault k p q = p
  Taken-continue s stuck k p q = p

  pub IsTaking-bind :
      (m : M Istream A) (k : A → M Istream B)
      → IsTaking m
      → ((a : A) → IsSafe (k a))
      → IsTaking (m >>= k)
  IsTaking-bind m k hm hk = record { at = λ s h. Taken-continue s (m s) k (hm.at s h) hk }

pub pb_read-IsTaking : (count : ℕ) → 0 < count → IsTaking (pb_read count)
pb_read-IsTaking count pos = record {
  at = λ s h. rw (pb_read_sound count s h) (elim (Bool-cases (ltb s.bytes_left count)) [
    | inl short ↦ rw short (error-Safe (List ℕ) end_of_stream s h)
    | inr fits ↦
        let enough = ltb→le s.bytes_left count fits in
        rw fits (moved-Follows count s h enough, omega arith)
  ]);
}

pub pb_readbyte-IsTaking : IsTaking pb_readbyte
pb_readbyte-IsTaking = record {
  at = λ s h. rw (pb_readbyte_sound s h) (elim (Bool-cases (s.bytes_left == 0)) [
    | inl empty ↦ rw empty (error-Safe ℕ end_of_stream s h)
    | inr some_left ↦ rw some_left (moved-Follows 1 s h (ground arith), ground arith)
  ]);
}

pub pb_decode_varint-IsTaking : IsTaking pb_decode_varint
unfolding pb_decode_varint varint_loop
pb_decode_varint-IsTaking = record {
  at = λ s h.
      (IsTaking-bind pb_readbyte _ pb_readbyte-IsTaking λ byte.
          IsSafe-if (bit_and byte 0x80 == 0) _ _ (IsSafe-pure _)
            (varint_loop-IsSafe 9 64 (next_bitpos 0) _ (omega arith) (omega arith))).at
        s h;
}

pub pb_decode_varint32-IsTaking : IsTaking pb_decode_varint32
unfolding pb_decode_varint32
pb_decode_varint32-IsTaking = IsTaking-bind pb_readbyte _ pb_readbyte-IsTaking λ byte.
    IsSafe-if (bit_and byte 0x80 == 0) _ _ (IsSafe-pure (byte % 256))
      (varint_loop-IsSafe 4 32 7 (bit_and byte 0x7f) (omega arith) (omega arith))

pub pb_decode_svarint-IsTaking : IsTaking pb_decode_svarint
unfolding pb_decode_svarint
pb_decode_svarint-IsTaking =
    IsTaking-bind pb_decode_varint _ pb_decode_varint-IsTaking λ value. IsSafe-pure _

pub pb_decode_fixed32-IsTaking : IsTaking pb_decode_fixed32
unfolding pb_decode_fixed32
pb_decode_fixed32-IsTaking =
    IsTaking-bind (pb_read 4) _ (pb_read-IsTaking 4 (omega arith)) λ bytes. IsSafe-pure _

pub pb_decode_fixed64-IsTaking : IsTaking pb_decode_fixed64
unfolding pb_decode_fixed64
pb_decode_fixed64-IsTaking =
    IsTaking-bind (pb_read 8) _ (pb_read-IsTaking 8 (omega arith)) λ bytes. IsSafe-pure _

-- The result, if there is one, has 32 bits.
abbrev Fits32 : Outcome Istream ℕ → Type 0
Fits32 (ok v t) = v < 2 ^ 32
Fits32 (fail t) = Unit {0}
Fits32 fault = Unit {0}
Fits32 stuck = Unit {0}

Fits32-continue :
    {A : Type 0} (o : Outcome Istream A) (k : A → M Istream ℕ)
    → ((a : A) (t : Istream) → Fits32 (k a t))
    → Fits32 (continue o k)
Fits32-continue (ok a t) k h = h a t
Fits32-continue (fail t) k h = tt
Fits32-continue fault k h = tt
Fits32-continue stuck k h = tt

varint_loop-Fits32 :
    (n bitpos acc : ℕ) (s : Istream) → acc < 2 ^ 32 → Fits32 (varint_loop n 32 bitpos acc s)
unfolding varint_loop
varint_loop-Fits32 zero bitpos acc s h = tt
varint_loop-Fits32 (suc n) bitpos acc s h = elim (Bool-cases (leb 32 bitpos)) [
  | inl over ↦ rw over tt
  | inr within ↦ rw within (
      Fits32-continue (pb_readbyte s) _ λ byte t. elim (Bool-cases (bit_and byte 0x80 == 0)) [
        | inl last ↦ rw last (joined byte)
        | inr more ↦ rw more (varint_loop-Fits32 n (next_bitpos bitpos) _ t (joined byte))
      ])
]
  where
    joined : (byte : ℕ) → add_group 32 acc byte bitpos < 2 ^ 32
    joined byte = bit_or-lt 32 acc _ h (omega arith)

pb_decode_varint32-Fits32 : (s : Istream) → Fits32 (pb_decode_varint32 s)
unfolding pb_decode_varint32
pb_decode_varint32-Fits32 s = Fits32-continue (pb_readbyte s) _ λ byte t.
    elim (Bool-cases (bit_and byte 0x80 == 0)) [
      | inl last ↦ rw last (ground arith)
      | inr more ↦ rw more (varint_loop-Fits32 5 7 _ t (omega (arith, bit_and-0x7f byte)))
    ]

-- What pb_decode_tag leaves: behind a field's tag it has taken a byte, and the tag has 29 bits.
abbrev pub TagTaken : Istream → Outcome Istream Tag → Type 0
TagTaken s (ok at_eof t) = Follows s t
TagTaken s (ok (field_tag wire_type tag) t) =
    Follows s t × (t.bytes_left < s.bytes_left) × (tag < 2 ^ 29)
TagTaken s (fail t) = Follows s t
TagTaken s fault = ⊥
TagTaken s stuck = ⊥

-- pb_decode_tag, from any sound buffer: it returns and stays inside the buffer; behind a tag it has
-- taken a byte at least, and the tag is below 2^29.
pub pb_decode_tag-TagTaken : (s : Istream) → IsSound s → TagTaken s (pb_decode_tag s)
unfolding pb_decode_tag
pb_decode_tag-TagTaken s h =
    by_result (pb_decode_varint32 s) (pb_decode_varint32-IsTaking.at s h)
      (pb_decode_varint32-Fits32 s)
  where
    by_result : (o : Outcome Istream ℕ) → Taken s o → Fits32 o → TagTaken s (tag_of o)
    by_result (ok temp t) p fits = elim (Bool-cases (temp == 0)) [
      | inl e ↦ rw e p.0
      | inr e ↦ rw e (p.0, p.1, omega arith)
    ]
    by_result (fail t) p fits = elim (Bool-cases (t.bytes_left == 0)) [
      | inl e ↦ rw e p
      | inr e ↦ rw e p
    ]
    by_result fault p fits = p
    by_result stuck p fits = p
