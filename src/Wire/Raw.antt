-- ===== src/Wire/Raw.antt =====
-- The bytes that read_raw_value returns (Pods/nanopb/pb_decode.c) fit the buffer that it is given.
use breakpoint.Base.{
  ℕ, zero, suc, ◌+◌, ◌≤◌, inl, inr, List, [], ◌++◌, length, length-take, length-append, ltb, ltb→le,
  ◌==◌, bit_and, get_or, arith, Bool-cases,
}
use breakpoint.Errors.{invalid_wire_type, end_of_stream}
use breakpoint.Outcome.{Outcome, ok, fail, fault, stuck, M, continue}
use breakpoint.Input.{Istream, pb_read}
use breakpoint.Input.Reading.{IsSound}
use breakpoint.Input.Safety.{
  Follows, Follows-refl, Follows-trans, error-Safe, moved-Follows, pb_read_sound,
}
use breakpoint.Wire.{pb_wt_varint, pb_wt_64bit, pb_wt_32bit, read_raw_value, raw_varint_loop}

-- The step is safe, and the bytes that it returns are at most `n`.
abbrev pub Short : ℕ → Istream → Outcome Istream (List ℕ) → Type 0
Short n s (ok bytes t) = Follows s t × (length bytes ≤ n)
Short n s (fail t) = Follows s t
Short n s fault = ⊥
Short n s stuck = ⊥

Short-after :
    (n : ℕ) (s t : Istream) (o : Outcome Istream (List ℕ)) → Follows s t → Short n t o → Short n s o
Short-after n s t (ok bytes u) p q = (Follows-trans s t u p q.0, q.1)
Short-after n s t (fail u) p q = Follows-trans s t u p q
Short-after n s t fault p q = q
Short-after n s t stuck p q = q

Short-continue :
    (k n : ℕ) (s : Istream) (o : Outcome Istream (List ℕ)) (use_it : List ℕ → M Istream (List ℕ))
    → Short k s o
    → ((bytes : List ℕ) (t : Istream) → Follows s t → length bytes ≤ k → Short n t (use_it bytes t))
    → Short n s (continue o use_it)
Short-continue k n s (ok bytes t) use_it p q = Short-after n s t _ p.0 (q bytes t p.0 p.1)
Short-continue k n s (fail t) use_it p q = p
Short-continue k n s fault use_it p q = p
Short-continue k n s stuck use_it p q = p

Short-le :
    (k n : ℕ) (s : Istream) (o : Outcome Istream (List ℕ)) → k ≤ n → Short k s o → Short n s o
Short-le k n s (ok bytes t) le p = (p.0, omega (arith, p.1))
Short-le k n s (fail t) le p = p
Short-le k n s fault le p = p
Short-le k n s stuck le p = p

pb_read-Short : (count : ℕ) (s : Istream) → IsSound s → Short count s (pb_read count s)
pb_read-Short count s h = rw (pb_read_sound count s h) (elim (Bool-cases (ltb s.bytes_left count)) [
  | inl short ↦ rw short (error-Safe (List ℕ) end_of_stream s h)
  | inr fits ↦
      let enough = ltb→le s.bytes_left count fits in
      rw fits (
        moved-Follows count s h enough,
        omega (arith, length-take count s.state (omega (arith, h.within))),
      )
])

raw_varint_loop-Short :
    (room : ℕ) (buf : List ℕ) (s : Istream)
    → IsSound s
    → Short (length buf + room) s (raw_varint_loop room buf s)
unfolding raw_varint_loop
raw_varint_loop-Short zero buf s h = Follows-refl s h
raw_varint_loop-Short (suc room) buf s h =
    Short-continue 1 (length buf + suc room) s (pb_read 1 s) _ (pb_read-Short 1 s h)
      λ bytes t f short. elim (Bool-cases (bit_and (get_or bytes 0 0) 0x80 == 0)) [
        | inl last ↦ rw last (Follows-refl t f.sound, omega (arith, length-append buf bytes))
        | inr more ↦ rw more (
            Short-le (length (buf ++ bytes) + room) (length buf + suc room) t _
              (omega (arith, length-append buf bytes))
              (raw_varint_loop-Short room (buf ++ bytes) t f.sound))
      ]

pub read_raw_value-Short :
    (wire_type : ℕ) (s : Istream) → IsSound s → Short 10 s (read_raw_value wire_type 10 s)
unfolding read_raw_value
read_raw_value-Short wire_type s h = elim (Bool-cases (wire_type == pb_wt_varint)) [
  | inl e ↦ rw e (raw_varint_loop-Short 10 [] s h)
  | inr e ↦ rw e (elim (Bool-cases (wire_type == pb_wt_64bit)) [
    | inl e ↦ rw e (Short-le 8 10 s _ (omega arith) (pb_read-Short 8 s h))
    | inr e ↦ rw e (elim (Bool-cases (wire_type == pb_wt_32bit)) [
      | inl e ↦ rw e (Short-le 4 10 s _ (omega arith) (pb_read-Short 4 s h))
      | inr e ↦ rw e (error-Safe (List ℕ) invalid_wire_type s h)
    ])
  ])
]
