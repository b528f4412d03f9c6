-- ===== src/Wire/Truncated.antt =====
-- pb_decode_tag on an input that ends inside a tag.
use breakpoint.Base.{
  ℕ, zero, suc, ◌+◌, ◌*◌, ◌%◌, ◌≤◌, ◌<◌, bit_and, ◌≡◌, refl, Option, List, [], ◌∷◌, length, arith,
  All,
}
use breakpoint.Base.Bits.{bit_and-0x80}
use breakpoint.Errors.{ErrMsg, end_of_stream, set_error}
use breakpoint.Outcome.{ok, fail}
use breakpoint.Input.{pb_readbyte}
use breakpoint.Input.Reading.{reading, pb_readbyte_lem}
use breakpoint.Wire.{varint_loop, add_group, next_bitpos, pb_decode_varint32, pb_decode_tag, at_eof}

-- A byte that says that another one follows.
abbrev pub IsContinued : ℕ → Type 0
IsContinued b = 128 ≤ b % 256

ends :
    (e : Option ErrMsg)
    → pb_readbyte (reading [] 0 e) ≡ fail (reading [] 0 (set_error e end_of_stream))
unfolding pb_readbyte
ends e = refl

varint_loop-ends :
    (bs : List ℕ) (n w bitpos acc : ℕ) (e : Option ErrMsg)
    → All IsContinued bs
    → bitpos + 7 * length bs < w
    → w ≤ 64
    → length bs < n
    → varint_loop n w bitpos acc (reading bs (length bs) e)
      ≡ fail (reading [] 0 (set_error e end_of_stream))
unfolding varint_loop
varint_loop-ends bs zero w bitpos acc e more width hw rounds = absurd (omega arith)
varint_loop-ends [] (suc n) w bitpos acc e more width hw rounds = ground (arith, ends e)
varint_loop-ends (b ∷ bs) (suc n) w bitpos acc e more width hw rounds = ground (
  arith,
  pb_readbyte_lem b bs (suc (length bs)) e,
  bit_and-0x80 b,
  more.0,
  varint_loop-ends bs n w (next_bitpos bitpos) (add_group w acc b bitpos) e more.1,
)

-- An input of at most four bytes, each with its top bit set, is the beginning of a tag whose end is
-- missing. pb_decode_tag reports the end of the message for it, as for an empty input, and not an
-- error.
pub pb_decode_tag_truncated :
    (bs : List ℕ) (e : Option ErrMsg)
    → All IsContinued bs
    → length bs ≤ 4
    → pb_decode_tag (reading bs (length bs) e)
      ≡ ok at_eof (reading [] 0 (set_error e end_of_stream))
unfolding pb_decode_tag pb_decode_varint32
pb_decode_tag_truncated [] e more short = ground (arith, ends e)
pb_decode_tag_truncated (b ∷ bs) e more short = ground (
  arith,
  pb_readbyte_lem b bs (suc (length bs)) e,
  bit_and-0x80 b,
  more.0,
  varint_loop-ends bs 5 32 7 (bit_and b 0x7f) e more.1,
)
