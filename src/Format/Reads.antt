-- ===== src/Format/Reads.antt =====
-- Decoding steps that read certain bytes, and write memory in one range.
pub mod Texts
pub mod Numbers
pub mod Values
pub mod Fields
pub mod Rounds
pub mod Frames
pub mod Entries
pub mod Loops
pub mod Levels
pub mod Messages
use breakpoint.Base.{
  ℕ, ◌+◌, ◌-◌, ◌*◌, ◌^◌, ◌≤◌, ◌<◌, ◌≡◌, ◌≢◌, refl, sym, ap, ◌∙◌, true, false, Option, List, ◌++◌,
  length, length-append, neq→==, ◌==◌, if◌then◌else◌, ltb, arith,
}
use breakpoint.Base.Bytes.{little_endian}
use mathlib.Core.List.{append_assoc}
use breakpoint.Errors.{ErrMsg}
use breakpoint.Outcome.{ok, M, continue}
use breakpoint.Input.{Istream, sub_size}
use breakpoint.Input.Reading.{reading}
use breakpoint.Output.{zigzag}
use breakpoint.Output.Encoding.{varint}
use breakpoint.Wire.{
  split_off, pb_make_string_substream, pb_close_string_substream, pb_decode_varint,
  pb_decode_svarint, pb_decode_fixed32, pb_decode_fixed64,
}
use breakpoint.Wire.Varint.{pb_decode_varint-varint, pb_decode_varint32-varint}
use breakpoint.Wire.Numbers.{
  pb_decode_svarint-zigzag, pb_decode_fixed32-little_endian, pb_decode_fixed64-little_endian,
}
use breakpoint.Memory.{Memory, load, store}
use breakpoint.Memory.Stores.{load-store, length-little_endian}
use breakpoint.Descriptor.{Field, pb_ltype, pb_htype}
use breakpoint.Descriptor.LType
use breakpoint.Descriptor.HType
use breakpoint.Decoder.{DecState, Env, on_input, with_mem}
use mathlib.Core.Path.{subst}
use breakpoint.Decoder.Values.{
  sign_extend, pb_dec_varint, pb_dec_uvarint, pb_dec_svarint, pb_dec_fixed32, pb_dec_fixed64,
}
use breakpoint.Decoder.Fields.{Nested, pb_dec_submessage, pb_decoders, in_substream}
use breakpoint.RoundTrip.Widths.{IsWidth, IsBytes, sign_extend-lt, load-bound, width-lt}
use breakpoint.RoundTrip.Values.{dec_varint, dec_uvarint, dec_svarint}
use breakpoint.RoundTrip.Fixed.{dec_fixed32, dec_fixed64}
use breakpoint.Format.{Writer, delimited, value_bytes}
use breakpoint.Format.Plain.{
  Kind, varint as signed, uvarint as plain, svarint as zigzagged, fixed32, fixed64, message,
}
use breakpoint.Format.Agrees.{Relation, SameValue, OnlyIn}
use breakpoint.Format.Cleared.{over, store-OnlyIn}

-- The step takes the stream from `i` to `i'`.
abbrev pub Reads :
    M DecState (Unit {0}) → Istream → Istream → ℕ → ℕ → Memory → (Memory → Type 0) → Type 0
Reads step i i' lo hi m P =
    (m' : Memory) × (step (over i m) ≡ ok tt (over i' m')) × OnlyIn lo hi m m' × P m'

sub_size_lem : (a b : ℕ) → b ≤ a → a < 2 ^ 64 → sub_size a b ≡ a - b
sub_size_lem a b h k = omega arith

fits_not : (a b : ℕ) → b ≤ a → ltb a b ≡ false
fits_not a b h = ground arith

-- The length of a message takes the substream off its parent.
pub pb_make_string_substream-delimited :
    (bytes rest : List ℕ) (k : ℕ) (e : Option ErrMsg)
    → length bytes < 2 ^ 32
    → length (delimited bytes) ≤ k
    → k < 2 ^ 64
    → pb_make_string_substream (reading (delimited bytes ++ rest) k e)
      ≡ ok
          (reading (bytes ++ rest) (length bytes) e)
          (reading (bytes ++ rest) (k - length (varint (length bytes)) - length bytes) e)
unfolding pb_make_string_substream split_off
pb_make_string_substream-delimited bytes rest k e short fits small =
    let head = varint (length bytes) in
    let both = length-append head bytes in
    rw (append_assoc head bytes rest) (
      rw (pb_decode_varint32-varint (length bytes) (bytes ++ rest) k e short (omega arith) small) (
        rw
          (
            fits_not (k - length head) (length bytes) (omega arith),
            sub_size_lem (k - length head) (length bytes) (omega arith) (omega arith),
          )
          refl))
