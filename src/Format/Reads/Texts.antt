-- ===== src/Format/Reads/Texts.antt =====
-- pb_dec_string and pb_dec_fixed_length_bytes on bytes behind their length.
use breakpoint.Base.{
  ℕ, ◌+◌, ◌-◌, ◌%◌, ◌^◌, ◌≤◌, ◌<◌, ◌≡◌, refl, sym, false, inl, inr, Option, List, ◌++◌, length,
  length-append, ltb, neq→==, ==_iff, arith,
}
use mathlib.Core.List.{append_assoc}
use breakpoint.Errors.{ErrMsg}
use breakpoint.Outcome.{ok}
use breakpoint.Input.Reading.{reading, pb_read_lem}
use breakpoint.Output.Encoding.{varint}
use breakpoint.Wire.Varint.{pb_decode_varint32-varint}
use breakpoint.Memory.{Memory, store_byte, store_bytes}
use breakpoint.Memory.Stores.{store_bytes-outside}
use breakpoint.Descriptor.{Field, pb_atype, pb_size_max}
use breakpoint.Descriptor.AType
use breakpoint.Decoder.Values.{pb_dec_string, pb_dec_fixed_length_bytes}
use breakpoint.Format.{delimited}
use breakpoint.Format.Agrees.{OnlyIn}
use breakpoint.Format.Cleared.{over}

pub store_bytes-OnlyIn :
    (bs : List ℕ) (a : ℕ) (m : Memory) → OnlyIn a (a + length bs) m (store_bytes a bs m)
store_bytes-OnlyIn bs a m x out = store_bytes-outside bs a x m out

-- A NUL behind the bytes.
pub terminated-OnlyIn :
    (bs : List ℕ) (a : ℕ) (m : Memory)
    → OnlyIn a (a + length bs + 1) m (store_byte (a + length bs) 0 (store_bytes a bs m))
terminated-OnlyIn bs a m x (inl h) =
    rw (neq→== x (a + length bs) (omega arith)) (store_bytes-outside bs a x m (inl h))
terminated-OnlyIn bs a m x (inr h) =
    rw (neq→== x (a + length bs) (omega arith)) (store_bytes-outside bs a x m (inr (omega arith)))

module _ (f : Field) (dest : ℕ) (bs rest : List ℕ) (k : ℕ) (e : Option ErrMsg) (m : Memory)
    (small : f.data_size < 2 ^ 32) (fits : length (delimited bs) ≤ k) (bounded : k < 2 ^ 64) where
  left : k - length (varint (length bs)) - length bs ≡ k - length (delimited bs)
  left = omega (arith, length-append (varint (length bs)) bs)

  pub pb_dec_string-delimited :
      pb_atype f.type ≡ AType.static
      → length bs < f.data_size
      → pb_dec_string f dest (over (reading (delimited bs ++ rest) k e) m)
        ≡ ok tt (
            over
              (reading rest (k - length (delimited bs)) e)
              (store_byte (dest + length bs) 0 (store_bytes dest bs m)))
  unfolding pb_dec_string
  pb_dec_string-delimited static room =
      let head = varint (length bs) in
      let total = length-append head bs in
      let alloc : (length bs + 1) % 2 ^ 32 ≡ length bs + 1 = omega arith in
      let fine : ltb (length bs + 1) (length bs) ≡ false = ground arith in
      let roomy : ltb f.data_size (length bs + 1) ≡ false = ground arith in
      rw (append_assoc head bs rest) (
        rw
          (
            pb_decode_varint32-varint (length bs) (bs ++ rest) k e (omega arith) (omega arith)
                bounded,
            alloc,
            fine,
            static,
            roomy,
          )
          (rw (pb_read_lem bs rest (k - length head) e (omega arith) (omega arith), left) refl))

  pub pb_dec_fixed_length_bytes-delimited :
      0 < f.data_size
      → length bs ≡ f.data_size
      → pb_dec_fixed_length_bytes f dest (over (reading (delimited bs ++ rest) k e) m)
        ≡ ok tt (over (reading rest (k - length (delimited bs)) e) (store_bytes dest bs m))
  unfolding pb_dec_fixed_length_bytes
  pb_dec_fixed_length_bytes-delimited some exact =
      let head = varint (length bs) in
      let total = length-append head bs in
      let fine : ltb pb_size_max (length bs) ≡ false = ground arith in
      rw (append_assoc head bs rest) (
        rw
          (
            pb_decode_varint32-varint (length bs) (bs ++ rest) k e (omega arith) (omega arith)
                bounded,
            fine,
            neq→== (length bs) 0 (omega arith),
            sym exact,
            (==_iff (length bs) (length bs)).1 refl,
          )
          (rw (pb_read_lem bs rest (k - length head) e (omega arith) (omega arith), left) refl))
