-- ===== src/Decoder/Values/Clamps.antt =====
-- pb_dec_varint on fields of 32 bits.
use breakpoint.Base.{ℕ, ◌%◌, ◌^◌, ◌<◌, ◌≡◌, refl, ==_iff, arith}
use breakpoint.Outcome.{Outcome, ok, fail, fault, stuck, ◌>>=◌, continue}
use breakpoint.Wire.{pb_decode_varint}
use breakpoint.Memory.{store}
use breakpoint.Descriptor.{Field}
use breakpoint.Decoder.{DecState, on_input, on_mem}
use breakpoint.Decoder.Values.{sign_extend, store_signed, pb_dec_varint}

low_bits : (x : ℕ) → x < 2 ^ 32 → sign_extend 32 x % 2 ^ 32 ≡ x
low_bits x h = ground arith

-- A sign-extended number passes the comparison.
store_signed-extended :
    (dest x : ℕ) (s : DecState)
    → x < 2 ^ 32
    → store_signed 4 dest (sign_extend 32 x) s ≡ on_mem (store 4 dest x) s
store_signed-extended dest x s h =
    rw (low_bits x h) (rw ((==_iff (sign_extend 32 x) (sign_extend 32 x)).1 refl) refl)

-- For a field of four bytes pb_dec_varint stores the low 32 bits of the varint that it read. The
-- comparison behind the store never fails, so that no value is "integer too large".
pub pb_dec_varint-four :
    (f : Field) (dest : ℕ) (s : DecState)
    → f.data_size ≡ 4
    → pb_dec_varint f dest s
      ≡ (do value ← on_input pb_decode_varint; on_mem (store 4 dest (value % 2 ^ 32))) s
unfolding pb_dec_varint
pb_dec_varint-four f dest s four = rw four (each (on_input pb_decode_varint s))
  where
    each :
        (o : Outcome DecState ℕ)
        → continue o (λ v. store_signed 4 dest (sign_extend 32 (v % 2 ^ 32)))
          ≡ continue o (λ v. on_mem (store 4 dest (v % 2 ^ 32)))
    each (ok v t) = store_signed-extended dest (v % 2 ^ 32) t (omega arith)
    each (fail t) = refl
    each fault = refl
    each stuck = refl
