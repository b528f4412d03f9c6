-- ===== src/RoundTrip/Values.antt =====
-- The value encoders pb_enc_* of pb_encode.c against the value decoders pb_dec_* of pb_decode.c, from
-- one message structure to another.
use breakpoint.Base.{
  ℕ, ◌-◌, ◌*◌, ◌^◌, ◌≤◌, ◌<◌, ◌≡◌, inl, inr, refl, sym, ap, ◌∙◌, Option, List, ◌++◌, length, ==_iff,
}
use native.Mathlib.Nat.{mod-eq_of_lt}
use breakpoint.Errors.{ErrMsg}
use breakpoint.Outcome.{Outcome, ok, fail, fault, stuck, M}
use breakpoint.Input.Reading.{reading}
use breakpoint.Output.{Ostream, pb_ostream_from_buffer, pb_encode_varint, pb_encode_svarint}
use breakpoint.Wire.{pb_decode_varint, pb_decode_svarint}
use breakpoint.Memory.{Memory, load, store}
use breakpoint.Descriptor.{Field}
use breakpoint.Decoder.{DecState, on_input, with_mem as with_input}
use breakpoint.Decoder.Values.{
  sign_extend, store_unsigned, store_signed, pb_dec_uvarint, pb_dec_varint, pb_dec_svarint,
}
use breakpoint.Encoder.{EncState, on_output, with_mem}
use breakpoint.Encoder.Values.{pb_enc_uvarint, pb_enc_varint, pb_enc_svarint}
use breakpoint.RoundTrip.Widths.{
  IsWidth, IsBytes, low_bits, sign_extend-lt, sign_extend-again, load-bound, width-lt,
}
use breakpoint.RoundTrip.{pb_decode_varint-pb_encode_varint, pb_decode_svarint-pb_encode_svarint}

-- The stream that a step of the stream alone left.
abbrev pub stream_of : Outcome EncState (Unit {0}) → Outcome Ostream (Unit {0})
stream_of (ok _ t) = ok tt t.output
stream_of (fail t) = fail t.output
stream_of fault = fault
stream_of stuck = stuck

pub stream_of-on_output :
    (w : M Ostream (Unit {0})) (s : EncState) → stream_of (on_output w s) ≡ w s.output
stream_of-on_output w s = each (w s.output)
  where
    each : (o : Outcome Ostream (Unit {0})) → stream_of (with_mem s.mem o) ≡ o
    each (ok a o) = refl
    each (fail o) = refl
    each fault = refl
    each stuck = refl

pub enc_uvarint :
    (f : Field) (src : ℕ) (s : EncState)
    → IsWidth f.data_size
    → pb_enc_uvarint f src s ≡ on_output (pb_encode_varint (load f.data_size src s.mem)) s
unfolding pb_enc_uvarint
enc_uvarint f src s (inl e) = rw e refl
enc_uvarint f src s (inr (inl e)) = rw e refl
enc_uvarint f src s (inr (inr (inl e))) = rw e refl
enc_uvarint f src s (inr (inr (inr e))) = rw e refl

store_unsigned-fits :
    (size dest v : ℕ) (s : DecState)
    → v < 2 ^ (8 * size)
    → store_unsigned size dest v s ≡ ok tt (record s { mem = store size dest v s.mem })
store_unsigned-fits size dest v s h = rw (mod-eq_of_lt h) (rw ((==_iff v v).1 refl) refl)

pub dec_uvarint :
    (f : Field) (dest v : ℕ) (s t : DecState)
    → IsWidth f.data_size
    → v < 256 ^ f.data_size
    → on_input pb_decode_varint s ≡ ok v t
    → pb_dec_uvarint f dest s ≡ ok tt (record t { mem = store f.data_size dest v t.mem })
unfolding pb_dec_uvarint
dec_uvarint f dest v s t (inl e) h r = rw (e, r) (store_unsigned-fits 1 dest v t (rw e at h))
dec_uvarint f dest v s t (inr (inl e)) h r = rw (e, r) (store_unsigned-fits 2 dest v t (rw e at h))
dec_uvarint f dest v s t (inr (inr (inl e))) h r =
    rw (e, r) (store_unsigned-fits 4 dest v t (rw e at h))
dec_uvarint f dest v s t (inr (inr (inr e))) h r =
    rw (e, r) (store_unsigned-fits 8 dest v t (rw e at h))

pub enc_svarint :
    (f : Field) (src : ℕ) (s : EncState)
    → IsWidth f.data_size
    → pb_enc_svarint f src s
      ≡ on_output (pb_encode_svarint (sign_extend (8 * f.data_size) (load f.data_size src s.mem))) s
unfolding pb_enc_svarint
enc_svarint f src s (inl e) = rw e refl
enc_svarint f src s (inr (inl e)) = rw e refl
enc_svarint f src s (inr (inr (inl e))) = rw e refl
enc_svarint f src s (inr (inr (inr e))) = rw e refl

store_signed-extended :
    (size dest x : ℕ) (s : DecState)
    → IsWidth size
    → x < 256 ^ size
    → store_signed size dest (sign_extend (8 * size) x) s
      ≡ ok tt (record s { mem = store size dest x s.mem })
store_signed-extended size dest x s w h =
    rw (low_bits size x w h)
      (rw ((==_iff (sign_extend (8 * size) x) (sign_extend (8 * size) x)).1 refl) refl)

pub dec_svarint :
    (f : Field) (dest x : ℕ) (s t : DecState)
    → IsWidth f.data_size
    → x < 256 ^ f.data_size
    → on_input pb_decode_svarint s ≡ ok (sign_extend (8 * f.data_size) x) t
    → pb_dec_svarint f dest s ≡ ok tt (record t { mem = store f.data_size dest x t.mem })
unfolding pb_dec_svarint
dec_svarint f dest x s t (inl e) h r =
    rw (r, e) (store_signed-extended 1 dest x t (inl refl) (rw e at h))
dec_svarint f dest x s t (inr (inl e)) h r =
    rw (r, e) (store_signed-extended 2 dest x t (inr (inl refl)) (rw e at h))
dec_svarint f dest x s t (inr (inr (inl e))) h r =
    rw (r, e) (store_signed-extended 4 dest x t (inr (inr (inl refl))) (rw e at h))
dec_svarint f dest x s t (inr (inr (inr e))) h r =
    rw (r, e) (store_signed-extended 8 dest x t (inr (inr (inr refl))) (rw e at h))

pub enc_varint :
    (f : Field) (src : ℕ) (s : EncState)
    → IsWidth f.data_size
    → pb_enc_varint f src s
      ≡ on_output (pb_encode_varint (sign_extend (8 * f.data_size) (load f.data_size src s.mem))) s
unfolding pb_enc_varint
enc_varint f src s (inl e) = rw e refl
enc_varint f src s (inr (inl e)) = rw e refl
enc_varint f src s (inr (inr (inl e))) = rw e refl
enc_varint f src s (inr (inr (inr e))) = rw e refl

pub dec_varint :
    (f : Field) (dest x : ℕ) (s t : DecState)
    → IsWidth f.data_size
    → x < 256 ^ f.data_size
    → on_input pb_decode_varint s ≡ ok (sign_extend (8 * f.data_size) x) t
    → pb_dec_varint f dest s ≡ ok tt (record t { mem = store f.data_size dest x t.mem })
unfolding pb_dec_varint
dec_varint f dest x s t (inl e) h r =
    rw (r, e)
      (rw (sign_extend-again 1 x (inl refl) (rw e at h))
        (store_signed-extended 1 dest x t (inl refl) (rw e at h)))
dec_varint f dest x s t (inr (inl e)) h r =
    rw (r, e)
      (rw (sign_extend-again 2 x (inr (inl refl)) (rw e at h))
        (store_signed-extended 2 dest x t (inr (inl refl)) (rw e at h)))
dec_varint f dest x s t (inr (inr (inl e))) h r =
    rw (r, e)
      (rw (sign_extend-again 4 x (inr (inr refl)) (rw e at h))
        (store_signed-extended 4 dest x t (inr (inr (inl refl))) (rw e at h)))
dec_varint f dest x s t (inr (inr (inr e))) h r =
    rw (r, e) (store_signed-extended 8 dest x t (inr (inr (inr refl))) (rw e at h))

-- A field of 1, 2, 4 or 8 bytes at `src`, in a memory of bytes, that an encoder wrote to a buffer of
-- `cap` bytes, leaving `t`; a decoder of the same field reads the bytes written, with `rest` behind
-- them, and stores to `dest`.
module _ (f : Field) (src dest cap n : ℕ) (m m' : Memory) (t : EncState) (rest : List ℕ)
    (e : Option ErrMsg) (width : IsWidth f.data_size) (bytes : IsBytes m) (fits : cap < 2 ^ 64)
    (enough : length t.output.state.written ≤ n) (size : n < 2 ^ 64) where
  -- What pb_enc_uvarint wrote to a buffer for a field of 1, 2, 4 or 8 bytes, in a memory of bytes, is
  -- read by pb_dec_uvarint for the same field: it succeeds, stores the field's number at `dest`, and stops
  -- behind the bytes written, whatever follows them.
  pub pb_dec_uvarint-pb_enc_uvarint :
      pb_enc_uvarint f src (record { output = pb_ostream_from_buffer cap; mem = m }) ≡ ok tt t
      → pb_dec_uvarint f dest
          (record { input = reading (t.output.state.written ++ rest) n e; mem = m' })
        ≡ ok tt (record {
          input = reading rest (n - length t.output.state.written) e;
          mem = store f.data_size dest (load f.data_size src m) m';
        })
  pb_dec_uvarint-pb_enc_uvarint h =
      let start : EncState = record { output = pb_ostream_from_buffer cap; mem = m } in
      let v = load f.data_size src m in
      let bound = load-bound f.data_size src m bytes in
      let wrote : pb_encode_varint v (pb_ostream_from_buffer cap) ≡ ok tt t.output =
        sym (stream_of-on_output (pb_encode_varint v) start)
        ∙ ap stream_of (sym (enc_uvarint f src start width) ∙ h) in
      dec_uvarint f dest v _ _ width bound (
        ap (with_input m') (
          pb_decode_varint-pb_encode_varint cap n t.output rest e fits enough size v
            (width-lt f.data_size v width bound) wrote))

  -- What pb_enc_svarint wrote to a buffer for a field of 1, 2, 4 or 8 bytes, in a memory of bytes, is
  -- read by pb_dec_svarint for the same field: it succeeds, stores the field's number at `dest`, and stops
  -- behind the bytes written, whatever follows them.
  pub pb_dec_svarint-pb_enc_svarint :
      pb_enc_svarint f src (record { output = pb_ostream_from_buffer cap; mem = m }) ≡ ok tt t
      → pb_dec_svarint f dest
          (record { input = reading (t.output.state.written ++ rest) n e; mem = m' })
        ≡ ok tt (record {
          input = reading rest (n - length t.output.state.written) e;
          mem = store f.data_size dest (load f.data_size src m) m';
        })
  pb_dec_svarint-pb_enc_svarint h =
      let start : EncState = record { output = pb_ostream_from_buffer cap; mem = m } in
      let x = load f.data_size src m in
      let v = sign_extend (8 * f.data_size) x in
      let bound = load-bound f.data_size src m bytes in
      let wrote : pb_encode_svarint v (pb_ostream_from_buffer cap) ≡ ok tt t.output =
        sym (stream_of-on_output (pb_encode_svarint v) start)
        ∙ ap stream_of (sym (enc_svarint f src start width) ∙ h) in
      dec_svarint f dest x _ _ width bound (
        ap (with_input m') (
          pb_decode_svarint-pb_encode_svarint cap n t.output rest e fits enough size v
            (sign_extend-lt f.data_size x width bound) wrote))

  -- What pb_enc_varint wrote to a buffer for a field of 1, 2, 4 or 8 bytes, in a memory of bytes, is
  -- read by pb_dec_varint for the same field: it succeeds, stores the field's number at `dest`, and stops
  -- behind the bytes written, whatever follows them.
  pub pb_dec_varint-pb_enc_varint :
      pb_enc_varint f src (record { output = pb_ostream_from_buffer cap; mem = m }) ≡ ok tt t
      → pb_dec_varint f dest
          (record { input = reading (t.output.state.written ++ rest) n e; mem = m' })
        ≡ ok tt (record {
          input = reading rest (n - length t.output.state.written) e;
          mem = store f.data_size dest (load f.data_size src m) m';
        })
  pb_dec_varint-pb_enc_varint h =
      let start : EncState = record { output = pb_ostream_from_buffer cap; mem = m } in
      let x = load f.data_size src m in
      let v = sign_extend (8 * f.data_size) x in
      let bound = load-bound f.data_size src m bytes in
      let wrote : pb_encode_varint v (pb_ostream_from_buffer cap) ≡ ok tt t.output =
        sym (stream_of-on_output (pb_encode_varint v) start)
        ∙ ap stream_of (sym (enc_varint f src start width) ∙ h) in
      dec_varint f dest x _ _ width bound (
        ap (with_input m') (
          pb_decode_varint-pb_encode_varint cap n t.output rest e fits enough size v
            (sign_extend-lt f.data_size x width bound) wrote))
