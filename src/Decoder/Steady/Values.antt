-- ===== src/Decoder/Steady/Values.antt =====
-- The decoders of single values are steady for every descriptor, and those of numbers take a byte.
use breakpoint.Base.{ℕ, ◌+◌, ◌%◌, ◌^◌, List, ltb, ◌==◌, if◌then◌else◌, Bool-cases, inl, inr, ltb→le}
use breakpoint.Errors.{end_of_stream}
use breakpoint.Outcome.{M}
use breakpoint.Input.{pb_read}
use breakpoint.Input.Safety.{pb_read-IsSafe, pb_read_sound, moved-Follows, error-Safe}
use breakpoint.Wire.{
  pb_decode_varint, pb_decode_varint32, pb_decode_svarint, pb_decode_fixed32, pb_decode_fixed64,
}
use breakpoint.Wire.Safety.{pb_decode_varint32-IsSafe}
use breakpoint.Wire.Progress.{
  pb_decode_varint-IsTaking, pb_decode_svarint-IsTaking, pb_decode_fixed32-IsTaking,
  pb_decode_fixed64-IsTaking,
}
use breakpoint.Descriptor.{Field}
use breakpoint.Decoder.{DecState, on_input}
use breakpoint.Decoder.Steady.{
  Lags-Follows, IsSteady, IsEager, IsEager-bind, IsEager-on_input, IsSteady-on_input,
  IsSteady-on_mem, steady_rules,
}
use breakpoint.Decoder.Values.{
  store_signed, store_unsigned, by_size, sign_extend, terminate, pb_dec_varint, pb_dec_uvarint,
  pb_dec_svarint, pb_dec_fixed32, pb_dec_fixed64, pb_dec_bytes, pb_dec_string,
  pb_dec_fixed_length_bytes,
}

store_signed-IsSteady : (size dest v : ℕ) → IsSteady (store_signed size dest v)
store_signed-IsSteady size dest v = search steady_rules depth 8

store_unsigned-IsSteady : (size dest v : ℕ) → IsSteady (store_unsigned size dest v)
store_unsigned-IsSteady size dest v = search steady_rules depth 8

by_size-IsSteady :
    (write : ℕ → M DecState (Unit {0})) (data_size : ℕ)
    → ((size : ℕ) → IsSteady (write size))
    → IsSteady (by_size write data_size)
by_size-IsSteady write data_size h = search steady_rules depth 12

pub pb_dec_varint-IsEager : (f : Field) (dest : ℕ) → IsEager (pb_dec_varint f dest)
unfolding pb_dec_varint
pb_dec_varint-IsEager f dest =
    IsEager-bind _ _ (IsEager-on_input pb_decode_varint pb_decode_varint-IsTaking) λ value.
      by_size-IsSteady _ f.data_size (λ size.
        store_signed-IsSteady size dest
          (if f.data_size == 8 then value else sign_extend 32 (value % 2 ^ 32)))

pub pb_dec_uvarint-IsEager : (f : Field) (dest : ℕ) → IsEager (pb_dec_uvarint f dest)
unfolding pb_dec_uvarint
pb_dec_uvarint-IsEager f dest =
    IsEager-bind _ _ (IsEager-on_input pb_decode_varint pb_decode_varint-IsTaking)
      λ value. by_size-IsSteady _ f.data_size (λ size. store_unsigned-IsSteady size dest value)

pub pb_dec_svarint-IsEager : (f : Field) (dest : ℕ) → IsEager (pb_dec_svarint f dest)
unfolding pb_dec_svarint
pb_dec_svarint-IsEager f dest =
    IsEager-bind _ _ (IsEager-on_input pb_decode_svarint pb_decode_svarint-IsTaking)
      λ value. by_size-IsSteady _ f.data_size (λ size. store_signed-IsSteady size dest value)

pub pb_dec_fixed32-IsEager : (f : Field) (dest : ℕ) → IsEager (pb_dec_fixed32 f dest)
unfolding pb_dec_fixed32
pb_dec_fixed32-IsEager f dest =
    IsEager-bind _ _ (IsEager-on_input pb_decode_fixed32 pb_decode_fixed32-IsTaking)
      λ v. IsSteady-on_mem _

pub pb_dec_fixed64-IsEager : (f : Field) (dest : ℕ) → IsEager (pb_dec_fixed64 f dest)
unfolding pb_dec_fixed64
pb_dec_fixed64-IsEager f dest =
    IsEager-bind _ _ (IsEager-on_input pb_decode_fixed64 pb_decode_fixed64-IsTaking)
      λ v. IsSteady-on_mem _

read-IsSteady : (count : ℕ) → IsSteady (on_input (pb_read count))
read-IsSteady count = IsSteady-on_input (pb_read count) (pb_read-IsSafe count)

size-IsSteady : IsSteady (on_input pb_decode_varint32)
size-IsSteady = IsSteady-on_input pb_decode_varint32 pb_decode_varint32-IsSafe

pub pb_dec_bytes-IsSteady : (f : Field) (dest : ℕ) → IsSteady (pb_dec_bytes f dest)
unfolding pb_dec_bytes
pb_dec_bytes-IsSteady f dest = search (steady_rules, size-IsSteady, read-IsSteady) depth 16

pub pb_dec_fixed_length_bytes-IsSteady :
    (f : Field) (dest : ℕ) → IsSteady (pb_dec_fixed_length_bytes f dest)
unfolding pb_dec_fixed_length_bytes
pb_dec_fixed_length_bytes-IsSteady f dest =
    search (steady_rules, size-IsSteady, read-IsSteady) depth 16

terminate-IsSteady :
    (size dest : ℕ) → IsSteady (λ s. terminate (dest + size) (on_input (pb_read size) s) dest)
terminate-IsSteady size dest = record {
  at = λ s h. rw (pb_read_sound size s.input h) (elim (Bool-cases (ltb s.input.bytes_left size)) [
    | inl short ↦ rw short (Lags-Follows s.input _ (error-Safe (List ℕ) end_of_stream s.input h))
    | inr fits ↦ rw fits (moved-Follows size s.input h (ltb→le s.input.bytes_left size fits))
  ]);
}

pub pb_dec_string-IsSteady : (f : Field) (dest : ℕ) → IsSteady (pb_dec_string f dest)
unfolding pb_dec_string
pb_dec_string-IsSteady f dest = search (steady_rules, size-IsSteady, terminate-IsSteady) depth 16
