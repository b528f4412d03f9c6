-- ===== src/Decoder/Values.antt =====
-- The decoders of single values, pb_dec_* of Pods/nanopb/pb_decode.c. `dest` is an address.
pub mod Bounds
pub mod Clamps
use breakpoint.Base.{
  ℕ, zero, suc, ◌+◌, ◌-◌, ◌*◌, ◌%◌, ◌^◌, bit_and, Bool, true, false, not, ltb, leb, ◌==◌,
  if◌then◌else◌, List, length,
}
use breakpoint.Errors.{
  invalid_data_size, integer_too_large, bytes_overflow, size_too_large, string_overflow,
  no_malloc_support, incorrect_fixed_length_bytes_size,
}
use breakpoint.Outcome.{Outcome, ok, fail, fault, stuck, M, pure, ◌>>=◌, ◌>>◌}
use breakpoint.Input.{pb_read}
use breakpoint.Wire.{
  pb_decode_varint, pb_decode_varint32, pb_decode_svarint, pb_decode_fixed32, pb_decode_fixed64,
}
use breakpoint.Memory.{Memory, store, store_bytes, store_byte, memset_zero}
use breakpoint.Descriptor.{Field, pb_atype, pb_size_max}
use breakpoint.Descriptor.AType
use breakpoint.Decoder.{DecState, return_error, on_input, on_mem}

-- The int64_t of a signed number of `bits` bits, both as bit patterns.
abbrev pub sign_extend : ℕ → ℕ → ℕ
sign_extend bits x = if ltb x (2 ^ (bits - 1)) then x else x + (2 ^ 64 - 2 ^ bits)

-- `clamped = *(intN_t*)dest = (intN_t)svalue`, and the comparison behind it.
abbrev pub store_signed : ℕ → ℕ → ℕ → M DecState (Unit {0})
store_signed size dest svalue = do
  let low = svalue % 2 ^ (8 * size)
  on_mem (store size dest low)
  if sign_extend (8 * size) low == svalue then pure tt else return_error integer_too_large

abbrev pub store_unsigned : ℕ → ℕ → ℕ → M DecState (Unit {0})
store_unsigned size dest value = do
  let low = value % 2 ^ (8 * size)
  on_mem (store size dest low)
  if low == value then pure tt else return_error integer_too_large

-- The ladders on `field->data_size`.
abbrev pub by_size : (ℕ → M DecState (Unit {0})) → ℕ → M DecState (Unit {0})
by_size write data_size =
    if data_size == 8
    then write 8
    else if data_size == 4
    then write 4
    else if data_size == 2
    then write 2
    else if data_size == 1
    then write 1
    else return_error invalid_data_size

unfoldable pub pb_dec_varint : Field → ℕ → M DecState (Unit {0})
pb_dec_varint field dest = do
  value ← on_input pb_decode_varint
  let svalue = if field.data_size == 8 then value else sign_extend 32 (value % 2 ^ 32)
  by_size (λ size. store_signed size dest svalue) field.data_size

unfoldable pub pb_dec_uvarint : Field → ℕ → M DecState (Unit {0})
pb_dec_uvarint field dest = do
  value ← on_input pb_decode_varint
  by_size (λ size. store_unsigned size dest value) field.data_size

unfoldable pub pb_dec_svarint : Field → ℕ → M DecState (Unit {0})
pb_dec_svarint field dest = do
  value ← on_input pb_decode_svarint
  by_size (λ size. store_signed size dest value) field.data_size

unfoldable pub pb_dec_fixed32 : Field → ℕ → M DecState (Unit {0})
pb_dec_fixed32 field dest = do v ← on_input pb_decode_fixed32; on_mem (store 4 dest v)

unfoldable pub pb_dec_fixed64 : Field → ℕ → M DecState (Unit {0})
pb_dec_fixed64 field dest = do v ← on_input pb_decode_fixed64; on_mem (store 8 dest v)

-- PB_BYTES_ARRAY_T_ALLOCSIZE: a pb_bytes_array_t has its size in its first four bytes.
abbrev pub bytes_alloc_size : ℕ → ℕ
bytes_alloc_size n = n + 4

unfoldable pub pb_dec_bytes : Field → ℕ → M DecState (Unit {0})
pb_dec_bytes field dest = do
  size ← on_input pb_decode_varint32
  if ltb pb_size_max size
      then return_error bytes_overflow
      else if ltb (bytes_alloc_size size) size
      then return_error size_too_large
      else if pb_atype field.type == AType.pointer
      then return_error no_malloc_support
      else if ltb field.data_size (bytes_alloc_size size)
      then return_error bytes_overflow
      else (do
        on_mem (store 4 dest size)
        bytes ← on_input (pb_read size)
        on_mem (store_bytes (dest + 4) bytes))

-- `status = pb_read(…); *(dest + size) = 0; return status;`
abbrev pub terminate : ℕ → Outcome DecState (List ℕ) → ℕ → Outcome DecState (Unit {0})
terminate end (ok bytes s) dest =
    ok tt (record s { mem = store_byte end 0 (store_bytes dest bytes s.mem) })
terminate end (fail s) dest = fail (record s { mem = store_byte end 0 s.mem })
terminate end fault dest = fault
terminate end stuck dest = stuck

-- `size + 1` is a uint32_t.
unfoldable pub pb_dec_string : Field → ℕ → M DecState (Unit {0})
pb_dec_string field dest = do
  size ← on_input pb_decode_varint32
  let alloc_size = (size + 1) % 2 ^ 32
  if ltb alloc_size size
      then return_error size_too_large
      else if pb_atype field.type == AType.pointer
      then return_error no_malloc_support
      else if ltb field.data_size alloc_size
      then return_error string_overflow
      else (λ s. terminate (dest + size) (on_input (pb_read size) s) dest)

unfoldable pub pb_dec_fixed_length_bytes : Field → ℕ → M DecState (Unit {0})
pb_dec_fixed_length_bytes field dest = do
  size ← on_input pb_decode_varint32
  if ltb pb_size_max size
      then return_error bytes_overflow
      else if size == 0
      then on_mem (memset_zero dest field.data_size)
      else if not (size == field.data_size)
      then return_error incorrect_fixed_length_bytes_size
      else (do bytes ← on_input (pb_read field.data_size); on_mem (store_bytes dest bytes))
