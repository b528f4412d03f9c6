-- ===== src/Decoder/Values/Bounds.antt =====
-- Every decoder of a value returns, stays inside the input, and writes only to the `data_size` bytes
-- of its field.
use breakpoint.Base.{
  ℕ, ◌+◌, ◌*◌, ◌%◌, ◌^◌, ◌≤◌, ◌≡◌, ◌∙◌, inl, inr, not, ltb, ◌==◌, ==_iff, if◌then◌else◌, arith,
  List, length, take, length-take, replicate, length-replicate, Bool-cases, ltb→le,
}
use breakpoint.Outcome.{M}
use breakpoint.Errors.{
  end_of_stream, integer_too_large, invalid_data_size, bytes_overflow, size_too_large,
  no_malloc_support, string_overflow, incorrect_fixed_length_bytes_size,
}
use breakpoint.Descriptor.{Field, pb_atype, pb_size_max}
use breakpoint.Descriptor.AType
use breakpoint.Input.{pb_read}
use breakpoint.Memory.{Memory, store_byte, store_bytes, memset_zero}
use breakpoint.Memory.Stores.{store_bytes-outside}
use breakpoint.Input.Safety.{moved-Follows, error-Safe, pb_read_sound}
use breakpoint.Wire.{
  pb_decode_varint, pb_decode_varint32, pb_decode_svarint, pb_decode_fixed32, pb_decode_fixed64,
}
use breakpoint.Wire.Safety.{
  pb_decode_varint-IsSafe, pb_decode_varint32-IsSafe, pb_decode_svarint-IsSafe,
  pb_decode_fixed32-IsSafe, pb_decode_fixed64-IsSafe,
}
use breakpoint.Decoder.{DecState, on_input}
use breakpoint.Decoder.Confined.{
  Outside, IsConfined, IsConfined-bind, IsConfined-pure, IsConfined-error, IsConfined-if,
  IsConfined-on_input, IsConfined-store, IsConfined-store_bytes, IsConfined-read_to,
  IsConfined-guard,
}
use breakpoint.Decoder.Values.{
  store_signed, store_unsigned, by_size, bytes_alloc_size, terminate, sign_extend, pb_dec_varint,
  pb_dec_uvarint, pb_dec_svarint, pb_dec_fixed32, pb_dec_fixed64, pb_dec_bytes, pb_dec_string,
  pb_dec_fixed_length_bytes,
}

-- The bytes of a field at `dest`.
abbrev pub InField : Field → ℕ → M DecState (Unit {0}) → Type 0
InField f dest m = IsConfined dest (dest + f.data_size) m

module _ (dest : ℕ) where
  store_signed-IsConfined : (size v : ℕ) → IsConfined dest (dest + size) (store_signed size dest v)
  store_signed-IsConfined size v =
      IsConfined-bind _ _ _ _
        (IsConfined-store dest (dest + size) size dest (v % 2 ^ (8 * size)) (omega arith)
          (omega arith))
        λ _.
          IsConfined-if _ _ (sign_extend (8 * size) (v % 2 ^ (8 * size)) == v) _ _
            (IsConfined-pure _ _ tt) (IsConfined-error _ _ integer_too_large)

  store_unsigned-IsConfined :
      (size v : ℕ) → IsConfined dest (dest + size) (store_unsigned size dest v)
  store_unsigned-IsConfined size v =
      IsConfined-bind _ _ _ _
        (IsConfined-store dest (dest + size) size dest (v % 2 ^ (8 * size)) (omega arith)
          (omega arith))
        λ _.
          IsConfined-if _ _ ((v % 2 ^ (8 * size)) == v) _ _ (IsConfined-pure _ _ tt)
            (IsConfined-error _ _ integer_too_large)

  by_size-IsConfined :
      (write : ℕ → M DecState (Unit {0})) (data_size : ℕ)
      → ((size : ℕ) → IsConfined dest (dest + size) (write size))
      → IsConfined dest (dest + data_size) (by_size write data_size)
  by_size-IsConfined write data_size h = elim (Bool-cases (data_size == 8)) [
    | inl e ↦ rw ((==_iff data_size 8).0 e) (h 8)
    | inr e8 ↦ rw e8 (elim (Bool-cases (data_size == 4)) [
      | inl e ↦ rw ((==_iff data_size 4).0 e) (h 4)
      | inr e4 ↦ rw e4 (elim (Bool-cases (data_size == 2)) [
        | inl e ↦ rw ((==_iff data_size 2).0 e) (h 2)
        | inr e2 ↦ rw e2 (elim (Bool-cases (data_size == 1)) [
          | inl e ↦ rw ((==_iff data_size 1).0 e) (h 1)
          | inr e1 ↦ rw e1 (IsConfined-error _ _ invalid_data_size)
        ])
      ])
    ])
  ]

  -- pb_dec_varint, for a field of any `data_size`, from any sound buffer: it returns, stays inside the
  -- buffer, and changes no byte of memory but the `data_size` bytes at `dest`.
  pub pb_dec_varint-InField : (f : Field) → InField f dest (pb_dec_varint f dest)
  unfolding pb_dec_varint
  pb_dec_varint-InField f =
      IsConfined-bind _ _ _ _ (IsConfined-on_input _ _ pb_decode_varint pb_decode_varint-IsSafe)
        λ v.
          by_size-IsConfined
            (λ size.
              store_signed size dest (if f.data_size == 8 then v else sign_extend 32 (v % 2 ^ 32)))
            f.data_size
            (λ size.
              store_signed-IsConfined size
                (if f.data_size == 8 then v else sign_extend 32 (v % 2 ^ 32)))

  -- pb_dec_uvarint, for a field of any `data_size`, from any sound buffer: it returns, stays inside
  -- the buffer, and changes no byte of memory but the `data_size` bytes at `dest`.
  pub pb_dec_uvarint-InField : (f : Field) → InField f dest (pb_dec_uvarint f dest)
  unfolding pb_dec_uvarint
  pb_dec_uvarint-InField f =
      IsConfined-bind _ _ _ _ (IsConfined-on_input _ _ pb_decode_varint pb_decode_varint-IsSafe)
        λ v.
          by_size-IsConfined (λ size. store_unsigned size dest v) f.data_size
            (λ size. store_unsigned-IsConfined size v)

  -- pb_dec_svarint, for a field of any `data_size`, from any sound buffer: it returns, stays inside
  -- the buffer, and changes no byte of memory but the `data_size` bytes at `dest`.
  pub pb_dec_svarint-InField : (f : Field) → InField f dest (pb_dec_svarint f dest)
  unfolding pb_dec_svarint
  pb_dec_svarint-InField f =
      IsConfined-bind _ _ _ _ (IsConfined-on_input _ _ pb_decode_svarint pb_decode_svarint-IsSafe)
        λ v.
          by_size-IsConfined (λ size. store_signed size dest v) f.data_size
            (λ size. store_signed-IsConfined size v)

  -- pb_dec_fixed32, for a field of at least four bytes, from any sound buffer: it returns, stays inside
  -- the buffer, and changes no byte of memory but those of the field at `dest`.
  pub pb_dec_fixed32-InField :
      (f : Field) → 4 ≤ f.data_size → InField f dest (pb_dec_fixed32 f dest)
  unfolding pb_dec_fixed32
  pb_dec_fixed32-InField f h =
      IsConfined-bind _ _ _ _ (IsConfined-on_input _ _ pb_decode_fixed32 pb_decode_fixed32-IsSafe)
        λ v. IsConfined-store _ _ 4 dest v (omega arith) (omega arith)

  -- pb_dec_fixed64, for a field of at least eight bytes, from any sound buffer: it returns, stays
  -- inside the buffer, and changes no byte of memory but those of the field at `dest`.
  pub pb_dec_fixed64-InField :
      (f : Field) → 8 ≤ f.data_size → InField f dest (pb_dec_fixed64 f dest)
  unfolding pb_dec_fixed64
  pb_dec_fixed64-InField f h =
      IsConfined-bind _ _ _ _ (IsConfined-on_input _ _ pb_decode_fixed64 pb_decode_fixed64-IsSafe)
        λ v. IsConfined-store _ _ 8 dest v (omega arith) (omega arith)

  -- pb_dec_bytes, for any descriptor, from any sound buffer and whatever size the input claims: it
  -- returns, stays inside the buffer, and changes no byte of memory but the `data_size` bytes at `dest`.
  pub pb_dec_bytes-InField : (f : Field) → InField f dest (pb_dec_bytes f dest)
  unfolding pb_dec_bytes
  pb_dec_bytes-InField f =
      IsConfined-bind _ _ _ _ (IsConfined-on_input _ _ pb_decode_varint32 pb_decode_varint32-IsSafe)
        λ size.
          IsConfined-guard _ _ (ltb pb_size_max size) _ _ (IsConfined-error _ _ bytes_overflow) λ _.
            IsConfined-guard _ _ (ltb (bytes_alloc_size size) size) _ _
              (IsConfined-error _ _ size_too_large)
              λ _.
                IsConfined-guard _ _ (pb_atype f.type == AType.pointer) _ _
                  (IsConfined-error _ _ no_malloc_support)
                  λ _.
                    IsConfined-guard _ _ (ltb f.data_size (bytes_alloc_size size)) _ _
                      (IsConfined-error _ _ bytes_overflow)
                      λ room.
                        let fits = ltb→le f.data_size (bytes_alloc_size size) room in
                        IsConfined-bind _ _ _ _
                          (IsConfined-store _ _ 4 dest size (omega arith) (omega arith))
                          λ _. IsConfined-read_to _ _ size (dest + 4) (omega arith) (omega arith)

  -- pb_dec_fixed_length_bytes, for any descriptor, from any sound buffer: it returns, stays inside the
  -- buffer, and changes no byte of memory but the `data_size` bytes at `dest`.
  pub pb_dec_fixed_length_bytes-InField :
      (f : Field) → InField f dest (pb_dec_fixed_length_bytes f dest)
  unfolding pb_dec_fixed_length_bytes memset_zero
  pb_dec_fixed_length_bytes-InField f =
      IsConfined-bind _ _ _ _ (IsConfined-on_input _ _ pb_decode_varint32 pb_decode_varint32-IsSafe)
        λ size.
          IsConfined-guard _ _ (ltb pb_size_max size) _ _ (IsConfined-error _ _ bytes_overflow) λ _.
            IsConfined-if _ _ (size == 0) _ _
              (IsConfined-store_bytes _ _ dest (replicate f.data_size 0) (omega arith)
                (omega (arith, length-replicate {0} {A = ℕ} f.data_size 0)))
              (IsConfined-if _ _ (not (size == f.data_size)) _ _
                (IsConfined-error _ _ incorrect_fixed_length_bytes_size)
                (IsConfined-read_to _ _ f.data_size dest (omega arith) (omega arith)))

  -- The bytes of the string and the NUL behind them, which is written on failure too.
  nul-Outside :
      (size hi x : ℕ) (m : Memory)
      → dest + size + 1 ≤ hi
      → Outside dest hi x
      → store_byte (dest + size) 0 m x ≡ m x
  nul-Outside size hi x m room (inl p) = ground arith
  nul-Outside size hi x m room (inr p) = ground arith

  wider :
      (k size hi x : ℕ)
      → k ≡ size
      → dest + size + 1 ≤ hi
      → Outside dest hi x
      → Outside dest (dest + k) x
  wider k size hi x e room (inl p) = inl p
  wider k size hi x e room (inr p) = inr (omega arith)

  read_string-IsConfined :
      (size hi : ℕ)
      → dest + size + 1 ≤ hi
      → IsConfined dest hi (λ s. terminate (dest + size) (on_input (pb_read size) s) dest)
  read_string-IsConfined size hi room = record {
    at = λ s h. rw (pb_read_sound size s.input h) (elim (Bool-cases (ltb s.input.bytes_left size)) [
      | inl short ↦ rw short (record {
        input = error-Safe (List ℕ) end_of_stream s.input h;
        kept = λ x out. nul-Outside size hi x s.mem room out;
      })
      | inr fits ↦
          let enough = ltb→le s.input.bytes_left size fits in
          let taken = length-take size s.input.state (omega (arith, h.within)) in
          rw fits (record {
            input = moved-Follows size s.input h enough;
            kept = λ x out.
                nul-Outside size hi x (store_bytes dest (take size s.input.state) s.mem) room out
                ∙ store_bytes-outside (take size s.input.state) dest x s.mem
                    (wider (length (take size s.input.state)) size hi x taken room out);
          })
    ]);
  }

  -- pb_dec_string, for any descriptor, from any sound buffer and whatever size the input claims: it
  -- returns, stays inside the buffer, and changes no byte of memory but the `data_size` bytes at `dest`,
  -- the NUL that it writes on success and on failure included.
  pub pb_dec_string-InField : (f : Field) → InField f dest (pb_dec_string f dest)
  unfolding pb_dec_string
  pb_dec_string-InField f =
      IsConfined-bind _ _ _ _ (IsConfined-on_input _ _ pb_decode_varint32 pb_decode_varint32-IsSafe)
        λ size.
          IsConfined-guard _ _ (ltb ((size + 1) % 2 ^ 32) size) _ _
            (IsConfined-error _ _ size_too_large)
            λ whole.
              IsConfined-guard _ _ (pb_atype f.type == AType.pointer) _ _
                (IsConfined-error _ _ no_malloc_support)
                λ _.
                  IsConfined-guard _ _ (ltb f.data_size ((size + 1) % 2 ^ 32)) _ _
                    (IsConfined-error _ _ string_overflow)
                    λ fits.
                      read_string-IsConfined size (dest + f.data_size)
                        (string_room size f.data_size (ltb→le _ _ whole) (ltb→le _ _ fits))
    where
      string_room :
          (size room : ℕ)
          → size ≤ (size + 1) % 2 ^ 32
          → (size + 1) % 2 ^ 32 ≤ room
          → dest + size + 1 ≤ dest + room
      string_room size room h k = omega arith
