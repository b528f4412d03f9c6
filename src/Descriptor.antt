-- ===== src/Descriptor.antt =====
-- Field descriptors (Pods/nanopb/pb.h), as the build of the repository configures them: PB_FIELD_32BIT,
-- so a pb_size_t has 32 bits, and no PB_ENABLE_MALLOC.
pub mod LType
pub mod HType
pub mod AType
use breakpoint.Base.{ℕ, ◌+◌, ◌-◌, ◌^◌, bit_and, List, get_or}
use breakpoint.Base.Int.{ℤ, pos, negsuc}

abbrev pub pb_size_max : ℕ
pb_size_max = 2 ^ 32 - 1

-- pb_type_t: four bits of scalar type, two of repetition, two of allocation.
abbrev pub pb_ltype : ℕ → ℕ
pb_ltype type = bit_and type 0x0f

abbrev pub pb_htype : ℕ → ℕ
pb_htype type = bit_and type 0x30

abbrev pub pb_atype : ℕ → ℕ
pb_atype type = bit_and type 0xc0

-- pb_field_t. `ptr` is the address of a submessage's descriptors, or of a default value, or NULL.
pub record Field : Type 0 where
  pub tag : ℕ
  pub type : ℕ
  pub data_offset : ℕ
  pub size_offset : ℤ
  pub data_size : ℕ
  pub array_size : ℕ
  pub ptr : ℕ

-- PB_LAST_FIELD
abbrev pub pb_last_field : Field
pb_last_field = record {
  tag = 0;
  type = 0;
  data_offset = 0;
  size_offset = pos 0;
  data_size = 0;
  array_size = 0;
  ptr = 0;
}

-- The entry at an index of a descriptor array; the list leaves the terminator out.
abbrev pub field_at : List Field → ℕ → Field
field_at fields i = get_or fields i pb_last_field

-- A pointer moved by a signed offset.
abbrev pub offset_by : ℕ → ℤ → ℕ
offset_by a (pos n) = a + n
offset_by a (negsuc n) = a - (n + 1)
