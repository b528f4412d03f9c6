-- ===== src/Decoder/Kept/Layout.antt =====
-- What the decoder asks of the layout of a message structure: the fields lie inside it, at offsets
-- from its start, and structures of nested messages have the size of their field.
use breakpoint.Base.{ℕ, zero, suc, ◌+◌, ◌*◌, ◌≤◌, ◌≡◌, List, arith}
use breakpoint.Descriptor.{Field, field_at, pb_ltype, pb_htype, pb_atype}
use breakpoint.Descriptor.LType
use breakpoint.Descriptor.HType
use breakpoint.Descriptor.AType
use breakpoint.FieldIter.Layout.{iter_at}
use breakpoint.Decoder.{Env}
use breakpoint.Decoder.Required.Count.{IsEntry, field-iter_at}
use breakpoint.Decoder.Kept.{Owns}
use breakpoint.Decoder.Kept.Fields.{IsWide, IsOwned}

-- The data of the entry `i`, and its flag, count or tag, lie in a structure of `size` bytes.
pub record InStruct (size : ℕ) (fields : List Field) (i : ℕ) : Type 0 where
  pub data_at : ℕ
  pub size_at : ℕ
  pub at_data : (dest : ℕ) → (iter_at fields dest i).p_data ≡ dest + data_at
  pub at_size : (dest : ℕ) → (iter_at fields dest i).p_size ≡ dest + size_at
  pub item : data_at + (field_at fields i).data_size ≤ size
  pub items :
      pb_htype (field_at fields i).type ≡ HType.repeated
      → data_at + (field_at fields i).data_size * (field_at fields i).array_size ≤ size
  pub pointer : pb_atype (field_at fields i).type ≡ AType.pointer → data_at + 8 ≤ size
  pub flag : pb_htype (field_at fields i).type ≡ HType.optional → size_at + 1 ≤ size
  pub count : pb_htype (field_at fields i).type ≡ HType.repeated → size_at + 4 ≤ size
  pub which : pb_htype (field_at fields i).type ≡ HType.oneof → size_at + 4 ≤ size
  pub wide : IsWide (field_at fields i)

-- A structure of `size` bytes, with at most `n` levels of messages.
unfoldable pub IsLaidOut : Env → ℕ → List Field → ℕ → Type 0
IsLaidOut env zero fields size = ⊥
IsLaidOut env (suc n) fields size =
    (i : ℕ)
    → IsEntry fields i
    → InStruct size fields i
      × (pb_ltype (field_at fields i).type ≡ LType.submessage
          → IsLaidOut env n (env.fields_at (field_at fields i).ptr) (field_at fields i).data_size)

module _ (env : Env) (n : ℕ) (fields : List Field) (size : ℕ)
    (h : IsLaidOut env (suc n) fields size) where
  pub InStruct-IsLaidOut : (i : ℕ) → IsEntry fields i → InStruct size fields i
  unfolding IsLaidOut
  InStruct-IsLaidOut i entry = (h i entry).0

  pub below-IsLaidOut :
      (i : ℕ)
      → IsEntry fields i
      → pb_ltype (field_at fields i).type ≡ LType.submessage
      → IsLaidOut env n (env.fields_at (field_at fields i).ptr) (field_at fields i).data_size
  unfolding IsLaidOut
  below-IsLaidOut i entry = (h i entry).1

part :
    (Own : ℕ → Type 0) (dest size p at width : ℕ)
    → Owns Own dest (dest + size)
    → p ≡ dest + at
    → at + width ≤ size
    → Owns Own p (p + width)
part Own dest size p at width own e fits x low high =
    own x (omega (arith, low, e)) (omega (arith, high, e, fits))

-- The parts of a structure that may be written may be written.
pub InStruct-IsOwned :
    (Own : ℕ → Type 0) (size : ℕ) (fields : List Field) (i dest : ℕ)
    → InStruct size fields i
    → Owns Own dest (dest + size)
    → IsOwned Own (iter_at fields dest i)
InStruct-IsOwned Own size fields i dest h own =
    let it = iter_at fields dest i in
    let same = field-iter_at fields dest i in
    record {
      item = rw same (part Own dest size it.p_data h.data_at _ own (h.at_data dest) h.item);
      items =
          rw same (λ e. part Own dest size it.p_data h.data_at _ own (h.at_data dest) (h.items e));
      pointer =
          rw same
            (λ e. part Own dest size it.p_data h.data_at 8 own (h.at_data dest) (h.pointer e));
      flag =
          rw same (λ e. part Own dest size it.p_size h.size_at 1 own (h.at_size dest) (h.flag e));
      count =
          rw same (λ e. part Own dest size it.p_size h.size_at 4 own (h.at_size dest) (h.count e));
      which =
          rw same (λ e. part Own dest size it.p_size h.size_at 4 own (h.at_size dest) (h.which e));
    }
