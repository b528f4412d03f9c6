-- ===== src/Decoder/Decodable.antt =====
-- What the decoder asks of descriptors: messages that nest to a bounded depth, each with tags other
-- than 0, a decoder for every field, no extensions, the descriptors of every nested message, and a number of required fields that can be
-- checked.
use breakpoint.Base.{ℕ, zero, suc, ◌<◌, ◌≡◌, ◌≢◌, ◌⊎◌, inl, inr, List, [], ◌∷◌, length, All, arith}
use breakpoint.Descriptor.{Field, field_at, pb_ltype}
use breakpoint.Descriptor.LType
use breakpoint.FieldIter.Layout.{IsTagged}
use breakpoint.Decoder.{Env}
use breakpoint.Decoder.Required.Count.{count_required, IsEntry}

-- PB_DECODERS has a function for this type.
abbrev pub HasDecoder : ℕ → Type 0
HasDecoder ltype = (ltype < 8) ⊎ (ltype ≡ LType.fixed_length_bytes)

-- The check of so many required fields has a defined result.
abbrev pub IsChecked : ℕ → Type 0
IsChecked count = (count < 64) × (count ≢ 32)

-- A message with at most `n` levels of messages, itself included.
unfoldable pub IsDecodable : Env → ℕ → List Field → Type 0
IsDecodable env zero fields = ⊥
IsDecodable env (suc n) fields =
    All IsTagged fields
    × IsChecked (count_required fields)
    × All
        (λ f.
          HasDecoder (pb_ltype f.type)
          × (pb_ltype f.type ≡ LType.submessage
              → (f.ptr ≢ 0) × IsDecodable env n (env.fields_at f.ptr)))
        fields

All-field_at :
    (P : Field → Type 0) (fields : List Field) (i : ℕ)
    → All P fields
    → i < length fields
    → P (field_at fields i)
All-field_at P [] i h lt = absurd (omega arith)
All-field_at P (f ∷ fs) zero h lt = h.0
All-field_at P (f ∷ fs) (suc i) h lt = All-field_at P fs i h.1 (omega arith)

module _ (env : Env) (n : ℕ) (fields : List Field) (h : IsDecodable env (suc n) fields) where
  pub IsTagged-IsDecodable : All IsTagged fields
  unfolding IsDecodable
  IsTagged-IsDecodable = h.0

  pub count-IsDecodable : IsChecked (count_required fields)
  unfolding IsDecodable
  count-IsDecodable = h.1

  pub decoder-IsDecodable :
      (i : ℕ) → IsEntry fields i → HasDecoder (pb_ltype (field_at fields i).type)
  unfolding IsDecodable
  decoder-IsDecodable i (inl lt) = (All-field_at _ fields i h.2 lt).0
  decoder-IsDecodable i (inr (first, empty)) = rw (first, empty) (inl (omega arith))

  pub below-IsDecodable :
      (i : ℕ)
      → IsEntry fields i
      → pb_ltype (field_at fields i).type ≡ LType.submessage
      → IsDecodable env n (env.fields_at (field_at fields i).ptr)
  unfolding IsDecodable
  below-IsDecodable i (inl lt) e = ((All-field_at _ fields i h.2 lt).1 e).1
  below-IsDecodable i (inr (first, empty)) e = absurd (omega (arith, rw (first, empty) at e))

  pub there-IsDecodable :
      (i : ℕ)
      → IsEntry fields i
      → pb_ltype (field_at fields i).type ≡ LType.submessage
      → (field_at fields i).ptr ≢ 0
  unfolding IsDecodable
  there-IsDecodable i (inl lt) e = ((All-field_at _ fields i h.2 lt).1 e).0
  there-IsDecodable i (inr (first, empty)) e = absurd (omega (arith, rw (first, empty) at e))
