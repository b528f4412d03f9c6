-- ===== src/Decoder/Kept/Settings.antt =====
-- Setting a whole message to its defaults writes where the message is.
use breakpoint.Base.{ℕ, zero, suc, ◌+◌, ◌<◌, inl, List, length}
use breakpoint.Descriptor.{Field, field_at, pb_ltype}
use breakpoint.FieldIter.{field}
use breakpoint.FieldIter.Layout.{iter_at}
use breakpoint.Decoder.{Env}
use breakpoint.Decoder.Defaults.{pb_message_set_to_defaults}
use breakpoint.Decoder.Required.Count.{field-iter_at}
use breakpoint.Decoder.Decodable.{
  HasDecoder, IsDecodable, IsTagged-IsDecodable, decoder-IsDecodable, below-IsDecodable,
  there-IsDecodable,
}
use breakpoint.Decoder.Steady.Defaults.{field-IsSteady, pb_message_set_to_defaults-IsSteady}
use breakpoint.Decoder.Kept.{Owns, IsKept}
use breakpoint.Decoder.Kept.Defaults.{for_fields-IsKept, field-IsKept}
use breakpoint.Decoder.Kept.Layout.{
  IsLaidOut, InStruct-IsLaidOut, below-IsLaidOut, InStruct-IsOwned,
}

module _ (Own : ℕ → Type 0) where
  -- pb_message_set_to_defaults, for a message that can be decoded.
  pub pb_message_set_to_defaults-IsKept :
      (n : ℕ) (env : Env) (fields : List Field) (dest size : ℕ)
      → IsDecodable env n fields
      → IsLaidOut env n fields size
      → Owns Own dest (dest + size)
      → IsKept Own (pb_message_set_to_defaults env n fields dest)
  unfolding pb_message_set_to_defaults
  pb_message_set_to_defaults-IsKept zero env fields dest size h laid own =
      absurd (unfold IsDecodable in h)
  pb_message_set_to_defaults-IsKept (suc n) env fields dest size h laid own =
      for_fields-IsKept Own fields dest (IsTagged-IsDecodable env n fields h) _
        (λ i lt.
          field-IsSteady n env (iter_at fields dest i) (has i lt)
            (rw (field-iter_at fields dest i) (there-IsDecodable env n fields h i (inl lt)))
            (rw (field-iter_at fields dest i) λ e d.
              pb_message_set_to_defaults-IsSteady n env (env.fields_at (field_at fields i).ptr) d
                (below-IsDecodable env n fields h i (inl lt) e)))
        (λ i lt.
          let owned =
            InStruct-IsOwned Own size fields i dest
              (InStruct-IsLaidOut env n fields size laid i (inl lt)) own in
          field-IsKept Own env (iter_at fields dest i) owned n (has i lt) (λ e.
            let message = rw (field-iter_at fields dest i) at e in
            rw (field-iter_at fields dest i) (
              pb_message_set_to_defaults-IsKept n env (env.fields_at (field_at fields i).ptr)
                (iter_at fields dest i).p_data (field_at fields i).data_size
                (below-IsDecodable env n fields h i (inl lt) message)
                (below-IsLaidOut env n fields size laid i (inl lt) message)
                (rw (field-iter_at fields dest i) at owned.item))))
    where
      has : (i : ℕ) → i < length fields → HasDecoder (pb_ltype (field (iter_at fields dest i)).type)
      has i lt = rw (field-iter_at fields dest i) (decoder-IsDecodable env n fields h i (inl lt))
