-- ===== src/Decoder/Steady/Defaults.antt =====
-- Setting a message to its defaults returns and leaves the stream alone.
use breakpoint.Decoder.Steady.{IsSteady-not_null}
use breakpoint.Base.{◌≢◌}
use breakpoint.Base.{
  ℕ, zero, suc, ◌+◌, ◌≤◌, ◌<◌, ◌≡◌, inl, inr, false, not, List, [], ◌∷◌, length, ◌==◌, ==_iff,
  arith, All, Bool-cases,
}
use breakpoint.Outcome.{M}
use breakpoint.Descriptor.{Field, field_at, pb_ltype}
use breakpoint.Descriptor.LType
use breakpoint.FieldIter.{Iter, field, pb_field_iter_begin, each_field, for_fields}
use breakpoint.FieldIter.Layout.{IsTagged, iter_at, pb_field_iter_next-iter_at}
use breakpoint.Decoder.{DecState, Env}
use breakpoint.Decoder.Required.Count.{field-iter_at}
use breakpoint.Decoder.Decodable.{
  IsDecodable, HasDecoder, IsTagged-IsDecodable, decoder-IsDecodable, below-IsDecodable,
  there-IsDecodable,
}
use breakpoint.Decoder.Steady.{
  IsSteady, IsSteady-bind, IsSteady-if, IsSteady-when, IsSteady-pure, IsSteady-on_mem, steady_rules,
}
use breakpoint.Decoder.Defaults.{
  set_static, set_pointer, pb_field_set_to_default, pb_message_set_to_defaults,
}

module _ (fields : List Field) (dest : ℕ) (tagged : All IsTagged fields)
    (step : Iter → M DecState (Unit {0}))
    (steady : (i : ℕ) → i < length fields → IsSteady (step (iter_at fields dest i))) where
  -- One round for each entry is enough.
  each_field-IsSteady :
      (n i : ℕ)
      → i < length fields
      → length fields ≤ i + n
      → IsSteady (each_field n step (iter_at fields dest i))
  unfolding each_field
  each_field-IsSteady zero i lt fuel = absurd (omega arith)
  each_field-IsSteady (suc n) i lt fuel = record {
    at = λ s h.
        rw (pb_field_iter_next-iter_at fields dest i tagged lt)
          (elim (Bool-cases (suc i == length fields)) [
            | inl last ↦ rw last ((steady i lt).at s h)
            | inr more ↦ rw more (
                (IsSteady-bind _ _ (steady i lt)
                    λ _. each_field-IsSteady n (suc i) (ground arith) (omega arith)).at
                  s h)
          ]);
  }

  pub for_fields-IsSteady : IsSteady (for_fields step fields dest)
  unfolding for_fields pb_field_iter_begin iter_at
  for_fields-IsSteady = elim (Bool-cases ((field_at fields 0).tag == 0)) [
    | inl none_there ↦ rw none_there (IsSteady-pure tt)
    | inr there ↦
        rw there (each_field-IsSteady (length fields) 0 (nonempty fields there) (omega arith))
  ]
    where
      nonempty : (fields : List Field) → ((field_at fields 0).tag == 0) ≡ false → 0 < length fields
      nonempty [] h = cc
      nonempty (f ∷ fs) h = omega arith

-- `message` sets a nested message.
set_static-IsSteady :
    (env : Env) (message : List Field → ℕ → M DecState (Unit {0})) (it : Iter)
    → (pb_ltype (field it).type ≡ LType.submessage → (field it).ptr ≢ 0)
    → (pb_ltype (field it).type ≡ LType.submessage
        → (dest : ℕ) → IsSteady (message (env.fields_at (field it).ptr) dest))
    → IsSteady (set_static env message it)
unfolding set_static
set_static-IsSteady env message it there below =
    let init =
      IsSteady-when (pb_ltype (field it).type == LType.submessage) _ _
        (λ e.
          let sub = (==_iff _ LType.submessage).0 e in
          IsSteady-not_null (field it).ptr _ (there sub) (below sub it.p_data))
        (IsSteady-if (not ((field it).ptr == 0)) _ _ (IsSteady-on_mem _) (IsSteady-on_mem _)) in
    IsSteady-if _ _ _ (IsSteady-bind _ _ (IsSteady-on_mem _) (λ _. init))
      (IsSteady-if _ _ _ (IsSteady-on_mem _) init)

set_pointer-IsSteady : (env : Env) (it : Iter) → IsSteady (set_pointer env it)
unfolding set_pointer
set_pointer-IsSteady env it = search steady_rules depth 8

-- pb_field_set_to_default, over one level less.
pub field-IsSteady :
    (n : ℕ) (env : Env) (it : Iter)
    → HasDecoder (pb_ltype (field it).type)
    → (pb_ltype (field it).type ≡ LType.submessage → (field it).ptr ≢ 0)
    → (pb_ltype (field it).type ≡ LType.submessage
        → (dest : ℕ)
        → IsSteady (pb_message_set_to_defaults env n (env.fields_at (field it).ptr) dest))
    → IsSteady (pb_field_set_to_default env (suc n) it)
unfolding pb_field_set_to_default pb_message_set_to_defaults
field-IsSteady n env it has there below =
    IsSteady-when (pb_ltype (field it).type == LType.extension) _ _ (λ e. absurd (ground arith))
      (IsSteady-if _ _ _ (set_static-IsSteady env _ it there below)
        (IsSteady-if _ _ _ (set_pointer-IsSteady env it) (IsSteady-pure tt)))

-- pb_message_set_to_defaults for a message that can be decoded.
pub pb_message_set_to_defaults-IsSteady :
    (n : ℕ) (env : Env) (fields : List Field) (dest : ℕ)
    → IsDecodable env n fields
    → IsSteady (pb_message_set_to_defaults env n fields dest)
unfolding pb_message_set_to_defaults
pb_message_set_to_defaults-IsSteady zero env fields dest h = absurd (unfold IsDecodable in h)
pb_message_set_to_defaults-IsSteady (suc n) env fields dest h =
    for_fields-IsSteady fields dest (IsTagged-IsDecodable env n fields h) _ λ i lt.
      field-IsSteady n env (iter_at fields dest i)
        (rw (field-iter_at fields dest i) (decoder-IsDecodable env n fields h i (inl lt)))
        (rw (field-iter_at fields dest i) (there-IsDecodable env n fields h i (inl lt)))
        (rw (field-iter_at fields dest i) λ e d.
          pb_message_set_to_defaults-IsSteady n env (env.fields_at (field_at fields i).ptr) d
            (below-IsDecodable env n fields h i (inl lt) e))
