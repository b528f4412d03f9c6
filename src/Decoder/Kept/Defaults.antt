-- ===== src/Decoder/Kept/Defaults.antt =====
-- Setting a message to its defaults writes where the message is.
use breakpoint.Decoder.Kept.{IsKept-not_null}
use breakpoint.Base.{
  ℕ, zero, suc, ◌+◌, ◌≤◌, ◌<◌, ◌≡◌, refl, inl, inr, Bool, true, false, ◌&&◌, ◌||◌, not, List, [],
  ◌∷◌, length, ◌==◌, ==_iff, arith, All, Bool-cases,
}
use breakpoint.Outcome.{M}
use breakpoint.Descriptor.{Field, field_at, pb_ltype, pb_htype, pb_atype}
use breakpoint.Descriptor.LType
use breakpoint.Descriptor.HType
use breakpoint.Descriptor.AType
use breakpoint.FieldIter.{Iter, field, pb_field_iter_begin, each_field, for_fields}
use breakpoint.FieldIter.Layout.{IsTagged, iter_at, pb_field_iter_next-iter_at}
use breakpoint.Decoder.{DecState, Env}
use breakpoint.Decoder.Decodable.{HasDecoder}
use breakpoint.Decoder.Defaults.{
  set_static, set_pointer, pb_field_set_to_default, pb_message_set_to_defaults,
}
use breakpoint.Decoder.Steady.{IsSteady, IsSteady-on_mem}
use breakpoint.Decoder.Kept.{
  Owns, IsKept, IsKept-bind, IsKept-pure, IsKept-if, IsKept-when, IsKept-store, IsKept-memset_zero,
  IsKept-memcpy,
}
use breakpoint.Decoder.Kept.Fields.{IsOwned}

module _ (Own : ℕ → Type 0) where
  module _ (fields : List Field) (dest : ℕ) (tagged : All IsTagged fields)
      (step : Iter → M DecState (Unit {0}))
      (steady : (i : ℕ) → i < length fields → IsSteady (step (iter_at fields dest i)))
      (kept : (i : ℕ) → i < length fields → IsKept Own (step (iter_at fields dest i))) where
    each_field-IsKept :
        (n i : ℕ)
        → i < length fields
        → length fields ≤ i + n
        → IsKept Own (each_field n step (iter_at fields dest i))
    unfolding each_field
    each_field-IsKept zero i lt fuel = absurd (omega arith)
    each_field-IsKept (suc n) i lt fuel = record {
      at = λ s h.
          rw (pb_field_iter_next-iter_at fields dest i tagged lt)
            (elim (Bool-cases (suc i == length fields)) [
              | inl last ↦ rw last ((kept i lt).at s h)
              | inr more ↦ rw more (
                  (IsKept-bind Own _ _ (steady i lt) (kept i lt)
                      λ _. each_field-IsKept n (suc i) (ground arith) (omega arith)).at
                    s h)
            ]);
    }

    pub for_fields-IsKept : IsKept Own (for_fields step fields dest)
    unfolding for_fields pb_field_iter_begin iter_at
    for_fields-IsKept = elim (Bool-cases ((field_at fields 0).tag == 0)) [
      | inl none_there ↦ rw none_there (IsKept-pure Own tt)
      | inr there ↦
          rw there (each_field-IsKept (length fields) 0 (nonempty fields there) (omega arith))
    ]
      where
        nonempty :
            (fields : List Field) → ((field_at fields 0).tag == 0) ≡ false → 0 < length fields
        nonempty [] h = cc
        nonempty (f ∷ fs) h = omega arith

  module _ (env : Env) (it : Iter) (owned : IsOwned Own it) where
    count_or_which :
        (b : Bool)
        → (pb_htype (field it).type == HType.repeated) ≡ b
        → (b || pb_htype (field it).type == HType.oneof) ≡ true
        → Owns Own it.p_size (it.p_size + 4)
    count_or_which true e h = owned.count ((==_iff _ HType.repeated).0 e)
    count_or_which false e h = owned.which ((==_iff _ HType.oneof).0 h)

    set_static-IsKept :
        (message : List Field → ℕ → M DecState (Unit {0}))
        → (pb_ltype (field it).type ≡ LType.submessage
            → IsKept Own (message (env.fields_at (field it).ptr) it.p_data))
        → IsKept Own (set_static env message it)
    unfolding set_static
    set_static-IsKept message below =
        let init =
          IsKept-when Own (pb_ltype (field it).type == LType.submessage) _ _
            (λ e. IsKept-not_null Own (field it).ptr _ (below ((==_iff _ LType.submessage).0 e)))
            (λ _.
              IsKept-if Own (not ((field it).ptr == 0)) _ _
                (IsKept-memcpy Own it.p_data (field it).ptr (field it).data_size owned.item)
                (IsKept-memset_zero Own it.p_data (field it).data_size owned.item)) in
        IsKept-when Own (pb_htype (field it).type == HType.optional && not (it.p_size == it.p_data))
          _ _
          (λ e.
            IsKept-bind Own _ _ (IsSteady-on_mem _)
              (IsKept-store Own 1 it.p_size 0 (owned.flag (ground arith))) (λ _. init))
          (λ _.
            IsKept-when Own
              (pb_htype (field it).type == HType.repeated
                || pb_htype (field it).type == HType.oneof)
              _ _
              (λ e.
                IsKept-store Own 4 it.p_size 0
                  (count_or_which (pb_htype (field it).type == HType.repeated) refl e))
              (λ _. init))

    set_pointer-IsKept : pb_atype (field it).type ≡ AType.pointer → IsKept Own (set_pointer env it)
    unfolding set_pointer
    set_pointer-IsKept pointer =
        IsKept-bind Own _ _ (IsSteady-on_mem _)
          (IsKept-store Own 8 it.p_data 0 (owned.pointer pointer))
          λ _.
            IsKept-when Own
              (pb_htype (field it).type == HType.repeated
                || pb_htype (field it).type == HType.oneof)
              _ _
              (λ e.
                IsKept-store Own 4 it.p_size 0
                  (count_or_which (pb_htype (field it).type == HType.repeated) refl e))
              (λ _. IsKept-pure Own tt)

    -- pb_field_set_to_default, over one level less.
    pub field-IsKept :
        (n : ℕ)
        → HasDecoder (pb_ltype (field it).type)
        → (pb_ltype (field it).type ≡ LType.submessage
            → IsKept Own
                (pb_message_set_to_defaults env n (env.fields_at (field it).ptr) it.p_data))
        → IsKept Own (pb_field_set_to_default env (suc n) it)
    unfolding pb_field_set_to_default pb_message_set_to_defaults
    field-IsKept n has below =
        IsKept-when Own (pb_ltype (field it).type == LType.extension) _ _
          (λ e. absurd (ground arith))
          (λ _.
            IsKept-if Own (pb_atype (field it).type == AType.static) _ _ (set_static-IsKept _ below)
              (IsKept-when Own (pb_atype (field it).type == AType.pointer) _ _
                (λ e. set_pointer-IsKept ((==_iff _ AType.pointer).0 e)) (λ _. IsKept-pure Own tt)))
