-- ===== src/Decoder/Kept/Statics.antt =====
-- Arrays and static fields are written where their message is.
use breakpoint.Decoder.{not_null}
use breakpoint.Base.{
  ℕ, zero, suc, ◌+◌, ◌*◌, ◌%◌, ◌^◌, ◌≤◌, ◌<◌, ◌≡◌, refl, ◌&&◌, ltb, leb, ◌==◌, ==_iff,
  if◌then◌else◌, arith, Bool-cases, inl, inr,
}
use native.Mathlib.Nat.{mul-suc, mul-le-mul_left}
use breakpoint.Errors.{array_overflow, invalid_field_type}
use breakpoint.Outcome.{Outcome, ok, fail, fault, stuck, M, pure, ◌>>◌, continue}
use breakpoint.Input.Reading.{IsSound}
use breakpoint.Wire.{pb_wt_string}
use breakpoint.Memory.{load, memset_zero}
use breakpoint.Descriptor.{Field, pb_ltype, pb_htype}
use breakpoint.Descriptor.LType
use breakpoint.Descriptor.HType
use breakpoint.FieldIter.{Iter, field}
use breakpoint.Decoder.{DecState, Env, return_error, on_mem}
use breakpoint.Decoder.Fields.{
  Nested, pb_decoders, packed_loop, increment, decode_repeated, decode_static_field,
}
use breakpoint.Decoder.Steady.{
  IsSteady, Eager, IsEager, IsSteady-on_mem, IsSteady-read_mem, IsSteady-bind, IsSteady-when,
  IsSteady-pure, IsSteady-not_null,
}
use breakpoint.Decoder.Steady.Fields.{Suits, pb_decoders-IsEager}
use breakpoint.Decoder.Kept.{
  Owns, Kept, IsKept, Kept-after, IsKept-bind, IsKept-pure, IsKept-error, IsKept-read_mem,
  IsKept-if, IsKept-when, IsKept-store, IsKept-memset_zero, IsKept-not_null,
}
use breakpoint.Decoder.Kept.Fields.{
  Confines, IsOwned, packed_end-Kept, IsKept-open, pb_decoders-IsKept,
}

-- The entry `count` of an array of `size` entries of `width` bytes.
entry_end : (width count size : ℕ) → count < size → width * count + width ≤ width * size
entry_end width count size lt = rw⁻¹ (mul-suc width count) (mul-le-mul_left width lt)

-- An offset that wraps is not larger.
mod_le : (n : ℕ) → n % 2 ^ 32 ≤ n
mod_le n = omega arith

module _ (Own : ℕ → Type 0) (it : Iter) (owned : IsOwned Own it) where
  item_at :
      (count : ℕ)
      → pb_htype (field it).type ≡ HType.repeated
      → count < (field it).array_size
      → let at_count = it.p_data + (field it).data_size * count % 2 ^ 32 in
        Owns Own at_count (at_count + (field it).data_size)
  item_at count repeated lt x low high =
      let fits = entry_end (field it).data_size count (field it).array_size lt in
      let wrapped = mod_le ((field it).data_size * count) in
      owned.items repeated x (omega (arith, low)) (omega (arith, high, fits, wrapped))

  increment-IsKept :
      pb_htype (field it).type ≡ HType.repeated → IsKept Own (on_mem (increment it.p_size))
  increment-IsKept repeated = record {
    at = λ s h. (IsKept-store Own 4 it.p_size _ (owned.count repeated)).at s h;
  }

  Kept-then :
      (s : DecState) (o : Outcome DecState (Unit {0})) (k : M DecState (Unit {0}))
      → Eager s.input o
      → Kept Own s.mem o
      → ((t : DecState) → IsSound t.input → Kept Own t.mem (k t))
      → Kept Own s.mem (continue o (λ _. k))
  Kept-then s (ok a t) k p q h = Kept-after Own s.mem t.mem (k t) q (h t p.0.sound)
  Kept-then s (fail t) k p q h = q
  Kept-then s fault k p q h = tt
  Kept-then s stuck k p q h = tt

  packed_loop-Kept :
      (n : ℕ) (func : Field → ℕ → M DecState (Unit {0})) (s : DecState)
      → pb_htype (field it).type ≡ HType.repeated
      → ((a : ℕ) → IsEager (func (field it) a))
      → ((a : ℕ) → Owns Own a (a + (field it).data_size) → IsKept Own (func (field it) a))
      → IsSound s.input
      → Kept Own s.mem (packed_loop n func it s)
  unfolding packed_loop
  packed_loop-Kept zero func s repeated eager kept h = tt
  packed_loop-Kept (suc n) func s repeated eager kept h =
      elim (Bool-cases
        (ltb 0 s.input.bytes_left && ltb (load 4 it.p_size s.mem) (field it).array_size)) [
          | inl more ↦ rw more (
              Kept-then s _ _ ((eager _).at s h)
                ((kept _ (item_at (load 4 it.p_size s.mem) repeated (ground arith))).at s h)
                λ t sound.
                  Kept-after Own t.mem (increment it.p_size t.mem) _
                    ((increment-IsKept repeated).at t sound)
                    (packed_loop-Kept n func
                      (record { input = t.input; mem = increment it.p_size t.mem }) repeated eager
                      kept sound))
          | inr done ↦ rw done (λ x out. refl)
        ]

  module _ (env : Env) (nested : Nested) (suits : Suits env nested (field it))
      (confines : Confines Own env nested (field it)) where
    func-IsKept :
        (dest : ℕ)
        → Owns Own dest (dest + (field it).data_size)
        → IsKept Own (pb_decoders env nested (pb_ltype (field it).type) (field it) dest)
    func-IsKept dest own = pb_decoders-IsKept Own env nested (field it) dest own confines

    decode_repeated-IsKept :
        (wire_type : ℕ)
        → pb_htype (field it).type ≡ HType.repeated
        → IsKept Own (decode_repeated env nested wire_type it)
    unfolding decode_repeated
    decode_repeated-IsKept wire_type repeated =
        elim (Bool-cases
          (wire_type == pb_wt_string && leb (pb_ltype (field it).type) LType.last_packable)) [
            | inl packed ↦ rw packed (
                IsKept-open Own _ λ parent sub m sound. packed_end-Kept Own m parent _ (
                  packed_loop-Kept (suc sub.bytes_left) _ (record { input = sub; mem = m }) repeated
                    (λ a.
                      pb_decoders-IsEager env nested (field it) a (pb_ltype (field it).type)
                        (ground arith))
                    func-IsKept sound))
            | inr single ↦ rw single (
                IsKept-bind Own _ _ (IsSteady-read_mem _) (IsKept-read_mem Own _) λ count.
                  IsKept-when Own (leb (field it).array_size count) (return_error array_overflow) _
                    (λ _. IsKept-error Own array_overflow)
                    λ room.
                      IsKept-bind Own _ _ (IsSteady-on_mem _) (increment-IsKept repeated)
                        λ _. func-IsKept _ (item_at count repeated (ground arith)))
          ]

    -- A member of a union that is a message is set to its defaults first.
    abbrev fresh_member : M DecState (Unit {0})
    fresh_member =
        if pb_ltype (field it).type == LType.submessage
        then (do
          on_mem (memset_zero it.p_data (field it).data_size)
          not_null (field it).ptr (nested.set_to_defaults (env.fields_at (field it).ptr) it.p_data))
        else pure tt

    fresh_member-IsSteady : IsSteady fresh_member
    fresh_member-IsSteady =
        IsSteady-when (pb_ltype (field it).type == LType.submessage) _ _
          (λ e. IsSteady-bind _ _ (IsSteady-on_mem _) λ _.
            let nests = (==_iff _ LType.submessage).0 e in
            IsSteady-not_null (field it).ptr _ (suits.there nests)
              ((suits.below nests).set_to_defaults it.p_data))
          (IsSteady-pure tt)

    fresh_member-IsKept : IsKept Own fresh_member
    fresh_member-IsKept =
        IsKept-when Own (pb_ltype (field it).type == LType.submessage) _ _
          (λ e.
            IsKept-bind Own _ _ (IsSteady-on_mem _)
              (IsKept-memset_zero Own it.p_data (field it).data_size owned.item)
              λ _. IsKept-not_null Own (field it).ptr _ (
                (confines.below ((==_iff _ LType.submessage).0 e)).set_to_defaults it.p_data
                  owned.item))
          (λ _. IsKept-pure Own tt)

    -- decode_static_field, for any wire type.
    pub decode_static_field-IsKept :
        (wire_type : ℕ) → IsKept Own (decode_static_field env nested wire_type it)
    unfolding decode_static_field
    decode_static_field-IsKept wire_type =
        let func = func-IsKept it.p_data owned.item in
        IsKept-when Own (pb_htype (field it).type == HType.required) _ _ (λ _. func)
          λ _.
            IsKept-when Own (pb_htype (field it).type == HType.optional) _ _
              (λ optional. IsKept-if Own (it.p_size == it.p_data) _ _ func (
                IsKept-bind Own _ _ (IsSteady-on_mem _)
                  (IsKept-store Own 1 it.p_size 1
                    (owned.flag ((==_iff _ HType.optional).0 optional)))
                  (λ _. func)))
              λ _.
                IsKept-when Own (pb_htype (field it).type == HType.repeated) _ _
                  (λ repeated.
                    decode_repeated-IsKept wire_type ((==_iff _ HType.repeated).0 repeated))
                  λ _.
                    IsKept-when Own (pb_htype (field it).type == HType.oneof) _ _
                      (λ oneof.
                        IsKept-bind Own _ _ (IsSteady-on_mem _)
                          (IsKept-store Own 4 it.p_size (field it).tag
                            (owned.which ((==_iff _ HType.oneof).0 oneof)))
                          (λ _.
                            IsKept-bind Own _ _ fresh_member-IsSteady fresh_member-IsKept
                              (λ _. func)))
                      (λ _. IsKept-error Own invalid_field_type)
