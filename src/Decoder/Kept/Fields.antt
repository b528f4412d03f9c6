-- ===== src/Decoder/Kept/Fields.antt =====
-- Static fields are written where their message is.
use breakpoint.Base.{
  ℕ, ◌+◌, ◌*◌, ◌≤◌, ◌≡◌, refl, Bool, true, false, List, ◌==◌, ==_iff, if◌then◌else◌, Bool-cases,
  inl, inr,
}
use breakpoint.Outcome.{Outcome, ok, fail, fault, stuck, M, ◌>>=◌, continue}
use breakpoint.Input.{Istream}
use breakpoint.Input.Reading.{IsSound}
use breakpoint.Wire.{pb_make_string_substream, pb_close_string_substream}
use breakpoint.Wire.Substreams.{MadeFrom, pb_make_string_substream-MadeFrom}
use breakpoint.Memory.{Memory}
use breakpoint.Descriptor.{Field, pb_ltype, pb_htype, pb_atype}
use breakpoint.Descriptor.LType
use breakpoint.Descriptor.HType
use breakpoint.Descriptor.AType
use breakpoint.FieldIter.{Iter, field}
use breakpoint.Decoder.{DecState, Env, with_mem, on_input}
use breakpoint.Decoder.Fields.{
  Nested, close_returning, close_after, pb_dec_submessage, pb_decoders, packed_end,
}
use breakpoint.Decoder.Values.Bounds.{
  pb_dec_varint-InField, pb_dec_uvarint-InField, pb_dec_svarint-InField, pb_dec_fixed32-InField,
  pb_dec_fixed64-InField, pb_dec_bytes-InField, pb_dec_string-InField,
  pb_dec_fixed_length_bytes-InField,
}
use breakpoint.Decoder.Kept.{Owns, Kept, IsKept, Kept-after, IsConfined-IsKept}

-- The functions for nested messages write inside the `size` bytes of the message.
pub record KeepsBelow (Own : ℕ → Type 0) (nested : Nested) (fields : List Field) (size : ℕ)
    : Type 0 where
  pub decode : (dest : ℕ) → Owns Own dest (dest + size) → IsKept Own (nested.decode fields dest)
  pub decode_noinit :
      (dest : ℕ) → Owns Own dest (dest + size) → IsKept Own (nested.decode_noinit fields dest)
  pub set_to_defaults :
      (dest : ℕ) → Owns Own dest (dest + size) → IsKept Own (nested.set_to_defaults fields dest)

-- pb_dec_fixed32 and pb_dec_fixed64 do not look at the size of the field.
pub record IsWide (f : Field) : Type 0 where
  pub four : pb_ltype f.type ≡ LType.fixed32 → 4 ≤ f.data_size
  pub eight : pb_ltype f.type ≡ LType.fixed64 → 8 ≤ f.data_size

pub record Confines (Own : ℕ → Type 0) (env : Env) (nested : Nested) (f : Field) : Type 0 where
  pub wide : IsWide f
  pub below :
      pb_ltype f.type ≡ LType.submessage → KeepsBelow Own nested (env.fields_at f.ptr) f.data_size

-- What the iterator points at may be written: the data, and the count, tag or flag.
pub record IsOwned (Own : ℕ → Type 0) (it : Iter) : Type 0 where
  pub item : Owns Own it.p_data (it.p_data + (field it).data_size)
  pub items :
      pb_htype (field it).type ≡ HType.repeated
      → Owns Own it.p_data (it.p_data + (field it).data_size * (field it).array_size)
  pub pointer : pb_atype (field it).type ≡ AType.pointer → Owns Own it.p_data (it.p_data + 8)
  pub flag : pb_htype (field it).type ≡ HType.optional → Owns Own it.p_size (it.p_size + 1)
  pub count : pb_htype (field it).type ≡ HType.repeated → Owns Own it.p_size (it.p_size + 4)
  pub which : pb_htype (field it).type ≡ HType.oneof → Owns Own it.p_size (it.p_size + 4)

module _ (Own : ℕ → Type 0) where
  closed-Kept :
      (b : Bool) (m : Memory) (o : Outcome Istream (Unit {0})) → Kept Own m (close_returning b m o)
  closed-Kept true m (ok a i) = λ x out. refl
  closed-Kept false m (ok a i) = λ x out. refl
  closed-Kept true m (fail i) = λ x out. refl
  closed-Kept false m (fail i) = λ x out. refl
  closed-Kept true m fault = tt
  closed-Kept false m fault = tt
  closed-Kept true m stuck = tt
  closed-Kept false m stuck = tt

  pub close_after-Kept :
      (m : Memory) (parent : Istream) (o : Outcome DecState (Unit {0}))
      → Kept Own m o
      → Kept Own m (close_after parent o)
  close_after-Kept m parent (ok a t) p =
      Kept-after Own m t.mem _ p (closed-Kept true t.mem (pb_close_string_substream t.input parent))
  close_after-Kept m parent (fail t) p =
      Kept-after Own m t.mem _ p
        (closed-Kept false t.mem (pb_close_string_substream t.input parent))
  close_after-Kept m parent fault p = tt
  close_after-Kept m parent stuck p = tt

  pub packed_end-Kept :
      (m : Memory) (parent : Istream) (o : Outcome DecState (Unit {0}))
      → Kept Own m o
      → Kept Own m (packed_end parent o)
  packed_end-Kept m parent (ok a t) p = elim (Bool-cases (t.input.bytes_left == 0)) [
    | inl e ↦ rw e (close_after-Kept m parent (ok a t) p)
    | inr e ↦ rw e p
  ]
  packed_end-Kept m parent (fail t) p = elim (Bool-cases (t.input.bytes_left == 0)) [
    | inl e ↦ rw e (close_after-Kept m parent (fail t) p)
    | inr e ↦ rw e p
  ]
  packed_end-Kept m parent fault p = tt
  packed_end-Kept m parent stuck p = tt

  -- Opening a substream, and what is done with it.
  pub IsKept-open :
      (use_it : Istream → M DecState (Unit {0}))
      → ((parent sub : Istream) (m : Memory)
          → IsSound sub
          → Kept Own m (use_it sub (record { input = parent; mem = m })))
      → IsKept Own (do sub ← on_input pb_make_string_substream; use_it sub)
  IsKept-open use_it h = record {
    at = λ s p.
        opened s.input s.mem (pb_make_string_substream s.input)
          (pb_make_string_substream-MadeFrom s.input p);
  }
    where
      opened :
          (i : Istream) (m : Memory) (o : Outcome Istream Istream)
          → MadeFrom i o
          → Kept Own m (continue (with_mem m o) use_it)
      opened i m (ok sub parent) p = h parent sub m p.sound
      opened i m (fail t) p = λ x out. refl
      opened i m fault p = tt
      opened i m stuck p = tt

  module _ (f : Field) (dest : ℕ) where
    choose-IsKept :
        (b : Bool) (g h : Field → ℕ → M DecState (Unit {0}))
        → (b ≡ true → IsKept Own (g f dest))
        → IsKept Own (h f dest)
        → IsKept Own ((if b then g else h) f dest)
    choose-IsKept true g h p q = p refl
    choose-IsKept false g h p q = q

  pb_dec_submessage-IsKept :
      (env : Env) (nested : Nested) (f : Field) (dest : ℕ)
      → Owns Own dest (dest + f.data_size)
      → KeepsBelow Own nested (env.fields_at f.ptr) f.data_size
      → IsKept Own (pb_dec_submessage env nested f dest)
  unfolding pb_dec_submessage
  pb_dec_submessage-IsKept env nested f dest own below = IsKept-open _ λ parent sub m sound.
      elim (Bool-cases (f.ptr == 0)) [
        | inl null ↦ rw null (λ x out. refl)
        | inr there ↦ rw there (elim (Bool-cases (pb_htype f.type == HType.repeated)) [
          | inl e ↦ rw e (
              close_after-Kept m parent _
                ((below.decode dest own).at (record { input = sub; mem = m }) sound))
          | inr e ↦ rw e (
              close_after-Kept m parent _
                ((below.decode_noinit dest own).at (record { input = sub; mem = m }) sound))
        ])
      ]

  pub pb_decoders-IsKept :
      (env : Env) (nested : Nested) (f : Field) (dest : ℕ)
      → Owns Own dest (dest + f.data_size)
      → Confines Own env nested f
      → IsKept Own (pb_decoders env nested (pb_ltype f.type) f dest)
  unfolding pb_decoders
  pb_decoders-IsKept env nested f dest own confines =
      let t = pb_ltype f.type in
      let in_field =
        λ (m : M DecState (Unit {0})). IsConfined-IsKept Own dest (dest + f.data_size) m own in
      choose-IsKept f dest (t == LType.varint) _ _ (λ e. in_field _ (pb_dec_varint-InField dest f))
        (choose-IsKept f dest (t == LType.uvarint) _ _
          (λ e. in_field _ (pb_dec_uvarint-InField dest f))
          (choose-IsKept f dest (t == LType.svarint) _ _
            (λ e. in_field _ (pb_dec_svarint-InField dest f))
            (choose-IsKept f dest (t == LType.fixed32) _ _
              (λ e.
                in_field _ (
                  pb_dec_fixed32-InField dest f
                    (confines.wide.four ((==_iff t LType.fixed32).0 e))))
              (choose-IsKept f dest (t == LType.fixed64) _ _
                (λ e. in_field _ (
                  pb_dec_fixed64-InField dest f
                    (confines.wide.eight ((==_iff t LType.fixed64).0 e))))
                (choose-IsKept f dest (t == LType.bytes) _ _
                  (λ e. in_field _ (pb_dec_bytes-InField dest f))
                  (choose-IsKept f dest (t == LType.string) _ _
                    (λ e. in_field _ (pb_dec_string-InField dest f))
                    (choose-IsKept f dest (t == LType.submessage) _ _
                      (λ e.
                        pb_dec_submessage-IsKept env nested f dest own
                          (confines.below ((==_iff t LType.submessage).0 e)))
                      (choose-IsKept f dest (t == LType.fixed_length_bytes) _ _
                        (λ e. in_field _ (pb_dec_fixed_length_bytes-InField dest f))
                        (record { at = λ s h. tt })))))))))
