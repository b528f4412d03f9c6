-- ===== src/Format/Emits/Messages.antt =====
-- pb_encode writes the message's bytes.
use breakpoint.Base.{ℕ, zero, suc, ◌+◌, ◌<◌, ◌≡◌, refl, sym, List, length, neq→==, ==_iff, arith}
use mathlib.Core.Path.{subst}
use mathlib.Core.List.{append-nil}
use breakpoint.Memory.{Memory}
use breakpoint.Descriptor.{Field, field_at, pb_ltype}
use breakpoint.Descriptor.LType
use breakpoint.FieldIter.{pb_field_iter_begin, for_fields, each_field}
use breakpoint.FieldIter.Layout.{iter_at, pb_field_iter_next-iter_at}
use breakpoint.Decoder.Required.Count.{field-iter_at}
use breakpoint.Encoder.{Env}
use breakpoint.Encoder.Fields.{Nested}
use breakpoint.Encoder.Messages.{encode_entry_at, pb_encode}
use breakpoint.RoundTrip.Widths.{IsBytes}
use breakpoint.Format.{Writer, entry_bytes, fields_bytes, message_bytes}
use breakpoint.Format.Plain.{
  offset_at, p_data-iter_at, IsPlainField, IsPlain, not_extension, All-IsTagged, no_fields,
  begin_some,
}
use breakpoint.Format.Emits.{Emits, Emits-as, Emits-then, Emits-nothing}
use breakpoint.Format.Emits.Fields.{Emits-field}

module _ (env : Env) (nested : Nested) (inner : Writer) (mem : Memory) (bytes : IsBytes mem) (n : ℕ)
    (fields : List Field) (src : ℕ) (there : 0 < src) (bound : ℕ → ℕ)
    (plain : (i : ℕ) → i < length fields → IsPlainField fields i (bound i) (bound (suc i)))
    (below : (i : ℕ)
      → i < length fields
      → pb_ltype (field_at fields i).type ≡ LType.submessage
      → (p : ℕ) → 0 < p
      → Emits mem
          (nested (env.fields_at (field_at fields i).ptr) p)
          (inner (env.fields_at (field_at fields i).ptr) p mem)) where
  Emits-entry :
      (i : ℕ)
      → i < length fields
      → Emits mem
          (encode_entry_at env nested n (iter_at fields src i))
          (entry_bytes env.fields_at inner (field_at fields i) (iter_at fields src i).p_data mem)
  unfolding encode_entry_at
  Emits-entry i lt =
      let f = field_at fields i in
      let here = plain i lt in
      let p = (iter_at fields src i).p_data in
      rw (field-iter_at fields src i, not_extension f here.kind)
        (Emits-field env nested inner mem bytes n f p here.kind here.tag_small here.static
          (omega (arith, p_data-iter_at fields src i))
          (λ e. below i lt e p (omega (arith, p_data-iter_at fields src i))) (offset_at fields i)
          (bound i) here.rule)

  Emits-each :
      (c i : ℕ)
      → i + suc c ≡ length fields
      → Emits mem
          (each_field (suc c) (λ it. encode_entry_at env nested n it) (iter_at fields src i))
          (fields_bytes env.fields_at inner (suc c) i fields src mem)
  unfolding each_field fields_bytes
  Emits-each zero i e =
      let next =
        pb_field_iter_next-iter_at fields src i (All-IsTagged fields (λ j lt. (plain j lt).tag_pos))
          (omega arith) in
      Emits-as mem _ _ _ (λ s. rw (next, (==_iff (suc i) (length fields)).1 (omega arith)) refl)
        (subst (λ bs. Emits mem (encode_entry_at env nested n (iter_at fields src i)) bs)
          (sym (
            append-nil (
              entry_bytes env.fields_at inner (field_at fields i) (iter_at fields src i).p_data
                mem)))
          (Emits-entry i (omega arith)))
  Emits-each (suc c) i e =
      let next =
        pb_field_iter_next-iter_at fields src i (All-IsTagged fields (λ j lt. (plain j lt).tag_pos))
          (omega arith) in
      Emits-as mem _ _ _ (λ s. rw (next, neq→== (suc i) (length fields) (omega arith)) refl)
        (Emits-then mem _ _ _ _ (Emits-entry i (omega arith)) (Emits-each c (suc i) (omega arith)))

  Emits-fields :
      (count : ℕ)
      → length fields ≡ count
      → Emits mem
          (for_fields (encode_entry_at env nested n) fields src)
          (fields_bytes env.fields_at inner count 0 fields src mem)
  unfolding for_fields
  Emits-fields zero e =
      rw (e, no_fields fields e) (unfold pb_field_iter_begin fields_bytes in Emits-nothing mem)
  Emits-fields (suc c) e =
      Emits-as mem _ _ _
        (λ s.
          rw (begin_some fields src (plain 0 (omega arith)).tag_pos, e) (unfold iter_at in refl))
        (Emits-each c 0 (omega (arith, e)))

-- An encoder's run on a message in a memory of bytes whose structure is not at NULL.
pub pb_encode-Emits :
    (env : Env) (mem : Memory)
    → IsBytes mem
    → (n : ℕ) (fields : List Field) (src size : ℕ) → IsPlain env.fields_at n fields size
    → 0 < src
    → Emits mem (pb_encode env n fields src) (message_bytes env.fields_at n fields src mem)
unfolding pb_encode message_bytes IsPlain
pb_encode-Emits env mem bytes zero fields src size plain there = absurd plain
pb_encode-Emits env mem bytes (suc n) fields src size (bound, fits, few, distinct, plain) there =
    Emits-fields env (λ fs p t. pb_encode env n fs p t)
      (λ fs p m. message_bytes env.fields_at n fs p m) mem bytes n fields src there bound
      (λ i lt. (plain i lt).0)
      (λ i lt e p pos.
        pb_encode-Emits env mem bytes n (env.fields_at (field_at fields i).ptr) p
          (field_at fields i).data_size ((plain i lt).1 e) pos)
      (length fields) refl
