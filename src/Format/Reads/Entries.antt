-- ===== src/Format/Reads/Entries.antt =====
-- One round of the decoder's loop reads one entry.
use breakpoint.Base.{
  ℕ, suc, ◌+◌, ◌-◌, ◌*◌, ◌^◌, ◌≤◌, ◌<◌, ◌≡◌, refl, ap, ◌∙◌, false, Option, List, ◌++◌, length,
  length-append, neq→==, arith,
}
use mathlib.Core.List.{append_assoc}
use breakpoint.Errors.{ErrMsg}
use breakpoint.Outcome.{◌>>=◌, continue, pure}
use breakpoint.Input.Reading.{reading}
use breakpoint.Output.Encoding.{varint, length-varint-positive}
use breakpoint.Wire.Numbers.{pb_decode_tag-varint}
use breakpoint.Memory.{Memory}
use breakpoint.Descriptor.{Field, field_at, pb_ltype}
use breakpoint.Descriptor.LType
use breakpoint.FieldIter.{pb_field_iter_find}
use breakpoint.FieldIter.Layout.{iter_at}
use breakpoint.Decoder.{DecState, Env, with_mem}
use breakpoint.Decoder.Fields.{Nested}
use breakpoint.Decoder.Callbacks.{decode_field}
use breakpoint.Decoder.Messages.{one_field, found_or_not, loop_on, decode_loop}
use breakpoint.Decoder.Required.{Loop, mark_seen}
use breakpoint.Format.{Writer, wire_type, is_absent, value_bytes, entry_bytes}
use breakpoint.Format.Plain.{not_extension, All-IsTagged}
use breakpoint.Format.Emits.Fields.{wire_type-small}
use breakpoint.Format.Agrees.{Relation, SameEntry, OnlyIn}
use breakpoint.Format.Cleared.{over}
use breakpoint.Format.Reads.Fields.{entry-Reads}
use breakpoint.Format.Reads.Rounds.{Started, at_entry, pb_field_iter_find-tag}
use breakpoint.Format.Reads.Frames.{Setting}

module _ (env : Env) (nested : Nested) (n : ℕ) (inner : Writer)
    (cleared : List Field → ℕ → Memory → Type 0) (agrees : Relation) (m0 : Memory)
    (fields : List Field) (src dest : ℕ)
    (h : Setting env nested inner cleared agrees m0 fields src dest) where
  abbrev wire : ℕ → ℕ
  wire i = wire_type (pb_ltype (field_at fields i).type)

  abbrev tag : ℕ → ℕ
  tag i = (field_at fields i).tag

  found :
      (i : ℕ) (l : Loop) (s : DecState)
      → i < length fields
      → Started fields dest h.few i l
      → one_field env nested n (tag i) (wire i) l s
        ≡ (decode_field env nested (wire i) (iter_at fields dest i)
              >>= (λ _. pure (mark_seen (at_entry fields dest h.few i l))))
            s
  unfolding one_field
  found i l s lt (j, start, e, seen) =
      ap (λ it. found_or_not env nested n (tag i) (wire i) l (pb_field_iter_find it (tag i)) s) e
      ∙ ap (λ r. found_or_not env nested n (tag i) (wire i) l r s)
          (pb_field_iter_find-tag fields dest i j
            (All-IsTagged fields (λ x less. (h.plain x less).tag_pos)) h.distinct
            (not_extension (field_at fields i) (h.plain i lt).kind) lt start)

  abbrev entry : ℕ → List ℕ
  entry i = entry_bytes env.fields_at inner (field_at fields i) (iter_at fields src i).p_data m0

  abbrev head : ℕ → List ℕ
  head i = varint (tag i * 8 + wire i)

  abbrev value : ℕ → List ℕ
  value i = value_bytes env.fields_at inner (field_at fields i) (iter_at fields src i).p_data m0

  abbrev Same : ℕ → Memory → Type 0
  Same i m =
      SameEntry env.fields_at agrees (field_at fields i) (iter_at fields src i).p_data m0
        (iter_at fields dest i).p_data m

  entry_present :
      (i : ℕ)
      → is_absent (field_at fields i) (iter_at fields src i).p_data m0 ≡ false
      → entry i ≡ head i ++ value i
  unfolding entry_bytes
  entry_present i present = rw present refl

  pub entry_positive :
      (i : ℕ)
      → is_absent (field_at fields i) (iter_at fields src i).p_data m0 ≡ false
      → 0 < length (entry i)
  entry_positive i present = omega (
    arith,
    ap (λ bs. length bs) (entry_present i present),
    length-append (head i) (value i),
    length-varint-positive (tag i * 8 + wire i),
  )

  -- One round of the loop, on an entry that is there.
  pub round-Reads :
      (i fuel : ℕ) (l : Loop) (m : Memory) (rest : List ℕ) (k : ℕ) (e : Option ErrMsg)
      → i < length fields
      → Started fields dest h.few i l
      → is_absent (field_at fields i) (iter_at fields src i).p_data m0 ≡ false
      → length (entry i) ≤ k
      → k < 2 ^ 64
      → length (entry i) < 2 ^ 32
      → (pb_ltype (field_at fields i).type ≡ LType.submessage
          → cleared (env.fields_at (field_at fields i).ptr) (iter_at fields dest i).p_data m)
      → (m' : Memory) × (decode_loop env nested n
            (suc fuel)
            l
            (over (reading (entry i ++ rest) k e) m)
          ≡ decode_loop env nested n fuel
              (mark_seen (at_entry fields dest h.few i l))
              (over (reading rest (k - length (entry i)) e) m'))
        × OnlyIn (dest + h.bound i) (dest + h.bound (suc i)) m m'
        × Same i m'
  unfolding decode_loop
  round-Reads i fuel l m rest k e lt started present fits small short clear =
      let here = h.plain i lt in
      let shape = entry_present i present in
      let total = ap (λ bs. length bs) shape ∙ length-append (head i) (value i) in
      let k1 = k - length (head i) in
      let (m', run, only, same) =
        entry-Reads env nested inner cleared agrees m0 h.bytes fields dest i (h.bound i)
          (h.bound (suc i)) (iter_at fields src i).p_data here (h.below i lt present)
          (h.stable i lt) (h.filled i lt present) present (wire i) m rest k1 e
          (omega (arith, total)) (omega arith) (omega (arith, total)) clear in
      let l' = mark_seen (at_entry fields dest h.few i l) in
      let tag_read = ap (with_mem m) (
        pb_decode_tag-varint (wire i) (tag i) (value i ++ rest) k e
          (wire_type-small (pb_ltype (field_at fields i).type)) here.tag_pos here.tag_small
          (omega (arith, total)) small) in
      let apart = ap (λ bs. bs ++ rest) shape ∙ append_assoc (head i) (value i) rest in
      let left : k1 - length (value i) ≡ k - length (entry i) = omega (arith, total) in
      (
        m',
        rw (neq→== k 0 (omega (arith, total, length-varint-positive (tag i * 8 + wire i))), apart)
            (ap
                (λ o.
                  continue o (loop_on env nested n (λ x s. decode_loop env nested n fuel x s) l))
                tag_read
              ∙ ap (λ o. continue o (λ x s. decode_loop env nested n fuel x s))
                  (found i l (over (reading (value i ++ rest) k1 e) m) lt started
                    ∙ ap (λ o. continue o (λ _. pure l')) run)
              ∙ ap (λ t. decode_loop env nested n fuel l' (over (reading rest t e) m')) left),
        only,
        same,
      )
