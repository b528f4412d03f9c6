-- ===== src/Decoder/Kept/Callbacks.antt =====
-- Callback fields and whole fields are written where their message is, and where the callbacks may
-- write.
use breakpoint.Base.{ℕ, zero, suc, ◌+◌, refl, Bool, true, false, List, length, ◌==◌}
use breakpoint.Errors.{no_malloc_support, invalid_field_type}
use breakpoint.Outcome.{Outcome, ok, fail, fault, stuck, M, ◌>>=◌, continue}
use breakpoint.Input.{Istream, pb_istream_from_buffer}
use breakpoint.Wire.{pb_wt_string, pb_skip_field, read_raw_value}
use breakpoint.Memory.{Memory, load}
use breakpoint.Descriptor.{Field, pb_atype}
use breakpoint.Descriptor.AType
use breakpoint.FieldIter.{Iter, field}
use breakpoint.Decoder.{DecState, Env, with_mem, on_input}
use breakpoint.Decoder.Fields.{Nested}
use breakpoint.Decoder.Callbacks.{
  callback_again, callback_loop, callback_end, scalar_end, run_callback, decode_callback_field,
  decode_field,
}
use breakpoint.Decoder.Steady.{IsSteady-read_mem}
use breakpoint.Decoder.Steady.Fields.{Suits}
use breakpoint.Decoder.Kept.{
  Kept, IsKept, Kept-after, IsKept-bind, IsKept-error, IsKept-read_mem, IsKept-if, IsKept-on_input,
}
use breakpoint.Decoder.Kept.Fields.{Confines, IsOwned, IsKept-open, close_after-Kept}
use breakpoint.Decoder.Kept.Statics.{decode_static_field-IsKept}

-- From any state the callback writes where it may.
abbrev pub Keeps : (ℕ → Type 0) → M DecState (Unit {0}) → Type 0
Keeps Own callback = (s : DecState) → Kept Own s.mem (callback s)

module _ (Own : ℕ → Type 0) where
  then_again :
      (m : Memory) (o : Outcome DecState (Unit {0})) (k : M DecState (Unit {0}))
      → Kept Own m o
      → ((t : DecState) → Kept Own t.mem (k t))
      → Kept Own m (continue o (λ _. callback_again k))
  then_again m (ok a t) k p q = by_test (t.input.bytes_left == 0)
    where
      by_test : (empty : Bool) → Kept Own m (elim empty [ true ↦ ok tt t | false ↦ k t ])
      by_test true = p
      by_test false = Kept-after Own m t.mem (k t) p (q t)
  then_again m (fail t) k p q = p
  then_again m fault k p q = tt
  then_again m stuck k p q = tt

  callback_loop-Kept :
      (n : ℕ) (callback : M DecState (Unit {0}))
      → Keeps Own callback
      → Keeps Own (callback_loop n callback)
  unfolding callback_loop
  callback_loop-Kept zero callback h s = tt
  callback_loop-Kept (suc n) callback h s =
      then_again s.mem (callback s) (λ t. callback_loop n callback t) (h s)
        (callback_loop-Kept n callback h)

  callback_end-Kept :
      (m : Memory) (parent : Istream) (o : Outcome DecState (Unit {0}))
      → Kept Own m o
      → Kept Own m (callback_end parent o)
  callback_end-Kept m parent (ok a t) p = close_after-Kept Own m parent (ok tt t) p
  callback_end-Kept m parent (fail t) p = p
  callback_end-Kept m parent fault p = tt
  callback_end-Kept m parent stuck p = tt

  scalar_end-Kept :
      (m : Memory) (stream : Istream) (o : Outcome DecState (Unit {0}))
      → Kept Own m o
      → Kept Own m (scalar_end stream o)
  scalar_end-Kept m stream (ok a t) p = p
  scalar_end-Kept m stream (fail t) p = p
  scalar_end-Kept m stream fault p = tt
  scalar_end-Kept m stream stuck p = tt

  scalar-IsKept :
      (callback : M DecState (Unit {0})) (wire_type : ℕ)
      → Keeps Own callback
      → IsKept Own (do
        buffer ← on_input (read_raw_value wire_type 10)
        λ s.
            scalar_end s.input
              (callback (record s { input = pb_istream_from_buffer buffer (length buffer) })))
  scalar-IsKept callback wire_type keeps = record {
    at = λ s h. read s.mem (read_raw_value wire_type 10 s.input);
  }
    where
      read :
          (m : Memory) (o : Outcome Istream (List ℕ))
          → Kept Own m (
              continue (with_mem m o) λ buffer s.
                scalar_end s.input
                  (callback (record s { input = pb_istream_from_buffer buffer (length buffer) })))
      read m (ok buffer i) = scalar_end-Kept m i _ (keeps _)
      read m (fail i) = λ x out. refl
      read m fault = tt
      read m stuck = tt

  module _ (env : Env)
      (calls : (fn : ℕ) (f : Field) (arg : ℕ) → Keeps Own (env.call_decode fn f arg)) where
    decode_callback_field-IsKept :
        (wire_type : ℕ) (it : Iter) → IsKept Own (decode_callback_field env wire_type it)
    unfolding decode_callback_field
    decode_callback_field-IsKept wire_type it =
        IsKept-bind Own _ _ (IsSteady-read_mem (load 8 it.p_data))
          (IsKept-read_mem Own (load 8 it.p_data))
          λ fn.
            let callback = run_callback env it in
            let keeps : Keeps Own callback =
              λ s. calls (load 8 it.p_data s.mem) (field it) (it.p_data + 8) s in
            IsKept-if Own (fn == 0) _ _ (IsKept-on_input Own (pb_skip_field wire_type)) (
              IsKept-if Own (wire_type == pb_wt_string) _ _
                (IsKept-open Own
                  (λ sub s.
                    callback_end s.input
                      (callback_loop (suc sub.bytes_left) callback (record s { input = sub })))
                  λ parent sub m sound. callback_end-Kept m parent _ (
                    callback_loop-Kept (suc sub.bytes_left) callback keeps
                      (record { input = sub; mem = m })))
                (scalar-IsKept callback wire_type keeps))

    -- decode_field, for any wire type.
    pub decode_field-IsKept :
        (nested : Nested) (wire_type : ℕ) (it : Iter)
        → IsOwned Own it
        → Suits env nested (field it)
        → Confines Own env nested (field it)
        → IsKept Own (decode_field env nested wire_type it)
    unfolding decode_field
    decode_field-IsKept nested wire_type it owned suits confines =
        IsKept-if Own (pb_atype (field it).type == AType.static) _ _
          (decode_static_field-IsKept Own it owned env nested suits confines wire_type)
          (IsKept-if Own (pb_atype (field it).type == AType.pointer) _ _
            (IsKept-error Own no_malloc_support)
            (IsKept-if Own (pb_atype (field it).type == AType.callback) _ _
              (decode_callback_field-IsKept wire_type it) (IsKept-error Own invalid_field_type)))
