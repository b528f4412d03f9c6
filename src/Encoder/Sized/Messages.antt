-- ===== src/Encoder/Sized/Messages.antt =====
-- Whole messages are counted right: pb_get_encoded_size against pb_encode.
use breakpoint.Base.{
  arith, ℕ, zero, suc, ◌%◌, ◌≡◌, ap, Bool, true, false, Option, none, some, List, length, ◌==◌,
  if◌then◌else◌,
}
use mathlib.Core.Path.{subst}
use breakpoint.Outcome.{Outcome, ok, fail, fault, stuck, M}
use breakpoint.Input.{size_mod}
use breakpoint.Output.{Ostream, pb_ostream_sizing}
use breakpoint.Output.Sizing.{IsWriter, Appends, ahead}
use breakpoint.Memory.{Memory, load}
use breakpoint.Descriptor.AType
use breakpoint.Descriptor.{Field, field_at, pb_atype}
use breakpoint.FieldIter.{Iter, each_field, for_fields}
use breakpoint.Decoder.Defaults.{extension_dest}
use breakpoint.Encoder.{EncState, Env}
use breakpoint.Encoder.Fields.{Nested, pb_check_proto3_default_value}
use breakpoint.Encoder.Messages.{
  implicit, size_pointer, encode_basic_field, or_callback_error, encode_callback_field,
  encode_field, default_extension_encoder, encode_one_extension, extension_loop,
  encode_extension_field, encode_entry_at, pb_encode, size_of, pb_get_encoded_size,
}
use breakpoint.Encoder.Sized.{
  on, Sizes, Counts, IsSized, IsSized-bind, IsSized-pure, IsSized-if, sized_rules,
}
use breakpoint.Encoder.Sized.Substreams.{pb_ostream_sizing-IsSizer}
use breakpoint.Encoder.Sized.Fields.{encode_by_rule-IsSized}

module _ (mem : Memory) where
  implicit-IsSized : (default : Option Bool) → IsSized mem (implicit default)
  implicit-IsSized none = record { writing = λ s w. tt; counting = λ z w. tt }
  implicit-IsSized (some default) = IsSized-pure mem _

  -- A step that looks at the memory first.
  IsSized-looking :
      {A : Type 0} (step : Memory → M EncState A)
      → IsSized mem (step mem)
      → IsSized mem (λ s. step s.mem s)
  IsSized-looking step h = record {
    writing = λ s w. h.writing s w;
    counting = λ z w. h.counting z w;
  }

  IsSized-either :
      {A : Type 0} (b : Bool) (m n : M EncState A)
      → IsSized mem m
      → IsSized mem n
      → IsSized mem (λ s. if b then m s else n s)
  IsSized-either true m n hm hn = hm
  IsSized-either false m n hm hn = hn

  module _ (m : M EncState (Unit {0})) (h : IsSized mem m) where
    callback-Sizes :
        (s : Ostream) (o : Outcome EncState (Unit {0}))
        → Sizes mem m s o
        → Sizes mem (λ t. or_callback_error (m t)) s (or_callback_error o)
    callback-Sizes s (ok _ t) (bs, p, kept, on_sizing) =
        (bs, p, kept, λ z w. ap or_callback_error (on_sizing z w))
    callback-Sizes s (fail t) p = tt
    callback-Sizes s fault p = tt
    callback-Sizes s stuck p = tt

    callback-Counts :
        (z : Ostream) (o : Outcome EncState (Unit {0}))
        → Counts mem z o
        → Counts mem z (or_callback_error o)
    callback-Counts z (ok _ t) c = c
    callback-Counts z (fail t) c = tt
    callback-Counts z fault c = tt
    callback-Counts z stuck c = tt

    IsSized-or_callback_error : IsSized mem (λ t. or_callback_error (m t))
    IsSized-or_callback_error = record {
      writing = λ s w. callback-Sizes s _ (h.writing s w);
      counting = λ z w. callback-Counts z _ (h.counting z w);
    }

  each_field-IsSized :
      (n : ℕ) (step : Iter → M EncState (Unit {0})) (it : Iter)
      → ((it : Iter) → IsSized mem (step it))
      → IsSized mem (each_field n step it)
  unfolding each_field
  each_field-IsSized zero step it h = record { writing = λ s w. tt; counting = λ z w. tt }
  each_field-IsSized (suc n) step it h =
      IsSized-either _ _ _ (IsSized-bind mem _ _ (h it) (λ _. each_field-IsSized n step _ h)) (h it)

  for_fields-IsSized :
      (step : Iter → M EncState (Unit {0})) (fields : List Field) (src : ℕ)
      → ((it : Iter) → IsSized mem (step it))
      → IsSized mem (for_fields step fields src)
  unfolding for_fields
  for_fields-IsSized step fields src h = search (sized_rules, each_field-IsSized) depth 8

  -- What the build links in counts its own writes right.
  module _ (env : Env)
      (calls : (fn : ℕ) (f : Field) (arg : ℕ) → IsSized mem (env.call_encode fn f arg))
      (extensions : (fn ext : ℕ) → IsSized mem (env.call_extension fn ext)) where
    module _ (nested : Nested) (n : ℕ)
        (h : (fields : List Field) (src : ℕ) → IsSized mem (nested fields src)) where
      size_pointer-IsSized :
          (f : Field) (p_data : ℕ) → IsSized mem (size_pointer env nested n f p_data)
      unfolding size_pointer
      size_pointer-IsSized f p_data =
          let default =
            IsSized-looking (λ m. implicit (pb_check_proto3_default_value env n m f p_data))
              (implicit-IsSized _) in
          IsSized-if mem _ _ _ (IsSized-pure mem _)
            (IsSized-if mem _ _ _ default (IsSized-pure mem _))

      encode_basic_field-IsSized :
          (f : Field) (p_data : ℕ) → IsSized mem (encode_basic_field env nested n f p_data)
      unfolding encode_basic_field
      encode_basic_field-IsSized f p_data =
          let by_rule = encode_by_rule-IsSized mem env nested h f in
          search (sized_rules, size_pointer-IsSized, by_rule) depth 10

      encode_callback_field-IsSized :
          (f : Field) (p_data : ℕ) → IsSized mem (encode_callback_field env nested n f p_data)
      unfolding encode_callback_field
      encode_callback_field-IsSized f p_data =
          search (sized_rules, IsSized-or_callback_error, calls) depth 10

      encode_field-IsSized :
          (f : Field) (p_data : ℕ) → IsSized mem (encode_field env nested n f p_data)
      unfolding encode_field
      encode_field-IsSized f p_data =
          search (sized_rules, encode_basic_field-IsSized, encode_callback_field-IsSized) depth 8

      default_extension_encoder-IsSized :
          (ext : ℕ) → IsSized mem (default_extension_encoder env nested n ext)
      unfolding default_extension_encoder
      default_extension_encoder-IsSized ext =
          let f =
            λ (m : Memory). field_at (env.fields_at (env.extension_type (load 8 ext m)).arg) 0 in
          IsSized-looking
            (λ m.
              if pb_atype (f m).type == AType.pointer
              then encode_field env nested n (f m) (extension_dest ext)
              else encode_field env nested n (f m) (load 8 (extension_dest ext) m))
            (IsSized-if mem _ _ _ (encode_field-IsSized _ _) (encode_field-IsSized _ _))

      encode_one_extension-IsSized : (ext : ℕ) → IsSized mem (encode_one_extension env nested n ext)
      unfolding encode_one_extension
      encode_one_extension-IsSized ext =
          let fn = λ (m : Memory). (env.extension_type (load 8 ext m)).encode in
          IsSized-looking
            (λ m s.
              if fn m == 0
              then default_extension_encoder env nested n ext s
              else env.call_extension (fn m) ext s)
            (IsSized-either _ _ _ (default_extension_encoder-IsSized ext) (extensions _ ext))

      extension_loop-IsSized : (k ext : ℕ) → IsSized mem (extension_loop env nested n k ext)
      unfolding extension_loop
      extension_loop-IsSized zero ext = record { writing = λ s w. tt; counting = λ z w. tt }
      extension_loop-IsSized (suc k) ext =
          let rest = extension_loop-IsSized k in
          search (sized_rules, IsSized-either, encode_one_extension-IsSized, rest) depth 8

      encode_entry_at-IsSized : (it : Iter) → IsSized mem (encode_entry_at env nested n it)
      unfolding encode_entry_at encode_extension_field
      encode_entry_at-IsSized it =
          search (sized_rules, extension_loop-IsSized, encode_field-IsSized) depth 8

    pub pb_encode-IsSized :
        (n : ℕ) (fields : List Field) (src : ℕ) → IsSized mem (pb_encode env n fields src)
    unfolding pb_encode
    pb_encode-IsSized zero fields src = record { writing = λ s w. tt; counting = λ z w. tt }
    pb_encode-IsSized (suc n) fields src =
        for_fields-IsSized _ fields src
          λ it. encode_entry_at-IsSized _ n (λ fs p. pb_encode-IsSized n fs p) it

    size_of-Counts :
        (s : Ostream) (bytes : List ℕ) (o : Outcome EncState (Unit {0}))
        → o ≡ ok tt (on mem (ahead (length bytes) pb_ostream_sizing))
        → size_of env (on mem s) o ≡ ok (length bytes % size_mod) (on mem s)
    unfolding pb_ostream_sizing
    size_of-Counts s bytes o e = rw e (ap (λ n. ok n (on mem s)) (omega arith))

    sized_by :
        (n : ℕ) (fields : List Field) (src : ℕ) (s : Ostream) (t : EncState)
        (o : Outcome EncState (Unit {0}))
        → o ≡ ok tt t
        → Sizes mem (pb_encode env n fields src) s o
        → (bytes : List ℕ) × Appends bytes s t.output
          × (t.mem ≡ mem)
          × (pb_get_encoded_size env n fields src (on mem s)
              ≡ ok (length bytes % size_mod) (on mem s))
    unfolding pb_get_encoded_size
    sized_by n fields src s t o e p =
        let (bs, q, kept, on_sizing) = subst (Sizes mem (pb_encode env n fields src) s) e p in
        (bs, q, kept, size_of-Counts s bs _ (on_sizing pb_ostream_sizing pb_ostream_sizing-IsSizer))

module _ (env : Env)
    (calls : (mem : Memory) (fn : ℕ) (f : Field) (arg : ℕ) → IsSized mem (env.call_encode fn f arg))
    (extensions : (mem : Memory) (fn ext : ℕ) → IsSized mem (env.call_extension fn ext)) where
  -- A message that pb_encode writes to a buffer, with callbacks and extension encoders that a sizing
  -- stream counts right and that leave memory as it is, is measured right: some `bytes` stand behind
  -- what was written before, memory is as it was, and pb_get_encoded_size returns true with their
  -- number, as a size_t, and leaves the state as it was.
  pub pb_get_encoded_size-pb_encode :
      (n : ℕ) (fields : List Field) (src : ℕ) (s t : EncState)
      → IsWriter s.output
      → pb_encode env n fields src s ≡ ok tt t
      → (bytes : List ℕ) × Appends bytes s.output t.output
        × (t.mem ≡ s.mem)
        × (pb_get_encoded_size env n fields src s ≡ ok (length bytes % size_mod) s)
  pb_get_encoded_size-pb_encode n fields src s t w e =
      sized_by s.mem env (calls s.mem) (extensions s.mem) n fields src s.output t _ e (
        (pb_encode-IsSized s.mem env (calls s.mem) (extensions s.mem) n fields src).writing s.output
          w)
