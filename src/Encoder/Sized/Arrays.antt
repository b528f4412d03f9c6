-- ===== src/Encoder/Sized/Arrays.antt =====
-- Packed arrays and arrays of entries are counted right.
use breakpoint.Base.{
  ℕ, zero, suc, ◌+◌, ◌*◌, ◌%◌, ◌≡◌, refl, sym, ap, ◌∙◌, Bool, true, false, [], ◌==◌, if◌then◌else◌,
  arith,
}
use native.Mathlib.Nat.{mul-suc, mul-zero, add_comm}
use breakpoint.Outcome.{continue, Outcome, ok, fail, fault, stuck, M, ◌>>=◌, ◌>>◌}
use breakpoint.Input.{size_mod}
use breakpoint.Output.{
  Ostream, pb_ostream_sizing, pb_write, pb_encode_varint, pb_encode_fixed32, pb_encode_fixed64,
}
use breakpoint.Output.Sizing.{
  IsWriter, IsSizer, ahead, ahead-zero, ahead-ahead, ahead-IsSizer, pb_encode_varint-IsSized,
  pb_encode_tag-IsSized, sizing_run,
}
use breakpoint.Memory.{Memory}
use breakpoint.Descriptor.{Field, pb_ltype}
use breakpoint.Descriptor.LType
use breakpoint.Wire.{pb_wt_string}
use breakpoint.Encoder.{EncState, on_output}
use breakpoint.Encoder.Values.{pb_enc_fixed32, pb_enc_fixed64, sizing_state, is_sizing}
use breakpoint.Encoder.Fields.{
  each_item, counted, packed_size, encode_packed, encode_entry, encode_array,
}
use breakpoint.Encoder.Sized.{
  on, Sizes, Counts, IsSized, IsSized-bind, IsSized-pure, IsSized-on_output, sized_rules,
}
use breakpoint.Encoder.Sized.Values.{pb_encode_tag_for_field-IsSized}
use breakpoint.Encoder.Sized.Substreams.{pb_ostream_sizing-IsSizer, IsSized-unless_sizing, Writes}

-- What the stream has counted.
abbrev count_of : Outcome EncState (Unit {0}) → ℕ
count_of (ok _ t) = t.output.bytes_written
count_of (fail t) = 0
count_of fault = 0
count_of stuck = 0

module _ (mem : Memory) where
  each_item-IsSized :
      (count : ℕ) (step : ℕ → M EncState (Unit {0})) (p data_size : ℕ)
      → ((p : ℕ) → IsSized mem (step p))
      → IsSized mem (each_item count step p data_size)
  unfolding each_item
  each_item-IsSized zero step p data_size h = IsSized-pure mem tt
  each_item-IsSized (suc n) step p data_size h =
      IsSized-bind mem _ _ (h p) (λ _. each_item-IsSized n step (p + data_size) data_size h)

  -- Items of one size are counted in one multiplication.
  module _ (step : ℕ → M EncState (Unit {0})) (width : ℕ)
      (one : (p : ℕ) (z : Ostream)
        → IsSizer z
        → step p (on mem z) ≡ ok tt (on mem (ahead width z))) where
    each_item-width :
        (count p data_size : ℕ) (z : Ostream)
        → IsSizer z
        → each_item count step p data_size (on mem z) ≡ ok tt (on mem (ahead (width * count) z))
    unfolding each_item
    each_item-width zero p data_size z h =
        ap (λ z'. ok tt (on mem z'))
          (sym (ahead-zero z h) ∙ ap (λ k. ahead k z) (sym (mul-zero width)))
    each_item-width (suc n) p data_size z h = rw (one p z h) (
        each_item-width n (p + data_size) data_size (ahead width z) (ahead-IsSizer width z h)
        ∙ ap (λ z'. ok tt (on mem z'))
            (ahead-ahead width (width * n) z
              ∙ ap (λ k. ahead k z) (add_comm width (width * n) ∙ sym (mul-suc width n))))

  -- Behind the size of a packed array, which is what a sizing stream counts for its items.
  second-Writes :
      (write : M EncState (Unit {0})) (size n : ℕ)
      → IsSized mem write
      → write (on mem pb_ostream_sizing) ≡ ok tt (on mem (ahead n pb_ostream_sizing))
      → size % size_mod ≡ n % size_mod
      → (s : Ostream) → IsWriter s
      → Writes mem size s (write (on mem s))
  unfolding pb_ostream_sizing
  second-Writes write size n h e same s w = by_outcome (write (on mem s)) (h.writing s w)
    where
      by_outcome : (o : Outcome EncState (Unit {0})) → Sizes mem write s o → Writes mem size s o
      by_outcome (ok _ t) (bs, p, kept, on_sizing) =
          let q = ap count_of (sym e ∙ on_sizing pb_ostream_sizing pb_ostream_sizing-IsSizer) in
          (bs, p, kept, omega (arith, same, q))
      by_outcome (fail t) p = tt
      by_outcome fault p = tt
      by_outcome stuck p = tt

  pub pb_enc_fixed32_width :
      (f : Field) (p : ℕ) (z : Ostream)
      → IsSizer z
      → pb_enc_fixed32 f p (on mem z) ≡ ok tt (on mem (ahead 4 z))
  unfolding pb_enc_fixed32 pb_encode_fixed32 pb_write
  pb_enc_fixed32_width f p z h = rw (sizing_run _ 4 z z.callback h.callback) refl

  pub pb_enc_fixed64_width :
      (f : Field) (p : ℕ) (z : Ostream)
      → IsSizer z
      → pb_enc_fixed64 f p (on mem z) ≡ ok tt (on mem (ahead 8 z))
  unfolding pb_enc_fixed64 pb_encode_fixed64 pb_write
  pb_enc_fixed64_width f p z h = rw (sizing_run _ 8 z z.callback h.callback) refl

  counted_mod : (n : ℕ) → (ahead n pb_ostream_sizing).bytes_written % size_mod ≡ n % size_mod
  unfolding pb_ostream_sizing
  counted_mod n = omega arith

  IsSized-branch :
      {A B : Type 0} (b : Bool) (m n : M EncState A) (rest : A → M EncState B)
      → (b ≡ true → IsSized mem (m >>= rest))
      → (b ≡ false → IsSized mem (n >>= rest))
      → IsSized mem ((λ s. if b then m s else n s) >>= rest)
  IsSized-branch true m n rest hm hn = hm refl
  IsSized-branch false m n rest hm hn = hn refl

  -- A first pass on a fresh sizing stream, whose count the rest takes.
  module _ {B : Type 0} (m : M EncState (Unit {0})) (h : IsSized mem m) (rest : ℕ → M EncState B)
      (k : (n : ℕ)
        → m (on mem pb_ostream_sizing) ≡ ok tt (on mem (ahead n pb_ostream_sizing))
        → IsSized mem (rest (ahead n pb_ostream_sizing).bytes_written)) where
    counted_by :
        (o : Outcome EncState (Unit {0}))
        → m (on mem pb_ostream_sizing) ≡ o
        → Counts mem pb_ostream_sizing o
        → IsSized mem (λ s. continue (counted s o) rest)
    counted_by (ok _ t) run (n, e) =
        let next = k n (run ∙ ap (ok tt) e) in
        record {
          writing = λ s w. rw e (next.writing s w);
          counting = λ z w. rw e (next.counting z w);
        }
    counted_by (fail t) run c = record { writing = λ s w. tt; counting = λ z w. tt }
    counted_by fault run c = record { writing = λ s w. tt; counting = λ z w. tt }
    counted_by stuck run c = record { writing = λ s w. tt; counting = λ z w. tt }

    IsSized-counted : IsSized mem (λ s. continue (counted s (m (sizing_state s))) rest)
    IsSized-counted =
        let passes =
          counted_by (m (on mem pb_ostream_sizing)) refl
            (h.counting pb_ostream_sizing pb_ostream_sizing-IsSizer) in
        record { writing = λ s w. passes.writing s w; counting = λ z w. passes.counting z w }

  module _ (f : Field) (count p_data : ℕ) (func : ℕ → M EncState (Unit {0}))
      (h : (p : ℕ) → IsSized mem (func p)) where
    abbrev items : M EncState (Unit {0})
    items = each_item count func p_data f.data_size

    abbrev packed_rest : ℕ → M EncState (Unit {0})
    packed_rest size = do
      on_output (pb_encode_varint size)
      λ s. if is_sizing s.output.callback then on_output (pb_write [] size) s else items s

    packed_rest-IsSized :
        (size n : ℕ)
        → items (on mem pb_ostream_sizing) ≡ ok tt (on mem (ahead n pb_ostream_sizing))
        → size % size_mod ≡ n % size_mod
        → IsSized mem (packed_rest size)
    packed_rest-IsSized size n e same =
        IsSized-bind mem _ _ (IsSized-on_output mem _ (pb_encode_varint-IsSized size)) λ _.
          IsSized-unless_sizing mem size (each_item count func p_data f.data_size)
            (second-Writes _ size n (each_item-IsSized count func p_data f.data_size h) e same)

    -- `func` writes four bytes in an array of LType.fixed32, eight in one of LType.fixed64.
    module _
        (four : pb_ltype f.type ≡ LType.fixed32
          → (p : ℕ) (z : Ostream) → IsSizer z
          → func p (on mem z) ≡ ok tt (on mem (ahead 4 z)))
        (eight : pb_ltype f.type ≡ LType.fixed64
          → (p : ℕ) (z : Ostream) → IsSizer z
          → func p (on mem z) ≡ ok tt (on mem (ahead 8 z))) where
      packed_size-IsSized : IsSized mem (packed_size f p_data count func >>= packed_rest)
      unfolding packed_size
      packed_size-IsSized =
          IsSized-branch (pb_ltype f.type == LType.fixed32) _ _ packed_rest
            (λ e.
              packed_rest-IsSized (4 * count) (4 * count)
                (each_item-width func 4 (four (ground arith)) count p_data f.data_size
                  pb_ostream_sizing pb_ostream_sizing-IsSizer)
                refl)
            (λ _.
              IsSized-branch (pb_ltype f.type == LType.fixed64) _ _ packed_rest
                (λ e.
                  packed_rest-IsSized (8 * count) (8 * count)
                    (each_item-width func 8 (eight (ground arith)) count p_data f.data_size
                      pb_ostream_sizing pb_ostream_sizing-IsSizer)
                    refl)
                (λ _.
                  IsSized-counted items (each_item-IsSized count func p_data f.data_size h)
                    packed_rest λ n e. packed_rest-IsSized _ n e (counted_mod n)))

      encode_packed-IsSized : IsSized mem (encode_packed f p_data count func)
      unfolding encode_packed
      encode_packed-IsSized =
          IsSized-bind mem _ _ (IsSized-on_output mem _ (pb_encode_tag-IsSized pb_wt_string f.tag))
            (λ _. packed_size-IsSized)

      encode_entry-IsSized : (p : ℕ) → IsSized mem (encode_entry f func p)
      unfolding encode_entry
      encode_entry-IsSized p = search (sized_rules, pb_encode_tag_for_field-IsSized, h) depth 12

      pub encode_array-IsSized : IsSized mem (encode_array f p_data count func)
      unfolding encode_array
      encode_array-IsSized =
          search (sized_rules, encode_packed-IsSized, each_item-IsSized, encode_entry-IsSized) depth
            12
