-- ===== src/Format/Emits/Values.antt =====
-- The value encoders pb_enc_* of PB_ENCODERS write the value's bytes.
use breakpoint.Base.{ℕ, ◌^◌, ◌<◌, ◌≡◌, refl, ap, neq→==}
use breakpoint.Base.Bytes.{little_endian}
use mathlib.Core.Path.{subst}
use breakpoint.Output.{zigzag, pb_write, pb_encode_svarint, pb_encode_fixed32, pb_encode_fixed64}
use breakpoint.Output.Encoding.{varint, pb_encode_fixed32_lem, pb_encode_fixed64_lem}
use breakpoint.Wire.Numbers.{zigzag-lt}
use breakpoint.Memory.{Memory, load}
use breakpoint.Memory.Stores.{length-little_endian}
use breakpoint.Descriptor.{Field, pb_ltype}
use breakpoint.Descriptor.LType
use breakpoint.Encoder.{Env, on_output, with_mem}
use breakpoint.Encoder.Values.{pb_enc_fixed32, pb_enc_fixed64}
use breakpoint.Encoder.Fields.{Nested, pb_enc_submessage, pb_encoders}
use breakpoint.RoundTrip.Widths.{IsBytes, sign_extend-lt, load-bound, width-lt}
use breakpoint.RoundTrip.Values.{enc_varint, enc_uvarint, enc_svarint}
use breakpoint.Format.{Writer, value_bytes}
use breakpoint.Format.Plain.{
  string, fixed_length_bytes, Kind, varint as signed, uvarint as plain, svarint as zigzagged,
  fixed32, fixed64, message,
}
use breakpoint.Format.Emits.{Emits, Emits-as, Emits-varint, Emits-pb_write}
use breakpoint.Format.Emits.Substreams.{Emits-submessage}
use breakpoint.Base.{◌∙◌, length, List, sym, ◌%◌, ◌≢◌, arith}
use breakpoint.Outcome.{Outcome, ok, fail, fault, stuck, M, continue, ◌>>◌}
use breakpoint.Output.{Ostream, pb_encode_varint, pb_encode_string}
use breakpoint.Memory.{load_bytes}
use breakpoint.Descriptor.{pb_atype}
use breakpoint.Descriptor.AType
use breakpoint.Decoder.Kept.{length-load_bytes}
use breakpoint.Encoder.Sized.{on}
use breakpoint.Encoder.Values.{string_length, pb_enc_string, pb_enc_fixed_length_bytes}
use breakpoint.Format.{delimited, text}
use breakpoint.Format.Emits.{Emits-then}
use breakpoint.Format.Texts.{string_length-le}

on_output-then :
    (mem : Memory) (w w' : M Ostream (Unit {0})) (s : Ostream)
    → with_mem mem ((w >> w') s) ≡ (on_output w >> on_output w') (on mem s)
on_output-then mem w w' s = each (w s)
  where
    each :
        (o : Outcome Ostream (Unit {0}))
        → with_mem mem (continue o (λ _. w')) ≡ continue (with_mem mem o) (λ _. on_output w')
    each (ok a t) = refl
    each (fail t) = refl
    each fault = refl
    each stuck = refl

module _ (mem : Memory) (v : ℕ) where
  Emits-svarint : v < 2 ^ 64 → Emits mem (on_output (pb_encode_svarint v)) (varint (zigzag v))
  unfolding pb_encode_svarint
  Emits-svarint h = Emits-varint mem (zigzag v) (zigzag-lt v h)

  little : (n : ℕ) → Emits mem (on_output (pb_write (little_endian n v) n)) (little_endian n v)
  little n =
      subst (λ k. Emits mem (on_output (pb_write (little_endian n v) k)) (little_endian n v))
        (length-little_endian n v) (Emits-pb_write mem (little_endian n v))

  Emits-fixed32 : Emits mem (on_output (pb_encode_fixed32 v)) (little_endian 4 v)
  Emits-fixed32 =
      Emits-as mem _ _ _ (λ s. ap (λ w. with_mem mem (w s)) (pb_encode_fixed32_lem v)) (little 4)

  Emits-fixed64 : Emits mem (on_output (pb_encode_fixed64 v)) (little_endian 8 v)
  Emits-fixed64 =
      Emits-as mem _ _ _ (λ s. ap (λ w. with_mem mem (w s)) (pb_encode_fixed64_lem v)) (little 8)

module _ (mem : Memory) where
  -- A string of bytes behind its length.
  Emits-string :
      (bs : List ℕ)
      → length bs < 2 ^ 64
      → Emits mem (on_output (pb_encode_string bs (length bs))) (delimited bs)
  unfolding pb_encode_string
  Emits-string bs h =
      let whole : length bs % 2 ^ 64 ≡ length bs = omega arith in
      Emits-as mem _ _ _
        (λ s.
          ap (λ n. with_mem mem ((pb_encode_varint n >> pb_write bs (length bs)) s)) whole
          ∙ on_output-then mem (pb_encode_varint (length bs)) (pb_write bs (length bs)) s)
        (Emits-then mem _ _ _ _ (Emits-varint mem (length bs) h) (Emits-pb_write mem bs))

module _ (env : Env) (nested : Nested) (inner : Writer) (mem : Memory) (bytes : IsBytes mem)
    (f : Field) (p : ℕ) (static : pb_atype f.type ≡ AType.static) (there : p ≢ 0) where
  string-Emits :
      f.data_size < 2 ^ 32 → Emits mem (pb_enc_string f p) (delimited (text f.data_size p mem))
  unfolding pb_enc_string
  string-Emits small =
      let size = string_length f.data_size p mem in
      let counted = length-load_bytes size p mem in
      Emits-as mem _ _ _
        (λ s.
          rw (static, neq→== p 0 there)
            (ap (λ n. on_output (pb_encode_string (load_bytes size p mem) n) (on mem s))
              (sym counted)))
        (Emits-string mem (load_bytes size p mem)
          (omega (arith, counted, string_length-le f.data_size p mem)))

  fixed_length_bytes-Emits :
      f.data_size < 2 ^ 32
      → Emits mem (pb_enc_fixed_length_bytes f p) (delimited (load_bytes f.data_size p mem))
  unfolding pb_enc_fixed_length_bytes
  fixed_length_bytes-Emits small =
      let counted = length-load_bytes f.data_size p mem in
      Emits-as mem _ _ _
        (λ s.
          ap (λ n. on_output (pb_encode_string (load_bytes f.data_size p mem) n) (on mem s))
            (sym counted))
        (Emits-string mem (load_bytes f.data_size p mem) (omega (arith, counted)))

  -- The encoder of a field's type, where nested messages are written right.
  pub Emits-value :
      Kind f
      → (pb_ltype f.type ≡ LType.submessage
          → Emits mem (nested (env.fields_at f.ptr) p) (inner (env.fields_at f.ptr) p mem))
      → Emits mem
          (pb_encoders env nested (pb_ltype f.type) f p)
          (value_bytes env.fields_at inner f p mem)
  unfolding pb_encoders value_bytes pb_enc_fixed32 pb_enc_fixed64 pb_enc_submessage
  Emits-value (signed e w) below = rw e (
      Emits-as mem _ _ _ (λ s. enc_varint f p _ w)
        (Emits-varint mem _ (sign_extend-lt f.data_size _ w (load-bound f.data_size p mem bytes))))
  Emits-value (plain e w) below = rw e (
      Emits-as mem _ _ _ (λ s. enc_uvarint f p _ w)
        (Emits-varint mem _ (width-lt f.data_size _ w (load-bound f.data_size p mem bytes))))
  Emits-value (zigzagged e w) below = rw e (
      Emits-as mem _ _ _ (λ s. enc_svarint f p _ w)
        (Emits-svarint mem _ (sign_extend-lt f.data_size _ w (load-bound f.data_size p mem bytes))))
  Emits-value (fixed32 e w) below =
      rw (e, w) (Emits-as mem _ _ _ (λ s. refl) (Emits-fixed32 mem (load 4 p mem)))
  Emits-value (fixed64 e w) below =
      rw (e, w) (Emits-as mem _ _ _ (λ s. refl) (Emits-fixed64 mem (load 8 p mem)))
  Emits-value (message e there) below =
      rw (e, neq→== f.ptr 0 there) (Emits-submessage mem _ _ (below e))
  Emits-value (string e w) below = rw e (string-Emits w)
  Emits-value (fixed_length_bytes e more w) below = rw e (fixed_length_bytes-Emits w)
