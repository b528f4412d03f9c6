-- ===== src/Decoder/Samples.antt =====
-- A message with a message in it and a field for a callback, and a callback that reads a varint.
use breakpoint.Base.{All, ℕ, inl, List, [], ◌∷◌, ◌==◌, if◌then◌else◌, arith}
use breakpoint.Base.Int.{pos, negsuc}
use breakpoint.Outcome.{Outcome, ok, fail, fault, stuck, M, ◌>>=◌, pure}
use breakpoint.Input.{Istream}
use breakpoint.Wire.{pb_decode_varint}
use breakpoint.Wire.Progress.{pb_decode_varint-IsTaking}
use breakpoint.Input.{Istream}
use breakpoint.Descriptor.{Field}
use breakpoint.FieldIter.Layout.{IsTagged}
use breakpoint.Decoder.{DecState, Env, on_input}
use breakpoint.Decoder.Decodable.{IsDecodable}
use breakpoint.Decoder.Steady.{IsSteady-pure, IsEager, Eager, IsEager-bind, IsEager-on_input}
use breakpoint.Decoder.Steady.Callbacks.{IsReader, Reads}

-- struct { int32_t a; }, with `a` required
abbrev pub leaf : List Field
leaf =
    record {
      tag = 1;
      type = 0x00;
      data_offset = 0;
      size_offset = pos 0;
      data_size = 4;
      array_size = 0;
      ptr = 0;
    }
    ∷ []

-- struct { int32_t a; bool has_b; Leaf b; pb_callback_t c; }
abbrev pub tree : List Field
tree =
    record {
      tag = 1;
      type = 0x00;
      data_offset = 0;
      size_offset = pos 0;
      data_size = 4;
      array_size = 0;
      ptr = 0;
    }
    ∷ record {
      tag = 2;
      type = 0x17;
      data_offset = 4;
      size_offset = negsuc 3;
      data_size = 4;
      array_size = 0;
      ptr = 1;
    }
    ∷ record {
      tag = 3;
      type = 0x50;
      data_offset = 4;
      size_offset = pos 0;
      data_size = 16;
      array_size = 0;
      ptr = 0;
    }
    ∷ []

unfoldable pub reads_varint : M DecState (Unit {0})
reads_varint = on_input pb_decode_varint >>= λ v. pure tt

abbrev pub tree_env : Env
tree_env = record {
  fields_at = λ a. if a == 1 then leaf else [];
  extension_type = λ a. record { decode = 0; encode = 0; arg = 0 };
  call_decode = λ fn f a. reads_varint;
  call_extension = λ fn e t w s. fault;
}

Eager-Reads : (i : Istream) (o : Outcome DecState (Unit {0})) → Eager i o → Reads i o
Eager-Reads i (ok a t) p = (p.0, inl p.1)
Eager-Reads i (fail t) p = p
Eager-Reads i fault p = p
Eager-Reads i stuck p = p

reads_varint-IsEager : IsEager reads_varint
unfolding reads_varint
reads_varint-IsEager =
    IsEager-bind _ _ (IsEager-on_input pb_decode_varint pb_decode_varint-IsTaking)
      (λ v. IsSteady-pure tt)

pub reads_varint-IsReader :
    (fn : ℕ) (f : Field) (arg : ℕ) → IsReader (tree_env.call_decode fn f arg)
reads_varint-IsReader fn f arg = record {
  at = λ s h. Eager-Reads s.input (reads_varint s) (reads_varint-IsEager.at s h);
}

leaf-IsDecodable : IsDecodable tree_env 1 leaf
unfolding IsDecodable
leaf-IsDecodable = (
  (omega arith, tt),
  (omega arith, omega arith),
  ((inl (omega arith), λ e. absurd (omega (arith, e))), tt),
)

pub tree-IsTagged : All IsTagged tree
tree-IsTagged = (omega arith, (omega arith, (omega arith, tt)))

pub tree-IsDecodable : IsDecodable tree_env 2 tree
unfolding IsDecodable
tree-IsDecodable = (
  tree-IsTagged,
  (omega arith, omega arith),
  (
    (inl (omega arith), λ e. absurd (omega (arith, e))),
    (
      (inl (omega arith), λ e. (omega arith, leaf-IsDecodable)),
      ((inl (omega arith), λ e. absurd (omega (arith, e))), tt),
    ),
  ),
)
