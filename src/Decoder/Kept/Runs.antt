-- ===== src/Decoder/Kept/Runs.antt =====
-- Decoding the sample message writes to its structure only.
use breakpoint.Base.{zero, suc, ◌<◌, inr, ◌⊎◌, ◌≤◌, ℕ, ◌≡◌, refl, inl, arith}
use breakpoint.Outcome.{Outcome, ok, fail, fault, stuck, pure, continue}
use breakpoint.Input.{Istream}
use breakpoint.Wire.{pb_decode_varint}
use breakpoint.Input.{Istream}
use breakpoint.FieldIter.{pb_field_iter_begin, step_to}
use breakpoint.Memory.{Memory}
use breakpoint.Decoder.{with_mem}
use breakpoint.Decoder.Kept.{Kept, IsKept}
use breakpoint.Decoder.Kept.Fields.{IsWide}
use breakpoint.Decoder.Kept.Callbacks.{Keeps}
use breakpoint.Decoder.Kept.Layout.{IsLaidOut}
use breakpoint.Decoder.Kept.Messages.{pb_decode-IsKept}
use breakpoint.Descriptor.{Field, pb_ltype}
use breakpoint.FieldIter.Layout.{iter_at}
use breakpoint.Decoder.Messages.{pb_decode}
use breakpoint.Decoder.Samples.{
  leaf, tree, tree_env, reads_varint, reads_varint-IsReader, tree-IsDecodable,
}

-- The structure of `tree` has 32 bytes.
abbrev InTree : ℕ → Type 0
InTree x = (1000 ≤ x) × (x < 1032)

reads_varint-Keeps : (fn : ℕ) (f : Field) (arg : ℕ) → Keeps InTree (tree_env.call_decode fn f arg)
unfolding reads_varint
reads_varint-Keeps fn f arg s = by_outcome s.mem (pb_decode_varint s.input)
  where
    by_outcome :
        (m : Memory) (o : Outcome Istream ℕ)
        → Kept InTree m (continue (with_mem m o) (λ v. pure tt))
    by_outcome m (ok v i) = λ x out. refl
    by_outcome m (fail i) = λ x out. refl
    by_outcome m fault = tt
    by_outcome m stuck = tt

narrow : (f : Field) → (pb_ltype f.type ≡ 0) ⊎ (pb_ltype f.type ≡ 7) → IsWide f
narrow f h = record {
  four = λ e. absurd (omega (arith, e, h));
  eight = λ e. absurd (omega (arith, e, h));
}

leaf-IsLaidOut : IsLaidOut tree_env 1 leaf 4
unfolding IsLaidOut iter_at pb_field_iter_begin
leaf-IsLaidOut zero entry = (
  record {
    data_at = 0;
    size_at = 0;
    at_data = λ dest. omega arith;
    at_size = λ dest. omega arith;
    item = omega arith;
    items = λ e. absurd (omega (arith, e));
    pointer = λ e. absurd (omega (arith, e));
    flag = λ e. absurd (omega (arith, e));
    count = λ e. absurd (omega (arith, e));
    which = λ e. absurd (omega (arith, e));
    wide = narrow _ (inl (omega arith));
  },
  λ e. absurd (omega (arith, e)),
)
leaf-IsLaidOut (suc i) (inl lt) = absurd (omega arith)
leaf-IsLaidOut (suc i) (inr (e, empty)) = absurd (omega (arith, e))

tree-IsLaidOut : IsLaidOut tree_env 2 tree 32
unfolding IsLaidOut iter_at pb_field_iter_begin step_to
tree-IsLaidOut zero entry = (
  record {
    data_at = 0;
    size_at = 0;
    at_data = λ dest. omega arith;
    at_size = λ dest. omega arith;
    item = omega arith;
    items = λ e. absurd (omega (arith, e));
    pointer = λ e. absurd (omega (arith, e));
    flag = λ e. absurd (omega (arith, e));
    count = λ e. absurd (omega (arith, e));
    which = λ e. absurd (omega (arith, e));
    wide = narrow _ (inl (omega arith));
  },
  λ e. absurd (omega (arith, e)),
)
tree-IsLaidOut (suc zero) entry = (
  record {
    data_at = 8;
    size_at = 4;
    at_data = λ dest. omega arith;
    at_size = λ dest. omega arith;
    item = omega arith;
    items = λ e. absurd (omega (arith, e));
    pointer = λ e. absurd (omega (arith, e));
    flag = λ e. omega arith;
    count = λ e. absurd (omega (arith, e));
    which = λ e. absurd (omega (arith, e));
    wide = narrow _ (inr (omega arith));
  },
  λ e. leaf-IsLaidOut,
)
tree-IsLaidOut (suc (suc zero)) entry = (
  record {
    data_at = 16;
    size_at = 16;
    at_data = λ dest. omega arith;
    at_size = λ dest. omega arith;
    item = omega arith;
    items = λ e. absurd (omega (arith, e));
    pointer = λ e. absurd (omega (arith, e));
    flag = λ e. omega arith;
    count = λ e. absurd (omega (arith, e));
    which = λ e. absurd (omega (arith, e));
    wide = narrow _ (inl (omega arith));
  },
  λ e. absurd (omega (arith, e)),
)
tree-IsLaidOut (suc (suc (suc i))) (inl lt) = absurd (omega arith)
tree-IsLaidOut (suc (suc (suc i))) (inr (e, empty)) = absurd (omega (arith, e))

keeps_outside_tree : IsKept InTree (pb_decode tree_env 2 tree 1000)
keeps_outside_tree =
    pb_decode-IsKept InTree tree_env reads_varint-IsReader reads_varint-Keeps 2 tree 1000 32
      tree-IsDecodable tree-IsLaidOut (λ x low high. (low, high))
