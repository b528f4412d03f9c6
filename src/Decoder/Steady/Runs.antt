-- ===== src/Decoder/Steady/Runs.antt =====
-- The sample message is decoded.
use breakpoint.Base.{◌≡◌, refl, inl, none, some, [], ◌∷◌, arith}
use breakpoint.FieldIter.Layout.{iter_at}
use breakpoint.Decoder.Required.{Loop, check_required, required_fields}
use breakpoint.Decoder.Required.Count.{count_required, required_fields-count}
use breakpoint.Decoder.Messages.{pb_decode, pb_decode_delimited}
use breakpoint.Input.Reading.{IsSound, reading}
use breakpoint.Wire.{pb_decode_varint32}
use breakpoint.Decoder.{DecState}
use breakpoint.Decoder.Steady.{Steady, IsSteady}
use breakpoint.Decoder.Steady.Delimited.{Delimited, pb_decode_delimited-Delimited}
use breakpoint.Decoder.Steady.Messages.{pb_decode-IsSteady}
use breakpoint.Decoder.Samples.{
  tree, tree_env, reads_varint-IsReader, tree-IsTagged, tree-IsDecodable,
}

decodes_tree : IsSteady (pb_decode tree_env 2 tree 1000)
decodes_tree = pb_decode-IsSteady tree_env reads_varint-IsReader 2 tree 1000 tree-IsDecodable

-- The length 2, the field 1 with the number 5, and a byte that follows.
abbrev announced : DecState
announced = record { input = reading (2 ∷ 8 ∷ 5 ∷ 7 ∷ []) 4 none; mem = λ a. 0 }

announced-IsSound : IsSound announced.input
announced-IsSound = record { buffer = refl; within = omega arith; size = omega arith }

decodes_both_bytes :
    Steady announced.input (pb_decode_delimited tree_env 2 tree 1000 announced)
    × Delimited
        (pb_decode_varint32 announced.input)
        (pb_decode_delimited tree_env 2 tree 1000 announced)
decodes_both_bytes =
    pb_decode_delimited-Delimited tree_env reads_varint-IsReader 2 tree 1000 announced
      tree-IsDecodable announced-IsSound

-- The iterator at the second of the three fields.
abbrev at_second : Loop
at_second = record {
  iter = iter_at tree 1000 1;
  seen_low = 1;
  seen_high = 0;
  extension_range_start = 0;
}

counts_tree : required_fields at_second ≡ some (check_required at_second (count_required tree))
counts_tree = required_fields-count at_second tree 1000 1 tree-IsTagged (inl (omega arith)) refl
