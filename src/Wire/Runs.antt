-- ===== src/Wire/Runs.antt =====
-- Reads from small buffers.
use breakpoint.Base.{◌≡◌, refl, none, some, [], ◌∷◌, arith}
use breakpoint.Errors.{end_of_stream}
use breakpoint.Outcome.{ok}
use breakpoint.Input.{Istream, pb_istream_from_buffer, pb_readbyte}
use breakpoint.Input.Reading.{IsSound, reading}
use breakpoint.Input.Safety.{IsSafe, Safe, Follows}
use breakpoint.Wire.{
  varint_loop, pb_decode_varint, pb_decode_varint32, pb_decode_tag, pb_skip_field, field_tag,
  at_eof, pb_make_string_substream, pb_close_string_substream, split_off,
}
use breakpoint.Wire.Safety.{pb_skip_field-IsSafe}
use breakpoint.Wire.Substreams.{
  IsSubstream, MadeFrom, pb_make_string_substream-MadeFrom, pb_close_string_substream_lem,
  close-Follows,
}
use breakpoint.Wire.Progress.{TagTaken, pb_decode_tag-TagTaken}
use breakpoint.Wire.Truncated.{pb_decode_tag_truncated}

reads_300 :
    pb_decode_varint (pb_istream_from_buffer (0xac ∷ 0x02 ∷ 7 ∷ []) 3)
    ≡ ok 300 (pb_istream_from_buffer (7 ∷ []) 1)
unfolding pb_decode_varint varint_loop pb_readbyte pb_istream_from_buffer
reads_300 = refl

reads_tag :
    pb_decode_tag (pb_istream_from_buffer (0x12 ∷ 7 ∷ []) 2)
    ≡ ok (field_tag 2 2) (pb_istream_from_buffer (7 ∷ []) 1)
unfolding pb_decode_tag pb_decode_varint32 varint_loop pb_readbyte pb_istream_from_buffer
reads_tag = refl

-- Two bytes, counted by a size in front, and one more.
abbrev message : Istream
message = reading (2 ∷ 8 ∷ 5 ∷ 7 ∷ []) 4 none

message-IsSound : IsSound message
message-IsSound = record { buffer = refl; within = omega arith; size = omega arith }

skips_string : IsSafe (pb_skip_field 2)
skips_string = pb_skip_field-IsSafe 2

takes_tag : TagTaken message (pb_decode_tag message)
takes_tag = pb_decode_tag-TagTaken message message-IsSound

opens : MadeFrom message (pb_make_string_substream message)
opens = pb_make_string_substream-MadeFrom message message-IsSound

-- The substream and its parent, and the substream after one byte.
abbrev sub : Istream
sub = reading (8 ∷ 5 ∷ 7 ∷ []) 2 none

abbrev parent : Istream
parent = reading (8 ∷ 5 ∷ 7 ∷ []) 1 none

abbrev sub_later : Istream
sub_later = reading (5 ∷ 7 ∷ []) 1 none

opened : pb_make_string_substream message ≡ ok sub parent
unfolding pb_make_string_substream split_off pb_decode_varint32 varint_loop pb_readbyte
opened = refl

sub-IsSubstream : IsSubstream message parent sub
sub-IsSubstream = record {
  sound = record { buffer = refl; within = omega arith; size = omega arith };
  state_length = refl;
  left = omega arith;
  room = omega arith;
  in_step = refl;
  buffer = refl;
  size = omega arith;
}

later-Follows : Follows sub sub_later
later-Follows = record {
  sound = record { buffer = refl; within = omega arith; size = omega arith };
  fewer = omega arith;
  in_step = refl;
}

closes : pb_close_string_substream sub_later parent ≡ ok tt (reading (7 ∷ []) 1 none)
closes = pb_close_string_substream_lem sub_later parent later-Follows.sound

closed-Safe : Safe message (pb_close_string_substream sub_later parent)
closed-Safe = close-Follows message parent sub sub_later sub-IsSubstream later-Follows

ends_in_tag :
    pb_decode_tag (reading (0x88 ∷ 0x80 ∷ []) 2 none)
    ≡ ok at_eof (reading [] 0 (some end_of_stream))
ends_in_tag =
    pb_decode_tag_truncated (0x88 ∷ 0x80 ∷ []) none (omega arith, (omega arith, tt)) (omega arith)
