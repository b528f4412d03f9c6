-- ===== src/Output/Runs.antt =====
-- Writes to a buffer of eight bytes, three of them taken, and to a sizing stream.
use breakpoint.Base.{◌+◌, ◌≡◌, none, [], ◌∷◌, length, leb, if◌then◌else◌, arith}
use breakpoint.Errors.{stream_full, set_error}
use breakpoint.Outcome.{ok, fail}
use breakpoint.Output.{Sink, pb_encode_varint}
use breakpoint.Output.Encoding.{varint}
use breakpoint.Output.Writing.{writing, append}
use breakpoint.Output.Fits.{pb_encode_varint-writing}

abbrev sink : Sink
sink = record { written = 1 ∷ 2 ∷ 3 ∷ []; room = 5 }

writes_300 : pb_encode_varint 300 (writing sink 8 3 none) ≡ (
    if leb (3 + length (varint 300)) 8
    then ok tt (writing (append (varint 300) sink) 8 (3 + length (varint 300)) none)
    else fail (writing sink 8 3 (set_error none stream_full)))
writes_300 =
    pb_encode_varint-writing 300 sink 8 3 none (omega arith) (omega arith) (omega arith)
      (omega arith)
