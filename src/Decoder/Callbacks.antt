-- ===== src/Decoder/Callbacks.antt =====
-- Callback fields and the choice by allocation type (Pods/nanopb/pb_decode.c).
use breakpoint.Base.{ℕ, zero, suc, ◌+◌, true, false, ◌==◌, if◌then◌else◌, length}
use breakpoint.Errors.{set_error, invalid_field_type, no_malloc_support, callback_failed}
use breakpoint.Outcome.{Outcome, ok, fail, fault, stuck, M, ◌>>=◌, ◌>>◌}
use breakpoint.Input.{Istream, pb_istream_from_buffer}
use breakpoint.Wire.{pb_wt_string, pb_skip_field, read_raw_value, pb_make_string_substream}
use breakpoint.Memory.{load}
use breakpoint.Descriptor.{pb_atype}
use breakpoint.Descriptor.AType
use breakpoint.FieldIter.{Iter, field}
use breakpoint.Decoder.{DecState, Env, return_error, on_input, read_mem}
use breakpoint.Decoder.Fields.{Nested, close_after, decode_static_field}

abbrev pub callback_again : M DecState (Unit {0}) → M DecState (Unit {0})
callback_again more s = elim (s.input.bytes_left == 0) [ true ↦ ok tt s | false ↦ more s ]

-- `do { callback(&substream) } while (substream.bytes_left)`. A callback that takes nothing runs
-- for ever; one that takes a byte in each round ends within `bytes_left + 1` rounds.
unfoldable pub callback_loop : ℕ → M DecState (Unit {0}) → M DecState (Unit {0})
callback_loop zero callback s = stuck
callback_loop (suc n) callback s = (do callback; callback_again (λ t. callback_loop n callback t)) s

abbrev pub callback_end : Istream → Outcome DecState (Unit {0}) → Outcome DecState (Unit {0})
callback_end parent (ok _ t) = close_after parent (ok tt t)
callback_end parent (fail t) = fail (record {
  input = record parent { errmsg = set_error parent.errmsg callback_failed };
  mem = t.mem;
})
callback_end parent fault = fault
callback_end parent stuck = stuck

-- The stream on the stack is dropped; what the callback did to memory and its result stay.
abbrev pub scalar_end : Istream → Outcome DecState (Unit {0}) → Outcome DecState (Unit {0})
scalar_end stream (ok _ t) = ok tt (record { input = stream; mem = t.mem })
scalar_end stream (fail t) = fail (record { input = stream; mem = t.mem })
scalar_end stream fault = fault
scalar_end stream stuck = stuck

module _ (env : Env) where
  -- A pb_callback_t is the function and behind it its `arg`; a call reads the function from memory,
  -- which an earlier call may have changed.
  abbrev pub run_callback : Iter → M DecState (Unit {0})
  run_callback it s = env.call_decode (load 8 it.p_data s.mem) (field it) (it.p_data + 8) s

  unfoldable pub decode_callback_field : ℕ → Iter → M DecState (Unit {0})
  decode_callback_field wire_type it = do
    fn ← read_mem (load 8 it.p_data)
    if fn == 0
        then on_input (pb_skip_field wire_type)
        else if wire_type == pb_wt_string
        then (do
          sub ← on_input pb_make_string_substream
          λ s.
              callback_end s.input
                (callback_loop (suc sub.bytes_left) (run_callback it) (record s { input = sub })))
        else (do
          buffer ← on_input (read_raw_value wire_type 10)
          λ s. scalar_end s.input (
              run_callback it (record s { input = pb_istream_from_buffer buffer (length buffer) })))

  module _ (nested : Nested) where
    unfoldable pub decode_field : ℕ → Iter → M DecState (Unit {0})
    decode_field wire_type it =
        let atype = pb_atype (field it).type in
        if atype == AType.static
        then decode_static_field env nested wire_type it
        else if atype == AType.pointer
        then return_error no_malloc_support
        else if atype == AType.callback
        then decode_callback_field wire_type it
        else return_error invalid_field_type
