-- ===== src/Decoder/Messages.antt =====
-- Extensions and whole messages (Pods/nanopb/pb_decode.c): default_extension_decoder,
-- decode_extension, pb_decode_noinit, pb_decode and pb_decode_delimited.
use breakpoint.Base.{
  ℕ, zero, suc, Bool, true, false, ◌&&◌, not, ltb, ◌==◌, if◌then◌else◌, Option, none, some, List,
}
use breakpoint.Errors.{missing_required_field}
use breakpoint.Outcome.{ok, fault, stuck, M, pure, ◌>>=◌, ◌>>◌}
use breakpoint.Wire.{Tag, at_eof, field_tag, pb_decode_tag, pb_skip_field, pb_make_string_substream}
use breakpoint.Memory.{load, store}
use breakpoint.Descriptor.{Field, field_at, pb_size_max}
use breakpoint.FieldIter.{
  Iter, field, pb_field_iter_begin, pb_field_iter_find, find_extension_field,
}
use breakpoint.Decoder.{DecState, Env, return_error, on_input, on_mem, read_mem}
use breakpoint.Decoder.Defaults.{
  iter_from_extension, extension_fields, extension_found, extension_next,
  pb_message_set_to_defaults,
}
use breakpoint.Decoder.Fields.{Nested, in_substream}
use breakpoint.Decoder.Callbacks.{decode_field}
use breakpoint.Decoder.Required.{
  Loop, mark_seen, required_fields, complete, missing, undefined, Verdict,
}

module _ (env : Env) (nested : Nested) where
  -- `extension->found = true` comes after the iterator is set up, which does not read it.
  unfoldable pub default_extension_decoder : ℕ → ℕ → ℕ → M DecState (Unit {0})
  default_extension_decoder ext tag wire_type s =
      if not ((field_at (extension_fields env ext s.mem) 0).tag == tag)
      then ok tt s
      else (do
        it ← read_mem (iter_from_extension env ext)
        on_mem (store 1 (extension_found ext) 1)
        decode_field env nested wire_type it)
          s

  unfoldable pub decode_one_extension : ℕ → ℕ → ℕ → M DecState (Unit {0})
  decode_one_extension ext tag wire_type s =
      let fn = (env.extension_type (load 8 ext s.mem)).decode in
      if fn == 0
      then default_extension_decoder ext tag wire_type s
      else env.call_extension fn ext tag wire_type s

  -- `while (extension != NULL && pos == stream->bytes_left)`, for a list no longer than the fuel
  unfoldable pub extension_loop : ℕ → ℕ → ℕ → ℕ → ℕ → M DecState (Unit {0})
  extension_loop zero left tag wire_type ext s = stuck
  extension_loop (suc n) left tag wire_type ext s =
      let rest =
        (do
          decode_one_extension ext tag wire_type
          next ← read_mem (load 8 (extension_next ext))
          extension_loop n left tag wire_type next)
          s in
      if not (ext == 0) && left == s.input.bytes_left then rest else ok tt s

  unfoldable pub decode_extension : ℕ → ℕ → ℕ → Iter → M DecState (Unit {0})
  decode_extension n tag wire_type it = do
    ext ← read_mem (load 8 it.p_data)
    left ← λ s. ok s.input.bytes_left s
    extension_loop n left tag wire_type ext

-- After the do-while: the iterator is where pb_field_iter_find left it.
abbrev pub skip_unknown : Loop → ℕ → M DecState Loop
skip_unknown l wire_type = do on_input (pb_skip_field wire_type); pure l

abbrev bytes_left : M DecState ℕ
bytes_left s = ok s.input.bytes_left s

module _ (env : Env) (nested : Nested) (n : ℕ) where
  -- `tag >= extension_range_start`, once an extension field was looked for.
  abbrev pub try_extension : ℕ → ℕ → Loop → Option (Iter × Bool) → M DecState Loop
  try_extension tag wire_type l none = λ s. stuck
  try_extension tag wire_type l (some (it, has)) =
      let start = if has then (field it).tag else pb_size_max in
      let l' = record l { iter = it; extension_range_start = start } in
      if ltb tag start then skip_unknown l' wire_type else (do
        before ← bytes_left
        decode_extension env nested n tag wire_type it
        after ← bytes_left
        if before == after then skip_unknown l' wire_type else pure l')

  -- A tag that no field has.
  unfoldable pub unknown_field : ℕ → ℕ → Loop → M DecState Loop
  unknown_field tag wire_type l =
      if ltb tag l.extension_range_start
      then skip_unknown l wire_type
      else try_extension tag wire_type l (find_extension_field l.iter)

  abbrev pub found_or_not : ℕ → ℕ → Loop → Option (Iter × Bool) → M DecState Loop
  found_or_not tag wire_type l none = λ s. stuck
  found_or_not tag wire_type l (some (it, false)) =
      unknown_field tag wire_type (record l { iter = it })
  found_or_not tag wire_type l (some (it, true)) = do
    let l' = mark_seen (record l { iter = it })
    decode_field env nested wire_type it
    pure l'

  -- One round of the loop, behind its tag.
  unfoldable pub one_field : ℕ → ℕ → Loop → M DecState Loop
  one_field tag wire_type l = found_or_not tag wire_type l (pb_field_iter_find l.iter tag)

  abbrev pub loop_on : (Loop → M DecState Loop) → Loop → Tag → M DecState Loop
  loop_on again l at_eof = pure l
  loop_on again l (field_tag wire_type tag) = do l' ← one_field tag wire_type l; again l'

  -- `while (stream->bytes_left)`; every round takes a byte, for its tag.
  unfoldable pub decode_loop : ℕ → Loop → M DecState Loop
  decode_loop zero l s = stuck
  decode_loop (suc k) l s =
      let rest = (do t ← on_input pb_decode_tag; loop_on (λ l' s'. decode_loop k l' s') l t) s in
      if s.input.bytes_left == 0 then ok l s else rest

abbrev pub verdict_of : Option Verdict → M DecState (Unit {0})
verdict_of none = λ s. stuck
verdict_of (some complete) = pure tt
verdict_of (some missing) = return_error missing_required_field
verdict_of (some undefined) = λ s. fault

module _ (env : Env) where
  -- One level of pb_decode_noinit, over the functions for the levels below.
  unfoldable pub decode_level : Nested → ℕ → List Field → ℕ → M DecState (Unit {0})
  decode_level nested n fields dest s =
      (do
        l ← decode_loop env nested n (suc s.input.bytes_left) (record {
          iter = (pb_field_iter_begin fields dest).0;
          seen_low = 0;
          seen_high = 0;
          extension_range_start = 0;
        })
        verdict_of (required_fields l))
        s

  -- pb_decode and pb_decode_noinit call each other through the decoders of submessages. The first
  -- parameter bounds that nesting, and the length of a list of extensions.
  unfoldable pub pb_decode_noinit : ℕ → List Field → ℕ → M DecState (Unit {0})
  pb_decode_noinit zero fields dest s = stuck
  pb_decode_noinit (suc n) fields dest s =
      decode_level
        (record {
          decode =
              λ fs d. pb_message_set_to_defaults env n fs d >> (λ t. pb_decode_noinit n fs d t);
          decode_noinit = λ fs d t. pb_decode_noinit n fs d t;
          set_to_defaults = pb_message_set_to_defaults env n;
        })
        n fields dest s

  unfoldable pub pb_decode : ℕ → List Field → ℕ → M DecState (Unit {0})
  pb_decode n fields dest = do
    pb_message_set_to_defaults env n fields dest
    pb_decode_noinit n fields dest

  unfoldable pub pb_decode_delimited : ℕ → List Field → ℕ → M DecState (Unit {0})
  pb_decode_delimited n fields dest = do
    sub ← on_input pb_make_string_substream
    in_substream sub (pb_decode n fields dest)
