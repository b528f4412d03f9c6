-- ===== src/Format/Reads/Messages.antt =====
-- pb_decode_noinit and pb_decode read a whole message.
use breakpoint.Base.{ℕ, zero, suc, ◌+◌, ◌^◌, ◌<◌, ap, ◌∙◌, Option, List, ◌++◌, length, arith}
use breakpoint.Errors.{ErrMsg}
use breakpoint.Outcome.{◌>>◌, continue}
use breakpoint.Input.Reading.{reading}
use breakpoint.Memory.{Memory}
use breakpoint.Descriptor.{Field, field_at}
use breakpoint.FieldIter.Layout.{iter_at}
use breakpoint.Decoder.{Env}
use breakpoint.Decoder.Defaults.{pb_message_set_to_defaults}
use breakpoint.Decoder.Fields.{Nested}
use breakpoint.Decoder.Messages.{pb_decode_noinit, pb_decode}
use breakpoint.RoundTrip.Widths.{IsBytes}
use breakpoint.Format.{message_bytes}
use breakpoint.Format.Plain.{IsPlain}
use breakpoint.Format.Agrees.{
  Agrees, Agrees-Alike, IsCleared, IsFilled, IsCleared-Alike, OnlyIn-wider,
}
use breakpoint.Format.Cleared.Messages.{pb_message_set_to_defaults-IsCleared}
use breakpoint.Format.Reads.{Reads}
use breakpoint.Format.Reads.Frames.{Setting}
use breakpoint.Format.Reads.Levels.{level-Reads}

module _ (env : Env) (m0 : Memory) (bytes : IsBytes m0) where
  abbrev message : ℕ → List Field → ℕ → List ℕ
  message n fields src = message_bytes env.fields_at n fields src m0

  -- What pb_decode_noinit does on the message at `src`, into a structure whose flags are at 0.
  abbrev NoinitReads : ℕ → List Field → ℕ → ℕ → ℕ → Type 0
  NoinitReads n fields size src dest =
      length (message n fields src) < 2 ^ 32
      → (rest : List ℕ) (e : Option ErrMsg) (m : Memory) → IsCleared env.fields_at n fields dest m
      → Reads (pb_decode_noinit env n fields dest)
          (reading (message n fields src ++ rest) (length (message n fields src)) e)
          (reading rest 0 e) dest (dest + size) m
          (λ m'. Agrees env.fields_at n fields src m0 dest m')

  abbrev nested_at : ℕ → Nested
  nested_at n = record {
    decode = λ gs d. pb_message_set_to_defaults env n gs d >> (λ t. pb_decode_noinit env n gs d t);
    decode_noinit = λ gs d t. pb_decode_noinit env n gs d t;
    set_to_defaults = pb_message_set_to_defaults env n;
  }

  pub pb_decode_noinit-Reads :
      (n : ℕ) (fields : List Field) (size src dest : ℕ)
      → IsPlain env.fields_at n fields size
      → IsFilled env.fields_at n fields src m0
      → NoinitReads n fields size src dest
  unfolding pb_decode_noinit message_bytes IsPlain IsFilled IsCleared Agrees
  pb_decode_noinit-Reads zero fields size src dest plain filled = absurd plain
  pb_decode_noinit-Reads (suc n) fields size src dest (bound, fits, few, distinct, plain) filled =
      λ short rest e m clear.
        let at = env.fields_at in
        let child = λ (i : ℕ). at (field_at fields i).ptr in
        let setting : Setting env (nested_at n) (λ fs p l. message_bytes at n fs p l)
            (λ fs p l. IsCleared at n fs p l) (λ fs p l p' l'. Agrees at n fs p l p' l') m0 fields
            src dest =
          record {
            bytes = bytes;
            bound = bound;
            few = few;
            distinct = distinct;
            plain = λ i lt. (plain i lt).0;
            filled = λ i lt present. (filled i lt present).0;
            below = λ i lt present l.
                pb_decode_noinit-Reads n (child i) (field_at fields i).data_size
                  (iter_at fields src i).p_data (iter_at fields dest i).p_data ((plain i lt).1 l)
                  ((filled i lt present).1 l);
            stable = λ i lt l m1 m2.
                IsCleared-Alike at n (child i) (field_at fields i).data_size
                  (iter_at fields dest i).p_data m1 m2 ((plain i lt).1 l);
            settled = λ i lt l m1 m2.
                Agrees-Alike at n (child i) (field_at fields i).data_size
                  (iter_at fields src i).p_data (iter_at fields dest i).p_data m0 m1 m2
                  ((plain i lt).1 l);
          } in
        let (m', run, only, same) =
          level-Reads env (nested_at n) n (λ fs p l. message_bytes at n fs p l)
            (λ fs p l. IsCleared at n fs p l) (λ fs p l p' l'. Agrees at n fs p l p' l') m0 fields
            src dest setting rest e m short (λ j low up. clear j up) in
        (
          m',
          run,
          OnlyIn-wider _ _ dest (dest + size) m m' (omega arith) (omega (arith, fits)) only,
          λ i lt. same i (omega arith) lt,
        )

  -- pb_decode sets the flags itself.
  pub pb_decode-Reads :
      (n : ℕ) (fields : List Field) (size src dest : ℕ)
      → IsPlain env.fields_at n fields size
      → IsFilled env.fields_at n fields src m0
      → length (message n fields src) < 2 ^ 32
      → (rest : List ℕ) (e : Option ErrMsg) (m : Memory)
      → Reads
          (pb_decode env n fields dest)
          (reading (message n fields src ++ rest) (length (message n fields src)) e)
          (reading rest 0 e)
          dest
          (dest + size)
          m
          (λ m'. Agrees env.fields_at n fields src m0 dest m')
  unfolding pb_decode
  pb_decode-Reads n fields size src dest plain filled short rest e m =
      let input = reading (message n fields src ++ rest) (length (message n fields src)) e in
      let (m1, run, only, clear) =
        pb_message_set_to_defaults-IsCleared env input n fields size dest plain m in
      let (m', run', only', same) =
        pb_decode_noinit-Reads n fields size src dest plain filled short rest e m1 clear in
      (
        m',
        ap (λ o. continue o (λ _. pb_decode_noinit env n fields dest)) run ∙ run',
        (λ x out. only' x out ∙ only x out),
        same,
      )
