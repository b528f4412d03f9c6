-- ===== src/Decoder/Kept/Messages.antt =====
-- Decoding a whole message writes where the message is, and where the callbacks may write.
use breakpoint.Decoder.Decodable.{there-IsDecodable}
use breakpoint.Base.{ℕ, zero, suc, ◌+◌, List}
use breakpoint.Outcome.{◌>>◌}
use breakpoint.Descriptor.{Field, field_at}
use breakpoint.Decoder.{Env}
use breakpoint.Decoder.Fields.{Nested}
use breakpoint.Decoder.Defaults.{pb_message_set_to_defaults}
use breakpoint.Decoder.Required.Count.{IsEntry}
use breakpoint.Decoder.Messages.{pb_decode_noinit, pb_decode}
use breakpoint.Decoder.Decodable.{IsDecodable, decoder-IsDecodable, below-IsDecodable}
use breakpoint.Decoder.Steady.{IsSteady-bind}
use breakpoint.Decoder.Steady.Fields.{Suits}
use breakpoint.Decoder.Steady.Callbacks.{IsReader}
use breakpoint.Decoder.Steady.Defaults.{pb_message_set_to_defaults-IsSteady}
use breakpoint.Decoder.Steady.Messages.{pb_decode_noinit-IsSteady}
use breakpoint.Decoder.Kept.{Owns, IsKept, IsKept-bind}
use breakpoint.Decoder.Kept.Callbacks.{Keeps}
use breakpoint.Decoder.Kept.Layout.{IsLaidOut, InStruct-IsLaidOut, below-IsLaidOut}
use breakpoint.Decoder.Kept.Rounds.{decode_level-IsKept}
use breakpoint.Decoder.Kept.Settings.{pb_message_set_to_defaults-IsKept}

module _ (Own : ℕ → Type 0) where
  module _ (env : Env)
      (readers : (fn : ℕ) (f : Field) (arg : ℕ) → IsReader (env.call_decode fn f arg))
      (calls : (fn : ℕ) (f : Field) (arg : ℕ) → Keeps Own (env.call_decode fn f arg)) where
    -- What pb_decode_noinit hands to the level above.
    abbrev levels : ℕ → Nested
    levels n = record {
      decode =
          λ fs d. pb_message_set_to_defaults env n fs d >> (λ t. pb_decode_noinit env n fs d t);
      decode_noinit = λ fs d t. pb_decode_noinit env n fs d t;
      set_to_defaults = pb_message_set_to_defaults env n;
    }

    levels-Suits :
        (n : ℕ) (fields : List Field)
        → IsDecodable env (suc n) fields
        → (i : ℕ) → IsEntry fields i
        → Suits env (levels n) (field_at fields i)
    levels-Suits n fields h i entry = record {
      decoder = decoder-IsDecodable env n fields h i entry;
      there = there-IsDecodable env n fields h i entry;
      below = λ e.
          let nested = below-IsDecodable env n fields h i entry e in
          let fs = env.fields_at (field_at fields i).ptr in
          record {
            decode = λ d.
                IsSteady-bind _ _ (pb_message_set_to_defaults-IsSteady n env fs d nested)
                  (λ _. pb_decode_noinit-IsSteady env readers n fs d nested);
            decode_noinit = λ d. pb_decode_noinit-IsSteady env readers n fs d nested;
            set_to_defaults = λ d. pb_message_set_to_defaults-IsSteady n env fs d nested;
          };
    }

    pb_decode_noinit-IsKept :
        (n : ℕ) (fields : List Field) (dest size : ℕ)
        → IsDecodable env n fields
        → IsLaidOut env n fields size
        → Owns Own dest (dest + size)
        → IsKept Own (pb_decode_noinit env n fields dest)
    unfolding pb_decode_noinit
    pb_decode_noinit-IsKept zero fields dest size h laid own = absurd (unfold IsDecodable in h)
    pb_decode_noinit-IsKept (suc n) fields dest size h laid own =
        decode_level-IsKept Own env readers calls (levels n) n fields dest size h laid own
          (levels-Suits n fields h)
          λ i entry. record {
            wide = (InStruct-IsLaidOut env n fields size laid i entry).wide;
            below = λ e.
                let nested = below-IsDecodable env n fields h i entry e in
                let inner = below-IsLaidOut env n fields size laid i entry e in
                let fs = env.fields_at (field_at fields i).ptr in
                let width = (field_at fields i).data_size in
                record {
                  decode = λ d o.
                      IsKept-bind Own _ _ (pb_message_set_to_defaults-IsSteady n env fs d nested)
                        (pb_message_set_to_defaults-IsKept Own n env fs d width nested inner o)
                        (λ _. pb_decode_noinit-IsKept n fs d width nested inner o);
                  decode_noinit = λ d o. pb_decode_noinit-IsKept n fs d width nested inner o;
                  set_to_defaults =
                      λ d o. pb_message_set_to_defaults-IsKept Own n env fs d width nested inner o;
                };
          }

    -- pb_decode, for a message that can be decoded into a structure of `size` bytes, and callbacks that
    -- read as they should and write where they may: from any sound buffer, whatever the bytes are and
    -- whether it returns true or false, no byte of memory changes but those that may be written, if all
    -- of the structure may.
    pub pb_decode-IsKept :
        (n : ℕ) (fields : List Field) (dest size : ℕ)
        → IsDecodable env n fields
        → IsLaidOut env n fields size
        → Owns Own dest (dest + size)
        → IsKept Own (pb_decode env n fields dest)
    unfolding pb_decode
    pb_decode-IsKept n fields dest size h laid own =
        IsKept-bind Own _ _ (pb_message_set_to_defaults-IsSteady n env fields dest h)
          (pb_message_set_to_defaults-IsKept Own n env fields dest size h laid own)
          (λ _. pb_decode_noinit-IsKept n fields dest size h laid own)
