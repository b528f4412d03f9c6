-- ===== src/Decoder/Steady/Delimited.antt =====
-- Where pb_decode_delimited leaves the stream: behind the bytes that its length announced.
use breakpoint.Base.{
  ℕ, ◌+◌, ◌≤◌, ◌≡◌, length, length-drop, ltb, arith, Bool-cases, inl, inr, ltb→le, refl, List,
}
use breakpoint.Outcome.{Outcome, ok, fail, fault, stuck, M, continue}
use breakpoint.Input.{Istream}
use breakpoint.Input.Reading.{IsSound}
use breakpoint.Input.Safety.{Safe}
use breakpoint.Wire.{split_off, pb_decode_varint32, pb_make_string_substream}
use breakpoint.Wire.Safety.{pb_decode_varint32-IsSafe}
use breakpoint.Wire.Substreams.{sub_size_lem, pb_close_string_substream_lem}
use breakpoint.Memory.{Memory}
use breakpoint.Descriptor.{Field}
use breakpoint.Decoder.{DecState, Env, with_mem}
use breakpoint.Decoder.Decodable.{IsDecodable}
use breakpoint.Decoder.Steady.{Steady, IsSteady}
use breakpoint.Decoder.Steady.Callbacks.{IsReader}
use breakpoint.Decoder.Steady.Messages.{pb_decode-IsSteady, pb_decode_delimited-IsSteady}
use breakpoint.Decoder.Fields.{close_after, in_substream}
use breakpoint.Decoder.Messages.{pb_decode, pb_decode_delimited}

-- With true, the stream stands `size` bytes behind `j`, in its pointer and in its count.
abbrev pub EndsBehind : ℕ → Istream → Outcome DecState (Unit {0}) → Type 0
EndsBehind size j (ok _ t) =
    (t.input.bytes_left + size ≡ j.bytes_left) × (length t.input.state + size ≡ length j.state)
EndsBehind size j (fail t) = Unit
EndsBehind size j fault = ⊥
EndsBehind size j stuck = ⊥

abbrev pub HasFailed : Outcome DecState (Unit {0}) → Type 0
HasFailed (ok _ t) = ⊥
HasFailed (fail t) = Unit
HasFailed fault = ⊥
HasFailed stuck = ⊥

-- A step that first reads a length: if that fails, it fails; else it ends behind as many bytes.
abbrev pub Delimited : Outcome Istream ℕ → Outcome DecState (Unit {0}) → Type 0
Delimited (ok size j) o = EndsBehind size j o
Delimited (fail j) o = HasFailed o
Delimited fault o = ⊥
Delimited stuck o = ⊥

closed :
    (size : ℕ) (j sub parent : Istream) (o : Outcome DecState (Unit {0}))
    → sub.bytes_left ≡ size
    → length sub.state ≡ length j.state
    → parent.bytes_left + size ≡ j.bytes_left
    → Steady sub o
    → EndsBehind size j (close_after parent o)
closed size j sub parent (ok a t) left same total p =
    rw (pb_close_string_substream_lem t.input parent p.sound) (
      total,
      omega (
        arith,
        length-drop t.input.bytes_left t.input.state,
        p.in_step,
        p.sound.within,
        left,
        same,
      ),
    )
closed size j sub parent (fail t) left same total p =
    rw (pb_close_string_substream_lem t.input parent p.sound) tt
closed size j sub parent fault left same total p = p
closed size j sub parent stuck left same total p = p

module _ (m : Memory) (body : M DecState (Unit {0})) (steady : IsSteady body) where
  split_off-EndsBehind :
      (size : ℕ) (j : Istream)
      → IsSound j
      → EndsBehind size j (continue (with_mem m (split_off size j)) λ sub. in_substream sub body)
  unfolding split_off
  split_off-EndsBehind size j sound = elim (Bool-cases (ltb j.bytes_left size)) [
    | inl short ↦ rw short tt
    | inr fits ↦
        let le : size ≤ j.bytes_left = ltb→le j.bytes_left size fits in
        rw (fits, sub_size_lem j.bytes_left size le sound.size)
          (closed size j (record j { bytes_left = size }) _ _ refl refl (omega (arith, le))
            (steady.at (record { input = record j { bytes_left = size }; mem = m })
              (record {
                buffer = sound.buffer;
                within = omega (arith, le, sound.within);
                size = omega (arith, le, sound.size);
              })))
  ]

  opened :
      (i : Istream) (o : Outcome Istream ℕ)
      → Safe i o
      → Delimited o (continue (with_mem m (continue o split_off)) λ sub. in_substream sub body)
  opened i (ok size j) p = split_off-EndsBehind size j p.sound
  opened i (fail j) p = tt
  opened i fault p = p
  opened i stuck p = p

-- pb_decode_delimited, for a message that can be decoded and callbacks that read as they should: from
-- any sound buffer it returns. If the length cannot be read, it returns false. With true the stream has
-- moved forward inside the buffer, and its pointer and its count stand behind the length and as many
-- bytes as it announced, however many of them were read. With false it is sound.
pub pb_decode_delimited-Delimited :
    (env : Env)
    → ((fn : ℕ) (f : Field) (arg : ℕ) → IsReader (env.call_decode fn f arg))
    → (n : ℕ) (fields : List Field) (dest : ℕ) (s : DecState) → IsDecodable env n fields
    → IsSound s.input
    → Steady s.input (pb_decode_delimited env n fields dest s)
      × Delimited (pb_decode_varint32 s.input) (pb_decode_delimited env n fields dest s)
unfolding pb_decode_delimited pb_make_string_substream
pb_decode_delimited-Delimited env calls n fields dest s h sound = (
  (pb_decode_delimited-IsSteady env calls n fields dest h).at s sound,
  opened s.mem (pb_decode env n fields dest) (pb_decode-IsSteady env calls n fields dest h) s.input
      (pb_decode_varint32 s.input) (pb_decode_varint32-IsSafe.at s.input sound),
)
