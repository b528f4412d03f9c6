-- ===== src/Wire/Substreams.antt =====
-- Substreams: opening one, and closing it after its reads.
use breakpoint.Base.{
  ℕ, ◌+◌, ◌-◌, ◌^◌, ◌≤◌, ◌<◌, ◌≡◌, refl, ltb, ◌==◌, arith, Bool-cases, inl, inr, length, ltb→le,
  ==_iff, ap, sym, drop, length-drop, ltb_irrefl,
}
use breakpoint.Errors.{parent_stream_too_short}
use breakpoint.Outcome.{Outcome, ok, fail, fault, stuck, continue}
use breakpoint.Input.{Istream, buf_read, sub_size}
use breakpoint.Input.Reading.{IsSound}
use breakpoint.Input.Safety.{Safe, Follows, Follows-trans, error-Safe, pb_read_null_sound}
use breakpoint.Wire.{
  split_off, pb_decode_varint32, pb_make_string_substream, pb_close_string_substream,
}
use breakpoint.Wire.Safety.{pb_decode_varint32-IsSafe}

-- A substream is sound and stands at the parent's pointer, and the parent has counted its bytes.
pub record IsSubstream (s parent sub : Istream) : Type 0 where
  pub sound : IsSound sub
  pub state_length : length sub.state ≡ length parent.state
  pub left : parent.bytes_left + sub.bytes_left ≤ s.bytes_left
  pub room : parent.bytes_left + sub.bytes_left ≤ length parent.state
  pub in_step :
      length parent.state + s.bytes_left ≡ length s.state + parent.bytes_left + sub.bytes_left
  pub buffer : parent.callback ≡ buf_read
  pub size : parent.bytes_left < 2 ^ 64

abbrev pub MadeFrom : Istream → Outcome Istream Istream → Type 0
MadeFrom s (ok sub parent) = IsSubstream s parent sub
MadeFrom s (fail t) = Follows s t
MadeFrom s fault = ⊥
MadeFrom s stuck = ⊥

pub sub_size_lem : (a b : ℕ) → b ≤ a → a < 2 ^ 64 → sub_size a b ≡ a - b
sub_size_lem a b h k = omega arith

split_off-MadeFrom : (size : ℕ) (s t : Istream) → Follows s t → MadeFrom s (split_off size t)
unfolding split_off
split_off-MadeFrom size s t f = elim (Bool-cases (ltb t.bytes_left size)) [
  | inl short ↦
      rw short (Follows-trans s t _ f (error-Safe (Unit {0}) parent_stream_too_short t f.sound))
  | inr fits ↦
      rw (fits, sub_size_lem t.bytes_left size (ltb→le _ _ fits) f.sound.size)
        (record {
          sound = record {
            buffer = f.sound.buffer;
            within = omega (arith, ltb→le t.bytes_left size fits);
            size = omega (arith, ltb→le t.bytes_left size fits);
          };
          state_length = refl;
          left = omega (arith, ltb→le t.bytes_left size fits);
          room = omega (arith, ltb→le t.bytes_left size fits);
          in_step = omega (arith, ltb→le t.bytes_left size fits);
          buffer = f.sound.buffer;
          size = omega arith;
        })
]

made : (s : Istream) (o : Outcome Istream ℕ) → Safe s o → MadeFrom s (continue o split_off)
made s (ok size t) p = split_off-MadeFrom size s t p
made s (fail t) p = p
made s fault p = p
made s stuck p = p

-- pb_make_string_substream, from any sound buffer: it returns, and if with true, the substream is
-- sound, stands at the parent's pointer, and the parent's count has fallen by what was read and by the
-- substream's count. If with false, the stream has moved forward inside the buffer.
pub pb_make_string_substream-MadeFrom :
    (s : Istream) → IsSound s → MadeFrom s (pb_make_string_substream s)
unfolding pb_make_string_substream
pb_make_string_substream-MadeFrom s h =
    made s (pb_decode_varint32 s) (pb_decode_varint32-IsSafe.at s h)

-- pb_close_string_substream succeeds on any sound substream: it moves the parent's pointer past what
-- the substream had left, and takes over its error message.
pub pb_close_string_substream_lem :
    (sub parent : Istream)
    → IsSound sub
    → pb_close_string_substream sub parent
      ≡ ok tt (record parent { state = drop sub.bytes_left sub.state; errmsg = sub.errmsg })
unfolding pb_close_string_substream
pb_close_string_substream_lem sub parent h = elim (Bool-cases (sub.bytes_left == 0)) [
  | inl empty ↦
      let e : sub.bytes_left ≡ 0 = (==_iff sub.bytes_left 0).0 empty in
      rw empty
        (ap (λ n. ok tt (record parent { state = drop n sub.state; errmsg = sub.errmsg })) (sym e))
  | inr left ↦ rw (left, pb_read_null_sound sub.bytes_left sub h, ltb_irrefl sub.bytes_left)
]

-- After any reads from a substream that pb_make_string_substream made, closing it leaves the parent
-- sound, with its pointer as far forward as its count has fallen since the substream was opened.
pub close-Follows :
    (s parent sub sub' : Istream)
    → IsSubstream s parent sub
    → Follows sub sub'
    → Safe s (pb_close_string_substream sub' parent)
close-Follows s parent sub sub' p f =
    rw (pb_close_string_substream_lem sub' parent f.sound) (record {
      sound = record {
        buffer = p.buffer;
        within = omega (arith, length-drop sub'.bytes_left sub'.state);
        size = p.size;
      };
      fewer = omega arith;
      in_step = omega (arith, length-drop sub'.bytes_left sub'.state);
    })
