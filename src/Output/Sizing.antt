-- ===== src/Output/Sizing.antt =====
-- Steps that a sizing stream counts right: what they append to a buffer has the length that the same
-- step adds to the count of a sizing stream.
use breakpoint.Base.{
  ℕ, ◌+◌, ◌<◌, ◌%◌, ◌||◌, ◌≡◌, refl, sym, ap, ◌∙◌, Bool, true, false, Option, none, some, List, [],
  ◌++◌, length, take, length-take, length-append, ltb, leb, if◌then◌else◌, arith, Bool-cases, inl,
  inr,
}
use mathlib.Core.List.{append-nil, append_assoc}
use breakpoint.Errors.{ErrMsg}
use breakpoint.Outcome.{Outcome, ok, fail, fault, stuck, M, ◌>>=◌, continue}
use breakpoint.Input.{size_mod}
use breakpoint.Output.{
  Ostream, WriteCallback, sizing, buf_write, user_write, return_error, add_size, write_by, pb_write,
  fill_buffer, unset_top_bit, write_buffer, pb_encode_varint, zigzag, pb_encode_svarint,
  pb_encode_fixed32, pb_encode_fixed64, pb_encode_tag, pb_encode_string,
}

-- A stream to a buffer, whose count is a size_t.
pub record IsWriter (s : Ostream) : Type 0 where
  pub callback : s.callback ≡ buf_write
  pub small : s.bytes_written < size_mod

-- A stream that only counts.
pub record IsSizer (z : Ostream) : Type 0 where
  pub callback : z.callback ≡ sizing
  pub small : z.bytes_written < size_mod

-- `t` is `s` with `bytes` behind what was written.
pub record Appends (bytes : List ℕ) (s t : Ostream) : Type 0 where
  pub callback : t.callback ≡ buf_write
  pub written : t.state.written ≡ s.state.written ++ bytes
  pub counted : t.bytes_written ≡ add_size s.bytes_written (length bytes)

-- A sizing stream that has counted `n` bytes more.
abbrev pub ahead : ℕ → Ostream → Ostream
ahead n z = record z { bytes_written = add_size z.bytes_written n }

module _ {A : Type 0} where
  -- A run of `m` on a buffer, if it succeeds, against the runs on sizing streams.
  abbrev pub Sizes : M Ostream A → Ostream → Outcome Ostream A → Type 0
  Sizes m s (ok a t) =
      (bytes : List ℕ) × Appends bytes s t
      × ((z : Ostream) → IsSizer z → m z ≡ ok a (ahead (length bytes) z))
  Sizes m s (fail t) = Unit {0}
  Sizes m s fault = Unit {0}
  Sizes m s stuck = Unit {0}

  -- A run on a sizing stream, if it succeeds.
  abbrev pub Counts : Ostream → Outcome Ostream A → Type 0
  Counts z (ok a t) = (n : ℕ) × (t ≡ ahead n z)
  Counts z (fail t) = Unit {0}
  Counts z fault = Unit {0}
  Counts z stuck = Unit {0}

pub record IsSized {A : Type 0} (m : M Ostream A) : Type 0 where
  pub writing : (s : Ostream) → IsWriter s → Sizes m s (m s)
  pub counting : (z : Ostream) → IsSizer z → Counts z (m z)

pub Appends-trans :
    (bs cs : List ℕ) (s t u : Ostream) → Appends bs s t → Appends cs t u → Appends (bs ++ cs) s u
Appends-trans bs cs s t u p q = record {
  callback = q.callback;
  written = q.written ∙ ap (λ ws. ws ++ cs) p.written ∙ append_assoc s.state.written bs cs;
  counted = omega (arith, p.counted, q.counted, length-append bs cs);
}

pub Appends-IsWriter : (bs : List ℕ) (s t : Ostream) → Appends bs s t → IsWriter t
Appends-IsWriter bs s t p = record { callback = p.callback; small = omega (arith, p.counted) }

pub Appends-nil : (s : Ostream) → IsWriter s → Appends [] s s
Appends-nil s h = record {
  callback = h.callback;
  written = sym (append-nil s.state.written);
  counted = omega (arith, h.small);
}

pub ahead-IsSizer : (n : ℕ) (z : Ostream) → IsSizer z → IsSizer (ahead n z)
ahead-IsSizer n z h = record { callback = h.callback; small = omega arith }

-- Counting nothing changes nothing, and a count is taken modulo 2^64.
pub ahead-zero : (z : Ostream) → IsSizer z → ahead 0 z ≡ z
ahead-zero z h = ap (λ n. record z { bytes_written = n }) (omega (arith, h.small))

pub ahead-mod : (a b : ℕ) (z : Ostream) → a % size_mod ≡ b % size_mod → ahead a z ≡ ahead b z
ahead-mod a b z e = ap (λ n. record z { bytes_written = n }) (omega (arith, e))

pub ahead-ahead : (a b : ℕ) (z : Ostream) → ahead b (ahead a z) ≡ ahead (a + b) z
ahead-ahead a b z = ap (λ n. record z { bytes_written = n }) (omega arith)

module _ {A B : Type 0} (m : M Ostream A) (k : A → M Ostream B) (hm : IsSized m)
    (hk : (a : A) → IsSized (k a)) where
  bind-writing :
      (s : Ostream) (o : Outcome Ostream A) → Sizes m s o → Sizes (m >>= k) s (continue o k)
  bind-writing s (ok a t) (bs, p, on_sizing) =
      then_next (k a t) ((hk a).writing t (Appends-IsWriter bs s t p))
    where
      then_next : (o : Outcome Ostream B) → Sizes (k a) t o → Sizes (m >>= k) s o
      then_next (ok b u) (cs, q, next) = (
        bs ++ cs,
        Appends-trans bs cs s t u p q,
        λ z h.
            ap (λ o'. continue o' k) (on_sizing z h)
            ∙ next (ahead (length bs) z) (ahead-IsSizer (length bs) z h)
            ∙ ap (ok b) (
                ahead-ahead (length bs) (length cs) z
                ∙ ap (λ n. ahead n z) (sym (length-append bs cs))),
      )
      then_next (fail u) q = tt
      then_next fault q = tt
      then_next stuck q = tt
  bind-writing s (fail t) p = tt
  bind-writing s fault p = tt
  bind-writing s stuck p = tt

  bind-counting :
      (z : Ostream) (o : Outcome Ostream A) → IsSizer z → Counts z o → Counts z (continue o k)
  bind-counting z (ok a t) h (n, e) =
      rw e (then_next (k a (ahead n z)) ((hk a).counting (ahead n z) (ahead-IsSizer n z h)))
    where
      then_next : (o : Outcome Ostream B) → Counts (ahead n z) o → Counts z o
      then_next (ok b u) (c, q) = (n + c, q ∙ ahead-ahead n c z)
      then_next (fail u) q = tt
      then_next fault q = tt
      then_next stuck q = tt
  bind-counting z (fail t) h p = tt
  bind-counting z fault h p = tt
  bind-counting z stuck h p = tt

  pub IsSized-bind : IsSized (m >>= k)
  IsSized-bind = record {
    writing = λ s h. bind-writing s (m s) (hm.writing s h);
    counting = λ z h. bind-counting z (m z) h (hm.counting z h);
  }

module _ {A : Type 0} where
  pub IsSized-error : (msg : ErrMsg) → IsSized (return_error {A = A} msg)
  IsSized-error msg = record { writing = λ s h. tt; counting = λ z h. tt }

  pub IsSized-if :
      (b : Bool) (m n : M Ostream A) → IsSized m → IsSized n → IsSized (if b then m else n)
  IsSized-if true m n hm hn = hm
  IsSized-if false m n hm hn = hn

pub sizing_run :
    (buf : List ℕ) (count : ℕ) (z : Ostream) (cb : WriteCallback)
    → cb ≡ sizing
    → write_by cb buf count z ≡ ok tt (ahead count z)
sizing_run buf count z sizing e = refl
sizing_run buf count z buf_write e = cc
sizing_run buf count z (user_write f) e = cc

writing_run :
    (buf : List ℕ) (count : ℕ) (s : Ostream) (cb : WriteCallback)
    → s.callback ≡ buf_write
    → cb ≡ buf_write
    → Sizes (λ t. write_by t.callback buf count t) s (write_by cb buf count s)
writing_run buf count s sizing h e = cc
writing_run buf count s (user_write f) h e = cc
writing_run buf count s buf_write h e =
    elim (Bool-cases (ltb s.max_size (add_size s.bytes_written count))) [
      | inl full ↦ rw full tt
      | inr fits ↦ rw fits (elim (Bool-cases (ltb s.state.room count || ltb (length buf) count)) [
        | inl outside ↦ rw outside tt
        | inr inside ↦
            let size : length (take count buf) ≡ count = length-take count buf (ground arith) in
            rw inside (
              take count buf,
              record { callback = h; written = refl; counted = rw size refl },
              λ z hz. rw size (sizing_run buf count z z.callback hz.callback),
            )
      ])
    ]

pub pb_write-IsSized : (buf : List ℕ) (count : ℕ) → IsSized (pb_write buf count)
unfolding pb_write
pb_write-IsSized buf count = record {
  writing = λ s h. writing_run buf count s s.callback h.callback h.callback;
  counting = λ z h. rw (sizing_run buf count z z.callback h.callback) (count, refl);
}

write_buffer-IsSized : (buffer : Option (List ℕ)) → IsSized (write_buffer buffer)
write_buffer-IsSized none = record { writing = λ s h. tt; counting = λ z h. tt }
write_buffer-IsSized (some buffer) = pb_write-IsSized (unset_top_bit buffer) (length buffer)

pub pb_encode_varint-IsSized : (v : ℕ) → IsSized (pb_encode_varint v)
unfolding pb_encode_varint
pb_encode_varint-IsSized v =
    IsSized-if (leb v 0x7f) _ _ (pb_write-IsSized _ 1) (write_buffer-IsSized (fill_buffer 10 v))

pub pb_encode_svarint-IsSized : (v : ℕ) → IsSized (pb_encode_svarint v)
unfolding pb_encode_svarint
pb_encode_svarint-IsSized v = pb_encode_varint-IsSized (zigzag v)

pub pb_encode_fixed32-IsSized : (v : ℕ) → IsSized (pb_encode_fixed32 v)
unfolding pb_encode_fixed32
pb_encode_fixed32-IsSized v = pb_write-IsSized _ 4

pub pb_encode_fixed64-IsSized : (v : ℕ) → IsSized (pb_encode_fixed64 v)
unfolding pb_encode_fixed64
pb_encode_fixed64-IsSized v = pb_write-IsSized _ 8

pub pb_encode_tag-IsSized : (wire_type tag : ℕ) → IsSized (pb_encode_tag wire_type tag)
unfolding pb_encode_tag
pb_encode_tag-IsSized wire_type tag = pb_encode_varint-IsSized _

pub pb_encode_string-IsSized : (bytes : List ℕ) (size : ℕ) → IsSized (pb_encode_string bytes size)
unfolding pb_encode_string
pb_encode_string-IsSized bytes size =
    IsSized-bind _ _ (pb_encode_varint-IsSized _) (λ _. pb_write-IsSized bytes size)
