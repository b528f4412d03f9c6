-- ===== src/Input/Safety.antt =====
-- Decoding steps that stay inside the buffer: one rule for each way to build a step.
use breakpoint.Base.{
  ℕ, ◌+◌, ◌-◌, ◌≤◌, ◌≡◌, refl, sym, Bool, true, false, List, [], ◌∷◌, length, take, drop, get_or,
  length-drop, ltb, ◌==◌, if◌then◌else◌, arith, Bool-cases, inl, inr, ltb→le,
}
use breakpoint.Errors.{ErrMsg, end_of_stream}
use mathlib.Core.Path.{subst}
use breakpoint.Outcome.{Outcome, ok, fail, fault, stuck, M, pure, ◌>>=◌, continue}
use breakpoint.Input.{
  ReadCallback, user_read, Istream, buf_read, user_read, return_error, pb_read, pb_read_null,
  pb_readbyte, skip_by,
}
use breakpoint.Input.Reading.{IsSound}

-- `t` is a later state of `s`: sound, and the pointer has moved as far as `bytes_left` has fallen.
pub record Follows (s t : Istream) : Type 0 where
  pub sound : IsSound t
  pub fewer : t.bytes_left ≤ s.bytes_left
  pub in_step : length t.state + s.bytes_left ≡ length s.state + t.bytes_left

pub Follows-refl : (s : Istream) → IsSound s → Follows s s
Follows-refl s h = record { sound = h; fewer = omega arith; in_step = refl }

pub Follows-trans : (s t u : Istream) → Follows s t → Follows t u → Follows s u
Follows-trans s t u p q = record { sound = q.sound; fewer = omega arith; in_step = omega arith }

-- The step returned, with true or false, and has not left the buffer.
abbrev pub Safe : {A : Type 0} → Istream → Outcome Istream A → Type 0
Safe s (ok a t) = Follows s t
Safe s (fail t) = Follows s t
Safe s fault = ⊥
Safe s stuck = ⊥

pub record IsSafe {A : Type 0} (m : M Istream A) : Type 0 where
  pub at : (s : Istream) → IsSound s → Safe s (m s)

pub Safe-after :
    {A : Type 0} (s t : Istream) (o : Outcome Istream A) → Follows s t → Safe t o → Safe s o
Safe-after s t (ok a u) p q = Follows-trans s t u p q
Safe-after s t (fail u) p q = Follows-trans s t u p q
Safe-after s t fault p q = q
Safe-after s t stuck p q = q

-- A step and then a step that is safe from where the first one stopped.
pub Safe-continue :
    {A B : Type 0} (s : Istream) (o : Outcome Istream A) (k : A → M Istream B)
    → Safe s o
    → ((a : A) (t : Istream) → o ≡ ok a t → Follows s t → Safe t (k a t))
    → Safe s (continue o k)
Safe-continue s (ok a t) k p q = Safe-after s t (k a t) p (q a t refl p)
Safe-continue s (fail t) k p q = p
Safe-continue s fault k p q = p
Safe-continue s stuck k p q = p

module _ {A B : Type 0} where
  pub IsSafe-bind :
      (m : M Istream A) (k : A → M Istream B)
      → IsSafe m
      → ((a : A) → IsSafe (k a))
      → IsSafe (m >>= k)
  IsSafe-bind m k hm hk = record {
    at = λ s h. Safe-continue s (m s) k (hm.at s h) (λ a t e f. (hk a).at t f.sound);
  }

module _ {A : Type 0} where
  pub IsSafe-pure : (a : A) → IsSafe (λ s. ok a s)
  IsSafe-pure a = record { at = λ s h. Follows-refl s h }

  pub IsSafe-error : (msg : ErrMsg) → IsSafe (return_error {A = A} msg)
  IsSafe-error msg = record {
    at = λ s h. record {
      sound = record { buffer = h.buffer; within = h.within; size = h.size };
      fewer = omega arith;
      in_step = refl;
    };
  }

  pub IsSafe-if : (b : Bool) (m n : M Istream A) → IsSafe m → IsSafe n → IsSafe (if b then m else n)
  IsSafe-if true m n hm hn = hm
  IsSafe-if false m n hm hn = hn

-- Where a read of `count` bytes leaves the stream.
abbrev pub moved : ℕ → Istream → Istream
moved count s = record s { state = drop count s.state; bytes_left = s.bytes_left - count }

pub moved-Follows :
    (count : ℕ) (s : Istream) → IsSound s → count ≤ s.bytes_left → Follows s (moved count s)
moved-Follows count s h fits = record {
  sound = record {
    buffer = h.buffer;
    within = omega (arith, length-drop count s.state);
    size = omega arith;
  };
  fewer = omega arith;
  in_step = omega (arith, length-drop count s.state);
}

-- pb_read on a sound stream: the bytes asked for, or "end-of-stream" and nothing taken.
pub pb_read_sound :
    (count : ℕ) (s : Istream)
    → IsSound s
    → pb_read count s ≡ (
        if ltb s.bytes_left count
        then return_error end_of_stream s
        else ok (take count s.state) (moved count s))
unfolding pb_read
pb_read_sound count s h = ground arith

pub pb_readbyte_sound :
    (s : Istream)
    → IsSound s
    → pb_readbyte s ≡ (
        if s.bytes_left == 0
        then return_error end_of_stream s
        else ok (get_or s.state 0 0) (moved 1 s))
unfolding pb_readbyte
pb_readbyte_sound s h = ground (arith, first s.state)
  where
    first : (xs : List ℕ) → get_or (take 1 xs) 0 0 ≡ get_or xs 0 0
    first [] = refl
    first (x ∷ xs) = refl

pub error-Safe :
    (A : Type 0) (msg : ErrMsg) (s : Istream) → IsSound s → Safe s (return_error {A = A} msg s)
error-Safe A msg s h = (IsSafe-error {A = A} msg).at s h

pub pb_read-IsSafe : (count : ℕ) → IsSafe (pb_read count)
pb_read-IsSafe count = record {
  at = λ s h. rw (pb_read_sound count s h) (elim (Bool-cases (ltb s.bytes_left count)) [
    | inl short ↦ rw short (error-Safe (List ℕ) end_of_stream s h)
    | inr fits ↦ rw fits (moved-Follows count s h (ltb→le _ _ fits))
  ]);
}

pub pb_readbyte-IsSafe : IsSafe pb_readbyte
pb_readbyte-IsSafe = record {
  at = λ s h. rw (pb_readbyte_sound s h) (elim (Bool-cases (s.bytes_left == 0)) [
    | inl empty ↦ rw empty (error-Safe ℕ end_of_stream s h)
    | inr some_left ↦ rw some_left (moved-Follows 1 s h (ground arith))
  ]);
}

pub pb_read_null-IsSafe : (count : ℕ) → IsSafe (pb_read_null count)
unfolding pb_read_null
pb_read_null-IsSafe count = record {
  at = λ s h.
      subst (λ cb. Safe s (skip_by cb count s)) (sym h.buffer)
        ((IsSafe-bind (pb_read count) (λ _. pure tt) (pb_read-IsSafe count)
            (λ _. IsSafe-pure tt)).at
          s h);
}

pub pb_read_null_sound :
    (count : ℕ) (s : Istream)
    → IsSound s
    → pb_read_null count s
      ≡ (if ltb s.bytes_left count then return_error end_of_stream s else ok tt (moved count s))
unfolding pb_read_null
pb_read_null_sound count s h = by_buffer s.callback h.buffer
  where
    by_buffer :
        (cb : ReadCallback)
        → cb ≡ buf_read
        → skip_by cb count s
          ≡ (if ltb s.bytes_left count then return_error end_of_stream s else ok tt (moved count s))
    by_buffer buf_read e = simp (pb_read_sound count s h) (ground arith)
    by_buffer (user_read f) e = cc

pub ruleset safe_rules = (
  IsSafe-bind, IsSafe-pure, IsSafe-error, IsSafe-if, pb_read-IsSafe, pb_readbyte-IsSafe,
  pb_read_null-IsSafe,
)
