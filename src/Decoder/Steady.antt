-- ===== src/Decoder/Steady.antt =====
-- Decoding steps that return and keep the stream inside its buffer, whatever they do to memory: a
-- rule for each way to build a step.
pub mod Values
pub mod Substreams
pub mod Fields
pub mod Callbacks
pub mod Defaults
pub mod Rounds
pub mod Messages
pub mod Delimited
mod Runs
use breakpoint.Base.{◌≢◌, neq→==}
use breakpoint.Decoder.{not_null}
use breakpoint.Base.{ℕ, ◌+◌, length, ◌≤◌, ◌<◌, ◌≡◌, refl, Bool, true, false, if◌then◌else◌, arith}
use breakpoint.Errors.{ErrMsg}
use breakpoint.Outcome.{Outcome, ok, fail, fault, stuck, M, pure, ◌>>=◌, ◌>>◌, continue}
use breakpoint.Input.{Istream}
use breakpoint.Input.Reading.{IsSound}
use breakpoint.Input.Safety.{IsSafe, Safe, Follows, Follows-refl, Follows-trans, error-Safe}
use breakpoint.Wire.Progress.{IsTaking, Taken}
use breakpoint.Memory.{Memory}
use breakpoint.Decoder.{DecState, return_error, with_mem, on_input, on_mem, read_mem}

-- `t` is a later state of `s`, sound, whose pointer may lag behind the count: what a failure inside a
-- substream leaves of the parent, which has counted the substream's bytes.
pub record Lags (s t : Istream) : Type 0 where
  pub sound : IsSound t
  pub fewer : t.bytes_left ≤ s.bytes_left
  pub behind : length s.state + t.bytes_left ≤ length t.state + s.bytes_left

pub Lags-Follows : (s t : Istream) → Follows s t → Lags s t
Lags-Follows s t f = record { sound = f.sound; fewer = f.fewer; behind = omega (arith, f.in_step) }

pub Lags-trans : (s t u : Istream) → Follows s t → Lags t u → Lags s u
Lags-trans s t u p q = record {
  sound = q.sound;
  fewer = omega (arith, p.fewer, q.fewer);
  behind = omega (arith, p.in_step, q.behind);
}

-- The step returned. With true the stream has moved forward inside its buffer, with false it is sound.
abbrev pub Steady : {A : Type 0} → Istream → Outcome DecState A → Type 0
Steady i (ok a t) = Follows i t.input
Steady i (fail t) = Lags i t.input
Steady i fault = ⊥
Steady i stuck = ⊥

pub record IsSteady {A : Type 0} (m : M DecState A) : Type 0 where
  pub at : (s : DecState) → IsSound s.input → Steady s.input (m s)

-- So did this one, and with true it has taken a byte.
abbrev pub Eager : {A : Type 0} → Istream → Outcome DecState A → Type 0
Eager i (ok a t) = Follows i t.input × (t.input.bytes_left < i.bytes_left)
Eager i (fail t) = Lags i t.input
Eager i fault = ⊥
Eager i stuck = ⊥

pub record IsEager {A : Type 0} (m : M DecState A) : Type 0 where
  pub at : (s : DecState) → IsSound s.input → Eager s.input (m s)

module _ {A : Type 0} where
  pub Steady-after :
      (i j : Istream) (o : Outcome DecState A) → Follows i j → Steady j o → Steady i o
  Steady-after i j (ok a u) p q = Follows-trans i j u.input p q
  Steady-after i j (fail u) p q = Lags-trans i j u.input p q
  Steady-after i j fault p q = q
  Steady-after i j stuck p q = q

  Eager-after :
      (i j : Istream) (o : Outcome DecState A)
      → Follows i j
      → j.bytes_left < i.bytes_left
      → Steady j o
      → Eager i o
  Eager-after i j (ok a u) p less q = (Follows-trans i j u.input p q, omega (arith, q.fewer))
  Eager-after i j (fail u) p less q = Lags-trans i j u.input p q
  Eager-after i j fault p less q = q
  Eager-after i j stuck p less q = q

module _ {A B : Type 0} where
  pub Steady-continue :
      (i : Istream) (o : Outcome DecState A) (k : A → M DecState B)
      → Steady i o
      → ((a : A) → IsSteady (k a))
      → Steady i (continue o k)
  Steady-continue i (ok a t) k p q = Steady-after i t.input (k a t) p ((q a).at t p.sound)
  Steady-continue i (fail t) k p q = p
  Steady-continue i fault k p q = p
  Steady-continue i stuck k p q = p

  Eager-continue :
      (i : Istream) (o : Outcome DecState A) (k : A → M DecState B)
      → Eager i o
      → ((a : A) → IsSteady (k a))
      → Eager i (continue o k)
  Eager-continue i (ok a t) k p q = Eager-after i t.input (k a t) p.0 p.1 ((q a).at t p.0.sound)
  Eager-continue i (fail t) k p q = p
  Eager-continue i fault k p q = p
  Eager-continue i stuck k p q = p

  pub IsSteady-bind :
      (m : M DecState A) (k : A → M DecState B)
      → IsSteady m
      → ((a : A) → IsSteady (k a))
      → IsSteady (m >>= k)
  IsSteady-bind m k hm hk = record { at = λ s h. Steady-continue s.input (m s) k (hm.at s h) hk }

  pub IsEager-bind :
      (m : M DecState A) (k : A → M DecState B)
      → IsEager m
      → ((a : A) → IsSteady (k a))
      → IsEager (m >>= k)
  IsEager-bind m k hm hk = record { at = λ s h. Eager-continue s.input (m s) k (hm.at s h) hk }

module _ {A : Type 0} where
  pub IsSteady-pure : (a : A) → IsSteady (λ (s : DecState). ok a s)
  IsSteady-pure a = record { at = λ s h. Follows-refl s.input h }

  pub IsSteady-error : (msg : ErrMsg) → IsSteady (return_error {A = A} msg)
  IsSteady-error msg = record {
    at = λ s h. Lags-Follows s.input _ (error-Safe (Unit {0}) msg s.input h);
  }

  pub IsSteady-if :
      (b : Bool) (m n : M DecState A) → IsSteady m → IsSteady n → IsSteady (if b then m else n)
  IsSteady-if true m n hm hn = hm
  IsSteady-if false m n hm hn = hn

  -- A test that holds is known to hold.
  pub IsSteady-when :
      (b : Bool) (m n : M DecState A)
      → (b ≡ true → IsSteady m)
      → IsSteady n
      → IsSteady (if b then m else n)
  IsSteady-when true m n hm hn = hm refl
  IsSteady-when false m n hm hn = hn

  pub IsSteady-read_mem : (f : Memory → A) → IsSteady (read_mem f)
  IsSteady-read_mem f = record { at = λ s h. Follows-refl s.input h }

  with_mem-Steady :
      (i : Istream) (m : Memory) (o : Outcome Istream A) → Safe i o → Steady i (with_mem m o)
  with_mem-Steady i m (ok a j) p = p
  with_mem-Steady i m (fail j) p = Lags-Follows i j p
  with_mem-Steady i m fault p = p
  with_mem-Steady i m stuck p = p

  with_mem-Eager :
      (i : Istream) (m : Memory) (o : Outcome Istream A) → Taken i o → Eager i (with_mem m o)
  with_mem-Eager i m (ok a j) p = p
  with_mem-Eager i m (fail j) p = Lags-Follows i j p
  with_mem-Eager i m fault p = p
  with_mem-Eager i m stuck p = p

  pub IsSteady-on_input : (m : M Istream A) → IsSafe m → IsSteady (on_input m)
  IsSteady-on_input m h = record {
    at = λ s p. with_mem-Steady s.input s.mem (m s.input) (h.at s.input p);
  }

  pub IsEager-on_input : (m : M Istream A) → IsTaking m → IsEager (on_input m)
  IsEager-on_input m h = record {
    at = λ s p. with_mem-Eager s.input s.mem (m s.input) (h.at s.input p);
  }

  Eager-Steady : (i : Istream) (o : Outcome DecState A) → Eager i o → Steady i o
  Eager-Steady i (ok a t) p = p.0
  Eager-Steady i (fail t) p = p
  Eager-Steady i fault p = p
  Eager-Steady i stuck p = p

  pub IsEager-IsSteady : (m : M DecState A) → IsEager m → IsSteady m
  IsEager-IsSteady m h = record { at = λ s p. Eager-Steady s.input (m s) (h.at s p) }

pub IsSteady-on_mem : (f : Memory → Memory) → IsSteady (on_mem f)
IsSteady-on_mem f = record { at = λ s h. Follows-refl s.input h }

pub IsSteady-not_null :
    (ptr : ℕ) (m : M DecState (Unit {0})) → ptr ≢ 0 → IsSteady m → IsSteady (not_null ptr m)
IsSteady-not_null ptr m there h = rw (neq→== ptr 0 there) h

pub ruleset steady_rules =
    (IsSteady-bind, IsSteady-pure, IsSteady-error, IsSteady-if, IsSteady-read_mem, IsSteady-on_mem)
