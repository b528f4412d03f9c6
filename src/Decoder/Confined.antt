-- ===== src/Decoder/Confined.antt =====
-- Decoding steps that stay inside the input buffer and write to one range of memory only: a rule for
-- each way to build a step.
use breakpoint.Base.{
  ℕ, ◌+◌, ◌≤◌, ◌<◌, ◌≡◌, ◌⊎◌, inl, inr, refl, ◌∙◌, Bool, true, false, List, length, take,
  length-take, if◌then◌else◌, arith, ltb, ltb→le, Bool-cases,
}
use breakpoint.Base.Bytes.{little_endian}
use breakpoint.Errors.{ErrMsg, end_of_stream}
use breakpoint.Outcome.{Outcome, ok, fail, fault, stuck, M, ◌>>=◌, continue}
use breakpoint.Input.{Istream, pb_read}
use breakpoint.Input.Reading.{IsSound}
use breakpoint.Input.Safety.{
  IsSafe, Safe, Follows, Follows-refl, Follows-trans, pb_read_sound, moved, moved-Follows,
  error-Safe,
}
use breakpoint.Memory.{store, store_bytes}
use breakpoint.Memory.Stores.{store_bytes-outside, length-little_endian}
use breakpoint.Decoder.{DecState, return_error, on_input, on_mem, with_mem}

-- `x` is not one of the addresses from `lo` up to `hi`.
abbrev pub Outside : ℕ → ℕ → ℕ → Type 0
Outside lo hi x = (x < lo) ⊎ (hi ≤ x)

-- `t` is a later state of `s`, and memory differs inside the range only.
pub record Touches (lo hi : ℕ) (s t : DecState) : Type 0 where
  pub input : Follows s.input t.input
  pub kept : (x : ℕ) → Outside lo hi x → t.mem x ≡ s.mem x

-- The step returned, with true or false.
abbrev pub Within : {A : Type 0} → ℕ → ℕ → DecState → Outcome DecState A → Type 0
Within lo hi s (ok a t) = Touches lo hi s t
Within lo hi s (fail t) = Touches lo hi s t
Within lo hi s fault = ⊥
Within lo hi s stuck = ⊥

pub record IsConfined {A : Type 0} (lo hi : ℕ) (m : M DecState A) : Type 0 where
  pub at : (s : DecState) → IsSound s.input → Within lo hi s (m s)

pub Touches-trans :
    (lo hi : ℕ) (s t u : DecState) → Touches lo hi s t → Touches lo hi t u → Touches lo hi s u
Touches-trans lo hi s t u p q = record {
  input = Follows-trans s.input t.input u.input p.input q.input;
  kept = λ x out. q.kept x out ∙ p.kept x out;
}

Within-after :
    {A : Type 0} (lo hi : ℕ) (s t : DecState) (o : Outcome DecState A)
    → Touches lo hi s t
    → Within lo hi t o
    → Within lo hi s o
Within-after lo hi s t (ok a u) p q = Touches-trans lo hi s t u p q
Within-after lo hi s t (fail u) p q = Touches-trans lo hi s t u p q
Within-after lo hi s t fault p q = q
Within-after lo hi s t stuck p q = q

Within-continue :
    {A B : Type 0} (lo hi : ℕ) (s : DecState) (o : Outcome DecState A) (k : A → M DecState B)
    → Within lo hi s o
    → ((a : A) → IsConfined lo hi (k a))
    → Within lo hi s (continue o k)
Within-continue lo hi s (ok a t) k p q = Within-after lo hi s t (k a t) p ((q a).at t p.input.sound)
Within-continue lo hi s (fail t) k p q = p
Within-continue lo hi s fault k p q = p
Within-continue lo hi s stuck k p q = p

module _ {A B : Type 0} where
  pub IsConfined-bind :
      (lo hi : ℕ) (m : M DecState A) (k : A → M DecState B)
      → IsConfined lo hi m
      → ((a : A) → IsConfined lo hi (k a))
      → IsConfined lo hi (m >>= k)
  IsConfined-bind lo hi m k hm hk = record {
    at = λ s h. Within-continue lo hi s (m s) k (hm.at s h) hk;
  }

module _ (lo hi : ℕ) where
  Touches-input :
      (s : DecState) (i : Istream)
      → Follows s.input i
      → Touches lo hi s (record { input = i; mem = s.mem })
  Touches-input s i f = record { input = f; kept = λ x out. refl }

  -- Stores that lie in the range.
  pub IsConfined-store_bytes :
      (a : ℕ) (bs : List ℕ)
      → lo ≤ a
      → a + length bs ≤ hi
      → IsConfined lo hi (on_mem (store_bytes a bs))
  IsConfined-store_bytes a bs low high = record {
    at = λ s h. record {
      input = Follows-refl s.input h;
      kept = λ x out. store_bytes-outside bs a x s.mem (apart x out);
    };
  }
    where
      apart : (x : ℕ) → Outside lo hi x → Outside a (a + length bs) x
      apart x (inl p) = inl (omega arith)
      apart x (inr p) = inr (omega arith)

  pub IsConfined-store : (n a v : ℕ) → lo ≤ a → a + n ≤ hi → IsConfined lo hi (on_mem (store n a v))
  unfolding store
  IsConfined-store n a v low high =
      IsConfined-store_bytes a (little_endian n v) low (omega (arith, length-little_endian n v))

  -- pb_read into memory: as many bytes are stored as were asked for.
  pub IsConfined-read_to :
      (n a : ℕ)
      → lo ≤ a
      → a + n ≤ hi
      → IsConfined lo hi (do bytes ← on_input (pb_read n); on_mem (store_bytes a bytes))
  IsConfined-read_to n a low high = record {
    at = λ s h. rw (pb_read_sound n s.input h) (elim (Bool-cases (ltb s.input.bytes_left n)) [
      | inl short ↦ rw short (Touches-input s _ (error-Safe (List ℕ) end_of_stream s.input h))
      | inr fits ↦
          let f = moved-Follows n s.input h (ltb→le _ _ fits) in
          let size =
            length-take n s.input.state (omega (arith, ltb→le s.input.bytes_left n fits)) in
          rw fits (
            Touches-trans lo hi s (record { input = moved n s.input; mem = s.mem }) _
              (Touches-input s (moved n s.input) f)
              ((IsConfined-store_bytes a (take n s.input.state) low (rw size high)).at
                (record { input = moved n s.input; mem = s.mem }) f.sound))
    ]);
  }

module _ {A : Type 0} (lo hi : ℕ) where
  pub IsConfined-pure : (a : A) → IsConfined lo hi (λ (s : DecState). ok a s)
  IsConfined-pure a = record { at = λ s h. Touches-input lo hi s s.input (Follows-refl s.input h) }

  pub IsConfined-error : (msg : ErrMsg) → IsConfined lo hi (return_error {A = A} msg)
  IsConfined-error msg = record {
    at = λ s h. Touches-input lo hi s _ (error-Safe (Unit {0}) msg s.input h);
  }

  pub IsConfined-if :
      (b : Bool) (m n : M DecState A)
      → IsConfined lo hi m
      → IsConfined lo hi n
      → IsConfined lo hi (if b then m else n)
  IsConfined-if true m n hm hn = hm
  IsConfined-if false m n hm hn = hn

  -- A test that fails is known to have failed.
  pub IsConfined-guard :
      (b : Bool) (m n : M DecState A)
      → IsConfined lo hi m
      → (b ≡ false → IsConfined lo hi n)
      → IsConfined lo hi (if b then m else n)
  IsConfined-guard true m n hm hn = hm
  IsConfined-guard false m n hm hn = hn refl

  with_mem-Within :
      (s : DecState) (o : Outcome Istream A) → Safe s.input o → Within lo hi s (with_mem s.mem o)
  with_mem-Within s (ok a i) f = Touches-input lo hi s i f
  with_mem-Within s (fail i) f = Touches-input lo hi s i f
  with_mem-Within s fault f = f
  with_mem-Within s stuck f = f

  -- A step of the stream alone.
  pub IsConfined-on_input : (m : M Istream A) → IsSafe m → IsConfined lo hi (on_input m)
  IsConfined-on_input m h = record { at = λ s p. with_mem-Within s (m s.input) (h.at s.input p) }

pub ruleset confined_rules =
    (IsConfined-bind, IsConfined-pure, IsConfined-error, IsConfined-if, IsConfined-on_input)
