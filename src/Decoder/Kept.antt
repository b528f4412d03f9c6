-- ===== src/Decoder/Kept.antt =====
-- Decoding steps that write to memory only where they may: a rule for each way to build a step. `Own`
-- holds of the addresses that may be written.
pub mod Fields
pub mod Statics
pub mod Callbacks
pub mod Defaults
pub mod Layout
pub mod Settings
pub mod Rounds
pub mod Messages
mod Runs
use breakpoint.Base.{◌==◌}
use breakpoint.Decoder.{not_null}
use breakpoint.Base.{
  zero, suc, ap, ℕ, ◌+◌, ◌≤◌, ◌<◌, ◌≡◌, ◌⊎◌, inl, inr, refl, ◌∙◌, Bool, true, false, List, length,
  replicate, length-replicate, if◌then◌else◌, arith, ltb, Bool-cases,
}
use breakpoint.Base.Bytes.{little_endian}
use breakpoint.Errors.{ErrMsg}
use breakpoint.Outcome.{Outcome, ok, fail, fault, stuck, M, ◌>>=◌, continue}
use breakpoint.Input.{Istream}
use breakpoint.Input.Reading.{IsSound}
use breakpoint.Memory.{Memory, store, store_bytes, memset_zero, memcpy, load_bytes}
use breakpoint.Memory.Stores.{store_bytes-outside, length-little_endian}
use breakpoint.Decoder.{DecState, return_error, with_mem, on_input, on_mem, read_mem}
use breakpoint.Decoder.Confined.{IsConfined, Within, Touches}
use breakpoint.Decoder.Steady.{Steady, IsSteady}

-- The addresses from `lo` up to `hi` may be written.
abbrev pub Owns : (ℕ → Type 0) → ℕ → ℕ → Type 0
Owns Own lo hi = (x : ℕ) → lo ≤ x → x < hi → Own x

-- `m'` differs from `m` only where that is allowed.
abbrev pub Same : (ℕ → Type 0) → Memory → Memory → Type 0
Same Own m m' = (x : ℕ) → (Own x → ⊥) → m' x ≡ m x

pub outside : {Own : ℕ → Type 0} (lo hi x : ℕ) → Owns Own lo hi → (Own x → ⊥) → (x < lo) ⊎ (hi ≤ x)
outside lo hi x own out = elim (Bool-cases (ltb x lo)) [
  | inl below ↦ inl (ground arith)
  | inr at_least ↦ elim (Bool-cases (ltb x hi)) [
    | inl below ↦ absurd (out (own x (ground arith) (ground arith)))
    | inr above ↦ inr (ground arith)
  ]
]

-- The same of the memory that a step leaves, whether it returns true or false.
abbrev pub Kept : {A : Type 0} → (ℕ → Type 0) → Memory → Outcome DecState A → Type 0
Kept Own m (ok a t) = Same Own m t.mem
Kept Own m (fail t) = Same Own m t.mem
Kept Own m fault = Unit {0}
Kept Own m stuck = Unit {0}

pub record IsKept {A : Type 0} (Own : ℕ → Type 0) (m : M DecState A) : Type 0 where
  pub at : (s : DecState) → IsSound s.input → Kept Own s.mem (m s)

module _ {A : Type 0} (Own : ℕ → Type 0) where
  pub Kept-after :
      (m m' : Memory) (o : Outcome DecState A) → Same Own m m' → Kept Own m' o → Kept Own m o
  Kept-after m m' (ok a t) p q = λ x out. q x out ∙ p x out
  Kept-after m m' (fail t) p q = λ x out. q x out ∙ p x out
  Kept-after m m' fault p q = tt
  Kept-after m m' stuck p q = tt

module _ {A B : Type 0} (Own : ℕ → Type 0) (m : M DecState A) (k : A → M DecState B) where
  Kept-continue :
      (s : DecState) (o : Outcome DecState A)
      → Steady s.input o
      → Kept Own s.mem o
      → ((a : A) → IsKept Own (k a))
      → Kept Own s.mem (continue o k)
  Kept-continue s (ok a t) p q h = Kept-after Own s.mem t.mem (k a t) q ((h a).at t p.sound)
  Kept-continue s (fail t) p q h = q
  Kept-continue s fault p q h = tt
  Kept-continue s stuck p q h = tt

  pub IsKept-bind : IsSteady m → IsKept Own m → ((a : A) → IsKept Own (k a)) → IsKept Own (m >>= k)
  IsKept-bind steady hm hk = record {
    at = λ s h. Kept-continue s (m s) (steady.at s h) (hm.at s h) hk;
  }

module _ {A : Type 0} (Own : ℕ → Type 0) where
  pub IsKept-pure : (a : A) → IsKept Own (λ (s : DecState). ok a s)
  IsKept-pure a = record { at = λ s h x out. refl }

  pub IsKept-error : (msg : ErrMsg) → IsKept Own (return_error {A = A} msg)
  IsKept-error msg = record { at = λ s h x out. refl }

  pub IsKept-read_mem : (f : Memory → A) → IsKept Own (read_mem f)
  IsKept-read_mem f = record { at = λ s h x out. refl }

  pub IsKept-if :
      (b : Bool) (m n : M DecState A)
      → IsKept Own m
      → IsKept Own n
      → IsKept Own (if b then m else n)
  IsKept-if true m n hm hn = hm
  IsKept-if false m n hm hn = hn

  pub IsKept-when :
      (b : Bool) (m n : M DecState A)
      → (b ≡ true → IsKept Own m)
      → (b ≡ false → IsKept Own n)
      → IsKept Own (if b then m else n)
  IsKept-when true m n hm hn = hm refl
  IsKept-when false m n hm hn = hn refl

  with_mem-Kept : (m : Memory) (o : Outcome Istream A) → Kept Own m (with_mem m o)
  with_mem-Kept m (ok a i) = λ x out. refl
  with_mem-Kept m (fail i) = λ x out. refl
  with_mem-Kept m fault = tt
  with_mem-Kept m stuck = tt

  pub IsKept-on_input : (m : M Istream A) → IsKept Own (on_input m)
  IsKept-on_input m = record { at = λ s h. with_mem-Kept s.mem (m s.input) }

  Within-Kept :
      (lo hi : ℕ) (s : DecState) (o : Outcome DecState A)
      → Owns Own lo hi
      → Within lo hi s o
      → Kept Own s.mem o
  Within-Kept lo hi s (ok a t) own p = λ x out. p.kept x (outside lo hi x own out)
  Within-Kept lo hi s (fail t) own p = λ x out. p.kept x (outside lo hi x own out)
  Within-Kept lo hi s fault own p = tt
  Within-Kept lo hi s stuck own p = tt

  pub IsConfined-IsKept :
      (lo hi : ℕ) (m : M DecState A) → Owns Own lo hi → IsConfined lo hi m → IsKept Own m
  IsConfined-IsKept lo hi m own h = record { at = λ s p. Within-Kept lo hi s (m s) own (h.at s p) }

pub length-load_bytes : (n a : ℕ) (m : Memory) → length (load_bytes n a m) ≡ n
unfolding load_bytes
length-load_bytes zero a m = refl
length-load_bytes (suc n) a m = ap suc (length-load_bytes n (a + 1) m)

module _ (Own : ℕ → Type 0) where
  pub IsKept-store_bytes :
      (a : ℕ) (bs : List ℕ) → Owns Own a (a + length bs) → IsKept Own (on_mem (store_bytes a bs))
  IsKept-store_bytes a bs own = record {
    at = λ s h x out. store_bytes-outside bs a x s.mem (outside a (a + length bs) x own out);
  }

  pub IsKept-store : (n a v : ℕ) → Owns Own a (a + n) → IsKept Own (on_mem (store n a v))
  unfolding store
  IsKept-store n a v own =
      IsKept-store_bytes a (little_endian n v) (rw (length-little_endian n v) own)

  pub IsKept-memset_zero : (a n : ℕ) → Owns Own a (a + n) → IsKept Own (on_mem (memset_zero a n))
  unfolding memset_zero
  IsKept-memset_zero a n own =
      IsKept-store_bytes a (replicate n 0) (rw (length-replicate {A = ℕ} n 0) own)

  pub IsKept-memcpy : (a from n : ℕ) → Owns Own a (a + n) → IsKept Own (on_mem (memcpy a from n))
  unfolding memcpy
  IsKept-memcpy a from n own = record {
    at = λ s h.
        (IsKept-store_bytes a (load_bytes n from s.mem)
            (rw (length-load_bytes n from s.mem) own)).at
          s h;
  }

pub IsKept-not_null :
    (Own : ℕ → Type 0) (ptr : ℕ) (m : M DecState (Unit {0}))
    → IsKept Own m
    → IsKept Own (not_null ptr m)
IsKept-not_null Own ptr m h =
    IsKept-when Own (ptr == 0) _ m (λ _. record { at = λ s p. tt }) (λ _. h)
