-- ===== src/Encoder/Sized.antt =====
-- Encoding steps that a sizing stream counts right, and that leave memory as it is: a rule for each
-- way to build a step. All is about the runs on one memory `mem`.
pub mod Values
pub mod Substreams
pub mod Arrays
pub mod Fields
pub mod Messages
mod Runs
use breakpoint.Base.{
  ℕ, ◌+◌, ◌≡◌, refl, sym, ap, ◌∙◌, Bool, true, false, List, [], ◌++◌, length, length-append,
  if◌then◌else◌,
}
use mathlib.Core.Path.{subst}
use breakpoint.Errors.{ErrMsg}
use breakpoint.Outcome.{Outcome, ok, fail, fault, stuck, M, pure, ◌>>=◌, continue}
use breakpoint.Output.{Ostream}
use breakpoint.Output.Sizing
use breakpoint.Output.Sizing.{
  IsWriter, IsSizer, Appends, Appends-trans, Appends-nil, Appends-IsWriter, ahead, ahead-ahead,
  ahead-zero, ahead-IsSizer,
}
use breakpoint.Memory.{Memory}
use breakpoint.Encoder.{EncState, return_error, with_mem, on_output, read_mem}

-- A stream, with the memory.
abbrev pub on : Memory → Ostream → EncState
on mem s = record { output = s; mem = mem }

module _ {A : Type 0} (mem : Memory) where
  -- A run of `m` on a buffer, if it succeeds, against the runs on sizing streams.
  abbrev pub Sizes : M EncState A → Ostream → Outcome EncState A → Type 0
  Sizes m s (ok a t) =
      (bytes : List ℕ) × Appends bytes s t.output
      × (t.mem ≡ mem)
      × ((z : Ostream) → IsSizer z → m (on mem z) ≡ ok a (on mem (ahead (length bytes) z)))
  Sizes m s (fail t) = Unit {0}
  Sizes m s fault = Unit {0}
  Sizes m s stuck = Unit {0}

  -- A run on a sizing stream, if it succeeds.
  abbrev pub Counts : Ostream → Outcome EncState A → Type 0
  Counts z (ok a t) = (n : ℕ) × (t ≡ on mem (ahead n z))
  Counts z (fail t) = Unit {0}
  Counts z fault = Unit {0}
  Counts z stuck = Unit {0}

pub record IsSized (mem : Memory) {A : Type 0} (m : M EncState A) : Type 0 where
  pub writing : (s : Ostream) → IsWriter s → Sizes mem m s (m (on mem s))
  pub counting : (z : Ostream) → IsSizer z → Counts mem z (m (on mem z))

module _ {A B : Type 0} (mem : Memory) (m : M EncState A) (k : A → M EncState B)
    (hm : IsSized mem m) (hk : (a : A) → IsSized mem (k a)) where
  bind-writing :
      (s : Ostream) (o : Outcome EncState A)
      → Sizes mem m s o
      → Sizes mem (m >>= k) s (continue o k)
  bind-writing s (ok a t) (bs, p, same, on_sizing) = then_next (k a t) (
      subst (λ mem'. Sizes mem (k a) t.output (k a (on mem' t.output))) (sym same)
        ((hk a).writing t.output (Appends-IsWriter bs s t.output p)))
    where
      then_next : (o : Outcome EncState B) → Sizes mem (k a) t.output o → Sizes mem (m >>= k) s o
      then_next (ok b u) (cs, q, same', next) = (
        bs ++ cs,
        Appends-trans bs cs s t.output u.output p q,
        same',
        λ z h.
            ap (λ o'. continue o' k) (on_sizing z h)
            ∙ next (ahead (length bs) z) (ahead-IsSizer (length bs) z h)
            ∙ ap (λ z'. ok b (on mem z'))
                (ahead-ahead (length bs) (length cs) z
                  ∙ ap (λ n. ahead n z) (sym (length-append bs cs))),
      )
      then_next (fail u) q = tt
      then_next fault q = tt
      then_next stuck q = tt
  bind-writing s (fail t) p = tt
  bind-writing s fault p = tt
  bind-writing s stuck p = tt

  bind-counting :
      (z : Ostream) (o : Outcome EncState A)
      → IsSizer z
      → Counts mem z o
      → Counts mem z (continue o k)
  bind-counting z (ok a t) h (n, e) =
      rw e
        (then_next (k a (on mem (ahead n z))) ((hk a).counting (ahead n z) (ahead-IsSizer n z h)))
    where
      then_next : (o : Outcome EncState B) → Counts mem (ahead n z) o → Counts mem z o
      then_next (ok b u) (c, q) = (n + c, q ∙ ap (on mem) (ahead-ahead n c z))
      then_next (fail u) q = tt
      then_next fault q = tt
      then_next stuck q = tt
  bind-counting z (fail t) h p = tt
  bind-counting z fault h p = tt
  bind-counting z stuck h p = tt

  pub IsSized-bind : IsSized mem (m >>= k)
  IsSized-bind = record {
    writing = λ s h. bind-writing s (m (on mem s)) (hm.writing s h);
    counting = λ z h. bind-counting z (m (on mem z)) h (hm.counting z h);
  }

module _ {A : Type 0} (mem : Memory) where
  pub IsSized-pure : (a : A) → IsSized mem (λ (s : EncState). ok a s)
  IsSized-pure a = record {
    writing = λ s h.
        ([], Appends-nil s h, refl, λ z hz. ap (λ z'. ok a (on mem z')) (sym (ahead-zero z hz)));
    counting = λ z h. (0, ap (on mem) (sym (ahead-zero z h)));
  }

  pub IsSized-read_mem : (f : Memory → A) → IsSized mem (read_mem f)
  IsSized-read_mem f = record {
    writing = λ s h. (IsSized-pure (f mem)).writing s h;
    counting = λ z h. (IsSized-pure (f mem)).counting z h;
  }

  pub IsSized-error : (msg : ErrMsg) → IsSized mem (return_error {A = A} msg)
  IsSized-error msg = record { writing = λ s h. tt; counting = λ z h. tt }

  pub IsSized-if :
      (b : Bool) (m n : M EncState A)
      → IsSized mem m
      → IsSized mem n
      → IsSized mem (if b then m else n)
  IsSized-if true m n hm hn = hm
  IsSized-if false m n hm hn = hn

  on_output-writing :
      (m : M Ostream A) (s : Ostream) (o : Outcome Ostream A)
      → Sizing.Sizes m s o
      → Sizes mem (on_output m) s (with_mem mem o)
  on_output-writing m s (ok a t) (bs, p, on_sizing) =
      (bs, p, refl, λ z h. ap (with_mem mem) (on_sizing z h))
  on_output-writing m s (fail t) p = tt
  on_output-writing m s fault p = tt
  on_output-writing m s stuck p = tt

  on_output-counting :
      (z : Ostream) (o : Outcome Ostream A) → Sizing.Counts z o → Counts mem z (with_mem mem o)
  on_output-counting z (ok a t) (n, e) = (n, ap (on mem) e)
  on_output-counting z (fail t) p = tt
  on_output-counting z fault p = tt
  on_output-counting z stuck p = tt

  pub IsSized-on_output : (m : M Ostream A) → Sizing.IsSized m → IsSized mem (on_output m)
  IsSized-on_output m h = record {
    writing = λ s e. on_output-writing m s (m s) (h.writing s e);
    counting = λ z e. on_output-counting z (m z) (h.counting z e);
  }

pub ruleset sized_rules =
    (IsSized-bind, IsSized-pure, IsSized-error, IsSized-if, IsSized-read_mem, IsSized-on_output)
