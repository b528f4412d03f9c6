-- ===== src/Format/Emits.antt =====
-- Encoding steps that write certain bytes to a buffer with room for them, stop where there is no room,
-- and count as many on a stream that only counts.
pub mod Substreams
pub mod Values
pub mod Fields
pub mod Messages
use breakpoint.Base.{
  ℕ, ◌+◌, ◌-◌, ◌*◌, ◌^◌, ◌≤◌, ◌<◌, ◌≡◌, refl, sym, ap, ap₂, ◌∙◌, true, false, none, List, [], ◌++◌,
  length, length-append, leb, Bool-cases, inl, inr, arith,
}
use mathlib.Core.List.{append-nil, append_assoc}
use breakpoint.Errors.{stream_full, set_error}
use breakpoint.Outcome.{Outcome, ok, fail, M, ◌>>=◌, ◌>>◌, continue}
use breakpoint.Output.{Ostream, Sink, pb_write, pb_encode_varint}
use breakpoint.Output.Writing.{
  writing, counting, append, HasRoom, pb_write_fits, pb_write_full, pb_write_counts,
}
use breakpoint.Output.Encoding.{varint, pb_encode_varint_lem}
use breakpoint.Memory.{Memory}
use breakpoint.Encoder.{EncState, with_mem, on_output}
use breakpoint.Encoder.Sized.{on}

-- The step returns false.
abbrev pub Fails : Outcome EncState (Unit {0}) → Type 0
Fails o = (t : EncState) × (o ≡ fail t)

pub record Emits (mem : Memory) (m : M EncState (Unit {0})) (bytes : List ℕ) : Type 0 where
  pub writes :
      (sink : Sink) (max n : ℕ)
      → HasRoom sink max n
      → n + length bytes ≤ max
      → max < 2 ^ 64
      → m (on mem (writing sink max n none))
        ≡ ok tt (on mem (writing (append bytes sink) max (n + length bytes) none))
  pub stops :
      (sink : Sink) (max n : ℕ)
      → HasRoom sink max n
      → n ≤ max
      → max < n + length bytes
      → n + length bytes < 2 ^ 64
      → Fails (m (on mem (writing sink max n none)))
  pub counts :
      (max n : ℕ)
      → n + length bytes < 2 ^ 64
      → m (on mem (counting max n none)) ≡ ok tt (on mem (counting max (n + length bytes) none))

pub append-append :
    (bs cs : List ℕ) (sink : Sink) → append cs (append bs sink) ≡ append (bs ++ cs) sink
append-append bs cs sink =
    ap₂ (λ ws r. record { written = ws; room = r }) (append_assoc sink.written bs cs)
      (omega (arith, length-append bs cs))

append-nothing : (sink : Sink) → append [] sink ≡ sink
append-nothing sink =
    ap₂ (λ ws r. record { written = ws; room = r }) (append-nil sink.written) (omega arith)

pub sum : (n : ℕ) (bs cs : List ℕ) → n + length bs + length cs ≡ n + length (bs ++ cs)
sum n bs cs = omega (arith, length-append bs cs)

module _ (mem : Memory) where
  pub Emits-nothing : Emits mem (λ s. ok tt s) []
  Emits-nothing = record {
    writes = λ sink max n room fits small.
        ap₂ (λ t k. ok tt (on mem (writing t max k none))) (sym (append-nothing sink))
          (omega arith);
    stops = λ sink max n room inside full small. absurd (omega arith);
    counts = λ max n small. ap (λ k. ok tt (on mem (counting max k none))) (omega arith);
  }

  module _ (m k : M EncState (Unit {0})) (bs cs : List ℕ) (hm : Emits mem m bs)
      (hk : Emits mem k cs) where
    stops_first :
        (sink : Sink) (max n : ℕ)
        → HasRoom sink max n
        → n ≤ max
        → max < n + length bs
        → n + length (bs ++ cs) < 2 ^ 64
        → Fails ((m >> k) (on mem (writing sink max n none)))
    stops_first sink max n room inside full small =
        let (t, run) = hm.stops sink max n room inside full (omega (arith, length-append bs cs)) in
        (t, ap (λ o. continue o (λ _. k)) run)

    stops_later :
        (sink : Sink) (max n : ℕ)
        → HasRoom sink max n
        → n + length bs ≤ max
        → max < n + length (bs ++ cs)
        → n + length (bs ++ cs) < 2 ^ 64
        → Fails ((m >> k) (on mem (writing sink max n none)))
    stops_later sink max n room fits full small =
        let total = length-append bs cs in
        let (t, run) =
          hk.stops (append bs sink) max (n + length bs) (omega arith) fits (omega (arith, total))
            (omega (arith, total)) in
        (t, ap (λ o. continue o (λ _. k)) (hm.writes sink max n room fits (omega arith)) ∙ run)

    pub Emits-then : Emits mem (m >> k) (bs ++ cs)
    Emits-then = record {
      writes = λ sink max n room fits small.
          ap (λ o. continue o (λ _. k))
            (hm.writes sink max n room (omega (arith, length-append bs cs)) small)
          ∙ hk.writes (append bs sink) max (n + length bs) (omega (arith, length-append bs cs))
              (omega (arith, length-append bs cs)) small
          ∙ ap₂ (λ t i. ok tt (on mem (writing t max i none))) (append-append bs cs sink)
              (sum n bs cs);
      stops = λ sink max n room inside full small. elim (Bool-cases (leb (n + length bs) max)) [
        | inl fits ↦ stops_later sink max n room (ground arith) full small
        | inr over ↦ stops_first sink max n room inside (ground arith) small
      ];
      counts = λ max n small.
          ap (λ o. continue o (λ _. k)) (hm.counts max n (omega (arith, length-append bs cs)))
          ∙ hk.counts max (n + length bs) (omega (arith, length-append bs cs))
          ∙ ap (λ i. ok tt (on mem (counting max i none))) (sum n bs cs);
    }

  -- A step that does on every stream over `mem` what another does.
  pub Emits-as :
      (m k : M EncState (Unit {0})) (bs : List ℕ)
      → ((s : Ostream) → m (on mem s) ≡ k (on mem s))
      → Emits mem k bs
      → Emits mem m bs
  Emits-as m k bs same h = record {
    writes = λ sink max n room fits small. same _ ∙ h.writes sink max n room fits small;
    stops = λ sink max n room inside full small.
        let (t, run) = h.stops sink max n room inside full small in (t, same _ ∙ run);
    counts = λ max n small. same _ ∙ h.counts max n small;
  }

  pub Emits-pb_write : (bs : List ℕ) → Emits mem (on_output (pb_write bs (length bs))) bs
  Emits-pb_write bs = record {
    writes = λ sink max n room fits small.
        ap (with_mem mem) (pb_write_fits bs sink max n none room fits small);
    stops = λ sink max n room inside full small. (
      on mem (writing sink max n (set_error none stream_full)),
      ap (with_mem mem) (pb_write_full bs sink max n none inside full small),
    );
    counts = λ max n small. ap (with_mem mem) (pb_write_counts bs (length bs) max n none small);
  }

  pub Emits-varint : (v : ℕ) → v < 2 ^ 64 → Emits mem (on_output (pb_encode_varint v)) (varint v)
  Emits-varint v h =
      Emits-as _ _ (varint v) (λ s. ap (with_mem mem) (pb_encode_varint_lem v s h))
        (Emits-pb_write (varint v))
