-- ===== src/Encoder.antt =====
-- Encoding from a message structure (Pods/nanopb/pb_encode.c): the state, and what the build links in.
pub mod Values
pub mod Sized
pub mod Fields
pub mod Messages
mod Runs
use breakpoint.Base.{ℕ, List}
use breakpoint.Errors.{ErrMsg, set_error}
use breakpoint.Outcome.{Outcome, ok, fail, fault, stuck, M}
use breakpoint.Output.{Ostream}
use breakpoint.Memory.{Memory}
use breakpoint.Descriptor.{Field}
use breakpoint.Decoder.{ExtensionType}

-- The stream, and the bytes of the message structure. The encoder itself does not write to
-- memory, but a user's callback may.
pub record EncState : Type 0 where
  pub output : Ostream
  pub mem : Memory

-- What is not in pb_encode.c, by address: `call_encode fn field arg` is a field's callback, and
-- `call_extension fn extension` the `encode` of an extension type.
pub record Env : Type 0 where
  pub fields_at : ℕ → List Field
  pub extension_type : ℕ → ExtensionType
  pub call_encode : ℕ → Field → ℕ → M EncState (Unit {0})
  pub call_extension : ℕ → ℕ → M EncState (Unit {0})

abbrev pub return_error {κ} : {A : Type κ} → ErrMsg → M EncState A
return_error msg s =
    fail (record s { output = record s.output { errmsg = set_error s.output.errmsg msg } })

abbrev pub with_mem {κ} : {A : Type κ} → Memory → Outcome Ostream A → Outcome EncState A
with_mem m (ok a o) = ok a (record { output = o; mem = m })
with_mem m (fail o) = fail (record { output = o; mem = m })
with_mem m fault = fault
with_mem m stuck = stuck

-- A step of the stream alone.
abbrev pub on_output {κ} : {A : Type κ} → M Ostream A → M EncState A
on_output m s = with_mem s.mem (m s.output)

abbrev pub read_mem {κ} : {A : Type κ} → (Memory → A) → M EncState A
read_mem f s = ok (f s.mem) s
