-- ===== src/Decoder.antt =====
-- Decoding into a message structure (Pods/nanopb/pb_decode.c): the state, and what the build links in.
pub mod Confined
pub mod Decodable
pub mod Steady
pub mod Kept
pub mod Values
pub mod Fields
pub mod Defaults
pub mod Callbacks
pub mod Required
pub mod Messages
mod Samples
mod Runs
use breakpoint.Base.{◌==◌, if◌then◌else◌}
use breakpoint.Base.{ℕ, List, Bool}
use breakpoint.Errors.{ErrMsg, set_error}
use breakpoint.Outcome.{Outcome, ok, fail, fault, stuck, M}
use breakpoint.Input.{Istream}
use breakpoint.Memory.{Memory}
use breakpoint.Descriptor.{Field}

-- The stream and the bytes of the message structure.
pub record DecState : Type 0 where
  pub input : Istream
  pub mem : Memory

-- pb_extension_type_t: the addresses of two functions, and `arg`.
pub record ExtensionType : Type 0 where
  pub decode : ℕ
  pub encode : ℕ
  pub arg : ℕ

-- What is not in pb_decode.c, by address: the descriptor arrays and extension types that are
-- generated, and the functions of the user. `call_decode fn field arg` is a field's callback, and
-- `call_extension fn extension tag wire_type` the `decode` of an extension type.
pub record Env : Type 0 where
  pub fields_at : ℕ → List Field
  pub extension_type : ℕ → ExtensionType
  pub call_decode : ℕ → Field → ℕ → M DecState (Unit {0})
  pub call_extension : ℕ → ℕ → ℕ → ℕ → M DecState (Unit {0})

abbrev pub return_error {κ} : {A : Type κ} → ErrMsg → M DecState A
return_error msg s =
    fail (record s { input = record s.input { errmsg = set_error s.input.errmsg msg } })

abbrev pub with_mem {κ} : {A : Type κ} → Memory → Outcome Istream A → Outcome DecState A
with_mem m (ok a i) = ok a (record { input = i; mem = m })
with_mem m (fail i) = fail (record { input = i; mem = m })
with_mem m fault = fault
with_mem m stuck = stuck

-- A step that reads descriptors at a pointer; the read of a NULL pointer is a fault.
abbrev pub not_null : ℕ → M DecState (Unit {0}) → M DecState (Unit {0})
not_null ptr m = if ptr == 0 then (λ s. fault) else m

-- A step of the stream alone.
abbrev pub on_input {κ} : {A : Type κ} → M Istream A → M DecState A
on_input m s = with_mem s.mem (m s.input)

-- A step of memory alone.
abbrev pub on_mem : (Memory → Memory) → M DecState (Unit {0})
on_mem f s = ok tt (record s { mem = f s.mem })

abbrev pub read_mem {κ} : {A : Type κ} → (Memory → A) → M DecState A
read_mem f s = ok (f s.mem) s
