-- ===== src/Outcome.antt =====
-- What a C function that returns `bool` and writes through its pointers leaves behind.

-- `ok a s`: it returned true with the output `a`; `fail s`: it returned false; `s` is the state of
-- its streams and of memory in both cases. `fault`: undefined behaviour (a read past a buffer, a
-- call through NULL, a shift by the width). `stuck`: the fuel of the model ran out; no value of C.
pub data Outcome {ℓ κ} (S : Type ℓ) (A : Type κ) : Type (ℓ ⊔ κ) where
  ok : A → S → Outcome S A
  fail : S → Outcome S A
  fault : Outcome S A
  stuck : Outcome S A

-- A function over the state `S`.
abbrev pub M {ℓ κ} : Type ℓ → Type κ → Type (ℓ ⊔ κ)
M S A = S → Outcome S A

module _ {ℓ κ μ} {S : Type ℓ} {A : Type κ} {B : Type μ} where
  abbrev pub continue : Outcome S A → (A → M S B) → Outcome S B
  continue (ok a s) k = k a s
  continue (fail s) k = fail s
  continue fault k = fault
  continue stuck k = stuck

  infixl 5 ◌>>=◌ ◌>>◌
  -- `if (!f(...)) return false;` and then the rest.
  abbrev pub ◌>>=◌ : M S A → (A → M S B) → M S B
  ◌>>=◌ m k s = continue (m s) k

  abbrev pub ◌>>◌ : M S A → M S B → M S B
  ◌>>◌ m n = m >>= λ _. n

module _ {ℓ κ} {S : Type ℓ} {A : Type κ} where
  abbrev pub pure : A → M S A
  pure a s = ok a s
