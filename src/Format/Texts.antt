-- ===== src/Format/Texts.antt =====
-- Strings in memory, up to their NUL (pb_enc_string of pb_encode.c).
use breakpoint.Base.{
  ℕ, zero, suc, ◌+◌, ◌≤◌, ◌<◌, ◌≡◌, refl, sym, ap, ◌∙◌, List, ◌∷◌, inl, inr, Bool-cases, ◌==◌,
  arith,
}
use breakpoint.Memory.{Memory, store_byte, store_bytes, load_bytes}
use breakpoint.Memory.Stores.{load_bytes-agree, load_bytes-store_bytes}
use breakpoint.Decoder.Kept.{length-load_bytes}
use breakpoint.Encoder.Values.{string_length}

pub string_length-le : (n p : ℕ) (m : Memory) → string_length n p m ≤ n
unfolding string_length
string_length-le zero p m = omega arith
string_length-le (suc n) p m = ground (arith, string_length-le n (p + 1) m)

-- The length depends on the bytes that the string may take.
pub string_length-agree :
    (n p : ℕ) (m m' : Memory)
    → ((x : ℕ) → p ≤ x → x < p + n → m x ≡ m' x)
    → string_length n p m ≡ string_length n p m'
unfolding string_length
string_length-agree zero p m m' same = refl
string_length-agree (suc n) p m m' same = ground (
  arith,
  same p (omega arith) (omega arith),
  string_length-agree n (p + 1) m m' (λ x low up. same x (omega arith) (omega arith)),
)

head_same : {x y : ℕ} {xs ys : List ℕ} → x ∷ xs ≡ y ∷ ys → x ≡ y
head_same h = cc

tail_same : {x y : ℕ} {xs ys : List ℕ} → x ∷ xs ≡ y ∷ ys → xs ≡ ys
tail_same h = cc

-- A copy of a string with a NUL behind it is as long.
pub string_length-copy :
    (n p0 p k : ℕ) (m0 m : Memory)
    → string_length n p0 m0 ≡ k
    → k < n
    → load_bytes k p m ≡ load_bytes k p0 m0
    → m (p + k) ≡ 0
    → string_length n p m ≡ k
unfolding string_length load_bytes
string_length-copy zero p0 p k m0 m e lt same end = absurd (omega arith)
string_length-copy (suc n) p0 p zero m0 m e lt same end =
    let here : m p ≡ 0 = ap m (omega arith) ∙ end in ground (arith, here)
string_length-copy (suc n) p0 p (suc k) m0 m e lt same end = elim (Bool-cases (m0 p0 == 0)) [
  | inl stop ↦ absurd (ground (arith, e, stop))
  | inr more ↦
      let there : string_length n (p0 + 1) m0 ≡ k = ground (arith, e, more) in
      let later : m (p + 1 + k) ≡ 0 = ap m (omega arith) ∙ end in
      let rest =
        string_length-copy n (p0 + 1) (p + 1) k m0 m there (omega arith) (tail_same same) later in
      ground (arith, more, rest, head_same same)
]

-- What pb_dec_string stores.
pub string_length-stored :
    (n p0 p : ℕ) (m0 m : Memory)
    → string_length n p0 m0 < n
    → let k = string_length n p0 m0 in
      let m' = store_byte (p + k) 0 (store_bytes p (load_bytes k p0 m0) m) in
      load_bytes (string_length n p m') p m' ≡ load_bytes k p0 m0
string_length-stored n p0 p m0 m lt =
    let k = string_length n p0 m0 in
    let bs = load_bytes k p0 m0 in
    let m' = store_byte (p + k) 0 (store_bytes p bs m) in
    let copied : load_bytes k p (store_bytes p bs m) ≡ bs =
      ap (λ n. load_bytes n p (store_bytes p bs m)) (sym (length-load_bytes k p0 m0))
      ∙ load_bytes-store_bytes bs p m in
    let same : load_bytes k p m' ≡ bs =
      load_bytes-agree k p m' (store_bytes p bs m) (λ x low up. ground arith) ∙ copied in
    let end : m' (p + k) ≡ 0 = ground arith in
    ap (λ j. load_bytes j p m') (string_length-copy n p0 p k m0 m' refl lt same end) ∙ same
