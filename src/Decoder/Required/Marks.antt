-- ===== src/Decoder/Required/Marks.antt =====
-- The two words of `fields_seen` as a set of indices: what is marked in them, and what the check asks.
use breakpoint.Base.{
  ℕ, zero, suc, ◌+◌, ◌-◌, ◌/◌, ◌^◌, ◌≤◌, ◌<◌, ◌≡◌, ◌≢◌, ◌↔◌, refl, sym, ◌∙◌, Bool, true, false,
  ◌&&◌, ltb, ltb→lt, lt→ltb, le→ltb, ◌==◌, ==_iff, if◌then◌else◌, arith, Bool-cases, inl, inr,
}
use breakpoint.Base.Digits.{bit, bit-ones, bit_ext, power_le}
use breakpoint.Decoder.Required.{Loop, complete, missing, check_required, allbits}
use breakpoint.Decoder.Required.Words.{check_required_few, check_required_many}

all_below : ℕ → (ℕ → Bool) → Bool
all_below zero p = true
all_below (suc n) p = p n && all_below n p

at_below : (n : ℕ) (p : ℕ → Bool) (k : ℕ) → all_below n p ≡ true → k < n → p k ≡ true
unfolding all_below
at_below zero p k h lt = absurd (omega arith)
at_below (suc n) p k h lt = elim (Bool-cases (k == n)) [
  | inl same ↦ rw ((==_iff k n).0 same) (ground (arith, h))
  | inr other ↦ at_below n p k (ground (arith, h)) (ground arith)
]

pub shifted : (c : ℕ) → c < 32 → allbits / 2 ^ (32 - c) ≡ 2 ^ c - 1
unfolding all_below
shifted c lt =
    (==_iff _ (2 ^ c - 1)).0 (at_below 32 (λ k. allbits / 2 ^ (32 - k) == 2 ^ k - 1) c refl lt)

-- The two words are of 32 bits.
pub record IsWords (l : Loop) : Type 0 where
  pub low : l.seen_low < 2 ^ 32
  pub high : l.seen_high < 2 ^ 32

-- Whether the bit of the required field `k` is set.
abbrev pub has_bit : Loop → ℕ → Bool
has_bit l k = if ltb k 32 then bit k l.seen_low else bit (k - 32) l.seen_high

if_complete : (b : Bool) → ((if b then complete else missing) ≡ complete) ↔ (b ≡ true)
if_complete true = (λ e. refl, λ e. refl)
if_complete false = (λ e. absurd cc, λ e. absurd cc)

if_both :
    (a b : Bool)
    → ((if a then (if b then complete else missing) else missing) ≡ complete)
      ↔ ((a ≡ true) × (b ≡ true))
if_both true b = (λ e. (refl, (if_complete b).0 e), λ h. (if_complete b).1 h.1)
if_both false b = (λ e. absurd cc, λ h. absurd cc)

-- A word is that of the first `c` bits if and only if it has those and no other.
word_iff :
    (w c : ℕ)
    → w < 2 ^ 32
    → c ≤ 32
    → ((k : ℕ) → c ≤ k → k < 32 → bit k w ≡ false)
    → (w ≡ 2 ^ c - 1) ↔ ((k : ℕ) → k < c → bit k w ≡ true)
word_iff w c small le none_more = (
  λ e k lt. rw e (bit-ones k c ∙ lt→ltb k c lt),
  λ h. bit_ext 32 w (2 ^ c - 1) small (omega (arith, power_le c 32 le)) λ k lt.
      elim (Bool-cases (ltb k c)) [
        | inl below ↦ h k (ltb→lt k c below) ∙ sym (bit-ones k c ∙ below)
        | inr above ↦ none_more k (ground arith) lt ∙ sym (bit-ones k c ∙ above)
      ],
)

has_bit-low : (l : Loop) (k : ℕ) → k < 32 → has_bit l k ≡ bit k l.seen_low
has_bit-low l k lt = rw (lt→ltb k 32 lt) refl

has_bit-high : (l : Loop) (k : ℕ) → 32 ≤ k → has_bit l k ≡ bit (k - 32) l.seen_high
has_bit-high l k le = rw (le→ltb k 32 le) refl

module _ (l : Loop) (words : IsWords l) (count : ℕ)
    (none_more : (k : ℕ) → count ≤ k → k < 64 → has_bit l k ≡ false) where
  low_iff : count < 32 → (l.seen_low ≡ 2 ^ count - 1) ↔ ((k : ℕ) → k < count → has_bit l k ≡ true)
  low_iff few =
      let w =
        word_iff l.seen_low count words.low (omega arith)
          λ k le lt. sym (has_bit-low l k lt) ∙ none_more k le (omega arith) in
      (
        λ e k lt. has_bit-low l k (omega arith) ∙ w.0 e k lt,
        λ h. w.1 λ k lt. sym (has_bit-low l k (omega arith)) ∙ h k lt,
      )

  all_low_iff : 32 < count → (l.seen_low ≡ allbits) ↔ ((k : ℕ) → k < 32 → has_bit l k ≡ true)
  all_low_iff many =
      let w = word_iff l.seen_low 32 words.low (omega arith) λ k le lt. absurd (omega arith) in
      (
        λ e k lt. has_bit-low l k lt ∙ w.0 e k lt,
        λ h. w.1 λ k lt. sym (has_bit-low l k lt) ∙ h k lt,
      )

  high_iff :
      32 < count
      → count < 64
      → (l.seen_high ≡ 2 ^ (count - 32) - 1) ↔ ((k : ℕ) → 32 ≤ k → k < count → has_bit l k ≡ true)
  high_iff many few =
      let w =
        word_iff l.seen_high (count - 32) words.high (omega arith)
          λ k le lt. sym (at_high k) ∙ none_more (k + 32) (omega arith) (omega arith) in
      (
        λ e k le lt. has_bit-high l k le ∙ w.0 e (k - 32) (omega arith),
        λ h. w.1 λ k lt. sym (at_high k) ∙ h (k + 32) (omega arith) (omega arith),
      )
    where
      at_high : (k : ℕ) → has_bit l (k + 32) ≡ bit k l.seen_high
      at_high k =
          let same : k + 32 - 32 ≡ k = omega arith in
          has_bit-high l (k + 32) (omega arith) ∙ rw same refl

  few-complete :
      0 < count
      → count < 32
      → (check_required l count ≡ complete) ↔ ((k : ℕ) → k < count → has_bit l k ≡ true)
  few-complete positive few =
      rw (check_required_few l count positive few, shifted count few)
        (
          λ e. (low_iff few).0 ((==_iff _ _).0 ((if_complete _).0 e)),
          λ h. (if_complete _).1 ((==_iff _ _).1 ((low_iff few).1 h)),
        )

  many-complete :
      32 < count
      → count < 64
      → (check_required l count ≡ complete) ↔ ((k : ℕ) → k < count → has_bit l k ≡ true)
  many-complete many few =
      let shift : 64 - count ≡ 32 - (count - 32) = omega arith in
      rw (check_required_many l count many few, shift, shifted (count - 32) (omega arith))
        (
          λ e k lt. elim (Bool-cases (ltb k 32)) [
            | inl low ↦
                (all_low_iff many).0 ((==_iff _ _).0 ((if_both _ _).0 e).0) k (ltb→lt k 32 low)
            | inr high ↦
                (high_iff many few).0 ((==_iff _ _).0 ((if_both _ _).0 e).1) k (ground arith) lt
          ],
          λ h. (if_both _ _).1 (
            (==_iff _ _).1 ((all_low_iff many).1 λ k lt. h k (omega arith)),
            (==_iff _ _).1 ((high_iff many few).1 λ k le lt. h k lt),
          ),
        )

-- With fewer than 64 required fields, but not 32, and no bit from their number on: the check succeeds
-- exactly if the bit of every one of them is set.
pub check_required-has_bit :
    (l : Loop) (count : ℕ)
    → IsWords l
    → count < 64
    → count ≢ 32
    → ((k : ℕ) → count ≤ k → k < 64 → has_bit l k ≡ false)
    → (check_required l count ≡ complete) ↔ ((k : ℕ) → k < count → has_bit l k ≡ true)
check_required-has_bit l zero words small not_32 none_more =
    (λ e k lt. absurd (omega arith), λ h. unfold check_required in refl)
check_required-has_bit l (suc c) words small not_32 none_more = elim (Bool-cases (ltb (suc c) 32)) [
  | inl few ↦ few-complete l words (suc c) none_more (omega arith) (ltb→lt (suc c) 32 few)
  | inr many ↦ many-complete l words (suc c) none_more (ground (arith, not_32)) small
]
