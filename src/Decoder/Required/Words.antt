-- ===== src/Decoder/Required/Words.antt =====
-- The check of the required fields against the two words of `fields_seen`.
use breakpoint.Base.{
  ℕ, zero, suc, ◌-◌, ◌/◌, ◌^◌, ◌≤◌, ◌<◌, ◌⊎◌, inl, inr, neq→==, bit_and, ◌≡◌, ◌==◌, if◌then◌else◌,
  arith,
}
use breakpoint.Base.Bits.{bit_and-31}
use breakpoint.Decoder.Required.{
  Loop, complete, missing, undefined, check_required, check_words, check_last, allbits,
}

-- With 1 to 31 required fields the check succeeds exactly if the first word has the bits 0 up to
-- `count - 1` and no other.
pub check_required_few :
    (l : Loop) (count : ℕ)
    → 0 < count
    → count < 32
    → check_required l count
      ≡ (if l.seen_low == allbits / 2 ^ (32 - count) then complete else missing)
unfolding check_required check_words
check_required_few l count pos few =
    rw (neq→== count 0 (omega arith), words, used, neq→== count 0 (omega arith))
  where
    words : count / 2 ^ 5 ≡ 0
    words = omega arith

    used : bit_and count 31 ≡ count
    used = omega (arith, bit_and-31 count)

-- With 33 to 63 required fields it succeeds exactly if the first word has all bits and the second one
-- the bits 0 up to `count - 33` and no other.
pub check_required_many :
    (l : Loop) (count : ℕ)
    → 32 < count
    → count < 64
    → check_required l count ≡ (
        if l.seen_low == allbits
        then (if l.seen_high == allbits / 2 ^ (64 - count) then complete else missing)
        else missing)
unfolding check_required check_words
check_required_many l count many few =
    rw (neq→== count 0 (omega arith), words, used, neq→== (count - 32) 0 (omega arith), shift)
  where
    words : count / 2 ^ 5 ≡ 1
    words = omega arith

    used : bit_and count 31 ≡ count - 32
    used = omega (arith, bit_and-31 count)

    shift : 32 - (count - 32) ≡ 64 - count
    shift = omega arith

-- With 32 required fields, or 64 or more, and every bit of both words set, the C code has no defined
-- result.
pub check_required_undefined :
    (l : Loop) (count : ℕ)
    → (count ≡ 32) ⊎ (64 ≤ count)
    → l.seen_low ≡ allbits
    → l.seen_high ≡ allbits
    → check_required l count ≡ undefined
unfolding check_required check_words
check_required_undefined l count (inl h) low high = rw h (ground arith)
check_required_undefined l count (inr h) low high =
    rw (neq→== count 0 (omega arith), two_more (count / 2 ^ 5) (omega arith))
      (past_end l (count / 2 ^ 5 - 2) (bit_and count 31) low high)
  where
    two_more : (n : ℕ) → 2 ≤ n → n ≡ suc (suc (n - 2))
    two_more n h = omega arith

    past_end :
        (l : Loop) (n used : ℕ)
        → l.seen_low ≡ allbits
        → l.seen_high ≡ allbits
        → check_words l (suc (suc n)) 0 (check_last l (suc (suc n)) used) ≡ undefined
    past_end l zero used low high = ground arith
    past_end l (suc n) used low high = ground arith
