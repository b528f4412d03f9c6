-- ===== src/Decoder/Required.antt =====
-- The bookkeeping of required fields in pb_decode_noinit (Pods/nanopb/pb_decode.c).
pub mod Words
pub mod Marks
pub mod Trail
pub mod Count
use breakpoint.Base.{
  ℕ, zero, suc, ◌+◌, ◌-◌, ◌*◌, ◌/◌, ◌^◌, bit_and, bit_or, Bool, true, false, ◌&&◌, ◌||◌, not, leb,
  ◌==◌, if◌then◌else◌, Option, none, some, List, length,
}
use breakpoint.Descriptor.{pb_htype}
use breakpoint.Descriptor.HType
use breakpoint.FieldIter.{Iter, field, pb_field_iter_next}

-- The local variables of pb_decode_noinit; `fields_seen` has two words, for PB_MAX_REQUIRED_FIELDS.
pub record Loop : Type 0 where
  pub iter : Iter
  pub seen_low : ℕ
  pub seen_high : ℕ
  pub extension_range_start : ℕ

-- `fields_seen[required_field_index >> 5] |= 1 << (required_field_index & 31)`
unfoldable pub mark_seen : Loop → Loop
mark_seen l =
    let i = l.iter.required_field_index in
    let bit = 2 ^ bit_and i 31 in
    if not (pb_htype (field l.iter).type == HType.required) || leb 64 i
    then l
    else if i / 2 ^ 5 == 0
    then record l { seen_low = bit_or l.seen_low bit }
    else record l { seen_high = bit_or l.seen_high bit }

-- `undefined`: the C code has no defined result, for it shifts a uint32_t by 32 bits or reads
-- behind `fields_seen[1]`.
pub data Verdict : Type 0 where
  complete missing undefined : Verdict

-- `fields_seen[i]`
abbrev pub seen_word : Loop → ℕ → Option ℕ
seen_word l zero = some l.seen_low
seen_word l (suc zero) = some l.seen_high
seen_word l (suc (suc i)) = none

abbrev pub allbits : ℕ
allbits = 2 ^ 32 - 1

-- `if (fields_seen[i] != bits) PB_RETURN_ERROR(…)`, and then the rest.
abbrev pub check_word : Option ℕ → ℕ → Verdict → Verdict
check_word none bits rest = undefined
check_word (some word) bits rest = if word == bits then rest else missing

-- `fields_seen[i] != (allbits >> (32 - used))`
abbrev pub check_last : Loop → ℕ → ℕ → Verdict
check_last l i used =
    if used == 0 then undefined else check_word (seen_word l i) (allbits / 2 ^ (32 - used)) complete

-- The loop over the whole words from `i` on, `rounds` of them, and the check of the last word.
unfoldable pub check_words : Loop → ℕ → ℕ → Verdict → Verdict
check_words l zero i rest = rest
check_words l (suc rounds) i rest =
    check_word (seen_word l i) allbits (check_words l rounds (i + 1) rest)

unfoldable pub check_required : Loop → ℕ → Verdict
unfolding check_words
check_required l count =
    let words = count / 2 ^ 5 in
    if count == 0 then complete else check_words l words 0 (check_last l words (bit_and count 31))

-- The do-while that seeks the end; the last index and type, and the iterator behind the wrap.
unfoldable pub seek_end : ℕ → Iter → Option (ℕ × ℕ × Iter)
unfolding pb_field_iter_next
seek_end zero it = none
seek_end (suc n) it =
    let (it', more) = pb_field_iter_next it in
    let rest = seek_end n it' in
    if more then rest else some (it.required_field_index, (field it).type, it')

-- "Fixup if last field was also required."
abbrev pub fix_count : ℕ × ℕ × Iter → ℕ
fix_count (count, last_type, it) =
    if pb_htype last_type == HType.required && not ((field it).tag == 0) then count + 1 else count

abbrev pub check_after : Loop → Option (ℕ × ℕ × Iter) → Option Verdict
check_after l none = none
check_after l (some e) = some (check_required l (fix_count e))

-- The block that ends pb_decode_noinit.
unfoldable pub required_fields : Loop → Option Verdict
required_fields l = check_after l (seek_end (suc (length l.iter.start)) l.iter)
