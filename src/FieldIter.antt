-- ===== src/FieldIter.antt =====
-- The field iterator (Pods/nanopb/pb_common.c, pb_common.h).
pub mod Layout
pub mod Search
pub mod Members
mod Runs
use breakpoint.Base.{
  ℕ, zero, suc, ◌+◌, ◌*◌, ◌^◌, ◌%◌, Bool, true, false, ◌&&◌, not, Option, none, some, List, length,
  ◌==◌, if◌then◌else◌,
}
use breakpoint.Descriptor.{Field, field_at, offset_by, pb_ltype, pb_htype, pb_atype, pb_size_max}
use breakpoint.Outcome.{M, stuck, pure, ◌>>=◌, ◌>>◌}
use breakpoint.Descriptor.LType
use breakpoint.Descriptor.HType
use breakpoint.Descriptor.AType

-- pb_field_iter_t. `pos` is an index into the array at `start`.
pub record Iter : Type 0 where
  pub start : List Field
  pub pos : ℕ
  pub required_field_index : ℕ
  pub dest_struct : ℕ
  pub p_data : ℕ
  pub p_size : ℕ

-- `*iter->pos`
abbrev pub field : Iter → Field
field it = field_at it.start it.pos

-- The iterator at an entry whose data is at `p_data`.
abbrev pub place : List Field → ℕ → ℕ → ℕ → ℕ → Iter
place start i required dest p_data = record {
  start = start;
  pos = i;
  required_field_index = required;
  dest_struct = dest;
  p_data = p_data;
  p_size = offset_by p_data (field_at start i).size_offset;
}

-- The new iterator, and the returned value.
unfoldable pub pb_field_iter_begin : List Field → ℕ → Iter × Bool
pb_field_iter_begin fields dest =
    let first = field_at fields 0 in
    (place fields 0 0 dest (dest + first.data_offset), not (first.tag == 0))

-- `prev_size`: how far the data of an entry reaches in the message structure.
unfoldable pub size_in_struct : Field → ℕ
size_in_struct prev =
    if pb_atype prev.type == AType.static && pb_htype prev.type == HType.repeated
    then prev.data_size * prev.array_size
    else if pb_atype prev.type == AType.pointer
    then 8
    else prev.data_size

-- Two members of one union.
unfoldable pub same_union : Field → Field → Bool
same_union prev next =
    pb_htype prev.type == HType.oneof
    && pb_htype next.type == HType.oneof
    && next.data_offset == pb_size_max

-- The step to the entry `next`, which is not the terminator. In a union no pointer moves, and
-- the required fields are not counted on.
unfoldable pub step_to : Field → Field → Iter → Iter
unfolding size_in_struct same_union
step_to prev next it =
    if same_union prev next
    then record it { pos = it.pos + 1 }
    else let required =
        if pb_htype prev.type == HType.required
        then it.required_field_index + 1
        else it.required_field_index in
      place it.start (it.pos + 1) required it.dest_struct
        (it.p_data + size_in_struct prev + next.data_offset)

unfoldable pub pb_field_iter_next : Iter → Iter × Bool
pb_field_iter_next it =
    let next = field_at it.start (it.pos + 1) in
    if (field it).tag == 0
    then (it, false)
    else if next.tag == 0
    then ((pb_field_iter_begin it.start it.dest_struct).0, false)
    else (step_to (field it) next it, true)

unfoldable pub is_wanted : ℕ → Field → Bool
is_wanted tag f = f.tag == tag && not (pb_ltype f.type == LType.extension)

-- The do-while loops of pb_field_iter_find and find_extension_field, from the index `start` all the
-- way round. `none`: the rounds ran out.
unfoldable pub find_from : (Field → Bool) → ℕ → ℕ → Iter → Option (Iter × Bool)
find_from wanted start zero it = none
find_from wanted start (suc n) it =
    let it' = (pb_field_iter_next it).0 in
    let rest = find_from wanted start n it' in
    if wanted (field it)
    then some (it, true)
    else if it'.pos == start
    then some (it', false)
    else rest

-- One round for each entry, and one more.
unfoldable pub pb_field_iter_find : Iter → ℕ → Option (Iter × Bool)
pb_field_iter_find it tag = find_from (is_wanted tag) it.pos (suc (length it.start)) it

abbrev pub is_extension : Field → Bool
is_extension f = pb_ltype f.type == LType.extension

-- find_extension_field of pb_decode.c.
unfoldable pub find_extension_field : Iter → Option (Iter × Bool)
find_extension_field it = find_from is_extension it.pos (suc (length it.start)) it

-- `do { step(&iter); } while (pb_field_iter_next(&iter));`, one round for each entry.
unfoldable pub each_field : {S : Type 0} → ℕ → (Iter → M S (Unit {0})) → Iter → M S (Unit {0})
each_field zero step it s = stuck
each_field (suc n) step it s =
    let (it', more) = pb_field_iter_next it in
    let rest = (do step it; each_field n step it') s in if more then rest else step it s

-- The same, behind `if (!pb_field_iter_begin(&iter, fields, dest)) return …;`.
unfoldable pub for_fields : {S : Type 0} → (Iter → M S (Unit {0})) → List Field → ℕ → M S (Unit {0})
for_fields step fields dest =
    let (it, nonempty) = pb_field_iter_begin fields dest in
    if nonempty then each_field (length fields) step it else pure tt
