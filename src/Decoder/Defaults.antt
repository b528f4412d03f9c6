-- ===== src/Decoder/Defaults.antt =====
-- Default values (Pods/nanopb/pb_decode.c): pb_field_set_to_default, pb_message_set_to_defaults and
-- the iterator of an extension.
use breakpoint.Decoder.{not_null}
use breakpoint.Base.{ℕ, zero, suc, ◌+◌, ◌&&◌, ◌||◌, not, ◌==◌, if◌then◌else◌, List}
use breakpoint.Outcome.{M, stuck, ok, pure, ◌>>=◌, ◌>>◌}
use breakpoint.Memory.{Memory, load, store, memset_zero, memcpy}
use breakpoint.Descriptor.{Field, field_at, pb_ltype, pb_htype, pb_atype}
use breakpoint.Descriptor.LType
use breakpoint.Descriptor.HType
use breakpoint.Descriptor.AType
use breakpoint.FieldIter.{Iter, field, pb_field_iter_begin, for_fields}
use breakpoint.Decoder.{DecState, Env, on_mem, read_mem}

-- The members of a pb_extension_t: `type`, `dest`, `next` and `found`.
abbrev pub extension_dest : ℕ → ℕ
extension_dest ext = ext + 8

abbrev pub extension_next : ℕ → ℕ
extension_next ext = ext + 16

abbrev pub extension_found : ℕ → ℕ
extension_found ext = ext + 24

module _ (env : Env) where
  -- `(const pb_field_t*)extension->type->arg`, an array of one entry
  abbrev pub extension_fields : ℕ → Memory → List Field
  extension_fields ext m = env.fields_at (env.extension_type (load 8 ext m)).arg

  unfoldable pub iter_from_extension : ℕ → Memory → Iter
  iter_from_extension ext m =
      let fields = extension_fields ext m in
      let dest = load 8 (extension_dest ext) m in
      let it = (pb_field_iter_begin fields dest).0 in
      record it {
        p_data =
            if pb_atype (field_at fields 0).type == AType.pointer then extension_dest ext else dest;
        p_size = extension_found ext;
      }

  -- The loop over a list of extensions; `step` sets the field of one.
  unfoldable pub default_extensions : ℕ → (Iter → M DecState (Unit {0})) → ℕ → M DecState (Unit {0})
  default_extensions zero step ext s = stuck
  default_extensions (suc n) step ext s =
      let rest =
        (do
          on_mem (store 1 (extension_found ext) 0)
          it ← read_mem (iter_from_extension ext)
          step it
          next ← read_mem (load 8 (extension_next ext))
          default_extensions n step next)
          s in
      if ext == 0 then ok tt s else rest

  -- The branch for static fields; `message` sets a submessage.
  unfoldable pub set_static :
      (List Field → ℕ → M DecState (Unit {0})) → Iter → M DecState (Unit {0})
  set_static message it =
      let f = field it in
      let init =
        if pb_ltype f.type == LType.submessage
        then not_null f.ptr (message (env.fields_at f.ptr) it.p_data)
        else if not (f.ptr == 0)
        then on_mem (memcpy it.p_data f.ptr f.data_size)
        else on_mem (memset_zero it.p_data f.data_size) in
      if pb_htype f.type == HType.optional && not (it.p_size == it.p_data)
      then (do on_mem (store 1 it.p_size 0); init)
      else if pb_htype f.type == HType.repeated || pb_htype f.type == HType.oneof
      then on_mem (store 4 it.p_size 0)
      else init

  unfoldable pub set_pointer : Iter → M DecState (Unit {0})
  set_pointer it = do
    on_mem (store 8 it.p_data 0)
    if pb_htype (field it).type == HType.repeated || pb_htype (field it).type == HType.oneof
        then on_mem (store 4 it.p_size 0)
        else pure tt

  -- The first parameter bounds how deep submessages and extensions nest, and how long a list of
  -- extensions is.
  unfoldable pub pb_field_set_to_default : ℕ → Iter → M DecState (Unit {0})
  pb_field_set_to_default zero it s = stuck
  pb_field_set_to_default (suc n) it s =
      let type = (field it).type in
      let step = λ (i : Iter). pb_field_set_to_default n i in
      (if pb_ltype type == LType.extension
          then (do ext ← read_mem (load 8 it.p_data); default_extensions n step ext)
          else if pb_atype type == AType.static
          then set_static (for_fields step) it
          else if pb_atype type == AType.pointer
          then set_pointer it
          else pure tt)
        s

  unfoldable pub pb_message_set_to_defaults : ℕ → List Field → ℕ → M DecState (Unit {0})
  pb_message_set_to_defaults n = for_fields (λ it. pb_field_set_to_default n it)
