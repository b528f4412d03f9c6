-- ===== src/Format/Cleared.antt =====
-- pb_message_set_to_defaults leaves a structure with all its flags at 0.
pub mod Messages
use breakpoint.Base.{◌≢◌}
use breakpoint.Decoder.{not_null}
use breakpoint.Base.{
  ℕ, zero, suc, ◌+◌, ◌-◌, ◌≤◌, ◌<◌, ◌≡◌, ◌≢◌, ◌⊎◌, refl, sym, ap, ◌∙◌, true, false, not, List,
  length, ◌==◌, arith, Bool-cases, inl, inr, ==_iff, neq→==, if◌then◌else◌, replicate,
  length-replicate,
}
use breakpoint.Base.Int.{negsuc}
use breakpoint.Base.Bytes.{little_endian}
use breakpoint.Outcome.{Outcome, ok, M, ◌>>◌, continue}
use breakpoint.Input.{Istream}
use breakpoint.Memory.{Memory, load, store, store_bytes, memset_zero, memcpy, load_bytes}
use breakpoint.Memory.Stores.{store_bytes-outside, load-store, length-little_endian}
use breakpoint.Descriptor.{Field, field_at, offset_by, pb_ltype, pb_htype}
use breakpoint.Descriptor.LType
use breakpoint.Descriptor.HType
use breakpoint.FieldIter.{Iter, field, pb_field_iter_begin, each_field, for_fields}
use breakpoint.FieldIter.Layout.{iter_at, pb_field_iter_next-iter_at}
use breakpoint.Decoder.{DecState, Env, on_mem}
use breakpoint.Decoder.Defaults.{set_static, pb_field_set_to_default, pb_message_set_to_defaults}
use breakpoint.Decoder.Kept.{length-load_bytes}
use breakpoint.Decoder.Required.Count.{field-iter_at}
use breakpoint.Format.{is_absent}
use breakpoint.Format.Plain.{
  Kind, Rule, required, optional, offset_at, p_data-iter_at, p_size-iter_at, not_extension,
  message_there, All-IsTagged, IsPlainField, IsPlain, bound_end, no_fields, begin_some,
}
use breakpoint.Format.Agrees.{
  OnlyIn, OnlyIn-trans, OnlyIn-wider, OnlyIn-Alike, load-Alike, ClearedEntry, ClearedEntry-Alike,
  IsCleared, IsCleared-Alike, Alike-entry,
}

abbrev pub over : Istream → Memory → DecState
over input m = record { input = input; mem = m }

-- A step that only writes memory, in one range, and leaves what `P` says.
abbrev pub Fills : M DecState (Unit {0}) → Istream → ℕ → ℕ → Memory → (Memory → Type 0) → Type 0
Fills step input lo hi m P =
    (m' : Memory) × (step (over input m) ≡ ok tt (over input m')) × OnlyIn lo hi m m' × P m'

pub store-OnlyIn : (n a v : ℕ) (m : Memory) → OnlyIn a (a + n) m (store n a v m)
unfolding store
store-OnlyIn n a v m x out =
    store_bytes-outside (little_endian n v) a x m (rw (length-little_endian n v) out)

memset_zero-OnlyIn : (a n : ℕ) (m : Memory) → OnlyIn a (a + n) m (memset_zero a n m)
unfolding memset_zero
memset_zero-OnlyIn a n m x out =
    store_bytes-outside (replicate n 0) a x m (rw (length-replicate {A = ℕ} n 0) out)

memcpy-OnlyIn : (a from n : ℕ) (m : Memory) → OnlyIn a (a + n) m (memcpy a from n m)
unfolding memcpy
memcpy-OnlyIn a from n m x out =
    store_bytes-outside (load_bytes n from m) a x m (rw (length-load_bytes n from m) out)

module _ (env : Env) (input : Istream) (inner : List Field → ℕ → Memory → Type 0)
    (message : List Field → ℕ → M DecState (Unit {0})) where
  -- The value of a field, of a message or of anything else.
  abbrev init : Field → ℕ → M DecState (Unit {0})
  init f p =
      if pb_ltype f.type == LType.submessage
      then not_null f.ptr (message (env.fields_at f.ptr) p)
      else if not (f.ptr == 0)
      then on_mem (memcpy p f.ptr f.data_size)
      else on_mem (memset_zero p f.data_size)

  abbrev pub Below : Field → ℕ → Type 0
  Below f p =
      pb_ltype f.type ≡ LType.submessage
      → (m : Memory)
      → Fills (message (env.fields_at f.ptr) p) input p (p + f.data_size) m
          (λ m'. inner (env.fields_at f.ptr) p m')

  init-Fills :
      (f : Field) (p : ℕ) (m : Memory)
      → (pb_ltype f.type ≡ LType.submessage → f.ptr ≢ 0)
      → Below f p
      → Fills
          (init f p)
          input
          p
          (p + f.data_size)
          m
          (λ m'. pb_ltype f.type ≡ LType.submessage → inner (env.fields_at f.ptr) p m')
  init-Fills f p m there below = elim (Bool-cases (pb_ltype f.type == LType.submessage)) [
    | inl nests ↦
        let sub = (==_iff _ LType.submessage).0 nests in
        let (m', run, only, holds) = below sub m in
        (m', rw (nests, neq→== f.ptr 0 (there sub)) run, only, λ e. holds)
    | inr plain ↦ elim (Bool-cases (f.ptr == 0)) [
      | inl null ↦ (
        memset_zero p f.data_size m,
        rw (plain, null) refl,
        memset_zero-OnlyIn p f.data_size m,
        λ e. absurd (ground (arith)),
      )
      | inr default ↦ (
        memcpy p f.ptr f.data_size m,
        rw (plain, default) refl,
        memcpy-OnlyIn p f.ptr f.data_size m,
        λ e. absurd (ground (arith)),
      )
    ]
  ]

module _ (env : Env) (input : Istream) (n : ℕ) (inner : List Field → ℕ → Memory → Type 0)
    (fields : List Field) (dest i lo hi : ℕ) (here : IsPlainField fields i lo hi)
    (below : Below env input inner
      (λ fs p. pb_message_set_to_defaults env n fs p)
      (field_at fields i)
      (iter_at fields dest i).p_data) where
  abbrev step : M DecState (Unit {0})
  step = pb_field_set_to_default env (suc n) (iter_at fields dest i)

  abbrev Clear : Memory → Type 0
  Clear m = ClearedEntry env.fields_at inner (field_at fields i) (iter_at fields dest i).p_data m

  required-Fills :
      (m : Memory)
      → pb_htype (field_at fields i).type ≡ HType.required
      → Fills step input (dest + lo) (dest + hi) m Clear
  unfolding pb_field_set_to_default set_static pb_message_set_to_defaults
  required-Fills m e =
      let f = field_at fields i in
      let p = (iter_at fields dest i).p_data in
      let place = p_data-iter_at fields dest i in
      let (m', run, only, holds) =
        init-Fills env input inner (λ fs p. pb_message_set_to_defaults env n fs p) f p m
          (message_there f here.kind) below in
      (
        m',
        rw (field-iter_at fields dest i, not_extension f here.kind, here.static, e) run,
        OnlyIn-wider p (p + f.data_size) (dest + lo) (dest + hi) m m'
            (omega (arith, place, here.low)) (omega (arith, place, here.high)) only,
        (λ o. absurd (omega (arith, e, o)), holds),
      )

  optional-Fills :
      (m : Memory) (k : ℕ)
      → pb_htype (field_at fields i).type ≡ HType.optional
      → (field_at fields i).size_offset ≡ negsuc k
      → lo + k + 1 ≤ offset_at fields i
      → Fills step input (dest + lo) (dest + hi) m Clear
  unfolding pb_field_set_to_default set_static pb_message_set_to_defaults
  optional-Fills m k e at fits =
      let f = field_at fields i in
      let p = (iter_at fields dest i).p_data in
      let place = p_data-iter_at fields dest i in
      let q = p - (k + 1) in
      let flag : (iter_at fields dest i).p_size ≡ q =
        p_size-iter_at fields dest i (offset_at fields i) lo here.rule ∙ ap (offset_by p) at in
      let m1 = store 1 q 0 m in
      let (m', run, only, holds) =
        init-Fills env input inner (λ fs p. pb_message_set_to_defaults env n fs p) f p m1
          (message_there f here.kind) below in
      let kept =
        load-Alike 1 q m1 m'
          (OnlyIn-Alike p (p + f.data_size) q (q + 1) m1 m' (inl (omega (arith, place))) only) in
      let cleared : load 1 q m' ≡ 0 = sym kept ∙ load-store 1 q 0 m (omega arith) in
      (
        m',
        rw
            (
              field-iter_at fields dest i,
              not_extension f here.kind,
              here.static,
              e,
              flag,
              neq→== q p (omega (arith, place)),
            )
            run,
        OnlyIn-trans (dest + lo) p (dest + hi) m m1 m' (omega (arith, place, here.low))
            (omega (arith, place, here.high))
            (OnlyIn-wider q (q + 1) (dest + lo) p m m1 (omega (arith, place)) (omega (arith, place))
              (store-OnlyIn 1 q 0 m))
            (OnlyIn-wider p (p + f.data_size) p (dest + hi) m1 m' (omega arith)
              (omega (arith, place, here.high)) only),
        (λ o. rw (e, ap (offset_by p) at, cleared) refl, holds),
      )

  pub entry-Fills : (m : Memory) → Fills step input (dest + lo) (dest + hi) m Clear
  entry-Fills m = by_rule here.rule
    where
      by_rule :
          Rule (field_at fields i) (offset_at fields i) lo
          → Fills step input (dest + lo) (dest + hi) m Clear
      by_rule (required e) = required-Fills m e
      by_rule (optional e k at fits) = optional-Fills m k e at fits
