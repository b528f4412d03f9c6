-- ===== src/Format/Agrees.antt =====
-- Two message structures that hold the same message, and one with all its flags at 0. Both depend on
-- the bytes of the structures alone.
use breakpoint.Base.{
  ℕ, zero, suc, ◌+◌, ◌-◌, ◌≤◌, ◌<◌, ◌≡◌, ◌≢◌, ◌⊎◌, refl, sym, ap, ◌∙◌, true, false, List, length,
  ◌==◌, arith, Bool-cases, inl, inr, ==_iff,
}
use breakpoint.Base.Int.{negsuc}
use breakpoint.Base.Bytes.{from_little_endian}
use breakpoint.Memory.{Memory, load}
use breakpoint.Memory.Stores.{load_bytes-agree}
use breakpoint.Descriptor.{Field, field_at, offset_by, pb_ltype, pb_htype}
use breakpoint.Descriptor.LType
use breakpoint.Descriptor.HType
use breakpoint.FieldIter.Layout.{iter_at}
use breakpoint.Memory.{load_bytes}
use breakpoint.Encoder.Values.{string_length}
use breakpoint.Format.{is_absent, text}
use breakpoint.Format.Texts.{string_length-le, string_length-agree}
use breakpoint.Format.Plain.{
  Rule, required, optional, offset_at, p_data-iter_at, IsPlainField, IsPlain, bound_end,
}

-- A relation between the messages at two addresses.
abbrev pub Relation : Type 1
Relation = List Field → ℕ → Memory → ℕ → Memory → Type 0

module _ (at : ℕ → List Field) (nested : Relation) where
  abbrev pub SameValue : Field → ℕ → Memory → ℕ → Memory → Type 0
  SameValue f p m p' m' =
      (pb_ltype f.type ≡ LType.submessage → nested (at f.ptr) p m p' m')
      × (pb_ltype f.type ≡ LType.string → text f.data_size p m ≡ text f.data_size p' m')
      × (pb_ltype f.type ≢ LType.submessage
          → pb_ltype f.type ≢ LType.string
          → load f.data_size p m ≡ load f.data_size p' m')

  -- Both absent, or both there with the same value.
  abbrev pub SameEntry : Field → ℕ → Memory → ℕ → Memory → Type 0
  SameEntry f p m p' m' =
      (is_absent f p m ≡ is_absent f p' m') × (is_absent f p m ≡ false → SameValue f p m p' m')

-- The strings of the fields that are there end within their field.
unfoldable pub IsFilled : (ℕ → List Field) → ℕ → List Field → ℕ → Memory → Type 0
IsFilled at zero fields src m = ⊥
IsFilled at (suc n) fields src m =
    (i : ℕ)
    → i < length fields
    → is_absent (field_at fields i) (iter_at fields src i).p_data m ≡ false
    → (pb_ltype (field_at fields i).type ≡ LType.string
        → string_length (field_at fields i).data_size (iter_at fields src i).p_data m
          < (field_at fields i).data_size)
      × (pb_ltype (field_at fields i).type ≡ LType.submessage
          → IsFilled at n (at (field_at fields i).ptr) (iter_at fields src i).p_data m)

-- The messages at `src` in `m` and at `dest` in `m'`, of at most `n` levels.
unfoldable pub Agrees : (ℕ → List Field) → ℕ → Relation
Agrees at zero fields src m dest m' = ⊥
Agrees at (suc n) fields src m dest m' =
    (i : ℕ)
    → i < length fields
    → SameEntry at (λ fs p l p' l'. Agrees at n fs p l p' l') (field_at fields i)
        (iter_at fields src i).p_data m (iter_at fields dest i).p_data m'

module _ (at : ℕ → List Field) (nested : List Field → ℕ → Memory → Type 0) where
  abbrev pub ClearedEntry : Field → ℕ → Memory → Type 0
  ClearedEntry f p m =
      (pb_htype f.type ≡ HType.optional → is_absent f p m ≡ true)
      × (pb_ltype f.type ≡ LType.submessage → nested (at f.ptr) p m)

-- Every optional field is absent, also in the messages of the structure.
unfoldable pub IsCleared : (ℕ → List Field) → ℕ → List Field → ℕ → Memory → Type 0
IsCleared at zero fields dest m = ⊥
IsCleared at (suc n) fields dest m =
    (i : ℕ)
    → i < length fields
    → ClearedEntry at (λ fs p l. IsCleared at n fs p l) (field_at fields i)
        (iter_at fields dest i).p_data m

-- The same bytes from `lo` up to `hi`.
abbrev pub Alike : ℕ → ℕ → Memory → Memory → Type 0
Alike lo hi m m' = (x : ℕ) → lo ≤ x → x < hi → m x ≡ m' x

pub load-Alike : (n a : ℕ) (m m' : Memory) → Alike a (a + n) m m' → load n a m ≡ load n a m'
unfolding load
load-Alike n a m m' same = ap from_little_endian (load_bytes-agree n a m m' same)

-- No byte but those from `lo` up to `hi` differs.
abbrev pub OnlyIn : ℕ → ℕ → Memory → Memory → Type 0
OnlyIn lo hi m m' = (x : ℕ) → (x < lo) ⊎ (hi ≤ x) → m' x ≡ m x

pub OnlyIn-trans :
    (lo mid hi : ℕ) (m m' m'' : Memory)
    → lo ≤ mid
    → mid ≤ hi
    → OnlyIn lo mid m m'
    → OnlyIn mid hi m' m''
    → OnlyIn lo hi m m''
OnlyIn-trans lo mid hi m m' m'' first last a b x (inl h) = b x (inl (omega arith)) ∙ a x (inl h)
OnlyIn-trans lo mid hi m m' m'' first last a b x (inr h) = b x (inr h) ∙ a x (inr (omega arith))

pub OnlyIn-wider :
    (lo hi lo' hi' : ℕ) (m m' : Memory)
    → lo' ≤ lo
    → hi ≤ hi'
    → OnlyIn lo hi m m'
    → OnlyIn lo' hi' m m'
OnlyIn-wider lo hi lo' hi' m m' below above a x (inl h) = a x (inl (omega arith))
OnlyIn-wider lo hi lo' hi' m m' below above a x (inr h) = a x (inr (omega arith))

pub OnlyIn-Alike :
    (lo hi lo' hi' : ℕ) (m m' : Memory)
    → (hi' ≤ lo) ⊎ (hi ≤ lo')
    → OnlyIn lo hi m m'
    → Alike lo' hi' m m'
OnlyIn-Alike lo hi lo' hi' m m' (inl h) a x low up = sym (a x (inl (omega arith)))
OnlyIn-Alike lo hi lo' hi' m m' (inr h) a x low up = sym (a x (inr (omega arith)))

pub text-Alike : (n a : ℕ) (m m' : Memory) → Alike a (a + n) m m' → text n a m ≡ text n a m'
text-Alike n a m m' same =
    load_bytes-agree (string_length n a m) a m m'
      (λ x low up. same x low (omega (arith, string_length-le n a m)))
    ∙ ap (λ k. load_bytes k a m') (string_length-agree n a m m' same)

-- Where the flag of an optional field is.
pub flag_of :
    (f : Field) (offset lo : ℕ)
    → Rule f offset lo
    → pb_htype f.type ≡ HType.optional
    → (k : ℕ) × (f.size_offset ≡ negsuc k) × (lo + k + 1 ≤ offset)
flag_of f offset lo (required e) o = absurd (omega (arith, e, o))
flag_of f offset lo (optional e k at fits) o = (k, at, fits)

module _ (fields : List Field) (i lo hi dest p : ℕ) (m m' : Memory)
    (plain : IsPlainField fields i lo hi) (place : p ≡ dest + offset_at fields i)
    (same : Alike (dest + lo) (dest + hi) m m') where
  pub is_absent-Alike : is_absent (field_at fields i) p m ≡ is_absent (field_at fields i) p m'
  is_absent-Alike = elim (Bool-cases (pb_htype (field_at fields i).type == HType.optional)) [
    | inl there ↦ rw there (ap (λ v. v == 0) (flag ((==_iff _ HType.optional).0 there)))
    | inr never ↦ rw never refl
  ]
    where
      flag :
          pb_htype (field_at fields i).type ≡ HType.optional
          → load 1 (offset_by p (field_at fields i).size_offset) m
            ≡ load 1 (offset_by p (field_at fields i).size_offset) m'
      flag o =
          let (k, at, fits) = flag_of (field_at fields i) (offset_at fields i) lo plain.rule o in
          let high = plain.high in
          rw at (
            load-Alike 1 (p - (k + 1)) m m'
              (λ x low up. same x (omega (arith, place)) (omega (arith, place))))

  pub data-Alike : Alike p (p + (field_at fields i).data_size) m m'
  data-Alike x low up =
      let l = plain.low in
      let h = plain.high in same x (omega (arith, place)) (omega (arith, place))

  module _ (at : ℕ → List Field) where
    pub SameEntry-Alike :
        (nested : Relation) (p0 : ℕ) (m0 : Memory)
        → (pb_ltype (field_at fields i).type ≡ LType.submessage
            → nested (at (field_at fields i).ptr) p0 m0 p m
            → nested (at (field_at fields i).ptr) p0 m0 p m')
        → SameEntry at nested (field_at fields i) p0 m0 p m
        → SameEntry at nested (field_at fields i) p0 m0 p m'
    SameEntry-Alike nested p0 m0 below (absence, value) = (
      absence ∙ is_absent-Alike,
      λ present. (
        λ e. below e ((value present).0 e),
        λ e. (value present).1 e ∙ text-Alike (field_at fields i).data_size p m m' data-Alike,
        λ e o. (value present).2 e o ∙ load-Alike (field_at fields i).data_size p m m' data-Alike,
      ),
    )

    pub ClearedEntry-Alike :
        (nested : List Field → ℕ → Memory → Type 0)
        → (pb_ltype (field_at fields i).type ≡ LType.submessage
            → nested (at (field_at fields i).ptr) p m
            → nested (at (field_at fields i).ptr) p m')
        → ClearedEntry at nested (field_at fields i) p m
        → ClearedEntry at nested (field_at fields i) p m'
    ClearedEntry-Alike nested below (absent, inner) =
        (λ o. sym is_absent-Alike ∙ absent o, λ e. below e (inner e))

-- The bytes of an entry are among those of the structure.
pub Alike-entry :
    (fields : List Field) (size dest : ℕ) (m m' : Memory) (bound : ℕ → ℕ)
    → bound (length fields) ≤ size
    → ((i : ℕ) → i < length fields → IsPlainField fields i (bound i) (bound (suc i)))
    → Alike dest (dest + size) m m'
    → (i : ℕ) → i < length fields
    → Alike (dest + bound i) (dest + bound (suc i)) m m'
Alike-entry fields size dest m m' bound fits plain same i lt x low up =
    same x (omega arith) (omega (arith, bound_end fields bound plain i lt))

-- A structure whose bytes stay keeps its message.
pub Agrees-Alike :
    (at : ℕ → List Field) (n : ℕ) (fields : List Field) (size src dest : ℕ) (m0 m m' : Memory)
    → IsPlain at n fields size
    → Alike dest (dest + size) m m'
    → Agrees at n fields src m0 dest m
    → Agrees at n fields src m0 dest m'
unfolding IsPlain Agrees
Agrees-Alike at zero fields size src dest m0 m m' plain same h = h
Agrees-Alike at (suc n) fields size src dest m0 m m' (bound, fits, few, distinct, plain) same h =
    λ i lt.
      let f = field_at fields i in
      let p = (iter_at fields dest i).p_data in
      let place = p_data-iter_at fields dest i in
      let inside = Alike-entry fields size dest m m' bound fits (λ j l. (plain j l).0) same i lt in
      SameEntry-Alike fields i (bound i) (bound (suc i)) dest p m m' (plain i lt).0 place inside at
        (λ fs q l q' l'. Agrees at n fs q l q' l') (iter_at fields src i).p_data m0
        (λ e.
          Agrees-Alike at n (at f.ptr) f.data_size (iter_at fields src i).p_data p m0 m m'
            ((plain i lt).1 e)
            (data-Alike fields i (bound i) (bound (suc i)) dest p m m' (plain i lt).0 place inside))
        (h i lt)

pub IsCleared-Alike :
    (at : ℕ → List Field) (n : ℕ) (fields : List Field) (size dest : ℕ) (m m' : Memory)
    → IsPlain at n fields size
    → Alike dest (dest + size) m m'
    → IsCleared at n fields dest m
    → IsCleared at n fields dest m'
unfolding IsPlain IsCleared
IsCleared-Alike at zero fields size dest m m' plain same h = h
IsCleared-Alike at (suc n) fields size dest m m' (bound, fits, few, distinct, plain) same h =
    λ i lt.
      let f = field_at fields i in
      let p = (iter_at fields dest i).p_data in
      let place = p_data-iter_at fields dest i in
      let inside = Alike-entry fields size dest m m' bound fits (λ j l. (plain j l).0) same i lt in
      ClearedEntry-Alike fields i (bound i) (bound (suc i)) dest p m m' (plain i lt).0 place inside
        at (λ fs q l. IsCleared at n fs q l)
        (λ e.
          IsCleared-Alike at n (at f.ptr) f.data_size p m m' ((plain i lt).1 e)
            (data-Alike fields i (bound i) (bound (suc i)) dest p m m' (plain i lt).0 place inside))
        (h i lt)
