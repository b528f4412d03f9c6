-- ===== src/Services/Runs.antt =====
-- A Firebase in memory, which refuses one address, and a registration with it.
use Prim.Native.String.{String}
use text.Mathlib.Text.{◌==◌}
use text.Mathlib.TextEquality.{eq_iff}
use breakpoint.Base.{
  ◌≡◌, refl, Bool, true, false, ◌&&◌, Option, none, some, List, [], ◌∷◌, ◌++◌, All, if◌then◌else◌,
  Bool-cases, inl, inr, arith,
}
use breakpoint.Services.{User, Firebase, Completion, register_user}
use breakpoint.Services.Registration.{
  CallsBack, Documented, lookup, Answered, register_user-Answered,
}

abbrev Database : Type 0
Database = List String → Option String

-- The database, and the answers that the application was given.
record World : Type 0 where
  database : Database
  answers : List (Bool × Option String)

-- `q` is at or below `p`.
starts : List String → List String → Bool
starts [] q = true
starts (k ∷ p) [] = false
starts (k ∷ p) (l ∷ q) = k == l && starts p q

abbrev set_all : List String → List (String × Option String) → Database → Database
set_all r [] db q = db q
set_all r ((k, v) ∷ entries) db q =
    if starts (r ++ k ∷ []) q
    then (if starts q (r ++ k ∷ []) then v else none)
    else set_all r entries db q

abbrev ann : User
ann = record { uid = "u1"; provider_id = "password"; email = some "ann@example.org" }

abbrev reply_to : String → (Option User → Option String → World → World) → World → World
reply_to email completion w =
    if email == "ann@example.org"
    then completion (some ann) none w
    else completion none (some "in use") w

abbrev in_memory : Firebase World (List String) String
in_memory = record {
  reference = [];
  child = λ r k. r ++ k ∷ [];
  create_user = λ email password. reply_to email;
  sign_in = λ email password. reply_to email;
  update_child_values = λ r values w. record w { database = set_all r values w.database };
}

eq_refl : (k : String) → (k == k) ≡ true
eq_refl k = (eq_iff k k).1 refl

starts-child : (r : List String) (k l : String) → starts (r ++ k ∷ []) (r ++ l ∷ []) ≡ (k == l)
unfolding starts
starts-child [] k l = and_true (k == l)
  where
    and_true : (b : Bool) → (b && true) ≡ b
    and_true true = refl
    and_true false = refl
starts-child (x ∷ r) k l = rw (eq_refl x) (starts-child r k l)

set_all-lookup :
    (r : List String) (values : List (String × Option String)) (k : String) (v : Option String)
    (db : Database)
    → lookup k values ≡ some v
    → set_all r values db (r ++ k ∷ []) ≡ v
set_all-lookup r [] k v db h = ground arith
set_all-lookup r ((l, u) ∷ entries) k v db h = elim (Bool-cases (l == k)) [
  | inl e ↦
      rw (starts-child r l k, e, starts-child r k l, (eq_iff l k).0 e, eq_refl k)
        (let h2 = rw e at h in cc)
  | inr e ↦ rw (starts-child r l k, e) (set_all-lookup r entries k v db (rw e at h))
]

set_all-apart :
    (r q : List String) (values : List (String × Option String)) (db : Database)
    → All (λ entry. starts (r ++ entry.0 ∷ []) q ≡ true → ⊥) values
    → set_all r values db q ≡ db q
set_all-apart r q [] db h = refl
set_all-apart r q ((k, v) ∷ entries) db h = elim (Bool-cases (starts (r ++ k ∷ []) q)) [
  | inl e ↦ absurd (h.0 e)
  | inr e ↦ rw e (set_all-apart r q entries db h.1)
]

abbrev calls_back : (email : String) (w : World) → CallsBack (reply_to email) w
calls_back email w = by_test (email == "ann@example.org") refl
  where
    by_test : (b : Bool) → (email == "ann@example.org") ≡ b → CallsBack (reply_to email) w
    by_test true e = record {
      user = some ann;
      error = none;
      later = w;
      invoked = λ completion. rw e refl;
    }
    by_test false e = record {
      user = none;
      error = some "in use";
      later = w;
      invoked = λ completion. rw e refl;
    }

abbrev documented : Documented in_memory
documented = record {
  read = λ w r. w.database r;
  Below = λ q p. starts p q ≡ true;
  create_user = λ email password w. calls_back email w;
  sign_in = λ email password w. calls_back email w;
  updates = λ r values k v w h. set_all-lookup r values k v w.database h;
  keeps = λ r q values w h. set_all-apart r q values w.database h;
}

-- The application notes its answers.
abbrev note : Completion World String
note status error w = record w { answers = (status, error) ∷ w.answers }

abbrev empty : World
empty = record { database = λ r. none; answers = [] }

registers_ann :
    Answered in_memory documented note
      (some ann)
      none
      empty
      (register_user in_memory "ann@example.org" "secret" note empty)
registers_ann = register_user-Answered in_memory documented "ann@example.org" "secret" note empty
