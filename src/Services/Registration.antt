-- ===== src/Services/Registration.antt =====
-- What a caller of AuthService can rely on, by what Firebase documents of itself.
use Prim.Native.String.{String}
use mathlib.Core.Path.{subst}
use text.Mathlib.Text.{◌==◌}
use breakpoint.Base.{
  ◌≡◌, refl, sym, true, false, Option, none, some, List, [], ◌∷◌, All, if◌then◌else◌,
}
use breakpoint.Services.{
  User, Firebase, Completion, ref_users, create_db_user, on_created, register_user,
}

-- A completion is invoked once, in the state `later`, with a user or with an error.
pub record CallsBack {World Error : Type 0}
    (call : (Option User → Option Error → World → World) → World → World) (w : World) : Type 0 where
  pub user : Option User
  pub error : Option Error
  pub later : World
  pub invoked :
      (completion : Option User → Option Error → World → World)
      → call completion w ≡ completion user error later

-- The value at a key of a dictionary.
abbrev pub lookup : String → List (String × Option String) → Option (Option String)
lookup k [] = none
lookup k ((l, v) ∷ entries) = if l == k then some v else lookup k entries

-- What Firebase documents: a completion is invoked once, when its flow finishes; an update sets the
-- values at the keys of its dictionary, and leaves what is not at or below one of them. `read` is the
-- text at a reference, `Below r s` says that `r` is `s` or below it.
pub record Documented {World Reference Error : Type 0} (firebase : Firebase World Reference Error)
    : Type 1 where
  pub read : World → Reference → Option String
  pub Below : Reference → Reference → Type 0
  pub create_user :
      (email password : String) (w : World) → CallsBack (firebase.create_user email password) w
  pub sign_in :
      (email password : String) (w : World) → CallsBack (firebase.sign_in email password) w
  pub updates :
      (r : Reference) (values : List (String × Option String)) (k : String) (v : Option String)
      (w : World)
      → lookup k values ≡ some v
      → read (firebase.update_child_values r values w) (firebase.child r k) ≡ v
  pub keeps :
      (r s : Reference) (values : List (String × Option String)) (w : World)
      → All (λ entry. Below s (firebase.child r entry.0) → ⊥) values
      → read (firebase.update_child_values r values w) s ≡ read w s

module _ {World Reference Error : Type 0} (firebase : Firebase World Reference Error)
    (docs : Documented firebase) where
  -- Where the record of a user is.
  abbrev pub provider_of : User → Reference
  provider_of user = firebase.child (firebase.child (ref_users firebase) user.uid) "provider"

  abbrev pub email_of : User → Reference
  email_of user = firebase.child (firebase.child (ref_users firebase) user.uid) "email"

  -- Behind Firebase's reply with `user`, in the state `before`: the record of the user is in the
  -- database, in the state `after` that the caller's completion is given, and nothing else changed.
  pub record IsRecorded (user : User) (before after : World) : Type 0 where
    pub provider : docs.read after (provider_of user) ≡ some user.provider_id
    pub email : docs.read after (email_of user) ≡ user.email
    pub others :
        (r : Reference)
        → (docs.Below r (provider_of user) → ⊥)
        → (docs.Below r (email_of user) → ⊥)
        → docs.read after r ≡ docs.read before r

  create_db_user-IsRecorded :
      (user : User) (w : World)
      → IsRecorded user w (
          create_db_user firebase user.uid
            (("provider", some user.provider_id) ∷ ("email", user.email) ∷ [])
            w)
  unfolding create_db_user
  create_db_user-IsRecorded user w = record {
    provider = docs.updates _ _ "provider" (some user.provider_id) w refl;
    email = docs.updates _ _ "email" user.email w refl;
    others = λ r p q. docs.keeps _ r _ w (p, (q, tt));
  }

  -- The answer that the caller is given for Firebase's reply: false with Firebase's error, on the state
  -- of the reply, or true with no error, behind the record of the user.
  abbrev pub Answered : Completion World Error → Option User → Option Error → World → World → Type 0
  Answered complete none error before result = result ≡ complete false error before
  Answered complete (some user) error before result =
      (after : World) × IsRecorded user before after × (result ≡ complete true none after)

  on_created-Answered :
      (complete : Completion World Error) (user : Option User) (error : Option Error)
      (before : World)
      → Answered complete user error before (on_created firebase complete user error before)
  unfolding on_created
  on_created-Answered complete none error before = refl
  on_created-Answered complete (some user) error before =
      (_, create_db_user-IsRecorded user before, refl)

  -- registerUser, for a Firebase that does what it documents: its caller's completion is invoked once.
  -- If Firebase replied with no user, it is given false and Firebase's error, on the database as it was
  -- at the reply; if with a user, it is given true and no error, with the provider and the email of the
  -- user recorded under users and the uid, and nothing else changed since the reply.
  pub register_user-Answered :
      (email password : String) (complete : Completion World Error) (w : World)
      → let reply = docs.create_user email password w in
        Answered complete reply.user reply.error reply.later
          (register_user firebase email password complete w)
  unfolding register_user
  register_user-Answered email password complete w =
      let reply = docs.create_user email password w in
      subst (Answered complete reply.user reply.error reply.later)
        (sym (reply.invoked (on_created firebase complete)))
        (on_created-Answered complete reply.user reply.error reply.later)
