-- ===== src/Services.antt =====
-- The application's calls of Firebase (breakpoint/Services/AuthService.swift, DataService.swift).
-- Firebase itself is a parameter.
pub mod Registration
mod Runs
use Prim.Native.String.{String}
use breakpoint.Base.{Bool, true, false, Option, none, some, List, [], ◌∷◌}

-- What the services read of a Firebase user.
pub record User : Type 0 where
  pub uid : String
  pub provider_id : String
  pub email : Option String

-- The functions of Firebase. `World` is the state of its servers and of the application; a completion
-- is invoked later, with a user or an error, on the state that is then. A dictionary is the list of its
-- entries, and `none` stands for nil.
pub record Firebase (World Reference Error : Type 0) : Type 0 where
  pub reference : Reference
  pub child : Reference → String → Reference
  pub create_user : String → String → (Option User → Option Error → World → World) → World → World
  pub sign_in : String → String → (Option User → Option Error → World → World) → World → World
  pub update_child_values : Reference → List (String × Option String) → World → World

-- The step that the caller hands in, with the status and the error.
abbrev pub Completion : Type 0 → Type 0 → Type 0
Completion World Error = Bool → Option Error → World → World

module _ {World Reference Error : Type 0} (firebase : Firebase World Reference Error) where
  -- The references of DataService.
  abbrev pub ref_base : Reference
  ref_base = firebase.reference

  abbrev pub ref_users : Reference
  ref_users = firebase.child ref_base "users"

  abbrev pub ref_groups : Reference
  ref_groups = firebase.child ref_base "groups"

  abbrev pub ref_feed : Reference
  ref_feed = firebase.child ref_base "feed"

  unfoldable pub create_db_user : String → List (String × Option String) → World → World
  create_db_user uid user_data =
      firebase.update_child_values (firebase.child ref_users uid) user_data

  -- The block that createUser invokes.
  unfoldable pub on_created : Completion World Error → Option User → Option Error → World → World
  on_created user_create_complete none error w = user_create_complete false error w
  on_created user_create_complete (some user) error w =
      let user_data = ("provider", some user.provider_id) ∷ ("email", user.email) ∷ [] in
      user_create_complete true none (create_db_user user.uid user_data w)

  unfoldable pub register_user : String → String → Completion World Error → World → World
  register_user email password user_create_complete =
      firebase.create_user email password (on_created user_create_complete)

  -- The block that signIn invokes.
  unfoldable pub on_signed_in : Completion World Error → Option User → Option Error → World → World
  on_signed_in login_complete none error w = login_complete false error w
  on_signed_in login_complete (some user) error w = login_complete true none w

  unfoldable pub login_user : String → String → Completion World Error → World → World
  login_user email password login_complete =
      firebase.sign_in email password (on_signed_in login_complete)
