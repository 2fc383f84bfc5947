-- ===== src/Security.antt =====
-- The users and their sessions: security.py, the routes of main.py that change users, and
-- http_security.py. Hashing of passwords, `str.lower` of an address and the ids and tokens that are
-- drawn at random are parameters. Texts are compared by `==` where the code compares digests.
pub mod Users
pub mod Requests
pub mod Routes
pub mod Admins
pub mod Guards
mod Samples
use agenstfer_agi.Base.{ℕ, String, Bool, Option, none, List}

pub record User : Type 0 where
  pub id : String
  pub email : String
  pub name : String
  pub password_hash : String
  pub roles : List String
  pub active : Bool

-- `metadata_json` is left out.
pub record AuditEvent : Type 0 where
  pub actor_id : Option String
  pub action : String
  pub target_type : String
  pub target_id : Option String

pub record Accounts : Type 0 where
  pub users : List User
  pub audit : List AuditEvent

-- What the functions read of the settings.
pub record SecuritySettings : Type 0 where
  pub demo_no_auth : Bool
  pub bootstrap_token : String

-- The signed cookie's dictionary: its two keys.
pub record Session : Type 0 where
  pub user_id : Option String
  pub csrf_token : Option String

abbrev pub cleared : Session
cleared = record { user_id = none; csrf_token = none }

-- HTTPException by its status code.
pub data HttpError : Type 0 where
  http_error : ℕ → HttpError
