-- ===== src/Auth/Sessions.antt =====
-- `create_session`, `resolve_session` and `verify_admin_key` of auth.py. JSON's text form, SHA-256,
-- `float` of a text and SQLite's LIKE are arguments.
pub mod Lifetime
use Prim.Native.String
use Prim.Native.String.{slice}
use openbotflow.Prelude.{
  ℕ, ◌+◌, ◌*◌, ◌≡◌, refl, String, Bool, true, false, Option, none, some, List, [], ◌∷◌, ◌==◌,
  string_key, if◌then◌else◌,
}
use openbotflow.Prelude.Int.{ℤ, pos, ltb_ℤ}
use openbotflow.Json.{Json, null, bool, num, str, arr, obj, Fields, end, field, get_field}
use openbotflow.Cooldown.{second}
use openbotflow.Auth.Store.{Config, get_config, set_config, given}
use openbotflow.Auth.Keys.{Http, goes_on, http_error, presented, extract_token}
use openbotflow.Auth.Password.{Hashing}

pub record Web : Type 0 where
  pub hashing : Hashing
  pub sha256_hex : String → String
  pub dumps : Json → String
  pub loads : String → Option Json
  pub parse_float : String → Option ℤ
  -- str(x)
  pub str_of : Json → String
  pub like : (pattern key : String) → Bool

abbrev pub session_ttl : ℕ
session_ttl = 7 * 24 * 3600 * second

module _ (web : Web) where
  unfoldable pub session_config_key : (token : String) → String
  session_config_key token = String.◌++◌ "admin_sess:" (slice (web.sha256_hex token) 0 32)

  abbrev pub session_of : (username : String) → (now : ℕ) → Fields
  session_of username now =
      field "username" (str username) (field "exp" (num (pos (now + session_ttl))) end)

  -- With the random token as an argument.
  unfoldable pub create_session : (token username : String) → (now : ℕ) → Config → Config
  unfolding session_config_key set_config
  create_session token username now c =
      set_config (session_config_key token) (web.dumps (obj (session_of username now))) now c

  -- float(x); `none` where it raises
  abbrev pub float_of : Json → Option ℤ
  float_of null = none
  float_of (bool false) = some (pos 0)
  float_of (bool true) = some (pos second)
  float_of (num n) = some n
  float_of (str s) = web.parse_float s
  float_of (arr xs) = none
  float_of (obj fields) = none

  abbrev pub float_at : Option Json → Option ℤ
  float_at none = none
  float_at (some v) = float_of v

  abbrev pub unexpired : ℕ → Fields → Option ℤ → Option Fields
  unexpired now session none = none
  unexpired now session (some exp) = if ltb_ℤ exp (pos now) then none else some session

  abbrev pub read_session : ℕ → Option Json → Option Fields
  read_session now (some (obj session)) = unexpired now session (float_at (get_field "exp" session))
  read_session now _ = none

  abbrev pub stored_session : ℕ → Option String → Option Fields
  stored_session now none = none
  stored_session now (some raw) = read_session now (web.loads raw)

  unfoldable pub resolve_session : (token : String) → (now : ℕ) → Config → Option Fields
  unfolding get_config session_config_key get_field
  resolve_session token now c = stored_session now (given (get_config (session_config_key token) c))

  abbrev pub with_session : Option Fields → Http (Unit {0})
  with_session none = http_error 401 "Invalid admin key."
  with_session (some session) = goes_on tt

  abbrev pub admit_token : String → ℕ → Config → Option String → Http (Unit {0})
  admit_token admin_key now c none = http_error 401 "Invalid admin key."
  admit_token admin_key now c (some token) =
      if token == admin_key then goes_on tt else with_session (resolve_session token now c)

  abbrev pub with_admin_key :
      ℕ → Config → (authorization credentials admin_key : Option String) → Http (Unit {0})
  with_admin_key now c authorization credentials none =
      http_error 500 "Server admin key is not configured (BOTFLOW_ADMIN_KEY)."
  with_admin_key now c authorization credentials (some admin_key) =
      admit_token admin_key now c (presented authorization credentials)

  unfoldable pub verify_admin_key :
      (admin_key : Option String)
      → (authorization credentials : Option String) → (now : ℕ) → Config
      → Http (Unit {0})
  unfolding extract_token resolve_session
  verify_admin_key admin_key authorization credentials now c =
      with_admin_key now c authorization credentials (given admin_key)
