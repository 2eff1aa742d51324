-- ===== src/Auth/Accounts.antt =====
-- The endpoints of admin_api.py that open, use and close the admin account. An endpoint's answer
-- comes with the state that it leaves.
pub mod Lifecycle
use openbotflow.Prelude.{
  ℕ, String, Bool, true, false, not, ◌&&◌, Option, none, some, List, [], ◌∷◌, ◌==◌, string_key,
  if◌then◌else◌, or_else, is_some,
}
use openbotflow.Json.{Json, null, bool, num, str, arr, obj, Fields, end, field, get_field}
use openbotflow.Errors.{Error, other_error, raise}
use openbotflow.Auth.Store.{
  Row, Config, get_config, set_config, delete_key, delete_where, cleanup_config_by_prefix, given,
}
use openbotflow.Auth.Keys.{Http, goes_on, http_error, crashes, extract_token}
use openbotflow.Auth.Password.{hash_password, verify_password}
use openbotflow.Auth.Sessions.{
  Web, session_ttl, session_config_key, create_session, verify_admin_key,
}
use openbotflow.Auth.SetupToken.{TokenFile, Setup, setup_token_key}

-- What unlinking the token file comes to.
pub data Unlinked : Type 0 where
  gone : Unlinked
  denied : Error → Unlinked

module _ (web : Web) where
  abbrev pub text_at : Option Json → String
  text_at none = ""
  text_at (some v) = web.str_of v

  -- json.loads(raw), where it is a dict
  abbrev pub dict_of : Option Json → Option Fields
  dict_of (some (obj fields)) = some fields
  dict_of _ = none

  abbrev pub loaded : Option String → Option Fields
  loaded none = none
  loaded (some raw) = dict_of (web.loads raw)

  -- The admin account, where its row can be read.
  unfoldable pub account_of : Config → Option Fields
  unfolding get_config
  account_of c = loaded (given (get_config "admin_account" c))

  abbrev pub hash_in : Option Fields → String
  hash_in none = ""
  hash_in (some fields) = text_at (get_field "hash" fields)

  abbrev pub matches_record : (token : String) → Option String → Bool
  matches_record token none = false
  matches_record token (some raw) = web.sha256_hex token == hash_in (dict_of (web.loads raw))

  -- Whether a token passes the checks of `auth_setup`.
  unfoldable pub is_setup_token : (token : String) → Config → Bool
  unfolding get_config get_field
  is_setup_token token c =
      not (token == "") && matches_record token (given (get_config setup_token_key c))

  abbrev pub account_fields : (username pwd_hash : String) → Fields
  account_fields username pwd_hash =
      field "username" (str username) (field "pwd_hash" (str pwd_hash) end)

  -- The account is written, every session and the setup token are deleted.
  abbrev pub opened : (username pwd_hash : String) → (now : ℕ) → Config → Config
  opened username pwd_hash now c = delete_key setup_token_key (
      delete_where (λ key row. web.like "admin_sess:%" key)
        (set_config "admin_account" (web.dumps (obj (account_fields username pwd_hash))) now c))

  abbrev pub value_error : Error
  value_error = raise (other_error "ValueError") "key derivation failed"

  abbrev pub set_up :
      (username : String) → Unlinked → (now : ℕ) → Option String → Setup → Http (Unit {0}) × Setup
  set_up username unlinked now none s = (crashes value_error, s)
  set_up username gone now (some pwd_hash) s =
      (goes_on tt, record { config = opened username pwd_hash now s.config; file = none })
  set_up username (denied e) now (some pwd_hash) s =
      (crashes e, record s { config = opened username pwd_hash now s.config })

  -- `auth_setup`
  unfoldable pub auth_setup :
      (token username password salt : String)
      → Unlinked
      → (now : ℕ) → Setup
      → Http (Unit {0}) × Setup
  unfolding is_setup_token hash_password set_config delete_key delete_where
  auth_setup token username password salt unlinked now s =
      if is_setup_token token s.config
      then set_up username unlinked now (hash_password web.hashing salt password) s
      else (http_error 401 "Invalid setup token.", s)

  abbrev pub is_login : (username password : String) → Option Fields → Bool
  is_login username password none = false
  is_login username password (some account) =
      verify_password web.hashing password (text_at (get_field "pwd_hash" account))
      && username == text_at (get_field "username" account)

  abbrev pub username_of : Option Fields → String
  username_of none = ""
  username_of (some account) = text_at (get_field "username" account)

  -- `auth_login`, with the random session token as an argument.
  unfoldable pub auth_login :
      (username password session : String) → (now : ℕ) → Config → Http String × Config
  unfolding account_of get_field verify_password cleanup_config_by_prefix create_session
  auth_login username password session now c =
      if is_login username password (account_of c)
      then (
        goes_on session,
        create_session web session (username_of (account_of c)) now
            (cleanup_config_by_prefix web.like "admin_sess:%" session_ttl now c),
      )
      else (http_error 401 "Invalid username or password.", c)

  abbrev pub close_session : Option String → Config → Http (Unit {0}) × Config
  close_session none c = (http_error 401 "Missing session token.", c)
  close_session (some token) c = (goes_on tt, delete_key (session_config_key web token) c)

  -- `auth_logout`
  unfoldable pub auth_logout :
      (authorization body_token : Option String) → Config → Http (Unit {0}) × Config
  unfolding extract_token session_config_key delete_key
  auth_logout authorization body_token c =
      close_session (given (some (or_else (extract_token authorization) (or_else body_token "")))) c

  abbrev pub rehashed : (now : ℕ) → Fields → Option String → Config → Http (Unit {0}) × Config
  rehashed now account none c = (crashes value_error, c)
  rehashed now account (some pwd_hash) c = (
    goes_on tt,
    set_config "admin_account"
        (web.dumps (obj (account_fields (username_of (some account)) pwd_hash))) now c,
  )

  abbrev pub change_password_of :
      (current new salt : String) → (now : ℕ) → Option Fields → Config → Http (Unit {0}) × Config
  change_password_of current new salt now none c =
      (http_error 404 "Admin account not configured.", c)
  change_password_of current new salt now (some account) c =
      if not (verify_password web.hashing current (text_at (get_field "pwd_hash" account)))
      then (http_error 401 "Invalid current password.", c)
      else if current == new
      then (http_error 400 "New password must differ from current password.", c)
      else rehashed now account (hash_password web.hashing salt new) c

  -- `auth_change_password`, behind its guard.
  unfoldable pub auth_change_password :
      (current new salt : String) → (now : ℕ) → Config → Http (Unit {0}) × Config
  unfolding account_of get_field verify_password hash_password set_config
  auth_change_password current new salt now c =
      change_password_of current new salt now (account_of c) c
