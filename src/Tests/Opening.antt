-- ===== src/Tests/Opening.antt =====
-- The admin account from its opening on, and the setup token over some starts of the service.
use text.Mathlib.TextPositions.{starts_with-append}
use Prim.Native.String.{slice}
use openbotflow.Prelude.{
  ◌*◌, ◌≡◌, refl, inl, inr, String, true, false, none, some, [], ◌∷◌, ◌==◌, string_key,
  if◌then◌else◌,
}
use openbotflow.Json.{obj}
use openbotflow.Cooldown.{second}
use openbotflow.Auth.Store.{Config, get_config, set_config}
use openbotflow.Auth.Keys.{goes_on, extract_token}
use openbotflow.Auth.Password.{hash_password}
use openbotflow.Auth.Sessions.{session_config_key, resolve_session}
use openbotflow.Auth.Sessions.Lifetime.{IsReadBack}
use openbotflow.Auth.Accounts.{
  gone, account_fields, is_setup_token, auth_setup, auth_login, auth_logout, auth_change_password,
}
use openbotflow.Auth.Accounts.Lifecycle.{
  IsSessionStore, auth_setup-burns, auth_logout-closes, auth_change_password-keeps,
}
use openbotflow.Auth.SetupToken.{
  file_of, Setup, written, Io, setup_token_key, is_valid_setup_token, ensure_setup_token,
}
use openbotflow.Auth.SetupToken.Restarts.{
  IsConsistent, IsUsable, record_json, ensure_setup_token-IsConsistent, ensure_setup_token-IsUsable,
}
use openbotflow.Auth.SetupToken.Lock.{IsLocked, restart_all, ensure_setup_token-IsLocked}
use openbotflow.Tests.Signing.{plain_hashing-IsHashing, archive, token, web}

likes : (t : String) → web.like "admin_sess:%" (session_config_key web t) ≡ true
unfolding session_config_key
likes t = starts_with-append "admin_sess:" (slice t 0 32)

web-IsSessionStore : IsSessionStore web
web-IsSessionStore = record {
  likes_sessions = likes;
  spares_account = refl;
  str_of_text = λ s. refl;
}

-- A fresh deployment, behind its first start.
abbrev deployed : Setup
deployed = record {
  config = set_config setup_token_key token (5 * second) [];
  file = some (file_of token 384);
}

archive-IsReadBack : IsReadBack web (obj (account_fields web "root" archive))
archive-IsReadBack = record { read_dumps = refl; full_dumps = refl }

abbrev next_archive : String
next_archive = "pbkdf2_sha256$600000$pepper$better one"

next-IsReadBack : IsReadBack web (obj (account_fields web "root" next_archive))
next-IsReadBack = record { read_dumps = refl; full_dumps = refl }

auth_setup-burns_example :
    let s = (auth_setup web token "root" "open sesame" "salt" gone (6 * second) deployed).1 in
    ((auth_setup web token "root" "open sesame" "salt" gone (6 * second) deployed).0 ≡ goes_on tt)
    × (s.file ≡ none)
    × (is_setup_token web token s.config ≡ false)
    × (resolve_session web "s1" (7 * second) s.config ≡ none)
    × ((auth_login web "root" "open sesame" "s1" (7 * second) s.config).0 ≡ goes_on "s1")
unfolding is_setup_token set_config hash_password
auth_setup-burns_example =
    auth_setup-burns web plain_hashing-IsHashing web-IsSessionStore token "root" "open sesame"
      "salt" archive token "s1" (6 * second) (7 * second) deployed archive-IsReadBack refl refl refl

abbrev opened_config : Config
opened_config = set_config "admin_account" archive (6 * second) []

auth_change_password-keeps_example :
    let c =
      (auth_change_password web "open sesame" "better one" "pepper" (8 * second) opened_config).1 in
    ((auth_change_password web "open sesame" "better one" "pepper" (8 * second) opened_config).0
      ≡ goes_on tt)
    × (resolve_session web "s1" (9 * second) c
        ≡ resolve_session web "s1" (9 * second) opened_config)
    × ((auth_login web "root" "better one" "s1" (9 * second) c).0 ≡ goes_on "s1")
unfolding hash_password get_config set_config
auth_change_password-keeps_example =
    auth_change_password-keeps web plain_hashing-IsHashing web-IsSessionStore "root" "open sesame"
      "better one" "salt" archive next_archive "pepper" "s1" (8 * second) (9 * second) opened_config
      archive-IsReadBack next-IsReadBack refl refl refl refl refl refl

auth_logout-closes_example :
    ((auth_logout web (some "Bearer s1") (some "s2") opened_config).0 ≡ goes_on tt)
    × (resolve_session web "s1"
          (9 * second)
          (auth_logout web (some "Bearer s1") (some "s2") opened_config).1
        ≡ (if session_config_key web "s1" == session_config_key web "s1"
            then none
            else resolve_session web "s1" (9 * second) opened_config))
unfolding extract_token
auth_logout-closes_example =
    auth_logout-closes web (some "Bearer s1") (some "s2") "s1" "s1" (9 * second) opened_config refl
      refl

abbrev good_io : Io
good_io = record {
  reads_file = true;
  created_mode = 420;
  writes_file = written 32;
  sets_config = true;
  unlinks = true;
  chmods = true;
}

token-IsReadBack : IsReadBack web (record_json web token (5 * second))
token-IsReadBack = record { read_dumps = refl; full_dumps = refl }

abbrev empty : Setup
empty = record { config = []; file = none }

empty-IsConsistent : IsConsistent web empty
unfolding get_config
empty-IsConsistent content h = inl refl

ensure_setup_token-IsConsistent_example :
    IsConsistent web (ensure_setup_token web good_io token (5 * second) empty)
unfolding is_valid_setup_token
ensure_setup_token-IsConsistent_example =
    ensure_setup_token-IsConsistent web web-IsSessionStore good_io token (5 * second) refl
      token-IsReadBack empty (inr (inr (inr (refl, refl)))) empty-IsConsistent

ensure_setup_token-IsUsable_example :
    IsUsable web (ensure_setup_token web good_io token (5 * second) empty)
unfolding is_valid_setup_token get_config
ensure_setup_token-IsUsable_example =
    ensure_setup_token-IsUsable web web-IsSessionStore good_io token (5 * second) refl
      token-IsReadBack empty refl refl refl refl empty-IsConsistent

-- The token file is missing, and the new token's record is not written.
abbrev half_io : Io
half_io = record good_io { sets_config = false }

abbrev other_token : String
other_token = "ffffffffffffffffffffffffffffffff"

abbrev without_file : Setup
without_file = record deployed { file = none }

ensure_setup_token-IsLocked_example : IsLocked web (
    restart_all web
      ((good_io, token, 9 * second) ∷ [])
      (ensure_setup_token web half_io other_token (6 * second) without_file))
unfolding is_valid_setup_token get_config is_setup_token set_config
ensure_setup_token-IsLocked_example =
    ensure_setup_token-IsLocked web half_io other_token token (6 * second)
      ((good_io, token, 9 * second) ∷ []) without_file refl refl refl refl refl refl refl (refl, tt)
