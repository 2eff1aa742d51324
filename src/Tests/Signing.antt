-- ===== src/Tests/Signing.antt =====
-- Keys, sessions and the setup token, over a stand-in for hashing and JSON's text form.
use Prim.Native.Char.{code}
use text.Mathlib.Text.{starts_with}
use openbotflow.Prelude.{
  ℕ, ◌+◌, ◌*◌, ◌≡◌, refl, String, Bool, true, false, not, ◌&&◌, Option, none, some, [], ◌∷◌, ◌==◌,
  nat_key, string_key, if◌then◌else◌, arith, ltb,
}
use openbotflow.Prelude.Int.{pos}
use openbotflow.Json.{Json, str, num, obj, Fields, end, field}
use openbotflow.Errors.{ok, err, raise, other_error}
use openbotflow.Auth.Store.{set_config}
use openbotflow.Cooldown.{second}
use openbotflow.Text.{Lacks, strip}
use openbotflow.Auth.Keys.{ApiKey, KeyStore, resolve_api_key, extract_token, middleware_token}
use openbotflow.Auth.Keys.Verdicts.{
  IsVerdict, bearer, resolve_api_key-IsVerdict, middleware_token-extract_token,
}
use openbotflow.Auth.Password.{
  Hashing, IsHashing, hash_password, verify_password, same_digest, verify_password-hash_password,
}
use openbotflow.Auth.Sessions.{
  Web, session_ttl, session_config_key, session_of, create_session, resolve_session,
}
use openbotflow.Auth.Sessions.Lifetime.{IsReadBack, resolve_session-create_session}

abbrev pub no_dollar : String → Bool
no_dollar String.[] = true
no_dollar (String.◌∷◌ c s) = not (code c == b'$') && no_dollar s

pub no_dollar-Lacks : (s : String) → no_dollar s ≡ true → Lacks b'$' s
no_dollar-Lacks String.[] h = tt
no_dollar-Lacks (String.◌∷◌ c s) h = (ground (arith, h), no_dollar-Lacks s (ground (arith, h)))

-- The derived key is the password.
abbrev pub plain_hashing : Hashing
plain_hashing = record {
  pbkdf2 = λ password salt iters. if no_dollar password then some password else none;
  hex = λ bytes. bytes;
  fromhex = λ text. some text;
  int = λ text. some (pos 600000);
}

pub plain-derives :
    (password dk : String)
    → (if no_dollar password then some password else none) ≡ some dk
    → no_dollar dk ≡ true
plain-derives password dk h = ground (arith, h)

abbrev pub plain_hashing-IsHashing : IsHashing plain_hashing
plain_hashing-IsHashing = record {
  is_bytes = no_dollar;
  read_hex = λ bytes h. refl;
  plain_hex = no_dollar-Lacks;
  derives_bytes = λ password salt dk iters h. plain-derives password dk h;
  read_iterations = refl;
}

abbrev pub archive : String
archive = "pbkdf2_sha256$600000$salt$open sesame"

verify_password-hash_password_example :
    (verify_password plain_hashing "guess" archive
      ≡ same_digest plain_hashing
          (plain_hashing.pbkdf2 "guess" "salt" (pos 600000))
          (plain_hashing.pbkdf2 "open sesame" "salt" (pos 600000)))
    × (verify_password plain_hashing "open sesame" archive ≡ true)
unfolding hash_password
verify_password-hash_password_example =
    verify_password-hash_password plain_hashing plain_hashing-IsHashing "open sesame" "guess" "salt"
      archive refl refl

abbrev row : ℕ → String → Bool → ApiKey
row id key_hash is_enabled = record {
  id = id;
  key_hash = key_hash;
  label = "";
  is_enabled = is_enabled;
}

abbrev keys : KeyStore
keys = record {
  api_keys = row 1 "old" false ∷ row 2 "k2" true ∷ [];
  config = [];
  hash_key = λ token. token;
}

second_key : resolve_api_key keys "k2" ≡ ok (some (row 2 "k2" true))
unfolding resolve_api_key
second_key = refl

disabled_key : resolve_api_key keys "old" ≡ ok none
unfolding resolve_api_key
disabled_key = refl

-- The middleware knows the scheme in one spelling only.
lower_case :
    (middleware_token "" "bearer k2" ≡ some "bearer k2")
    × (extract_token (some "bearer k2") ≡ some "k2")
unfolding middleware_token extract_token
lower_case = (refl, refl)

-- No key is registered, and the single key is not ASCII.
abbrev single_key : KeyStore
single_key = record keys { api_keys = []; config = set_config "llm_key" "clé" 5 [] }

resolve_api_key-IsVerdict_example : IsVerdict single_key "cle" [] (resolve_api_key single_key "cle")
unfolding set_config
resolve_api_key-IsVerdict_example = resolve_api_key-IsVerdict single_key "cle"

incomparable :
    resolve_api_key single_key "cle"
    ≡ err (raise (other_error "TypeError") "comparing strings with non-ASCII characters")
unfolding resolve_api_key set_config
incomparable = refl

middleware_token-extract_token_example :
    (middleware_token "" (bearer "k2") ≡ extract_token (some (bearer "k2")))
    × (extract_token (some (bearer "k2")) ≡ some "k2")
unfolding strip
middleware_token-extract_token_example = middleware_token-extract_token "k2" refl refl

abbrev pub token : String
token = "0123456789abcdef0123456789abcdef"

abbrev pub account : String → Fields
account pwd_hash = field "username" (str "root") (field "pwd_hash" (str pwd_hash) end)

abbrev pub session : Fields
session = field "username" (str "root") (field "exp" (num (pos (5 * second + session_ttl))) end)

abbrev pub token_row : String → Json
token_row hash = obj (field "hash" (str hash) (field "created_at" (num (pos (5 * second))) end))

-- The text of an account is its hash, that of a session its user, that of a token's record its hash.
abbrev pub short_form : Json → String
short_form (obj (field k (str u) (field j (str p) end))) = p
short_form (obj (field k (str u) (field j (num n) end))) = u
short_form _ = "null"

abbrev pub long_form : String → Option Json
long_form s =
    if s == "root"
    then some (obj session)
    else if s == token
    then some (token_row s)
    else some (obj (account s))

abbrev pub text_form : Json → String
text_form (str s) = s
text_form _ = ""

abbrev pub web : Web
web = record {
  hashing = plain_hashing;
  sha256_hex = λ t. t;
  dumps = short_form;
  loads = long_form;
  parse_float = λ s. none;
  str_of = text_form;
  like = λ pattern key. starts_with key "admin_sess:";
}

session-IsReadBack : IsReadBack web (obj (session_of web "root" (5 * second)))
session-IsReadBack = record { read_dumps = refl; full_dumps = refl }

resolve_session-create_session_example :
    resolve_session web "s1" (6 * second) (create_session web "s1" "root" (5 * second) []) ≡ (
      if session_config_key web "s1" == session_config_key web "s1"
      then if ltb (5 * second + session_ttl) (6 * second)
        then none
        else some (session_of web "root" (5 * second))
      else resolve_session web "s1" (6 * second) [])
resolve_session-create_session_example =
    resolve_session-create_session web "s1" "s1" "root" (5 * second) (6 * second) []
      session-IsReadBack
