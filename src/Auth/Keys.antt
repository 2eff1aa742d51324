-- ===== src/Auth/Keys.antt =====
-- `AuthMiddleware` of core.py, and of auth.py `_extract_token`, `resolve_api_key`, `verify_llm_key`.
pub mod Verdicts
use Prim.Native.String.{slice, len}
use text.Mathlib.Text.{starts_with}
use openbotflow.Prelude.{
  ℕ, ◌+◌, ◌≡◌, refl, String, Bool, true, false, ◌&&◌, ◌||◌, not, Option, none, some, List, [], ◌∷◌,
  ◌==◌, string_key, if◌then◌else◌, or_else,
}
use openbotflow.Errors.{Error, other_error, raise, Result, ok, err}
use openbotflow.RateLimit.{Scope, asgi_header}
use openbotflow.Text.{strip, cut, codes, is_bearer, is_ascii}
use openbotflow.Auth.Store.{Config, get_config, given}

-- An answer with a status code, or what the handler goes on with.
pub data Http {ℓ} (A : Type ℓ) : Type ℓ where
  goes_on : A → Http A
  http_error : (status : ℕ) (detail : String) → Http A
  crashes : Error → Http A

-- `ApiKey` of storage/models.py
pub record ApiKey : Type 0 where
  pub id : ℕ
  pub key_hash : String
  pub label : String
  pub is_enabled : Bool

-- The tables and the hash function that resolve a key.
pub record KeyStore : Type 0 where
  pub api_keys : List ApiKey
  pub config : Config
  pub hash_key : String → String

-- The scheme and the rest of a header, at its first blank.
abbrev pub token_of : String → String × Option String → Option String
token_of header (scheme, none) = given (some (strip header))
token_of header (scheme, some token) =
    if not (is_bearer (codes scheme)) || token == ""
    then given (some (strip header))
    else some token

abbrev pub header_token : Option String → Option String
header_token none = none
header_token (some header) = token_of header (cut b' ' header)

unfoldable pub extract_token : (authorization : Option String) → Option String
unfolding strip cut
extract_token authorization = header_token (given authorization)

-- The first enabled key with that hash.
unfoldable pub find_key : String → List ApiKey → Option ApiKey
find_key key_hash [] = none
find_key key_hash (row ∷ rows) =
    let rest = find_key key_hash rows in
    if row.is_enabled && row.key_hash == key_hash then some row else rest

-- secrets.compare_digest of two texts, which raises where one is not ASCII
abbrev pub compare_digest : String → String → Result Bool
compare_digest a b =
    if is_ascii a && is_ascii b
    then ok (a == b)
    else err (raise (other_error "TypeError") "comparing strings with non-ASCII characters")

-- Behind the comparison with the single key.
abbrev pub legacy_key : KeyStore → String → Result Bool → Result (Option ApiKey)
legacy_key store token (err e) = err e
legacy_key store token (ok false) = ok none
legacy_key store token (ok true) =
    ok (
      some
        (record { id = 0; key_hash = store.hash_key token; label = "legacy"; is_enabled = true }))

abbrev pub resolve_legacy : KeyStore → String → Option String → Result (Option ApiKey)
resolve_legacy store token none = ok none
resolve_legacy store token (some legacy) = legacy_key store token (compare_digest token legacy)

abbrev pub resolve_among : KeyStore → String → List ApiKey → Result (Option ApiKey)
resolve_among store token [] =
    resolve_legacy store token (given (get_config "llm_key" store.config))
resolve_among store token (row ∷ rows) = ok (find_key (store.hash_key token) (row ∷ rows))

unfoldable pub resolve_api_key : KeyStore → String → Result (Option ApiKey)
unfolding get_config find_key
resolve_api_key store token = resolve_among store token store.api_keys

abbrev pub admitted : String → Result (Option ApiKey) → Http ApiKey
admitted detail (ok (some key)) = goes_on key
admitted detail (ok none) = http_error 401 detail
admitted detail (err e) = crashes e

-- The header's token, unless the security scheme has found one.
abbrev pub presented : Option String → Option String → Option String
presented authorization credentials =
    or_else (elim (given credentials) [ none ↦ none | some token ↦ some (some token) ])
      (given (extract_token authorization))

abbrev pub verify_token : KeyStore → Option String → Http ApiKey
verify_token store none = http_error 401 "Missing API key. Provide Authorization: Bearer <key>."
verify_token store (some token) =
    admitted "Invalid or disabled API key." (resolve_api_key store token)

unfoldable pub verify_llm_key : KeyStore → (authorization credentials : Option String) → Http ApiKey
unfolding extract_token resolve_api_key
verify_llm_key store authorization credentials =
    verify_token store (presented authorization credentials)

-- The token that the middleware reads: x-api-key goes before authorization.
unfoldable pub middleware_token : (x_api_key auth_header : String) → Option String
unfolding strip
middleware_token x_api_key auth_header = given (
    some (
      if not (x_api_key == "")
      then strip x_api_key
      else if starts_with auth_header "Bearer "
      then strip (slice auth_header 7 (len auth_header))
      else strip auth_header))

-- What a request that needs a key gets: the key's id goes on with it.
abbrev pub guarded : KeyStore → Option String → Http (Option ℕ)
guarded store none =
    http_error 401 "Missing API key. Provide Authorization: Bearer <key> or x-api-key: <key>."
guarded store (some token) = elim (resolve_api_key store token) [
  | ok (some key) ↦ goes_on (some key.id)
  | ok none ↦ http_error 401 "Invalid or disabled API key."
  | err e ↦ crashes e
]

-- `AuthMiddleware.__call__`, up to the call of the application.
unfoldable pub authenticate : KeyStore → Scope → Http (Option ℕ)
unfolding middleware_token resolve_api_key asgi_header
authenticate store scope =
    if not scope.is_http || scope.path == "/health" || starts_with scope.path "/admin/"
    then goes_on none
    else guarded store (
        middleware_token (asgi_header "x-api-key" scope.headers)
          (asgi_header "authorization" scope.headers))
