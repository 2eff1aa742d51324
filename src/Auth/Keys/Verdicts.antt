-- ===== src/Auth/Keys/Verdicts.antt =====
-- Which keys `resolve_api_key` of auth.py accepts, and what the two guards make of a header.
use Prim.Native.String
use Prim.Native.String.{slice, len}
use text.Mathlib.TextLemmas.{append_assoc}
use text.Mathlib.TextPositions.{slice-append_right, starts_with-append, len-append}
use openbotflow.Prelude.{
  nat_key, ◌≡◌, ◌≢◌, ◌⊎◌, inl, inr, refl, sym, ap, ◌∙◌, String, true, false, ◌&&◌, Option, none,
  some, List, [], ◌∷◌, ◌==◌, string_key, All, Bool-cases, arith, is_some,
}
use openbotflow.Errors.{Result, ok, err}
use openbotflow.Text.{strip, cut, cut-append, is_ascii}
use openbotflow.Auth.Store.{get_config, given}
use openbotflow.Auth.Keys.{
  ApiKey, KeyStore, extract_token, header_token, token_of, find_key, resolve_api_key, resolve_among,
  resolve_legacy, middleware_token,
}

abbrev pub IsAmong : ApiKey → List ApiKey → Type 0
IsAmong key [] = ⊥
IsAmong key (row ∷ rows) = (row ≡ key) ⊎ IsAmong key rows

-- A row that does not open the door to a hash.
abbrev pub Differs : String → ApiKey → Type 0
Differs key_hash row = (row.is_enabled && row.key_hash == key_hash) ≡ false

abbrev pub Opens : String → ApiKey → Type 0
Opens key_hash row = (row.is_enabled ≡ true) × (row.key_hash ≡ key_hash)

-- With registered keys: an enabled one of that hash, or there is none; nothing is raised.
abbrev pub IsRegisteredVerdict : String → List ApiKey → Result (Option ApiKey) → Type 0
IsRegisteredVerdict key_hash rows (ok (some key)) = IsAmong key rows × Opens key_hash key
IsRegisteredVerdict key_hash rows (ok none) = All (Differs key_hash) rows
IsRegisteredVerdict key_hash rows (err e) = ⊥

-- With no registered keys: there is no single key, or it cannot be compared with the token, or it is
-- the token, or another one.
abbrev pub IsLegacyVerdict : String → Option String → Result (Option ApiKey) → Type 0
IsLegacyVerdict token legacy (ok (some key)) =
    (legacy ≡ some token) × (is_ascii token ≡ true) × (key.id ≡ 0)
IsLegacyVerdict token legacy (ok none) =
    (legacy ≡ none)
    ⊎ (single : String) × (legacy ≡ some single)
      × (single ≢ token)
      × ((is_ascii token && is_ascii single) ≡ true)
IsLegacyVerdict token legacy (err e) =
    (single : String) × (legacy ≡ some single) × ((is_ascii token && is_ascii single) ≡ false)

abbrev pub IsVerdict : KeyStore → String → List ApiKey → Result (Option ApiKey) → Type 0
IsVerdict store token [] r = IsLegacyVerdict token (given (get_config "llm_key" store.config)) r
IsVerdict store token (row ∷ rows) r = IsRegisteredVerdict (store.hash_key token) (row ∷ rows) r

IsVerdict-later :
    (key_hash : String) (row : ApiKey) (rows : List ApiKey) (o : Option ApiKey)
    → Differs key_hash row
    → IsRegisteredVerdict key_hash rows (ok o)
    → IsRegisteredVerdict key_hash (row ∷ rows) (ok o)
IsVerdict-later key_hash row rows none d h = (d, h)
IsVerdict-later key_hash row rows (some key) d (among, opens) = (inr among, opens)

find_key-IsVerdict :
    (key_hash : String) (rows : List ApiKey)
    → IsRegisteredVerdict key_hash rows (ok (find_key key_hash rows))
unfolding find_key
find_key-IsVerdict key_hash [] = tt
find_key-IsVerdict key_hash (row ∷ rows) =
    elim (Bool-cases (row.is_enabled && row.key_hash == key_hash)) [
      | inl e ↦ rw e (
        inl refl,
        (ground (arith, e), ground (arith, e, string_key.same_iff row.key_hash key_hash)),
      )
      | inr d ↦ rw d (
          IsVerdict-later key_hash row rows (find_key key_hash rows) d
            (find_key-IsVerdict key_hash rows))
    ]

legacy-IsVerdict :
    (store : KeyStore) (token : String) (legacy : Option String)
    → IsLegacyVerdict token legacy (resolve_legacy store token legacy)
legacy-IsVerdict store token none = ground arith
legacy-IsVerdict store token (some single) = elim (Bool-cases (is_ascii token && is_ascii single)) [
  | inl e ↦ rw e (elim (Bool-cases (token == single)) [
    | inl same ↦
        rw same (ap some (sym ((string_key.same_iff token single).0 same)), ground (arith, e), refl)
    | inr other ↦
        rw other
          (inr (single, refl, (λ h. ground (arith, string_key.same_iff token single, other, h)), e))
  ])
  | inr d ↦ rw d (single, refl, d)
]

among-IsVerdict :
    (store : KeyStore) (token : String) (rows : List ApiKey)
    → IsVerdict store token rows (resolve_among store token rows)
among-IsVerdict store token [] =
    legacy-IsVerdict store token (given (get_config "llm_key" store.config))
among-IsVerdict store token (row ∷ rows) = find_key-IsVerdict (store.hash_key token) (row ∷ rows)

-- Where keys are registered, a token is accepted exactly for an enabled key of its hash, and nothing
-- is raised. Where none is registered, it is accepted exactly when it is the single key of the
-- config table and both are ASCII; where there is a single key and one of the two is not ASCII, the
-- call raises.
pub resolve_api_key-IsVerdict :
    (store : KeyStore) (token : String)
    → IsVerdict store token store.api_keys (resolve_api_key store token)
unfolding resolve_api_key
resolve_api_key-IsVerdict store token = among-IsVerdict store token store.api_keys

-- The header with which a client presents a key.
abbrev pub bearer : String → String
bearer token = String.◌++◌ "Bearer " token

full_given : (s : String) → (s == "") ≡ false → given (some s) ≡ some s
full_given s h = rw h refl

cut-bearer : (token : String) → cut b' ' (bearer token) ≡ ("Bearer", some token)
cut-bearer token =
    ap (cut b' ') (append_assoc "Bearer" " " token)
    ∙ cut-append b' ' "Bearer" " " token refl (refl, (refl, (refl, (refl, (refl, (refl, tt))))))

bearer-full : (token : String) → (bearer token == "") ≡ false
unfolding cut
bearer-full token = elim (Bool-cases (bearer token == "")) [
  | inr h ↦ h
  | inl e ↦
      let empty = (string_key.same_iff (bearer token) "").0 e in
      let off : true ≡ false =
        ap (λ r. is_some (r.1)) (sym (cut-bearer token) ∙ ap (cut b' ') empty) in
      cc
]

extract_token-bearer :
    (token : String) → (token == "") ≡ false → extract_token (some (bearer token)) ≡ some token
unfolding extract_token
extract_token-bearer token full =
    ap header_token (full_given (bearer token) (bearer-full token))
    ∙ ap (token_of (bearer token)) (cut-bearer token)
    ∙ rw full refl

middleware_token-bearer :
    (token : String)
    → (token == "") ≡ false
    → strip token ≡ token
    → middleware_token "" (bearer token) ≡ some token
unfolding middleware_token
middleware_token-bearer token full bare =
    rw
      (
        starts_with-append "Bearer " token,
        ap (λ k. slice (bearer token) 7 k) (len-append "Bearer " token),
      )
      (rw (slice-append_right "Bearer " token)
        (ap (λ s. given (some s)) bare ∙ full_given token full))

-- A key that is not empty and has no blanks around it, behind "Bearer ": the middleware and the
-- guard of single routes take the same token from the header, the key.
pub middleware_token-extract_token :
    (token : String)
    → (token == "") ≡ false
    → strip token ≡ token
    → (middleware_token "" (bearer token) ≡ extract_token (some (bearer token)))
      × (extract_token (some (bearer token)) ≡ some token)
middleware_token-extract_token token full bare =
    let extracted = extract_token-bearer token full in
    (middleware_token-bearer token full bare ∙ sym extracted, extracted)
