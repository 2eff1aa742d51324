-- ===== src/Auth/SetupToken/Restarts.antt =====
-- The setup token over the starts of the service, the good ones and the bad ones.
use Prim.Native.String.{slice, len}
use text.Mathlib.TextLemmas.{append-nil as text_append-nil}
use text.Mathlib.TextPositions.{slice-append_left}
use openbotflow.Prelude.{
  ℕ, ◌≡◌, ◌⊎◌, inl, inr, refl, sym, ap, ◌∙◌, String, Bool, true, false, Option, none, some, ◌==◌,
  string_key, nat_key, is_some, or_else, Bool-cases,
}
use openbotflow.Prelude.Int.{pos}
use openbotflow.Json.{Json, num, str, obj, end, field, get_field}
use openbotflow.Auth.Store.{
  Config, get_config, set_config, given, get_config-set_config, get_config-delete_key,
}
use openbotflow.Auth.Sessions.{Web}
use openbotflow.Auth.Sessions.Lifetime.{IsReadBack}
use openbotflow.Auth.Accounts.{is_setup_token}
use openbotflow.Auth.Accounts.Lifecycle.{IsSessionStore}
use openbotflow.Auth.SetupToken.{
  TokenFile, file_of, Setup, not_opened, not_chmoded, not_written, written, Io, setup_token_key,
  is_valid_setup_token, valid_content, mode_of, private_mode, write_setup_token_file, token_record,
  generate, read_token, narrow, keep_token, ensure_recorded, ensure_account, ensure_setup_token,
}

-- The token that the file holds.
abbrev pub held : Option TokenFile → Option String
held none = none
held (some f) = valid_content f.content

-- Where there is a record and a token in the file, the record is this token's.
abbrev pub IsConsistent : Web → Setup → Type 0
IsConsistent web s =
    (content : String)
    → held s.file ≡ some content
    → (get_config setup_token_key s.config ≡ none) ⊎ (is_setup_token web content s.config ≡ true)

-- The token in the file opens the account.
abbrev pub IsUsable : Web → Setup → Type 0
IsUsable web s =
    (content : String) × (held s.file ≡ some content) × (is_setup_token web content s.config ≡ true)

-- Either no token reaches the file, or all of it does and its record reaches the table.
abbrev pub IsSafe : Io → String → Type 0
IsSafe io token =
    (io.writes_file ≡ not_opened)
    ⊎ ((io.writes_file ≡ not_chmoded)
        ⊎ ((io.writes_file ≡ not_written)
            ⊎ ((io.writes_file ≡ written (len token)) × (io.sets_config ≡ true))))

pub whole : (token : String) → slice token 0 (len token) ≡ token
whole token =
    ap (λ (t : String). slice t 0 (len token)) (sym (text_append-nil token))
    ∙ slice-append_left token ""

full_token : (token : String) → is_valid_setup_token token ≡ true → (token == "") ≡ false
unfolding is_valid_setup_token
full_token token h = elim (Bool-cases (token == "")) [
  | inr full ↦ full
  | inl e ↦ let empty = ap is_valid_setup_token ((string_key.same_iff token "").0 e) in cc
]

pub held_narrow :
    (web : Web) (io : Io) (file : Option TokenFile) → held (narrow web io file) ≡ held file
held_narrow web io none = refl
held_narrow web io (some f) = elim (Bool-cases io.chmods) [ inl e ↦ rw e refl | inr e ↦ rw e refl ]

pub read_token-held :
    (web : Web) (io : Io) (file : Option TokenFile)
    → io.reads_file ≡ true
    → read_token web io file ≡ held file
read_token-held web io none r = refl
read_token-held web io (some f) r = rw r refl

with_record :
    (o : Option String) (raw : String) (b : Bool)
    → o ≡ some raw
    → (o ≡ none) ⊎ (b ≡ true)
    → b ≡ true
with_record o raw b e (inl missing) = let off : true ≡ false = ap is_some (sym e ∙ missing) in cc
with_record o raw b e (inr h) = h

-- What the config table records of a token.
abbrev pub record_json : Web → String → ℕ → Json
record_json web token now =
    obj (field "hash" (str (web.sha256_hex token)) (field "created_at" (num (pos now)) end))

module _ (web : Web) (store : IsSessionStore web) (io : Io) (token : String) (now : ℕ)
    (valid : is_valid_setup_token token ≡ true)
    (laws : IsReadBack web (record_json web token now)) where
  -- The record of a token is that token's.
  is_setup_token-recorded :
      (c : Config)
      → is_setup_token web token (set_config setup_token_key (token_record web io token now) now c)
        ≡ true
  unfolding is_setup_token get_field
  is_setup_token-recorded c =
      rw
        (
          full_token token valid,
          get_config-set_config setup_token_key setup_token_key (token_record web io token now) now
              c,
          laws.full_dumps,
          laws.read_dumps,
          store.str_of_text (web.sha256_hex token),
        )
        ((string_key.same_iff (web.sha256_hex token) (web.sha256_hex token)).1 refl)

  held_written : held (some (file_of (slice token 0 (len token)) private_mode)) ≡ some token
  held_written = rw (whole token, valid) refl

  generate-full :
      (s : Setup)
      → io.writes_file ≡ written (len token)
      → io.sets_config ≡ true
      → IsUsable web (generate web io token now s)
  unfolding write_setup_token_file
  generate-full s w k = rw (w, k) (token, held_written, is_setup_token-recorded s.config)

  blank : valid_content (some "") ≡ none
  unfolding is_valid_setup_token
  blank = refl

  blank-IsConsistent :
      (c : Config) (mode : ℕ)
      → IsConsistent web (record { config = c; file = some (file_of "" mode) })
  blank-IsConsistent c mode content e =
      let off : false ≡ true = ap is_some (sym blank ∙ e) in let no_way : ⊥ = cc in elim no_way [ ]

  IsUsable-IsConsistent : (s : Setup) → IsUsable web s → IsConsistent web s
  IsUsable-IsConsistent s (content, e, h) other k =
      inr (ap (λ o. is_setup_token web (or_else o "") s.config) (sym k ∙ e) ∙ h)

  generate-IsConsistent :
      (s : Setup)
      → IsSafe io token
      → IsConsistent web s
      → IsConsistent web (generate web io token now s)
  unfolding write_setup_token_file
  generate-IsConsistent s (inl w) c = rw w c
  generate-IsConsistent s (inr (inl w)) c =
      rw w (blank-IsConsistent s.config (mode_of io.created_mode s.file))
  generate-IsConsistent s (inr (inr (inl w))) c = rw w (blank-IsConsistent s.config private_mode)
  generate-IsConsistent s (inr (inr (inr (w, k)))) c =
      IsUsable-IsConsistent (generate web io token now s) (generate-full s w k)

  narrow-IsConsistent :
      (s : Setup) → IsConsistent web s → IsConsistent web (record s { file = narrow web io s.file })
  narrow-IsConsistent s c content e = c content (sym (held_narrow web io s.file) ∙ e)

  keep_token-IsConsistent :
      (s : Setup) (read : Option String)
      → IsSafe io token
      → IsConsistent web s
      → IsConsistent web (keep_token web io token now s read)
  keep_token-IsConsistent s none safe c = generate-IsConsistent s safe c
  keep_token-IsConsistent s (some content) safe c = narrow-IsConsistent s c

  recorded-IsConsistent :
      (s : Setup) (raw : Option String)
      → IsSafe io token
      → IsConsistent web s
      → IsConsistent web (ensure_recorded web io token now s raw)
  recorded-IsConsistent s none safe c = generate-IsConsistent s safe c
  recorded-IsConsistent s (some raw) safe c =
      keep_token-IsConsistent s (read_token web io s.file) safe c

  account-IsConsistent :
      (s : Setup) (account : Option String)
      → IsSafe io token
      → IsConsistent web s
      → IsConsistent web (ensure_account web io token now s account)
  account-IsConsistent s none safe c =
      recorded-IsConsistent s (get_config setup_token_key s.config) safe c
  account-IsConsistent s (some account) safe c =
      λ content e. inl (get_config-delete_key setup_token_key setup_token_key s.config)

  -- Where the new token is valid and its record is read back: a start of the service at which the
  -- file's writing fails before the token is in it, or both the file and the record are written,
  -- keeps the record and the file's token matched.
  pub ensure_setup_token-IsConsistent :
      (s : Setup)
      → IsSafe io token
      → IsConsistent web s
      → IsConsistent web (ensure_setup_token web io token now s)
  unfolding ensure_setup_token
  ensure_setup_token-IsConsistent s safe c =
      account-IsConsistent s (given (get_config "admin_account" s.config)) safe c

  keep_token-IsUsable :
      (s : Setup) (raw : String)
      → io.writes_file ≡ written (len token)
      → io.sets_config ≡ true
      → get_config setup_token_key s.config ≡ some raw
      → IsConsistent web s
      → (read : Option String) → held s.file ≡ read
      → IsUsable web (keep_token web io token now s read)
  keep_token-IsUsable s raw w k e c none h = generate-full s w k
  keep_token-IsUsable s raw w k e c (some content) h = (
    content,
    held_narrow web io s.file ∙ h,
    with_record (get_config setup_token_key s.config) raw (is_setup_token web content s.config) e
        (c content h),
  )

  recorded-IsUsable :
      (s : Setup)
      → io.reads_file ≡ true
      → io.writes_file ≡ written (len token)
      → io.sets_config ≡ true
      → IsConsistent web s
      → (raw : Option String) → get_config setup_token_key s.config ≡ raw
      → IsUsable web (ensure_recorded web io token now s raw)
  recorded-IsUsable s r w k c none e = generate-full s w k
  recorded-IsUsable s r w k c (some raw) e =
      keep_token-IsUsable s raw w k e c (read_token web io s.file)
        (sym (read_token-held web io s.file r))

  -- Where the new token is valid and its record is read back: a start at which the file can be read
  -- and both the file and the record can be written, with no account yet and the record and the
  -- file's token matched before, leaves a token in the file that opens the account.
  pub ensure_setup_token-IsUsable :
      (s : Setup)
      → io.reads_file ≡ true
      → io.writes_file ≡ written (len token)
      → io.sets_config ≡ true
      → given (get_config "admin_account" s.config) ≡ none
      → IsConsistent web s
      → IsUsable web (ensure_setup_token web io token now s)
  unfolding ensure_setup_token
  ensure_setup_token-IsUsable s r w k a c =
      rw a (recorded-IsUsable s r w k c (get_config setup_token_key s.config) refl)
