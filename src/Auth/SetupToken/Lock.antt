-- ===== src/Auth/SetupToken/Lock.antt =====
-- The setup token behind a start that has written the file and not the record.
use Prim.Native.String.{len}
use openbotflow.Prelude.{
  ℕ, ◌≡◌, refl, ◌∙◌, String, true, false, none, some, List, [], ◌∷◌, string_key, nat_key,
}
use openbotflow.Auth.Store.{get_config, given}
use openbotflow.Auth.Sessions.{Web}
use openbotflow.Auth.Accounts.{is_setup_token}
use openbotflow.Auth.SetupToken.{
  Setup, written, Io, setup_token_key, is_valid_setup_token, write_setup_token_file,
  ensure_setup_token,
}
use openbotflow.Auth.SetupToken.Restarts.{held, whole, held_narrow, read_token-held}

-- The file holds a token that the record does not fit, and there is no account.
abbrev pub IsLocked : Web → Setup → Type 0
IsLocked web s =
    (content : String) × (raw : String) × (held s.file ≡ some content)
    × (get_config setup_token_key s.config ≡ some raw)
    × (is_setup_token web content s.config ≡ false)
    × (given (get_config "admin_account" s.config) ≡ none)

-- A start of the service: what its calls come to, its random token and its time.
abbrev pub Start : Type 0
Start = Io × String × ℕ

abbrev pub restart_all : Web → List Start → Setup → Setup
restart_all web [] s = s
restart_all web ((io, token, now) ∷ starts) s =
    restart_all web starts (ensure_setup_token web io token now s)

abbrev pub AllRead : List Start → Type 0
AllRead [] = Unit
AllRead ((io, token, now) ∷ starts) = (io.reads_file ≡ true) × AllRead starts

module _ (web : Web) where
  start-IsLocked :
      (io : Io) (token : String) (now : ℕ) (s : Setup)
      → io.reads_file ≡ true
      → IsLocked web s
      → IsLocked web (ensure_setup_token web io token now s)
  unfolding ensure_setup_token
  start-IsLocked io token now s r (content, raw, h, e, d, a) =
      rw (a, e, read_token-held web io s.file r ∙ h)
        (content, raw, held_narrow web io s.file ∙ h, e, d, a)

  restarts-IsLocked :
      (starts : List Start) (s : Setup)
      → AllRead starts
      → IsLocked web s
      → IsLocked web (restart_all web starts s)
  restarts-IsLocked [] s r l = l
  restarts-IsLocked ((io, token, now) ∷ starts) s (r, rs) l =
      restarts-IsLocked starts (ensure_setup_token web io token now s) rs
        (start-IsLocked io token now s r l)

  -- A start that finds no account, a record and no token file, writes a new valid token and fails
  -- to write its record, and that the old record does not fit, locks the setup: after any later
  -- starts that can read the file, the token in the file still does not open the account.
  pub ensure_setup_token-IsLocked :
      (io : Io) (token raw : String) (now : ℕ) (starts : List Start) (s : Setup)
      → is_valid_setup_token token ≡ true
      → given (get_config "admin_account" s.config) ≡ none
      → get_config setup_token_key s.config ≡ some raw
      → s.file ≡ none
      → io.writes_file ≡ written (len token)
      → io.sets_config ≡ false
      → is_setup_token web token s.config ≡ false
      → AllRead starts
      → IsLocked web (restart_all web starts (ensure_setup_token web io token now s))
  unfolding ensure_setup_token write_setup_token_file
  ensure_setup_token-IsLocked io token raw now starts s valid a e missing w k d rs =
      restarts-IsLocked starts _ rs
        (rw (a, e, missing, w, k) (token, raw, rw (whole token, valid) refl, e, d, a))
