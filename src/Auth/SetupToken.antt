-- ===== src/Auth/SetupToken.antt =====
-- The setup token's life cycle in auth.py: `_is_valid_setup_token`, `write_setup_token_file` and
-- `ensure_setup_token`. What the file system and the database answer in one run is an argument.
pub mod Restarts
pub mod Lock
use Prim.Native.String.{slice}
use openbotflow.Prelude.{
  ℕ, ◌≡◌, refl, String, Bool, true, false, not, ◌&&◌, ◌||◌, Option, none, some, List, [], ◌∷◌, ◌==◌,
  nat_key, string_key, if◌then◌else◌, leb, length, or_else, is_some,
}
use openbotflow.Prelude.Int.{pos}
use openbotflow.Json.{Json, num, str, obj, end, field}
use openbotflow.Text.{codes}
use openbotflow.Auth.Store.{Config, get_config, set_config, delete_key, given}
use openbotflow.Auth.Sessions.{Web}

-- The token file; its content is missing where the bytes are not UTF-8.
pub record TokenFile : Type 0 where
  pub content : Option String
  pub mode : ℕ

pub record Setup : Type 0 where
  pub config : Config
  pub file : Option TokenFile

-- Where `write_setup_token_file` ends, and how many characters `os.write` has then written.
pub data WriteOutcome : Type 0 where
  not_opened not_chmoded not_written : WriteOutcome
  not_synced : ℕ → WriteOutcome
  written : ℕ → WriteOutcome

pub record Io : Type 0 where
  pub reads_file : Bool
  pub created_mode : ℕ
  pub writes_file : WriteOutcome
  pub sets_config : Bool
  pub unlinks : Bool
  pub chmods : Bool

abbrev pub setup_token_key : String
setup_token_key = "admin_setup_token"

abbrev pub is_hex_digit : ℕ → Bool
is_hex_digit c = (leb b'0' c && leb c b'9') || (leb b'a' c && leb c b'f')

abbrev pub all_hex : List ℕ → Bool
all_hex [] = true
all_hex (c ∷ s) = is_hex_digit c && all_hex s

unfoldable pub is_valid_setup_token : String → Bool
is_valid_setup_token content = length (codes content) == 32 && all_hex (codes content)

abbrev pub private_mode : ℕ
private_mode = 384

abbrev pub mode_of : ℕ → Option TokenFile → ℕ
mode_of created none = created
mode_of created (some f) = f.mode

abbrev pub file_of : String → ℕ → TokenFile
file_of content mode = record { content = some content; mode = mode }

abbrev pub write_file :
    WriteOutcome → (created : ℕ) → (token : String) → Option TokenFile → Bool × Option TokenFile
write_file not_opened created token file = (false, file)
write_file not_chmoded created token file = (false, some (file_of "" (mode_of created file)))
write_file not_written created token file = (false, some (file_of "" private_mode))
write_file (not_synced n) created token file =
    (false, some (file_of (slice token 0 n) private_mode))
write_file (written n) created token file = (true, some (file_of (slice token 0 n) private_mode))

-- A content that is a token.
abbrev pub valid_content : Option String → Option String
valid_content none = none
valid_content (some content) = if is_valid_setup_token content then some content else none

-- The file behind `write_setup_token_file`, and whether it has returned.
unfoldable pub write_setup_token_file :
    Io → (token : String) → Option TokenFile → Bool × Option TokenFile
write_setup_token_file io token file = write_file io.writes_file io.created_mode token file

module _ (web : Web) (io : Io) where
  -- The first branch: the account is there.
  abbrev pub clean_up : Setup → Setup
  clean_up s = record {
    config = delete_key setup_token_key s.config;
    file = if io.unlinks then none else s.file;
  }

  -- The record of a token in the config table.
  abbrev pub token_record : (token : String) → (now : ℕ) → String
  token_record token now =
      web.dumps
        (obj (field "hash" (str (web.sha256_hex token)) (field "created_at" (num (pos now)) end)))

  abbrev pub record_token : String → ℕ → Config → Bool × Option TokenFile → Setup
  record_token token now c (false, file) = record { config = c; file = file }
  record_token token now c (true, file) = record {
    config =
        if io.sets_config then set_config setup_token_key (token_record token now) now c else c;
    file = file;
  }

  -- The second and third branch: a new token.
  abbrev pub generate : String → ℕ → Setup → Setup
  generate token now s = record_token token now s.config (write_setup_token_file io token s.file)

  -- The content of the file, where it can be read and is a token.
  abbrev pub read_token : Option TokenFile → Option String
  read_token none = none
  read_token (some f) = if io.reads_file then valid_content f.content else none

  -- The fourth branch: the file's permissions are narrowed.
  abbrev pub narrow : Option TokenFile → Option TokenFile
  narrow none = none
  narrow (some f) = some (if io.chmods then record f { mode = private_mode } else f)

  abbrev pub keep_token : String → ℕ → Setup → Option String → Setup
  keep_token token now s none = generate token now s
  keep_token token now s (some content) = record s { file = narrow s.file }

  abbrev pub ensure_recorded : String → ℕ → Setup → Option String → Setup
  ensure_recorded token now s none = generate token now s
  ensure_recorded token now s (some raw) = keep_token token now s (read_token s.file)

  abbrev pub ensure_account : String → ℕ → Setup → Option String → Setup
  ensure_account token now s none =
      ensure_recorded token now s (get_config setup_token_key s.config)
  ensure_account token now s (some account) = clean_up s

  -- With the random token as an argument.
  unfoldable pub ensure_setup_token : (token : String) → (now : ℕ) → Setup → Setup
  unfolding get_config delete_key is_valid_setup_token write_setup_token_file set_config
  ensure_setup_token token now s =
      ensure_account token now s (given (get_config "admin_account" s.config))
