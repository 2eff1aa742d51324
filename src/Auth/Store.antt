-- ===== src/Auth/Store.antt =====
-- The config table of storage/db.py: `get_config`, `set_config`, `cleanup_config_by_prefix` and the
-- deletions that admin_api.py and auth.py send by `execute_write`. SQLite's LIKE is an argument.
use openbotflow.Prelude.{
  ℕ, ◌-◌, ◌/◌, ◌≡◌, String, Bool, ◌&&◌, Option, none, some, List, [], ◌∷◌, ltb, if◌then◌else◌, ◌==◌,
  string_key, arith,
}
use openbotflow.Prelude.Assoc.{get, put, remove, get-put, get-remove}
use openbotflow.Cooldown.{second}

-- A row, with the time of its last change in whole seconds.
pub record Row : Type 0 where
  pub value : String
  pub updated_at : ℕ

abbrev pub Config : Type 0
Config = List (String × Row)

abbrev pub value_of : Option Row → Option String
value_of none = none
value_of (some row) = some row.value

unfoldable pub get_config : String → Config → Option String
unfolding get
get_config key c = value_of (get key c)

unfoldable pub set_config : String → String → (now : ℕ) → Config → Config
unfolding put
set_config key value now c = put key (record { value = value; updated_at = now / second }) c

-- DELETE FROM config WHERE key = ?
unfoldable pub delete_key : String → Config → Config
unfolding remove
delete_key key c = remove key c

-- DELETE FROM config WHERE ..., by a test of the row.
unfoldable pub delete_where : (String → Row → Bool) → Config → Config
delete_where p [] = []
delete_where p ((key, row) ∷ c) =
    let rest = delete_where p c in if p key row then rest else (key, row) ∷ rest

unfoldable pub cleanup_config_by_prefix :
    (like : String → String → Bool) → String → (older_than : ℕ) → (now : ℕ) → Config → Config
unfolding delete_where
cleanup_config_by_prefix like prefix older_than now c =
    delete_where (λ key row. like prefix key && ltb row.updated_at ((now - older_than) / second)) c

-- `bool(raw)`: a missing value and an empty one count the same.
abbrev pub given : Option String → Option String
given none = none
given (some s) = if s == "" then none else some s

pub get_config-set_config :
    (key k : String) (value : String) (now : ℕ) (c : Config)
    → get_config k (set_config key value now c) ≡ (if key == k then some value else get_config k c)
unfolding get_config set_config
get_config-set_config key k value now c =
    ground (arith, get-put key k (record { value = value; updated_at = now / second }) c)

pub get_config-delete_key :
    (key k : String) (c : Config)
    → get_config k (delete_key key c) ≡ (if key == k then none else get_config k c)
unfolding get_config delete_key
get_config-delete_key key k c = ground (arith, get-remove key k c)

-- A deletion by the key alone.
pub get_config-delete_where :
    (p : String → Bool) (k : String) (c : Config)
    → get_config k (delete_where (λ key row. p key) c) ≡ (if p k then none else get_config k c)
unfolding get_config delete_where get
get_config-delete_where p k [] = ground arith
get_config-delete_where p k ((key, row) ∷ c) =
    ground (arith, get_config-delete_where p k c, string_key.same_iff key k)
