-- ===== src/Tests/Pools.antt =====
-- The provider cache over an expiry and an invalidation.
use openbotflow.Prelude.{ℕ, ◌*◌, ◌≡◌, refl, String, Bool, true, false, none, List, [], ◌∷◌}
use openbotflow.Prelude.Assoc.{has_key}
use openbotflow.Json.{Fields, end}
use openbotflow.Cooldown.{second}
use openbotflow.Caches.{
  Caches, ProviderArgs, Change, use_provider, drop_providers, changes, cache_key,
}
use openbotflow.Caches.Retire.{is_known}
use openbotflow.Caches.Laws.{changes-is_known}

abbrev connection : ProviderArgs
connection = record {
  provider_id = 7;
  provider_type = "openai";
  api_key = "k";
  base_url = "u";
  extra_config = end;
  api_format = "";
  proxy = "";
}

abbrev make : String → String → String → Fields → ℕ
make type key url config = 12

abbrev none_closed : ℕ → Bool
none_closed id = false

abbrev cached : Caches
cached = record {
  providers = (cache_key connection, (11, 10 * second)) ∷ [];
  endpoints = [];
  pending = [];
  close_tasks = [];
}

-- The entry is five minutes old: its instance is replaced and its closing is scheduled.
replaced :
    changes none_closed true make (use_provider connection (310 * second) ∷ []) cached ≡ record {
      providers = (cache_key connection, (12, 310 * second)) ∷ [];
      endpoints = [];
      pending = [];
      close_tasks = 11 ∷ [];
    }
unfolding changes
replaced = refl

abbrev both : List Change
both = use_provider connection (310 * second) ∷ drop_providers none ∷ []

changes-is_known_example : is_known 11 (changes none_closed true make both cached) ≡ true
unfolding has_key
changes-is_known_example = changes-is_known none_closed true make 11 both cached refl known
  where
    known : is_known 11 cached ≡ true
    known = refl
