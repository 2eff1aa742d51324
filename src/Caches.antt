-- ===== src/Caches.antt =====
-- The provider and endpoint caches of router.py, with the deferred closing of replaced providers. A
-- provider instance is known by its identity; making one, its closed flag and the database rows are
-- arguments. Times are microseconds of the wall clock.
pub mod Retire
pub mod Laws
use openbotflow.Prelude.{
  ℕ, ◌+◌, ◌*◌, String, Bool, true, false, ◌&&◌, Option, none, some, List, [], ◌∷◌, ◌++◌, map, ltb,
  ◌==◌, nat_key, string_key, pair_key, if◌then◌else◌, or_else, any,
}
use openbotflow.Prelude.Assoc.{get, put, remove}
use openbotflow.Json.{str, Fields, put_field}
use openbotflow.Errors.{other_error, raise, Result, ok, err}
use openbotflow.Models.{GroupModelWithDetails, ModelEndpoint, Provider}
use openbotflow.Cooldown.{second}

-- (provider_id, (resolved_type, proxy))
abbrev pub CacheKey : Type 0
CacheKey = ℕ × (String × String)

-- `_provider_cache`, `_endpoint_cache`, `_pending_provider_closes` and the closings
-- that were scheduled.
pub record Caches : Type 0 where
  pub providers : List (CacheKey × (ℕ × ℕ))
  pub endpoints : List (ℕ × (List ModelEndpoint × ℕ))
  pub pending : List ℕ
  pub close_tasks : List ℕ

abbrev pub provider_ttl : ℕ
provider_ttl = 300 * second

abbrev pub endpoint_ttl : ℕ
endpoint_ttl = 60 * second

-- PROVIDER_TYPE_MAP
abbrev pub provider_types : List String
provider_types = "openai" ∷ "azure" ∷ "ollama" ∷ "vllm" ∷ "deepseek" ∷ "anthropic" ∷ "google" ∷ []

abbrev pub instances : List (CacheKey × (ℕ × ℕ)) → List ℕ
instances m = map (λ e. e.1.0) m

-- The entries whose provider is that one, and the others.
abbrev pub chosen : ℕ → List (CacheKey × (ℕ × ℕ)) → List ℕ
chosen id [] = []
chosen id (e ∷ m) = let rest = chosen id m in if e.0.0 == id then e.1.0 ∷ rest else rest

abbrev pub others : ℕ → List (CacheKey × (ℕ × ℕ)) → List (CacheKey × (ℕ × ℕ))
others id [] = []
others id (e ∷ m) = let rest = others id m in if e.0.0 == id then rest else e ∷ rest

-- The arguments of `_get_cached_provider`.
pub record ProviderArgs : Type 0 where
  pub provider_id : ℕ
  pub provider_type : String
  pub api_key : String
  pub base_url : String
  pub extra_config : Fields
  pub api_format : String
  pub proxy : String

abbrev pub resolved_type : ProviderArgs → String
resolved_type a = if a.api_format == "" then a.provider_type else a.api_format

abbrev pub cache_key : ProviderArgs → CacheKey
cache_key a = (a.provider_id, (resolved_type a, a.proxy))

abbrev pub merged_config : ProviderArgs → Fields
merged_config a =
    if a.proxy == "" then a.extra_config else put_field "proxy" (str a.proxy) a.extra_config

-- A provider's row that is there and enabled.
abbrev pub usable : Option Provider → Option Provider
usable none = none
usable (some p) = if p.is_enabled then some p else none

abbrev pub args_of : Provider → GroupModelWithDetails → ProviderArgs
args_of p m = record {
  provider_id = p.id;
  provider_type = p.provider_type;
  api_key = p.api_key;
  base_url = p.base_url;
  extra_config = p.extra_config;
  api_format = m.api_format;
  proxy = m.proxy;
}

abbrev pub build_next : {A : Type 0} → Option Provider → A → (Provider → A) → A
build_next none skip use_it = skip
build_next (some p) skip use_it = use_it p

abbrev pub after_provider :
    {A B : Type 0} → Result A × Caches → (A → Caches → Result B × Caches) → Result B × Caches
after_provider (err e, c) next = (err e, c)
after_provider (ok a, c) next = next a c

-- The cached endpoints while they are fresh, or else the reloaded ones.
abbrev pub from_cache :
    Option (List ModelEndpoint × ℕ)
    → ℕ
    → Caches
    → Result (List ModelEndpoint) × Caches
    → Result (List ModelEndpoint) × Caches
from_cache none now c reloaded = reloaded
from_cache (some (endpoints, created)) now c reloaded =
    if ltb now (created + endpoint_ttl) then (ok endpoints, c) else reloaded

abbrev pub store_endpoints :
    ℕ → ℕ → Result (List ModelEndpoint) × Caches → Result (List ModelEndpoint) × Caches
store_endpoints group_id now (err e, c) = (err e, c)
store_endpoints group_id now (ok eps, c) =
    (ok eps, record c { endpoints = put group_id (eps, now) c.endpoints })

unfoldable pub invalidate_endpoint_cache : ℕ → Caches → Caches
unfolding remove
invalidate_endpoint_cache group_id c = record c { endpoints = remove group_id c.endpoints }

-- What happens to the caches: a use of a provider, the loading of a group's endpoints, or one of the
-- three invalidations.
pub data Change : Type 0 where
  use_provider : ProviderArgs → ℕ → Change
  load_group :
      (ℕ → List GroupModelWithDetails) → (ℕ → Option Provider) → (clock : ℕ → ℕ) → ℕ → Change
  drop_providers : Option ℕ → Change
  drop_all : Change
  drop_group : ℕ → Change

-- Is an instance closed already, and is an event loop running?
module _ (is_closed : ℕ → Bool) (running : Bool) where
  unfoldable pub retire_provider : ℕ → Caches → Caches
  retire_provider instance_id c =
      if is_closed instance_id
      then c
      else if running
      then record c { close_tasks = c.close_tasks ++ c.pending ++ instance_id ∷ []; pending = [] }
      else record c { pending = c.pending ++ instance_id ∷ [] }

  -- The instance of an expired entry.
  unfoldable pub retire_cached : Option (ℕ × ℕ) → Caches → Caches
  unfolding retire_provider
  retire_cached none c = c
  retire_cached (some (old, created)) c = retire_provider old c

  unfoldable pub retire_all : List ℕ → Caches → Caches
  unfolding retire_provider
  retire_all [] c = c
  retire_all (i ∷ is) c = retire_all is (retire_provider i c)

  unfoldable pub invalidate_provider_cache : Option ℕ → Caches → Caches
  unfolding retire_all
  invalidate_provider_cache none c = record (retire_all (instances c.providers) c) {
    providers = [];
  }
  invalidate_provider_cache (some id) c = record (retire_all (chosen id c.providers) c) {
    providers = others id c.providers;
  }

  unfoldable pub invalidate_all_caches : Caches → Caches
  unfolding retire_all
  invalidate_all_caches c = record (retire_all (instances c.providers) c) {
    providers = [];
    endpoints = [];
  }

  -- The class called with its arguments.
  module _ (make : String → String → String → Fields → ℕ) where
    -- Behind a miss or an expired entry, which is retired.
    unfoldable pub replace_provider : ProviderArgs → ℕ → Option (ℕ × ℕ) → Caches → Result ℕ × Caches
    unfolding retire_cached put
    replace_provider a now cached c =
        let instance_id = make (resolved_type a) a.api_key a.base_url (merged_config a) in
        let c' = retire_cached cached c in
        if any (λ t. t == resolved_type a) provider_types
        then (
          ok instance_id,
          record c' { providers = put (cache_key a) (instance_id, now) c'.providers },
        )
        else (err (raise (other_error "ValueError") "Unsupported provider type"), c)

    -- With the entry that was found.
    unfoldable pub use_cached : ProviderArgs → ℕ → Option (ℕ × ℕ) → Caches → Result ℕ × Caches
    unfolding replace_provider
    use_cached a now none c = replace_provider a now none c
    use_cached a now (some (instance_id, created)) c =
        if ltb now (created + provider_ttl)
        then (ok instance_id, c)
        else replace_provider a now (some (instance_id, created)) c

    unfoldable pub get_cached_provider : ProviderArgs → ℕ → Caches → Result ℕ × Caches
    unfolding get use_cached
    get_cached_provider a now c = use_cached a now (get (cache_key a) c.providers) c

    -- The endpoints of a group's rows; `clock` is the time at each of its readings.
    unfoldable pub build_endpoints :
        (ℕ → Option Provider)
        → (clock : ℕ → ℕ) → ℕ
        → List GroupModelWithDetails
        → List ModelEndpoint
        → Caches
        → Result (List ModelEndpoint) × Caches
    unfolding get_cached_provider
    build_endpoints provider_row clock i [] endpoints c = (ok endpoints, c)
    build_endpoints provider_row clock i (m ∷ models) endpoints c =
        build_next (usable (provider_row m.provider_id))
          (build_endpoints provider_row clock i models endpoints c)
          (λ p. after_provider (get_cached_provider (args_of p m) (clock i) c) (λ instance_id c'.
            build_endpoints provider_row clock (i + 1) models
              (endpoints ++ record { detail = m; provider = instance_id } ∷ []) c'))

    unfoldable pub load_endpoints :
        (ℕ → List GroupModelWithDetails)
        → (ℕ → Option Provider)
        → (clock : ℕ → ℕ) → ℕ
        → Caches
        → Result (List ModelEndpoint) × Caches
    unfolding get build_endpoints put
    load_endpoints group_models provider_row clock group_id c =
        from_cache (get group_id c.endpoints) (clock 0) c (
          store_endpoints group_id (clock 0)
            (build_endpoints provider_row clock 1 (group_models group_id) [] c))

    unfoldable pub change : Change → Caches → Caches
    unfolding get_cached_provider load_endpoints invalidate_provider_cache invalidate_all_caches
        invalidate_endpoint_cache
    change (use_provider a now) c = (get_cached_provider a now c).1
    change (load_group group_models provider_row clock group_id) c =
        (load_endpoints group_models provider_row clock group_id c).1
    change (drop_providers which) c = invalidate_provider_cache which c
    change drop_all c = invalidate_all_caches c
    change (drop_group group_id) c = invalidate_endpoint_cache group_id c

    unfoldable pub changes : List Change → Caches → Caches
    unfolding change
    changes [] c = c
    changes (x ∷ xs) c = changes xs (change x c)
