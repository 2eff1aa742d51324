-- ===== src/Caches/Laws.antt =====
-- What becomes of the instances in the provider cache of router.py.
use openbotflow.Prelude.{
  ℕ, ◌+◌, ◌≡◌, refl, sym, subst, ◌⊎◌, inl, inr, String, Bool, true, false, ◌||◌, Option, none, some,
  List, [], ◌∷◌, ◌++◌, arith, ltb, ◌==◌, nat_key, string_key, pair_key, Bool-cases, any,
}
use openbotflow.Prelude.Assoc.{get, put, has_key}
use openbotflow.Json.{Fields}
use openbotflow.Errors.{Result, ok, err}
use openbotflow.Caches.{
  CacheKey, Caches, ProviderArgs, provider_types, provider_ttl, resolved_type, merged_config,
  cache_key, instances, retire_provider, retire_cached, invalidate_all_caches,
  invalidate_endpoint_cache, load_endpoints, build_endpoints, from_cache, store_endpoints, usable,
  args_of, build_next, after_provider, endpoint_ttl, Change, use_provider, load_group,
  drop_providers, drop_all, drop_group, change, changes, replace_provider, use_cached,
  get_cached_provider,
}
use openbotflow.Models.{GroupModelWithDetails, ModelEndpoint, Provider}
use openbotflow.Caches.Retire.{
  is_retired, is_known, drop_providers_known, retire_provider-providers, retire_keeps, retire_self,
  put_known, known_cases, drop_all_known, or_left, or_right,
}

module _ (is_closed : ℕ → Bool) (running : Bool) (i : ℕ) (is_open : is_closed i ≡ false)
    (make : String → String → String → Fields → ℕ) where
  -- The cache after a replacement.
  put_in :
      (k : CacheKey) (v : ℕ × ℕ) (old : Option (ℕ × ℕ)) (c : Caches)
      → get k c.providers ≡ old
      → (has_key i (instances (put k v c.providers)) ≡ true)
        ⊎ ((t : ℕ) × (get k c.providers ≡ some (i, t)))
      → (has_key i (instances (put k v (retire_cached is_closed running old c).providers))
          || is_retired i (retire_cached is_closed running old c))
        ≡ true
  unfolding retire_cached
  put_in k v none c f (inl stays) = or_left _ _ stays
  put_in k v none c f (inr (t, g)) = cc
  put_in k v (some (old, u)) c f (inl stays) = or_left _ _ (
      subst (λ m. has_key i (instances (put k v m)) ≡ true)
        (sym (retire_provider-providers is_closed running i old c)) stays)
  put_in k v (some (old, u)) c f (inr (t, g)) =
      let same : old ≡ i = ground (arith, f, g) in
      or_right _ _ (
        subst (λ x. is_retired i (retire_provider is_closed running x c) ≡ true) (sym same)
          (retire_self is_closed running i is_open c))

  retire_cached_keeps :
      (old : Option (ℕ × ℕ)) (c : Caches)
      → is_retired i c ≡ true
      → is_retired i (retire_cached is_closed running old c) ≡ true
  unfolding retire_cached
  retire_cached_keeps none c r = r
  retire_cached_keeps (some (old, t)) c r = retire_keeps is_closed running i old c r

  replace_known :
      (a : ProviderArgs) (now : ℕ) (cached : Option (ℕ × ℕ)) (c : Caches)
      → get (cache_key a) c.providers ≡ cached
      → is_known i c ≡ true
      → is_known i (replace_provider is_closed running make a now cached c).1 ≡ true
  unfolding replace_provider retire_cached
  replace_known a now cached c e h =
      elim (Bool-cases (any (λ t. t == resolved_type a) provider_types)) [
        | inr unsupported ↦ rw unsupported h
        | inl supported ↦ rw supported (elim (known_cases is_closed running i is_open c h) [
          | inr retired ↦ or_right _ _ (retire_cached_keeps cached c retired)
          | inl there ↦
              put_in (cache_key a)
                (make (resolved_type a) a.api_key a.base_url (merged_config a), now) cached c e
                (put_known is_closed running i is_open (cache_key a)
                  (make (resolved_type a) a.api_key a.base_url (merged_config a), now) c.providers
                  there)
        ])
      ]

  use_cached_known :
      (a : ProviderArgs) (now : ℕ) (cached : Option (ℕ × ℕ)) (c : Caches)
      → get (cache_key a) c.providers ≡ cached
      → is_known i c ≡ true
      → is_known i (use_cached is_closed running make a now cached c).1 ≡ true
  unfolding use_cached
  use_cached_known a now none c e h = replace_known a now none c e h
  use_cached_known a now (some (j, created)) c e h =
      elim (Bool-cases (ltb now (created + provider_ttl))) [
        | inl fresh ↦ rw fresh h
        | inr expired ↦ rw expired (replace_known a now (some (j, created)) c e h)
      ]

  use_known :
      (a : ProviderArgs) (now : ℕ) (c : Caches)
      → is_known i c ≡ true
      → is_known i (get_cached_provider is_closed running make a now c).1 ≡ true
  unfolding get_cached_provider
  use_known a now c h = use_cached_known a now (get (cache_key a) c.providers) c refl h

  build_known :
      (provider_row : ℕ → Option Provider) (clock : ℕ → ℕ) (n : ℕ)
      (models : List GroupModelWithDetails) (eps : List ModelEndpoint) (c : Caches)
      → is_known i c ≡ true
      → is_known i (build_endpoints is_closed running make provider_row clock n models eps c).1
        ≡ true
  unfolding build_endpoints
  build_known provider_row clock n [] eps c h = h
  build_known provider_row clock n (m ∷ models) eps c h =
      next_known (usable (provider_row m.provider_id)) _ _
        (build_known provider_row clock n models eps c h)
        (λ p.
          after_known (get_cached_provider is_closed running make (args_of p m) (clock n) c) _
            (use_known (args_of p m) (clock n) c h)
            (λ j d k.
              build_known provider_row clock (n + 1) models
                (eps ++ record { detail = m; provider = j } ∷ []) d k))
    where
      next_known :
          {A : Type 0} (p : Option Provider) (skip : Result A × Caches)
          (next : Provider → Result A × Caches)
          → is_known i skip.1 ≡ true
          → ((q : Provider) → is_known i (next q).1 ≡ true)
          → is_known i (build_next p skip next).1 ≡ true
      next_known none skip next a b = a
      next_known (some q) skip next a b = b q

      after_known :
          {A B : Type 0} (r : Result A × Caches) (next : A → Caches → Result B × Caches)
          → is_known i r.1 ≡ true
          → ((a : A) (d : Caches) → is_known i d ≡ true → is_known i (next a d).1 ≡ true)
          → is_known i (after_provider r next).1 ≡ true
      after_known (err e, d) next a b = a
      after_known (ok x, d) next a b = b x d a

  load_known :
      (group_models : ℕ → List GroupModelWithDetails) (provider_row : ℕ → Option Provider)
      (clock : ℕ → ℕ) (group_id : ℕ) (c : Caches)
      → is_known i c ≡ true
      → is_known i
          (load_endpoints is_closed running make group_models provider_row clock group_id c).1
        ≡ true
  unfolding load_endpoints
  load_known group_models provider_row clock group_id c h = cached (get group_id c.endpoints) _ (
      stored
        (build_endpoints is_closed running make provider_row clock 1 (group_models group_id) [] c)
        (build_known provider_row clock 1 (group_models group_id) [] c h))
    where
      stored :
          (r : Result (List ModelEndpoint) × Caches)
          → is_known i r.1 ≡ true
          → is_known i (store_endpoints group_id (clock 0) r).1 ≡ true
      stored (err e, d) a = a
      stored (ok eps, d) a = a

      cached :
          (found : Option (List ModelEndpoint × ℕ))
          (reloaded : Result (List ModelEndpoint) × Caches)
          → is_known i reloaded.1 ≡ true
          → is_known i (from_cache found (clock 0) c reloaded).1 ≡ true
      cached none reloaded a = a
      cached (some (eps, created)) reloaded a =
          elim (Bool-cases (ltb (clock 0) (created + endpoint_ttl))) [
            | inl fresh ↦ rw fresh h
            | inr stale ↦ rw stale a
          ]

  change_known :
      (x : Change) (c : Caches)
      → is_known i c ≡ true
      → is_known i (change is_closed running make x c) ≡ true
  unfolding change invalidate_all_caches invalidate_endpoint_cache has_key
  change_known (use_provider a now) c h = use_known a now c h
  change_known (load_group group_models provider_row clock group_id) c h =
      load_known group_models provider_row clock group_id c h
  change_known (drop_providers which) c h =
      drop_providers_known is_closed running i is_open which c h
  change_known drop_all c h = drop_all_known is_closed running i is_open c h
  change_known (drop_group group_id) c h = h

-- However providers are used, groups loaded and caches invalidated, an instance that is not closed
-- and was in the cache, or was retired, is still in the cache afterwards, or waits for its closing,
-- or has it scheduled: no connection pool is lost.
pub changes-is_known :
    (is_closed : ℕ → Bool) (running : Bool) (make : String → String → String → Fields → ℕ)
    (instance_id : ℕ) (xs : List Change) (c : Caches)
    → is_closed instance_id ≡ false
    → is_known instance_id c ≡ true
    → is_known instance_id (changes is_closed running make xs c) ≡ true
unfolding changes
changes-is_known is_closed running make instance_id [] c is_open h = h
changes-is_known is_closed running make instance_id (x ∷ xs) c is_open h =
    changes-is_known is_closed running make instance_id xs (change is_closed running make x c)
      is_open (change_known is_closed running instance_id is_open make x c h)
