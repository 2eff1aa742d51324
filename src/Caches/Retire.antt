-- ===== src/Caches/Retire.antt =====
-- Retiring provider instances, and taking them out of the cache.
use openbotflow.Prelude.{
  ℕ, ◌≡◌, refl, sym, ap, ◌∙◌, subst, ◌⊎◌, inl, inr, Bool, true, false, ◌||◌, Option, none, some,
  List, [], ◌∷◌, ◌++◌, arith, ◌==◌, nat_key, string_key, pair_key, same_nat_iff, Bool-cases,
}
use openbotflow.Prelude.Assoc.{get, put, has_key}
use openbotflow.Caches.{
  CacheKey, Caches, instances, chosen, others, retire_provider, retire_all,
  invalidate_provider_cache,
}

-- The instance waits for its closing, or its closing was scheduled.
abbrev pub is_retired : ℕ → Caches → Bool
is_retired i c = has_key i c.pending || has_key i c.close_tasks

-- Or it is in the cache.
abbrev pub is_known : ℕ → Caches → Bool
is_known i c = has_key i (instances c.providers) || is_retired i c

has_key-append : (i : ℕ) (xs ys : List ℕ) → has_key i (xs ++ ys) ≡ (has_key i xs || has_key i ys)
unfolding has_key
has_key-append i [] ys = refl
has_key-append i (x ∷ xs) ys = ground (arith, has_key-append i xs ys)

pub or_left : (a b : Bool) → a ≡ true → (a || b) ≡ true
or_left a b h = rw h refl

pub or_right : (a b : Bool) → b ≡ true → (a || b) ≡ true
or_right true b h = refl
or_right false b h = h

scheduled_or : (p t j : Bool) → ((t || p) || (j || false)) ≡ ((p || t) || j)
scheduled_or p t j = ground arith

waiting_or : (p t j : Bool) → ((p || (j || false)) || t) ≡ ((p || t) || j)
waiting_or p t j = ground arith

module _ (is_closed : ℕ → Bool) (running : Bool) (i : ℕ) where
  pub retire_provider-providers :
      (j : ℕ) (c : Caches) → (retire_provider is_closed running j c).providers ≡ c.providers
  unfolding retire_provider
  retire_provider-providers j c = ground arith

  -- Retiring an open instance adds it, and loses none.
  retire_open :
      (j : ℕ) (c : Caches)
      → is_closed j ≡ false
      → is_retired i (retire_provider is_closed running j c) ≡ (is_retired i c || j == i)
  unfolding retire_provider has_key
  retire_open j c e = elim (Bool-cases running) [
    | inl now ↦
        rw
          (
            e,
            now,
            has_key-append i (c.close_tasks ++ c.pending) (j ∷ []),
            has_key-append i c.close_tasks c.pending,
          )
          (scheduled_or (has_key i c.pending) (has_key i c.close_tasks) (j == i))
    | inr later ↦
        rw (e, later, has_key-append i c.pending (j ∷ []))
          (waiting_or (has_key i c.pending) (has_key i c.close_tasks) (j == i))
  ]

  pub retire_keeps :
      (j : ℕ) (c : Caches)
      → is_retired i c ≡ true
      → is_retired i (retire_provider is_closed running j c) ≡ true
  unfolding retire_provider
  retire_keeps j c h = elim (Bool-cases (is_closed j)) [
    | inl closed ↦ rw closed h
    | inr open_still ↦ retire_open j c open_still ∙ rw h refl
  ]

  retire_all-providers :
      (is : List ℕ) (c : Caches) → (retire_all is_closed running is c).providers ≡ c.providers
  unfolding retire_all
  retire_all-providers [] c = refl
  retire_all-providers (j ∷ is) c =
      retire_all-providers is (retire_provider is_closed running j c)
      ∙ retire_provider-providers j c

  pub retire_all_keeps :
      (is : List ℕ) (c : Caches)
      → is_retired i c ≡ true
      → is_retired i (retire_all is_closed running is c) ≡ true
  unfolding retire_all
  retire_all_keeps [] c h = h
  retire_all_keeps (j ∷ is) c h = retire_all_keeps is _ (retire_keeps j c h)

  module _ (is_open : is_closed i ≡ false) where
    pub retire_self : (c : Caches) → is_retired i (retire_provider is_closed running i c) ≡ true
    retire_self c = retire_open i c is_open ∙ ground (arith, (same_nat_iff i i).1 refl)

    pub retire_all_member :
        (is : List ℕ) (c : Caches)
        → has_key i is ≡ true
        → is_retired i (retire_all is_closed running is c) ≡ true
    unfolding retire_all has_key
    retire_all_member [] c h = cc
    retire_all_member (j ∷ is) c h = elim (Bool-cases (j == i)) [
      | inl same ↦ retire_all_keeps is _ (
          subst (λ x. is_retired i (retire_provider is_closed running x c) ≡ true)
            (sym ((same_nat_iff j i).0 same)) (retire_self c))
      | inr other ↦ retire_all_member is _ (rw other at h)
    ]

    -- An instance of the cache is among the entries that go, or among those that stay.
    pub split_known :
        (id : ℕ) (m : List (CacheKey × (ℕ × ℕ)))
        → has_key i (instances m) ≡ true
        → (has_key i (chosen id m) ≡ true) ⊎ (has_key i (instances (others id m)) ≡ true)
    unfolding has_key
    split_known id [] h = cc
    split_known id ((k, (j, t)) ∷ m) h = elim (Bool-cases (k.0 == id)) [
      | inl mine ↦ rw mine (elim (Bool-cases (j == i)) [
        | inl here ↦ inl (rw here refl)
        | inr other ↦ elim (split_known id m (rw other at h)) [
          | inl goes ↦ inl (rw other goes)
          | inr stays ↦ inr stays
        ]
      ])
      | inr theirs ↦ rw theirs (elim (Bool-cases (j == i)) [
        | inl here ↦ inr (rw here refl)
        | inr other ↦ elim (split_known id m (rw other at h)) [
          | inl goes ↦ inl goes
          | inr stays ↦ inr (rw other stays)
        ]
      ])
    ]

    pub put_known :
        (k : CacheKey) (v : ℕ × ℕ) (m : List (CacheKey × (ℕ × ℕ)))
        → has_key i (instances m) ≡ true
        → (has_key i (instances (put k v m)) ≡ true) ⊎ ((t : ℕ) × (get k m ≡ some (i, t)))
    unfolding has_key put get
    put_known k v [] h = cc
    put_known k v ((j, (old, t)) ∷ m) h = elim (Bool-cases (j == k)) [
      | inl same ↦ rw same (elim (Bool-cases (old == i)) [
        | inl here ↦ inr (t, ap (λ x. some (x, t)) ((same_nat_iff old i).0 here))
        | inr other ↦ inl (elim (Bool-cases (v.0 == i)) [
          | inl new ↦ rw new refl
          | inr old_one ↦ rw old_one (rw other at h)
        ])
      ])
      | inr differs ↦ rw differs (elim (Bool-cases (old == i)) [
        | inl here ↦ inl (rw here refl)
        | inr other ↦ elim (put_known k v m (rw other at h)) [
          | inl stays ↦ inl (rw other stays)
          | inr gone ↦ inr gone
        ]
      ])
    ]

    pub known_cases :
        (c : Caches)
        → is_known i c ≡ true
        → (has_key i (instances c.providers) ≡ true) ⊎ (is_retired i c ≡ true)
    known_cases c h = elim (Bool-cases (has_key i (instances c.providers))) [
      | inl cached ↦ inl cached
      | inr gone ↦ inr (rw gone at h)
    ]

    pub drop_all_known :
        (c : Caches)
        → is_known i c ≡ true
        → is_retired i (retire_all is_closed running (instances c.providers) c) ≡ true
    drop_all_known c h = elim (known_cases c h) [
      | inl cached ↦ retire_all_member (instances c.providers) c cached
      | inr retired ↦ retire_all_keeps (instances c.providers) c retired
    ]

    pub drop_providers_known :
        (which : Option ℕ) (c : Caches)
        → is_known i c ≡ true
        → is_known i (invalidate_provider_cache is_closed running which c) ≡ true
    unfolding invalidate_provider_cache has_key
    drop_providers_known none c h = drop_all_known c h
    drop_providers_known (some id) c h = elim (known_cases c h) [
      | inr retired ↦ or_right _ _ (retire_all_keeps (chosen id c.providers) c retired)
      | inl cached ↦ elim (split_known id c.providers cached) [
        | inl goes ↦ or_right _ _ (retire_all_member (chosen id c.providers) c goes)
        | inr stays ↦ or_left _ _ stays
      ]
    ]
