-- ===== src/RateLimit/Tracked.antt =====
-- What the state of RateLimitMiddleware says of one key's past requests.
use openbotflow.Prelude.{
  ◌%◌, ◌&&◌, ℕ, ◌+◌, ◌≤◌, ◌<◌, ◌≡◌, refl, String, true, false, Option, none, some, List, [], ◌∷◌,
  arith, ltb, ◌==◌, string_key, length, All, Bool-cases, inl, inr, nat_key,
}
use openbotflow.Prelude.Assoc.{get, get-remove_all, IsDict, remove_all-IsDict, has_key}
use openbotflow.RateLimit.{Limiter, idle, stale_keys, cleanup_old_keys, count_request}
use openbotflow.RateLimit.Window.{in_window}

-- What is known of a key after the requests so far: the deque covers what was admitted lately.
abbrev pub Tracked : (n window now : ℕ) → List ℕ → Option (List ℕ) → Option ℕ → Type 0
Tracked n window now log none last = All (λ t. t + window < now) log
Tracked n window now log (some dq) none = ⊥
Tracked n window now log (some dq) (some ts) =
    (length dq ≤ n)
    × ((at : ℕ) → now ≤ at → in_window window at log ≤ in_window window at dq)
    × All (λ t. t ≤ ts) log
    × (ts ≤ now)

pub record Inv (n window : ℕ) (k : String) (now : ℕ) (l : Limiter) (log : List ℕ) : Type 0 where
  pub dict : IsDict l.last_access
  pub tracked : Tracked n window now log (get k l.requests) (get k l.last_access)

All-le :
    (c d : ℕ) (window : ℕ) (xs : List ℕ)
    → All (λ t. t + window < c) xs
    → c ≤ d
    → All (λ t. t + window < d) xs
All-le c d window [] h k = tt
All-le c d window (x ∷ xs) h k = (omega arith, All-le c d window xs h.1 k)

pub All-weaken :
    (window now : ℕ) (xs : List ℕ) → All (λ t. t + window < now) xs → All (λ t. t ≤ now) xs
All-weaken window now [] h = tt
All-weaken window now (x ∷ xs) h = (omega arith, All-weaken window now xs h.1)

pub All-trans : (ts now : ℕ) (xs : List ℕ) → All (λ t. t ≤ ts) xs → ts ≤ now → All (λ t. t ≤ now) xs
All-trans ts now [] h k = tt
All-trans ts now (x ∷ xs) h k = (omega arith, All-trans ts now xs h.1 k)

All-old :
    (ts now window : ℕ) (xs : List ℕ)
    → All (λ t. t ≤ ts) xs
    → ts + window < now
    → All (λ t. t + window < now) xs
All-old ts now window [] h k = tt
All-old ts now window (x ∷ xs) h k = (omega arith, All-old ts now window xs h.1 k)

pub Tracked-later :
    (n window now later : ℕ) (log : List ℕ) (dq : Option (List ℕ)) (last : Option ℕ)
    → now ≤ later
    → Tracked n window now log dq last
    → Tracked n window later log dq last
Tracked-later n window now later log none last h t = All-le now later window log t h
Tracked-later n window now later log (some dq) none h t = t
Tracked-later n window now later log (some dq) (some ts) h (b, c, o, r) =
    (b, (λ at k. c at (omega arith)), o, omega arith)

stale_keys_recent :
    (k : String) (now : ℕ) (m : List (String × ℕ))
    → get k m ≡ none
    → has_key k (stale_keys now m) ≡ false
unfolding stale_keys has_key get
stale_keys_recent k now [] h = refl
stale_keys_recent k now ((j, ts) ∷ m) h =
    ground (arith, stale_keys_recent k now m, string_key.same_iff j k, string_key.same_iff k j)

stale_keys_old :
    (k : String) (now : ℕ) (m : List (String × ℕ))
    → IsDict m
    → has_key k (stale_keys now m) ≡ true
    → (ts : ℕ) × (get k m ≡ some ts) × (ts + idle < now)
unfolding stale_keys has_key get
stale_keys_old k now [] d h = cc
stale_keys_old k now ((j, ts) ∷ m) (new, d) h = elim (Bool-cases (j == k)) [
  | inl same ↦
      let e = (string_key.same_iff j k).0 same in
      (
        ts,
        ground arith,
        ground (arith, stale_keys_recent k now m (rw e at new), string_key.same_iff k j),
      )
  | inr other ↦
      let (ts', found, old) =
        stale_keys_old k now m d
          (ground (arith, string_key.same_iff j k, string_key.same_iff k j)) in
      (ts', ground arith, old)
]

module _ (n window max_keys : ℕ) (k : String) (short : window ≤ idle) where
  -- The cleanup forgets a key only when all its times are out of the window.
  Tracked-cleanup :
      (now : ℕ) (l : Limiter) (log : List ℕ)
      → IsDict l.last_access
      → Tracked n window now log (get k l.requests) (get k l.last_access)
      → Tracked n window now log
          (get k (cleanup_old_keys now l).requests)
          (get k (cleanup_old_keys now l).last_access)
  unfolding cleanup_old_keys
  Tracked-cleanup now l log d t =
      rw
        (
          get-remove_all (stale_keys now l.last_access) k l.requests,
          get-remove_all (stale_keys now l.last_access) k l.last_access,
        )
        (elim (Bool-cases (has_key k (stale_keys now l.last_access))) [
          | inr kept ↦ rw kept t
          | inl gone ↦
              let (ts, found, old) = stale_keys_old k now l.last_access d gone in
              rw gone (forgotten (get k l.requests) ts old (rw found at t))
        ])
    where
      forgotten :
          (dq : Option (List ℕ)) (ts : ℕ)
          → ts + idle < now
          → Tracked n window now log dq (some ts)
          → All (λ t. t + window < now) log
      forgotten none ts old t = t
      forgotten (some dq) ts old (_, _, o, _) = All-old ts now window log o (omega arith)

  pub count_request-Inv :
      (now later : ℕ) (l : Limiter) (log : List ℕ)
      → now ≤ later
      → Inv n window k now l log
      → Inv n window k later (count_request max_keys later l) log
  unfolding count_request
  count_request-Inv now later l log h v =
      let counted = record l { request_count = l.request_count + 1 } in
      let t = Tracked-later n window now later log _ _ h v.tracked in
      elim (Bool-cases
        (counted.request_count % 1000 == 0 && ltb max_keys (length counted.requests))) [
          | inl due ↦ rw due (record {
            dict = remove_all-IsDict (stale_keys later l.last_access) l.last_access v.dict;
            tracked = Tracked-cleanup later counted log v.dict t;
          })
          | inr not_due ↦ rw not_due (record { dict = v.dict; tracked = t })
        ]
