-- ===== src/Strategies/Served.antt =====
-- The messages of a strategy's answer, beside the endpoints that may be tried with them.
use openbotflow.Prelude.{
  ℕ, zero, suc, ◌≡◌, ◌⊎◌, inl, inr, refl, sym, ap, ◌∙◌, subst, length, String, Bool, not, Option,
  none, some, List, [], ◌∷◌, map, arith, ◌==◌, nat_key, get_elem?, keep, find, All, Bool-cases,
  Option-cases,
}
use openbotflow.Prelude.Int.{ltb_ℤ}
use openbotflow.Errors.{Error, Result, ok, err}
use openbotflow.Models.{GroupModelWithDetails, ModelEndpoint, RouteResult}
use openbotflow.Runtime.{Shared, Env}
use openbotflow.Context.Laws.{IsByteBounded}
use openbotflow.Context.Endpoints.{Serves, IsLeast, truncate_messages-Serves}
use openbotflow.Strategies.{
  insert, sort, endpoints_of, candidates, weighted_random_select, weighted_random_order,
}
use openbotflow.Strategies.Laws.{selected_first-some}
use openbotflow.Strategies.Select.{
  Request, route_result, all_but, selected_first, next_index, with_selected, with_fallback,
  in_sequence, in_turn, sequential, round_robin, fallbacks, choose, random_weights,
}

Result-cases : {A : Type 0} (r : Result A) → ((a : A) × (r ≡ ok a)) ⊎ ((e : Error) × (r ≡ err e))
Result-cases (ok a) = inl (a, refl)
Result-cases (err e) = inr (e, refl)

answer_of : RouteResult → Result RouteResult → RouteResult
answer_of other (ok r) = r
answer_of other (err e) = other

ok-same : (a b : RouteResult) → ok a ≡ ok b → a ≡ b
unfolding answer_of
ok-same a b e = ap (answer_of a) e

-- What holds of all of these holds of all of those.
abbrev AreAmong : List ModelEndpoint → List ModelEndpoint → Type 1
AreAmong xs ys = (P : ModelEndpoint → Type 0) → All P ys → All P xs

insert-AreAmong :
    (P : ModelEndpoint → Type 0) (ep : ModelEndpoint) (xs : List ModelEndpoint)
    → All P (insert ep xs)
    → P ep × All P xs
unfolding insert
insert-AreAmong P ep [] h = (h.0, tt)
insert-AreAmong P ep (x ∷ xs) h = elim (Bool-cases (ltb_ℤ ep.detail.weight x.detail.weight)) [
  | inl lighter ↦
      let (p, q) = rw lighter at h in let (a, b) = insert-AreAmong P ep xs q in (a, (p, b))
  | inr first ↦ rw first at h
]

all_but-AreAmong : (i : ℕ) (xs : List ModelEndpoint) → AreAmong (all_but i xs) xs
unfolding all_but
all_but-AreAmong i [] P h = tt
all_but-AreAmong zero (x ∷ xs) P h = h.1
all_but-AreAmong (suc i) (x ∷ xs) P h = (h.0, all_but-AreAmong i xs P h.1)

get_elem?-among :
    (P : ModelEndpoint → Type 0) (i : ℕ) (xs : List ModelEndpoint) (x : ModelEndpoint)
    → get_elem? xs i ≡ some x
    → All P xs
    → P x
get_elem?-among P i [] x e h = cc
get_elem?-among P zero (y ∷ xs) x e h = let same : y ≡ x = ground (arith, e) in subst P same h.0
get_elem?-among P (suc i) (y ∷ xs) x e h = get_elem?-among P i xs x e h.1

find-among :
    (P : ModelEndpoint → Type 0) (p : ModelEndpoint → Bool) (xs : List ModelEndpoint)
    (x : ModelEndpoint)
    → find p xs ≡ some x
    → All P xs
    → P x
find-among P p [] x e h = cc
find-among P p (y ∷ xs) x e h = elim (Bool-cases (p y)) [
  | inl hit ↦ let e' = rw hit at e in let same : y ≡ x = ground (arith, e') in subst P same h.0
  | inr miss ↦ find-among P p xs x (rw miss at e) h.1
]

endpoints_of-AreAmong :
    (available : List ModelEndpoint) (ds : List GroupModelWithDetails) (eps : List ModelEndpoint)
    → endpoints_of available ds ≡ some eps
    → AreAmong eps available
unfolding endpoints_of
endpoints_of-AreAmong available [] eps e P h =
    let same : [] ≡ eps = ground (arith, e) in subst (All P) same tt
endpoints_of-AreAmong available (d ∷ ds) eps e P h =
    elim (Option-cases (find (λ ep. ep.detail.model_id == d.model_id) available)) [
      | inl missing ↦ let off : ⊥ = ground (arith, e, missing) in elim off [ ]
      | inr (ep, found) ↦ elim (Option-cases (endpoints_of available ds)) [
        | inl missing ↦ let off : ⊥ = ground (arith, e, found, missing) in elim off [ ]
        | inr (rest, others) ↦
            let same : ep ∷ rest ≡ eps = ground (arith, e, found, others) in
            subst (All P) same (
              find-among P _ available ep found h,
              endpoints_of-AreAmong available ds rest others P h,
            )
      ]
    ]

-- The messages fit every endpoint of the answer, or are no more than what has to stay.
abbrev pub IsServed : (encode : String → ℕ) → Request → RouteResult → Type 0
IsServed encode q r =
    All (Serves encode q.max_tokens r.messages) r.endpoints ⊎ IsLeast q.messages r.messages

module _ (encode : String → ℕ) (bounded : IsByteBounded encode) (q : Request) where
  route_result-IsServed :
      (available eps : List ModelEndpoint) (r : RouteResult)
      → AreAmong eps available
      → ok (route_result encode q available eps) ≡ ok r
      → IsServed encode q r
  unfolding route_result
  route_result-IsServed available eps r among e =
      subst (IsServed encode q) (ok-same (route_result encode q available eps) r e)
        (elim (truncate_messages-Serves encode q.messages available q.max_tokens bounded) [
          | inl fit ↦ inl (among _ fit)
          | inr least ↦ inr least
        ])

  with_selected-IsServed :
      (i : ℕ) (available : List ModelEndpoint) (r : RouteResult)
      → with_selected encode q available (selected_first i available) ≡ ok r
      → IsServed encode q r
  unfolding with_selected selected_first
  with_selected-IsServed i available r e = elim (Option-cases (get_elem? available i)) [
    | inl missing ↦ let off : ⊥ = ground (arith, e, missing) in elim off [ ]
    | inr (x, found) ↦
        route_result-IsServed available (x ∷ all_but i available) r
          (λ P h. (get_elem?-among P i available x found h, all_but-AreAmong i available P h))
          (sym (ap (with_selected encode q available) (selected_first-some i available x found))
            ∙ e)
  ]

  in_sequence-IsServed :
      {S : Type 0} (c : Result (List ModelEndpoint) × S) (r : RouteResult)
      → (in_sequence encode q c).0 ≡ ok r
      → IsServed encode q r
  unfolding in_sequence
  in_sequence-IsServed (err x, s) r e = cc
  in_sequence-IsServed (ok available, s) r e =
      route_result-IsServed (sort available) (sort available) r (λ P h. h) e

  in_turn-IsServed :
      {S : Type 0} (group_id : ℕ) (counters : List (ℕ × ℕ)) (c : Result (List ModelEndpoint) × S)
      (r : RouteResult)
      → (in_turn encode q group_id counters c).0 ≡ ok r
      → IsServed encode q r
  unfolding in_turn
  in_turn-IsServed group_id counters (err x, s) r e = cc
  in_turn-IsServed group_id counters (ok available, s) r e =
      with_selected-IsServed (next_index group_id (length available) counters).0 (sort available) r
        e

  with_fallback-IsServed :
      (available : List ModelEndpoint) (primary : ModelEndpoint) (o : Option (List ModelEndpoint))
      (r : RouteResult)
      → ((P : ModelEndpoint → Type 0) → All P available → P primary)
      → ((eps : List ModelEndpoint) → o ≡ some eps → AreAmong eps available)
      → with_fallback encode q available primary o ≡ ok r
      → IsServed encode q r
  unfolding with_fallback
  with_fallback-IsServed available primary none r first others e = cc
  with_fallback-IsServed available primary (some eps) r first others e =
      route_result-IsServed available (primary ∷ eps) r (λ P h. (first P h, others eps refl P h)) e

module _ {W : Type 0} (env : Env W) (encode : String → ℕ)
    (load_endpoints : ℕ → Shared W → Result (List ModelEndpoint) × Shared W) (group_id : ℕ)
    (q : Request) (same : GroupModelWithDetails → GroupModelWithDetails → Bool)
    (bounded : IsByteBounded encode) (r : RouteResult) where
  fallbacks-IsServed :
      (available remaining : List ModelEndpoint) (primary : ModelEndpoint) (w : W)
      → ((P : ModelEndpoint → Type 0) → All P available → P primary)
      → (fallbacks env encode load_endpoints group_id q same available primary remaining w).0 ≡ ok r
      → IsServed encode q r
  unfolding fallbacks
  fallbacks-IsServed available [] primary w first e =
      with_fallback-IsServed encode bounded q available primary (some []) r first
        (λ eps e' P h. let none_else : [] ≡ eps = ground (arith, e') in subst (All P) none_else tt)
        e
  fallbacks-IsServed available (ep ∷ remaining) primary w first e =
      elim (Result-cases
        (weighted_random_order env same (map (λ x. x.detail) (ep ∷ remaining)) w).0) [
          | inr (x, failed) ↦ let off : ⊥ = ground (arith, e, failed) in elim off [ ]
          | inl (ds, ordered) ↦
              with_fallback-IsServed encode bounded q available primary (endpoints_of available ds)
                r first (endpoints_of-AreAmong available ds) (ground (arith, e, ordered))
        ]

  choose-IsServed :
      (available : List ModelEndpoint) (w : W)
      → (choose env encode load_endpoints group_id q same available w).0 ≡ ok r
      → IsServed encode q r
  unfolding choose
  choose-IsServed available w e =
      let selected = weighted_random_select env (map (λ x. x.detail) available) w in
      elim (Result-cases selected.0) [
        | inr (x, failed) ↦ let off : ⊥ = ground (arith, e, failed) in elim off [ ]
        | inl (d, drawn) ↦
            elim (Option-cases (find (λ ep. ep.detail.model_id == d.model_id) available)) [
              | inl missing ↦ let off : ⊥ = ground (arith, e, drawn, missing) in elim off [ ]
              | inr (primary, found) ↦
                  fallbacks-IsServed available
                    (keep (λ ep. not (ep.detail.model_id == d.model_id)) available) primary
                    selected.1 (λ P h. find-among P _ available primary found h)
                    (ground (arith, e, drawn, found))
            ]
      ]

  random_weights-IsServed :
      (s : Shared W)
      → (random_weights env encode load_endpoints group_id q same s).0 ≡ ok r
      → IsServed encode q r
  unfolding random_weights
  random_weights-IsServed s e =
      let found = candidates env group_id (load_endpoints group_id s) in
      elim (Result-cases found.0) [
        | inr (x, failed) ↦ let off : ⊥ = ground (arith, e, failed) in elim off [ ]
        | inl (available, some_found) ↦
            choose-IsServed available found.1.world (ground (arith, e, some_found))
      ]

  -- For a tokenizer that makes at most one token of a byte: whatever a group's strategy answers, be
  -- it sequential, round robin or random weights, its messages fit into the context window of every
  -- endpoint of the answer that has one; or else they are no more than what has to stay, the system
  -- messages, or the last message where there are none of these.
  pub strategies-IsServed :
      (counters : List (ℕ × ℕ)) (s : Shared W)
      → ((sequential env encode load_endpoints group_id q s).0 ≡ ok r)
        ⊎ ((round_robin env encode load_endpoints group_id q counters s).0 ≡ ok r)
        ⊎ ((random_weights env encode load_endpoints group_id q same s).0 ≡ ok r)
      → IsServed encode q r
  unfolding sequential round_robin
  strategies-IsServed counters s (inl e) =
      in_sequence-IsServed encode bounded q (candidates env group_id (load_endpoints group_id s)) r
        e
  strategies-IsServed counters s (inr (inl e)) =
      in_turn-IsServed encode bounded q group_id counters
        (candidates env group_id (load_endpoints group_id s)) r e
  strategies-IsServed counters s (inr (inr e)) = random_weights-IsServed s e
