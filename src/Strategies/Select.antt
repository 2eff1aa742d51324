-- ===== src/Strategies/Select.antt =====
-- The three strategies of pipeline/strategies.py.
use openbotflow.Prelude.{
  ℕ, ◌+◌, ◌*◌, ◌%◌, zero, suc, String, Bool, not, Option, none, some, List, [], ◌∷◌, map, ◌==◌,
  nat_key, or_else, length, get_elem?, keep, find,
}
use openbotflow.Prelude.Assoc.{get, put}
use openbotflow.Prelude.Int.{ℤ}
use openbotflow.Json.{Fields}
use openbotflow.Errors.{other_error, raise, Result, ok, err}
use openbotflow.Models.{GroupModelWithDetails, Message, ModelEndpoint, RouteResult}
use openbotflow.Runtime.{Shared, Env}
use openbotflow.Context.{truncate_messages}
use openbotflow.Strategies.{
  sort, endpoints_of, no_match, candidates, weighted_random_select, weighted_random_order,
}

-- The arguments of `select_endpoints`.
pub record Request : Type 0 where
  pub messages : List Message
  pub temperature : Option ℤ
  pub max_tokens : Option ℕ
  pub kwargs : Fields

-- The result with the messages cut to what every available endpoint takes.
unfoldable pub route_result :
    (String → ℕ) → Request → (available endpoints : List ModelEndpoint) → RouteResult
unfolding truncate_messages
route_result encode q available endpoints = record {
  endpoints = endpoints;
  messages = truncate_messages encode q.messages available q.max_tokens;
  temperature = q.temperature;
  max_tokens = q.max_tokens;
  extra_kwargs = q.kwargs;
}

-- [available[i] for i in range(len(available)) if i != selected_idx]
unfoldable pub all_but {ℓ} : {A : Type ℓ} → ℕ → List A → List A
all_but i [] = []
all_but zero (x ∷ xs) = xs
all_but (suc i) (x ∷ xs) = x ∷ all_but i xs

-- [available[selected_idx]] + fallback
unfoldable pub selected_first {ℓ} : {A : Type ℓ} → ℕ → List A → Option (List A)
unfolding all_but
selected_first i xs = elim (get_elem? xs i) [ none ↦ none | some x ↦ some (x ∷ all_but i xs) ]

-- What a round of the counters answers: the index that is selected, and the new counters.
unfoldable pub next_index : ℕ → ℕ → List (ℕ × ℕ) → ℕ × List (ℕ × ℕ)
unfolding get put
next_index group_id n counters =
    let idx = or_else (get group_id counters) 0 in
    (idx % n, put group_id ((idx + 1) % (n * 1000)) counters)

module _ (encode : String → ℕ) (q : Request) where
  unfoldable pub with_selected :
      List ModelEndpoint → Option (List ModelEndpoint) → Result RouteResult
  unfolding route_result
  with_selected available none = err (raise (other_error "IndexError") "list index out of range")
  with_selected available (some eps) = ok (route_result encode q available eps)

  unfoldable pub with_fallback :
      List ModelEndpoint → ModelEndpoint → Option (List ModelEndpoint) → Result RouteResult
  unfolding route_result
  with_fallback available primary none = no_match
  with_fallback available primary (some eps) = ok (route_result encode q available (primary ∷ eps))

  -- Behind the candidates of the sequential strategy.
  unfoldable pub in_sequence :
      {S : Type 0} → Result (List ModelEndpoint) × S → Result RouteResult × S
  unfolding sort route_result
  in_sequence (err e, s) = (err e, s)
  in_sequence (ok available, s) = (ok (route_result encode q (sort available) (sort available)), s)

  -- Behind the candidates of the round robin.
  unfoldable pub in_turn :
      {S : Type 0}
      → ℕ
      → List (ℕ × ℕ)
      → Result (List ModelEndpoint) × S
      → Result RouteResult × List (ℕ × ℕ) × S
  unfolding sort next_index selected_first with_selected
  in_turn group_id counters (err e, s) = (err e, counters, s)
  in_turn group_id counters (ok available, s) =
      let (i, counters') = next_index group_id (length available) counters in
      (with_selected (sort available) (selected_first i (sort available)), counters', s)

module _ {W : Type 0} (env : Env W) (encode : String → ℕ)
    (load_endpoints : ℕ → Shared W → Result (List ModelEndpoint) × Shared W) (group_id : ℕ)
    (q : Request) where
  unfoldable pub sequential : Shared W → Result RouteResult × Shared W
  unfolding candidates in_sequence
  sequential s = in_sequence encode q (candidates env group_id (load_endpoints group_id s))

  unfoldable pub round_robin :
      List (ℕ × ℕ) → Shared W → Result RouteResult × List (ℕ × ℕ) × Shared W
  unfolding candidates in_turn
  round_robin counters s =
      in_turn encode q group_id counters (candidates env group_id (load_endpoints group_id s))

  module _ (same : GroupModelWithDetails → GroupModelWithDetails → Bool) where
    -- The endpoints behind the primary one: none, or the others in weighted order.
    unfoldable pub fallbacks :
        List ModelEndpoint → ModelEndpoint → List ModelEndpoint → W → Result RouteResult × W
    unfolding weighted_random_order endpoints_of with_fallback
    fallbacks available primary [] w = (with_fallback encode q available primary (some []), w)
    fallbacks available primary (ep ∷ remaining) w =
        let (ordered, w') =
          weighted_random_order env same (map (λ x. x.detail) (ep ∷ remaining)) w in
        elim ordered [
          | err e ↦ (err e, w')
          | ok ds ↦ (with_fallback encode q available primary (endpoints_of available ds), w')
        ]

    unfoldable pub choose : List ModelEndpoint → W → Result RouteResult × W
    unfolding weighted_random_select fallbacks
    choose available w =
        let (r, w') = weighted_random_select env (map (λ x. x.detail) available) w in
        elim r [
          | err e ↦ (err e, w')
          | ok d ↦ elim (find (λ ep. ep.detail.model_id == d.model_id) available) [
            | none ↦ (no_match, w')
            | some primary ↦
                fallbacks available primary
                  (keep (λ ep. not (ep.detail.model_id == d.model_id)) available) w'
          ]
        ]

    unfoldable pub random_weights : Shared W → Result RouteResult × Shared W
    unfolding candidates choose
    random_weights s =
        let (r, s') = candidates env group_id (load_endpoints group_id s) in
        elim r [
          | err e ↦ (err e, s')
          | ok available ↦
              let (result, w) = choose available s'.world in (result, record s' { world = w })
        ]
