-- ===== src/Strategies.antt =====
-- pipeline/strategies.py, `filter_available` of pipeline/_shared.py and the weighted choice of
-- router.py. The endpoints of a group, the tokenizer and the equality of two rows are arguments.
-- The numbers inside the errors' messages are left out.
pub mod Select
pub mod Laws
pub mod Rounds
pub mod Served
pub mod Weighted
use openbotflow.Prelude.{
  ℕ, zero, suc, ◌+◌, ◌*◌, ◌%◌, String, Bool, true, false, not, ◌&&◌, Option, none, some, List, [],
  ◌∷◌, ◌++◌, map, ltb, ◌==◌, nat_key, if◌then◌else◌, or_else, length, get_elem?, keep, find,
}
use openbotflow.Prelude.Assoc.{get, put}
use openbotflow.Prelude.Int.{ℤ, pos_part, ltb_ℤ}
use openbotflow.Json.{Fields}
use openbotflow.Errors.{
  no_available_model, all_models_cooldown, other_error, raise, Result, ok, err,
}
use openbotflow.Models.{GroupModelWithDetails, Message, ModelEndpoint, RouteResult}
use openbotflow.Cooldown.{reads_clock, is_on_cooldown}
use openbotflow.Runtime.{Shared, Env}
use openbotflow.Context.{truncate_messages}

-- available.sort(key=lambda ep: ep.detail.weight, reverse=True), which is stable
unfoldable pub insert : ModelEndpoint → List ModelEndpoint → List ModelEndpoint
insert ep [] = ep ∷ []
insert ep (x ∷ xs) =
    let rest = insert ep xs in
    if ltb_ℤ ep.detail.weight x.detail.weight then x ∷ rest else ep ∷ x ∷ xs

unfoldable pub sort : List ModelEndpoint → List ModelEndpoint
unfolding insert
sort [] = []
sort (ep ∷ eps) = insert ep (sort eps)

-- The sum of the positive weights.
unfoldable pub total_weight : List GroupModelWithDetails → ℕ
total_weight [] = 0
total_weight (m ∷ models) = pos_part m.weight + total_weight models

-- The first model at which the cumulative weight exceeds the draw.
unfoldable pub pick : (r cumulative : ℕ) → List GroupModelWithDetails → Option GroupModelWithDetails
pick r cumulative [] = none
pick r cumulative (m ∷ models) =
    let later = pick r (cumulative + pos_part m.weight) models in
    if ltb 0 (pos_part m.weight) && ltb r (cumulative + pos_part m.weight) then some m else later

-- models[-1]
abbrev pub last : GroupModelWithDetails → List GroupModelWithDetails → GroupModelWithDetails
last m [] = m
last m (n ∷ models) = last n models

abbrev pub no_weight : {A : Type 0} → Result A
no_weight = err (raise no_available_model "No available models (total weight is 0 or negative)")

-- remaining.remove(selected)
unfoldable pub remove_model :
    (GroupModelWithDetails → GroupModelWithDetails → Bool)
    → GroupModelWithDetails
    → List GroupModelWithDetails
    → List GroupModelWithDetails
remove_model same m [] = []
remove_model same m (n ∷ models) =
    let rest = remove_model same m models in if same n m then models else n ∷ rest

-- [next(ep for ep in available if ep.model_id == d.model_id) for d in ordered]
unfoldable pub endpoints_of :
    List ModelEndpoint → List GroupModelWithDetails → Option (List ModelEndpoint)
endpoints_of available [] = some []
endpoints_of available (d ∷ ds) =
    let rest = endpoints_of available ds in
    elim (find (λ ep. ep.detail.model_id == d.model_id) available) [
      | none ↦ none
      | some ep ↦ elim rest [ none ↦ none | some eps ↦ some (ep ∷ eps) ]
    ]

-- What `next` without a match turns into inside a coroutine.
abbrev pub no_match : {A : Type 0} → Result A
no_match = err (raise (other_error "RuntimeError") "coroutine raised StopIteration")

-- Behind one draw of the weighted order.
unfoldable pub after_draw : {A B S : Type 0} → Result A × S → (A → S → Result B × S) → Result B × S
after_draw (err e, s) next = (err e, s)
after_draw (ok a, s) next = next a s

-- Are there any that are not cooling down?
unfoldable pub some_available :
    {S : Type 0} → List ModelEndpoint × S → Result (List ModelEndpoint) × S
some_available ([], s) = (err (raise all_models_cooldown "Group: all models on cooldown"), s)
some_available (ep ∷ eps, s) = (ok (ep ∷ eps), s)

module _ {W : Type 0} (env : Env W) where
  unfoldable pub filter_available :
      ℕ → List ModelEndpoint → Shared W → List ModelEndpoint × Shared W
  unfolding reads_clock is_on_cooldown
  filter_available group_id [] s = ([], s)
  filter_available group_id (ep ∷ eps) s =
      let (now, w) =
        if reads_clock group_id ep.detail.model_id s.cooldown
        then env.monotonic s.world
        else (0, s.world) in
      let (busy, states) = is_on_cooldown group_id ep.detail.model_id now s.cooldown in
      let (rest, s') = filter_available group_id eps (record s { cooldown = states; world = w }) in
      (if busy then rest else ep ∷ rest, s')

  unfoldable pub weighted_random_select :
      List GroupModelWithDetails → W → Result GroupModelWithDetails × W
  unfolding total_weight pick
  weighted_random_select [] w = (no_weight, w)
  weighted_random_select (m ∷ models) w =
      let (r, w') = env.uniform (total_weight (m ∷ models)) w in
      if total_weight (m ∷ models) == 0
      then (no_weight, w)
      else (ok (or_else (pick r 0 (m ∷ models)) (last m models)), w')

  -- What follows the first load: both early errors, and the endpoints that are not cooling down.
  unfoldable pub candidates :
      ℕ → Result (List ModelEndpoint) × Shared W → Result (List ModelEndpoint) × Shared W
  unfolding filter_available some_available
  candidates group_id (err e, s) = (err e, s)
  candidates group_id (ok [], s) = (err (raise no_available_model "Group has no enabled models"), s)
  candidates group_id (ok (ep ∷ eps), s) = some_available (filter_available group_id (ep ∷ eps) s)

  module _ (same : GroupModelWithDetails → GroupModelWithDetails → Bool) where
    -- while remaining: ..., by the rounds that are left at most
    unfoldable pub draw_all :
        ℕ
        → List GroupModelWithDetails
        → List GroupModelWithDetails
        → W
        → Result (List GroupModelWithDetails) × W
    unfolding weighted_random_select remove_model after_draw
    draw_all fuel [] ordered w = (ok ordered, w)
    draw_all zero (m ∷ remaining) ordered w = (no_weight, w)
    draw_all (suc fuel) (m ∷ remaining) ordered w =
        after_draw (weighted_random_select (m ∷ remaining) w)
          (λ d w'. draw_all fuel (remove_model same d (m ∷ remaining)) (ordered ++ d ∷ []) w')

    unfoldable pub order_remaining :
        List GroupModelWithDetails → W → Result (List GroupModelWithDetails) × W
    unfolding draw_all
    order_remaining [] w = (no_weight, w)
    order_remaining (m ∷ remaining) w = draw_all (length (m ∷ remaining)) (m ∷ remaining) [] w

    unfoldable pub weighted_random_order :
        List GroupModelWithDetails → W → Result (List GroupModelWithDetails) × W
    unfolding order_remaining
    weighted_random_order models w =
        order_remaining (keep (λ m. ltb 0 (pos_part m.weight)) models) w
