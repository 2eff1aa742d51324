-- ===== src/Tests/Selection.antt =====
-- The strategies on two and three endpoints.
use mathlib.Core.List.{Perm}
use Prim.Native.String.{len}
use openbotflow.Prelude.{
  ℕ, ◌<◌, ◌≡◌, refl, Bool, none, some, List, [], ◌∷◌, arith, nat_key, ◌==◌, same_nat_iff, get_elem?,
  keep, ltb, ◌%◌, or_else, length,
}
use openbotflow.Prelude.Assoc.{get}
use openbotflow.Prelude.Int.{pos, pos_part}
use openbotflow.Json.{end}
use openbotflow.Errors.{no_available_model, raise, Result, ok, err}
use openbotflow.Models.{GroupModelWithDetails, ModelEndpoint, RouteResult}
use openbotflow.Runtime.{Shared}
use openbotflow.Strategies.{weighted_random_order, sort, candidates}
use openbotflow.Strategies.Select.{Request, sequential, round_robin, random_weights}
use openbotflow.Strategies.Laws.{IsDescending, sequential-IsDescending, round_robin-Perm}
use openbotflow.Strategies.Rounds.{rounds, firsts, round_robin-fair, rounds-turns, turns}
use openbotflow.Strategies.Weighted.{IsEquality, ids, weighted_random_order-Perm}
use openbotflow.Tests.Routing.{World, sim, start, detail}

abbrev weighing : ℕ → ℕ → ModelEndpoint
weighing model weight = record {
  detail = record (detail model) { weight = pos weight };
  provider = 70;
}

abbrev load : List ModelEndpoint → ℕ → Shared World → Result (List ModelEndpoint) × Shared World
load eps id s = (ok eps, s)

abbrev trio : List ModelEndpoint
trio = weighing 1 1 ∷ weighing 2 5 ∷ weighing 3 2 ∷ []

abbrev ask : Request
ask = record { messages = []; temperature = none; max_tokens = none; kwargs = end }

found : candidates sim 1 (load trio 1 (start [])) ≡ (ok trio, start [])
unfolding candidates
found = refl

sequential-IsDescending_example :
    (r : RouteResult) × (sequential sim len (load trio) 1 ask (start []) ≡ (ok r, start []))
    × Perm r.endpoints trio
    × IsDescending r.endpoints
sequential-IsDescending_example =
    sequential-IsDescending sim len (load trio) 1 ask (start []) (start []) trio found

abbrev counters : List (ℕ × ℕ)
counters = (1, 4) ∷ []

round_robin-Perm_example :
    (r : RouteResult) × ((round_robin sim len (load trio) 1 ask counters (start [])).0 ≡ ok r)
    × Perm r.endpoints trio
    × (get_elem? r.endpoints 0 ≡ get_elem? (sort trio) (or_else (get 1 counters) 0 % length trio))
round_robin-Perm_example =
    round_robin-Perm sim len (load trio) 1 ask (start []) (start []) trio found counters

abbrev same : GroupModelWithDetails → GroupModelWithDetails → Bool
same a b = a.model_id == b.model_id

same-IsEquality : IsEquality same
same-IsEquality = record {
  same_self = λ m. (same_nat_iff m.model_id m.model_id).1 refl;
  same_model = λ m n e. (same_nat_iff m.model_id n.model_id).0 e;
}

abbrev pair : List GroupModelWithDetails
pair = (weighing 1 3).detail ∷ (weighing 2 0).detail ∷ []

weighted_random_order-Perm_example :
    (ds : List GroupModelWithDetails) × ((weighted_random_order sim same pair (start []).world).0
      ≡ ok ds)
    × Perm (ids ds) (ids (keep (λ m. ltb 0 (pos_part m.weight)) pair))
weighted_random_order-Perm_example =
    weighted_random_order-Perm sim same pair (start []).world same-IsEquality (omega arith)

round_robin-fair_example :
    (j : ℕ) × (j < 3)
    × (get_elem? (firsts sim len (load trio) 1 ask 3 counters (start [])) j
        ≡ some (some (weighing 3 2)))
unfolding sort
round_robin-fair_example =
    round_robin-fair sim len (load trio) 1 ask (start []) trio found counters 1 (weighing 3 2) refl

rounds-turns_example : rounds 4 1 3 ((1, 2999) ∷ []) ≡ turns 4 2999 3
unfolding get
rounds-turns_example = rounds-turns 4 1 3 ((1, 2999) ∷ [])

-- A model of positive weight is available, and the request still fails: the only other one weighs 0.
weightless :
    (random_weights sim len (load (weighing 1 3 ∷ weighing 2 0 ∷ [])) 1 ask same (start [])).0
    ≡ err (raise no_available_model "No available models (total weight is 0 or negative)")
unfolding random_weights
weightless = refl
