-- ===== src/Engine/Fast.antt =====
-- `_run_one_fast` of langgraph_engine.py: the walk over a queue that is already selected.
use openbotflow.Prelude.{ℕ, ◌+◌, Option, none, some, List, [], ◌∷◌, ◌++◌}
use openbotflow.Prelude.Int.{ℤ}
use openbotflow.Json.{Fields}
use openbotflow.Errors.{Attempt, Error, provider_error, raise, Result, ok, err}
use openbotflow.Models.{Message, ModelEndpoint, ModelGroup, Response, RouteResult}
use openbotflow.Runtime.{Shared, Env}
use openbotflow.Engine.{RunResult, timed_call, call_attempt}

-- ProviderError("All endpoints in group failed") with its trail.
abbrev pub group_failure : List Attempt → Option ℕ → Option ℕ → Error
group_failure attempts model_id provider_id =
    record (raise provider_error "All endpoints in group failed") {
      attempts = attempts;
      used_model_id = model_id;
      used_provider_id = provider_id;
    }

-- Behind one endpoint's call: return its response with the trail, or note the failure and go on.
unfoldable pub after_walk :
    {W : Type 0}
    → ModelGroup
    → ℕ
    → List Attempt
    → ModelEndpoint
    → (Option Response × Option Error × ℕ) × Shared W
    → (List Attempt → Shared W → Result RunResult × Shared W)
    → Result RunResult × Shared W
after_walk group idx attempts ep ((some r, e, ms), s) again =
    (ok (record { body = r.body; routing = r.routing; attempts = attempts }), s)
after_walk group idx attempts ep ((none, e, ms), s) again =
    again (attempts ++ call_attempt group.id idx ep e ms ∷ []) s

module _ {W : Type 0} (env : Env W) where
  -- for idx, ep in enumerate(endpoints)
  unfoldable pub walk :
      ModelGroup
      → List Message
      → Option ℤ
      → Option ℕ
      → Fields
      → ℕ
      → List ModelEndpoint
      → List Attempt
      → Option ℕ
      → Option ℕ
      → Shared W
      → Result RunResult × Shared W
  unfolding timed_call after_walk
  walk group truncated temperature max_tokens extra idx [] attempts model_id provider_id s =
      (err (group_failure attempts model_id provider_id), s)
  walk group truncated temperature max_tokens extra idx (ep ∷ eps) attempts model_id provider_id s =
      after_walk group idx attempts ep
        (timed_call env ep truncated group.id temperature max_tokens extra s)
        (λ attempts' s'.
          walk group truncated temperature max_tokens extra (idx + 1) eps attempts'
            (some ep.detail.model_id) (some ep.detail.provider_id) s')

  unfoldable pub run_one_fast :
      ModelGroup
      → Option ℤ
      → Option ℕ
      → Fields
      → RouteResult
      → Shared W
      → Result RunResult × Shared W
  unfolding walk
  run_one_fast group temperature max_tokens extra preselected s =
      walk group preselected.messages temperature max_tokens extra 0 preselected.endpoints [] none
        none s
