-- ===== src/Engine/Graph.antt =====
-- The non-streaming nodes, the edges and the graph of langgraph_engine.py, and `_run_one`.
use openbotflow.Prelude.{
  ℕ, zero, suc, ◌+◌, String, true, false, Option, none, some, List, [], ◌∷◌, ◌++◌, if◌then◌else◌,
  or_else, is_empty, get_elem?, length, is_some, ◌==◌, string_key,
}
use openbotflow.Prelude.Int.{ℤ}
use openbotflow.Json.{Fields}
use openbotflow.Errors.{Attempt, Error, is_group_failure, Result, ok, err}
use openbotflow.Models.{Message, ModelEndpoint, ModelGroup, Response, RouteResult}
use openbotflow.Runtime.{Shared, Env}
use openbotflow.Engine.{
  RouteError, exception, message, RouteValue, response, error_body, RouteState, RunResult,
  initial_state, timed_call, call_attempt, error_message, routing_error, default_error, Select,
}

-- The message of `finalize_error`.
abbrev pub final_message : Option RouteError → String
final_message none = "Routing failed"
final_message (some (exception e)) = e.message
final_message (some (message m)) = if m == "" then "Routing failed" else m

unfoldable pub finalize_error : RouteState → RouteState
finalize_error state = record state { result = some (error_body (final_message state.error)) }

pub data AfterSelect : Type 0 where
  to_call to_stream to_error : AfterSelect

unfoldable pub route_after_select : RouteState → AfterSelect
route_after_select state =
    if is_some state.error then to_error else if state.stream then to_stream else to_call

-- An outcome of `_run_one`: a response goes on with its attempts, anything else is raised.
abbrev pub run_value : Option RouteValue → Option Response
run_value (some (response r)) = some r
run_value _ = none

unfoldable pub outcome_of : RouteState → Result RunResult
unfolding routing_error error_message
outcome_of final =
    let failure =
      routing_error final.error (default_error final.error) final.attempts final.used_model_id
        final.used_provider_id in
    elim final.error [
      | some e ↦ err failure
      | none ↦ elim (run_value final.result) [
        | some r ↦ ok (record { body = r.body; routing = r.routing; attempts = final.attempts })
        | none ↦ err failure
      ]
    ]

-- The exits of `try_call`.
abbrev pub call_succeeded : RouteState → List Attempt → Response → RouteState
call_succeeded state attempts r = record state {
  result = some (response r);
  error = none;
  recoverable = some false;
  used_model_id = elim r.routing [ none ↦ none | some at ↦ some at.model_id ];
  used_provider_id = elim r.routing [ none ↦ none | some at ↦ some at.provider_id ];
  endpoints = [];
  current_ep_idx = 0;
  attempts = attempts;
}

abbrev pub call_failed : RouteState → List Attempt → Option ℕ → Option ℕ → RouteState
call_failed state attempts model_id provider_id =
    let left = record state {
      endpoints = [];
      current_ep_idx = 0;
      attempts = attempts;
      used_model_id = model_id;
      used_provider_id = provider_id;
    } in
    elim state.error [
      | some e ↦ record left { recoverable = some (or_else state.recoverable true) }
      | none ↦ record left {
        error = some (message "All endpoints in group failed");
        recoverable = some true;
      }
    ]

-- The edges behind `try_call`.
unfoldable pub after_call : {W : Type 0} → RouteState × Shared W → RouteState × Shared W
unfolding finalize_error
after_call (state, s) = elim state.result [ some r ↦ (state, s) | none ↦ (finalize_error state, s) ]

-- Behind one endpoint's call: return its response, or note the failure and go on.
unfoldable pub after_endpoint :
    {W : Type 0}
    → RouteState
    → ℕ
    → List Attempt
    → ModelEndpoint
    → (Option Response × Option Error × ℕ) × Shared W
    → (List Attempt → Shared W → RouteState × Shared W)
    → RouteState × Shared W
after_endpoint state idx attempts ep ((some r, e, ms), s) again =
    (call_succeeded state attempts r, s)
after_endpoint state idx attempts ep ((none, e, ms), s) again =
    again (attempts ++ call_attempt state.group.id idx ep e ms ∷ []) s

module _ {W : Type 0} (env : Env W) where
  -- while idx < len(endpoints), by the rounds that are left at most
  unfoldable pub try_call_from :
      RouteState
      → (fuel idx : ℕ) → List Attempt
      → Option ℕ
      → Option ℕ
      → Shared W
      → RouteState × Shared W
  unfolding timed_call after_endpoint
  try_call_from state zero idx attempts model_id provider_id s =
      (call_failed state attempts model_id provider_id, s)
  try_call_from state (suc fuel) idx attempts model_id provider_id s =
      elim (get_elem? state.endpoints idx) [
        | none ↦ (call_failed state attempts model_id provider_id, s)
        | some ep ↦
            after_endpoint state idx attempts ep
              (timed_call env ep state.truncated_messages state.group.id state.temperature
                state.max_tokens state.extra_kwargs s)
              (λ attempts' s'.
                try_call_from state fuel (idx + 1) attempts' (some ep.detail.model_id)
                  (some ep.detail.provider_id) s')
      ]

  unfoldable pub try_call : RouteState → Shared W → RouteState × Shared W
  unfolding try_call_from
  try_call state s =
      try_call_from state (length state.endpoints) state.current_ep_idx state.attempts
        state.used_model_id state.used_provider_id s

module _ {W : Type 0} (select : Select W) where
  -- The node: skipped when the endpoints are there already.
  unfoldable pub select_endpoints : RouteState → Shared W → RouteState × Shared W
  unfolding is_group_failure
  select_endpoints state s =
      let (r, s') =
        select state.group state.messages state.temperature state.max_tokens state.extra_kwargs s in
      if is_empty state.endpoints
      then elim r [
        | ok chosen ↦ (
          record state {
            endpoints = chosen.endpoints;
            current_ep_idx = 0;
            truncated_messages = chosen.messages;
            attempt = 0;
          },
          s',
        )
        | err e ↦ (
          record state { error = some (exception e); recoverable = some (is_group_failure e.kind) },
          s',
        )
      ]
      else (state, s)

module _ {W : Type 0} (env : Env W) (select : Select W) where
  unfoldable pub run_graph :
      (RouteState → Shared W → RouteState × Shared W)
      → RouteState
      → Shared W
      → RouteState × Shared W
  unfolding select_endpoints try_call after_call route_after_select
  run_graph try_stream state s =
      let (state', s') = select_endpoints select state s in
      elim (route_after_select state') [
        | to_call ↦ after_call (try_call env state' s')
        | to_stream ↦ try_stream state' s'
        | to_error ↦ (finalize_error state', s')
      ]

  -- `_run_one`; the chat graph never reaches the stream node.
  unfoldable pub run_one :
      ModelGroup
      → List Message
      → Option ℤ
      → Option ℕ
      → Fields
      → Option RouteResult
      → Shared W
      → Result RunResult × Shared W
  unfolding run_graph initial_state outcome_of
  run_one group messages temperature max_tokens extra preselected s =
      let initial = initial_state group messages false temperature max_tokens extra preselected in
      let (final, s') = run_graph (λ state s. (state, s)) initial s in (outcome_of final, s')
