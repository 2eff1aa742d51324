-- ===== src/Engine.antt =====
-- pipeline/langgraph_engine.py: the state of a route and what the graph nodes and the direct paths
-- share. The nodes and the graph are in Graph, the direct path in Fast.
pub mod Graph
pub mod Fast
pub mod Run
pub mod Equivalence
use openbotflow.Prelude.{
  ℕ, zero, suc, ◌+◌, ◌-◌, ◌/◌, String, Bool, true, false, ◌||◌, Option, none, some, List, [], ◌∷◌,
  ◌==◌, string_key, if◌then◌else◌, is_some,
}
use openbotflow.Prelude.Int.{ℤ, pos}
use openbotflow.Json.{num, Fields, get_field}
use openbotflow.Errors.{
  Attempt, Error, ErrorType, provider_error, raise, type_name, is_botflow_error, Result,
}
use openbotflow.Models.{Message, ModelEndpoint, ModelGroup, Response, Routing, RouteResult}
use openbotflow.Runtime.{Shared, Env}
use openbotflow.Call.{call_llm}

-- `state["error"]`: the exception itself, or a message.
pub data RouteError : Type 0 where
  exception : Error → RouteError
  message : String → RouteError

-- `state["result"]`: a response, the error body of `finalize_error`, or {"stream": "ok"}.
pub data RouteValue : Type 0 where
  response : Response → RouteValue
  error_body : String → RouteValue
  stream_ok : RouteValue

-- `RouteState`; a key that may be missing is an option.
pub record RouteState : Type 0 where
  pub messages : List Message
  pub temperature : Option ℤ
  pub max_tokens : Option ℕ
  pub extra_kwargs : Fields
  pub group : ModelGroup
  pub endpoints : List ModelEndpoint
  pub current_ep_idx : ℕ
  pub truncated_messages : List Message
  pub attempt : ℕ
  pub fallback_group_id : Option ℕ
  pub fallback_depth : ℕ
  pub visited_groups : List ℕ
  pub result : Option RouteValue
  pub recoverable : Option Bool
  pub error : Option RouteError
  pub used_model_id : Option ℕ
  pub used_provider_id : Option ℕ
  pub attempts : List Attempt
  pub stream : Bool
  pub stream_started : Bool

-- What one run of a group returns: the response with `_attempts` beside it.
pub record RunResult : Type 0 where
  pub body : Fields
  pub routing : Option Routing
  pub attempts : List Attempt

abbrev pub ids : Option RouteResult → List ModelEndpoint
ids none = []
ids (some r) = r.endpoints

abbrev pub prepared : Option RouteResult → List Message
prepared none = []
prepared (some r) = r.messages

unfoldable pub initial_state :
    ModelGroup
    → List Message
    → Bool
    → Option ℤ
    → Option ℕ
    → Fields
    → Option RouteResult
    → RouteState
initial_state group messages stream temperature max_tokens extra preselected = record {
  messages = messages;
  temperature = temperature;
  max_tokens = max_tokens;
  extra_kwargs = extra;
  group = group;
  endpoints = ids preselected;
  current_ep_idx = 0;
  truncated_messages = prepared preselected;
  attempt = 0;
  fallback_group_id = group.fallback_group_id;
  fallback_depth = 0;
  visited_groups = group.id ∷ [];
  result = none;
  recoverable = none;
  error = none;
  used_model_id = none;
  used_provider_id = none;
  attempts = [];
  stream = stream;
  stream_started = false;
}

-- The request's temperature, or the model's own if that is a number (a bool is none).
unfoldable pub resolve_temperature : Option ℤ → ModelEndpoint → Option ℤ
unfolding get_field
resolve_temperature (some t) ep = some t
resolve_temperature none ep = elim (get_field "temperature" ep.detail.extra_config) [
  | some (num t) ↦ some t
  | _ ↦ none
]

abbrev pub duration_ms : ℕ → ℕ → ℕ
duration_ms t0 t1 = (t1 - t0) / 1000

abbrev pub error_type_of : Option Error → String
error_type_of none = "UnknownError"
error_type_of (some e) = type_name e.kind

abbrev pub error_text_of : Option Error → String
error_text_of none = "All retries exhausted"
error_text_of (some e) = e.message

-- The audit row of a failed endpoint.
abbrev pub call_attempt : ℕ → ℕ → ModelEndpoint → Option Error → ℕ → Attempt
call_attempt group_id idx ep e duration = record {
  group_id = group_id;
  model_id = some ep.detail.model_id;
  provider_id = some ep.detail.provider_id;
  stage = "call";
  endpoint_idx = pos idx;
  attempt_no = ep.detail.max_retries;
  error_type = error_type_of e;
  error_message = error_text_of e;
  duration_ms = duration;
}

abbrev pub or_no_result : String → String
or_no_result m = if m == "" then "no result" else m

unfoldable pub error_message : Option RouteError → String
error_message none = "no result"
error_message (some (exception e)) = or_no_result e.message
error_message (some (message m)) = or_no_result m

abbrev pub smuggle : Error → List Attempt → Option ℕ → Option ℕ → Error
smuggle e attempts model_id provider_id =
    if is_some model_id || is_some provider_id
    then record e { attempts = attempts; used_model_id = model_id; used_provider_id = provider_id }
    else record e { attempts = attempts }

-- The exception that a failed route raises: the original one if it is one of ours.
unfoldable pub routing_error :
    Option RouteError → Error → List Attempt → Option ℕ → Option ℕ → Error
unfolding is_botflow_error
routing_error (some (exception e)) default attempts model_id provider_id =
    smuggle (if is_botflow_error e.kind then e else default) attempts model_id provider_id
routing_error _ default attempts model_id provider_id =
    smuggle default attempts model_id provider_id

abbrev pub default_error : Option RouteError → Error
default_error raw = raise provider_error (error_message raw)

-- `_select_endpoints`: load, filter, order and truncate, by the group's strategy.
abbrev pub Select : Type 0 → Type 0
Select W =
    ModelGroup
    → List Message
    → Option ℤ
    → Option ℕ
    → Fields
    → Shared W
    → Result RouteResult × Shared W

-- One endpoint's call, with the time that it took: what it answers, and the milliseconds.
module _ {W : Type 0} (env : Env W) where
  unfoldable pub timed_call :
      ModelEndpoint
      → List Message
      → ℕ
      → Option ℤ
      → Option ℕ
      → Fields
      → Shared W
      → (Option Response × Option Error × ℕ) × Shared W
  unfolding resolve_temperature
  timed_call ep truncated group_id temperature max_tokens extra s =
      let (t0, w) = env.monotonic s.world in
      let ((resp, e), s') =
        call_llm env ep truncated group_id (resolve_temperature temperature ep) max_tokens extra
          (record s { world = w }) in
      let (t1, w') = env.monotonic s'.world in
      ((resp, e, duration_ms t0 t1), record s' { world = w' })
