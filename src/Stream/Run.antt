-- ===== src/Stream/Run.antt =====
-- The generator `_run_stream_fast`: its start, its resumption and its closing.
use openbotflow.Prelude.{ℕ, zero, suc, max, false, true, Option, none, some, List, [], ◌∷◌}
use openbotflow.Prelude.Int.{ℤ}
use openbotflow.Json.{Fields}
use openbotflow.Errors.{Attempt}
use openbotflow.Models.{ModelEndpoint, ModelGroup, RouteResult}
use openbotflow.Runtime.{Shared, ChatCall, Env}
use openbotflow.Engine.{resolve_temperature}
use openbotflow.Stream.{
  Streams, Event, state_event, stop_iteration, Position, at_start, streaming, closing, at_end,
  first_chunk, after_attempts, after_next, advance, close_stream,
}

-- The arguments of the stream.
pub record StreamRequest : Type 0 where
  pub group : ModelGroup
  pub temperature : Option ℤ
  pub max_tokens : Option ℕ
  pub extra : Fields
  pub preselected : RouteResult

-- provider.chat_stream(messages=..., model=..., ...)
unfoldable pub stream_call : StreamRequest → ModelEndpoint → ChatCall
unfolding resolve_temperature
stream_call q ep = record {
  provider = ep.provider;
  model = ep.detail.model_name;
  messages = q.preselected.messages;
  temperature = resolve_temperature q.temperature ep;
  max_tokens = q.max_tokens;
  kwargs = q.extra;
}

module _ {W : Type 0} (env : Env W) (streams : Streams W) (q : StreamRequest) where
  -- for ep in preselected.endpoints
  unfoldable pub walk_endpoints :
      List ModelEndpoint
      → List Attempt
      → Option ℕ
      → Option ℕ
      → Shared W
      → Event × Position × Shared W
  unfolding first_chunk after_attempts stream_call
  walk_endpoints [] attempts model_id provider_id s = (
    state_event (record {
      is_ok = false;
      stream_started = false;
      recoverable = true;
      used_model_id = model_id;
      used_provider_id = provider_id;
      attempts = attempts;
    }),
    at_end,
    s,
  )
  walk_endpoints (ep ∷ eps) attempts model_id provider_id s =
      after_attempts env streams q.group.id ep
        (first_chunk env streams q.group.id ep (stream_call q ep) (max ep.detail.max_retries 1) 0
          attempts s)
        (λ attempts' s'.
          walk_endpoints eps attempts' (some ep.detail.model_id) (some ep.detail.provider_id) s')

  -- What the consumer's `__anext__` makes of the generator.
  unfoldable pub resume : Position → Shared W → Event × Position × Shared W
  unfolding walk_endpoints after_next advance close_stream
  resume at_start s = walk_endpoints q.preselected.endpoints [] none none s
  resume (streaming ep attempts st) s =
      after_next env streams ep attempts (advance env streams st s)
  resume (closing st) s = (stop_iteration, at_end, (close_stream env streams st s).1)
  resume at_end s = (stop_iteration, at_end, s)

  -- The consumer's `aclose()`, or its cancellation: the `finally` block runs.
  unfoldable pub quit : Position → Shared W → Position × Shared W
  unfolding close_stream
  quit (streaming ep attempts st) s = (at_end, (close_stream env streams st s).1)
  quit (closing st) s = (at_end, (close_stream env streams st s).1)
  quit _ s = (at_end, s)

  -- A consumer that takes so many events and then closes.
  unfoldable pub consume : ℕ → Position → Shared W → List Event × Shared W
  unfolding resume quit
  consume zero position s = ([], (quit position s).1)
  consume (suc n) position s =
      let (event, position', s') = resume position s in
      let (events, t) = consume n position' s' in (event ∷ events, t)
