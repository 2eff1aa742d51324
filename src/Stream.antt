-- ===== src/Stream.antt =====
-- The streaming path: `semaphore_guarded_stream` of pipeline/_shared.py, and the direct streaming path
-- `_run_stream_fast` of langgraph_engine.py, as a generator that its consumer resumes or closes.
pub mod Run
pub mod Permits
pub mod Protocol
pub mod Laws
use Prim.Native.String
use openbotflow.Prelude.{
  ℕ, zero, suc, ◌+◌, max, String, Bool, true, false, ◌&&◌, ◌||◌, Option, none, some, List, [], ◌∷◌,
  ◌++◌, ltb, if◌then◌else◌,
}
use openbotflow.Prelude.Int.{ℤ, pos}
use openbotflow.Json.{Json, Fields}
use openbotflow.Errors.{Attempt, Error, ErrorType, timeout_error, type_name}
use openbotflow.Models.{Message, ModelEndpoint, ModelGroup, RouteResult}
use openbotflow.Cooldown.{record_success, record_failure}
use openbotflow.Retry.{is_retryable_error}
use openbotflow.Runtime.{Shared, ChatCall, Env}
use openbotflow.Call.{ensure_provider_semaphore, acquire, release, exponential_backoff}
use openbotflow.Engine.{resolve_temperature}

-- What `__anext__` of a generator does: a chunk, StopAsyncIteration, or another exception.
pub data Step : Type 0 where
  chunk : Json → Step
  finished : Step
  failed : Error → Step

-- The provider's generators, known by their identities, and the client's connection.
pub record Streams (W : Type 0) : Type 0 where
  -- provider.chat_stream(...), which starts nothing yet
  pub chat_stream : ChatCall → W → ℕ × W
  -- gen.__anext__(), awaited
  pub next : ℕ → Shared W → Step × Shared W
  -- gen.aclose(), awaited
  pub close : ℕ → Shared W → Shared W
  -- request.is_disconnected(), false where there is no request
  pub is_disconnected : Shared W → Bool × Shared W

-- The generator that `semaphore_guarded_stream` returns: the provider's own where there is no
-- semaphore, else `_guarded()`, which holds a permit between its first chunk and its end.
pub record Stream : Type 0 where
  pub inner : ℕ
  pub sem : Option ℕ
  pub permit : Option ℕ

abbrev pub is_timeout : ErrorType → Bool
is_timeout timeout_error = true
is_timeout _ = false

abbrev pub stream_attempt : ℕ → ModelEndpoint → ℕ → String → String → Attempt
stream_attempt group_id ep attempt error_type text = record {
  group_id = group_id;
  model_id = some ep.detail.model_id;
  provider_id = some ep.detail.provider_id;
  stage = "stream";
  endpoint_idx = pos 0;
  attempt_no = attempt + 1;
  error_type = error_type;
  error_message = text;
  duration_ms = 0;
}

abbrev pub failed_attempt : ℕ → ModelEndpoint → ℕ → Error → Attempt
failed_attempt group_id ep attempt e = stream_attempt group_id ep attempt (type_name e.kind) (
    if is_timeout e.kind
    then String.◌++◌ ep.detail.model_name " timed out waiting for first chunk"
    else e.message)

-- The state that ends the events.
pub record FinalState : Type 0 where
  pub is_ok : Bool
  pub stream_started : Bool
  pub recoverable : Bool
  pub used_model_id : Option ℕ
  pub used_provider_id : Option ℕ
  pub attempts : List Attempt

abbrev pub committed : Bool → ModelEndpoint → List Attempt → FinalState
committed is_ok ep attempts = record {
  is_ok = is_ok;
  stream_started = true;
  recoverable = false;
  used_model_id = some ep.detail.model_id;
  used_provider_id = some ep.detail.provider_id;
  attempts = attempts;
}

pub data Event : Type 0 where
  chunk_event : Json → Event
  state_event : FinalState → Event
  stop_iteration : Event

-- Where the generator is suspended.
pub data Position : Type 0 where
  at_start : Position
  streaming : ModelEndpoint → List Attempt → Stream → Position
  closing : Stream → Position
  at_end : Position

module _ {W : Type 0} (env : Env W) (streams : Streams W) where
  unfoldable pub semaphore_guarded_stream : ℕ → ℕ → Shared W → Stream × Shared W
  unfolding ensure_provider_semaphore
  semaphore_guarded_stream gen provider_id s =
      let (sem, table) =
        ensure_provider_semaphore provider_id (env.semaphore_size s.world) s.semaphores in
      (record { inner = gen; sem = sem; permit = none }, record s { semaphores = table })

  -- The `finally` of `_guarded()`.
  unfoldable pub leave : Stream → Shared W → Shared W
  unfolding release
  leave st s = elim st.sem [ none ↦ s | some id ↦ streams.close st.inner (release env (some id) s) ]

  unfoldable pub after_step : Stream → Step × Shared W → Step × Stream × Shared W
  unfolding leave
  after_step st (chunk c, s) = (chunk c, record st { permit = st.sem }, s)
  after_step st (finished, s) = (finished, record st { permit = none }, leave st s)
  after_step st (failed e, s) = (failed e, record st { permit = none }, leave st s)

  -- __anext__ of the guarded stream
  unfoldable pub advance : Stream → Shared W → Step × Stream × Shared W
  unfolding after_step acquire
  advance st s = elim st.permit [
    | some id ↦ after_step st (streams.next st.inner s)
    | none ↦ after_step st (streams.next st.inner (acquire env st.sem s))
  ]

  -- aclose() of the guarded stream
  unfoldable pub close_stream : Stream → Shared W → Stream × Shared W
  unfolding leave
  close_stream st s = elim st.sem [
    | none ↦ (st, streams.close st.inner s)
    | some id ↦ elim st.permit [
      | none ↦ (st, s)
      | some held ↦ (record st { permit = none }, leave st s)
    ]
  ]

  -- Behind one attempt at the first chunk.
  unfoldable pub after_first :
      ℕ
      → ModelEndpoint
      → (attempt left : ℕ) → List Attempt
      → Step × Stream × Shared W
      → (List Attempt → Shared W → (Option (Json × Stream) × List Attempt) × Shared W)
      → (Option (Json × Stream) × List Attempt) × Shared W
  unfolding close_stream exponential_backoff
  after_first group_id ep attempt left attempts (chunk c, st, s) again =
      ((some (c, st), attempts), s)
  after_first group_id ep attempt left attempts (finished, st, s) again =
      let (now, w) = env.monotonic s.world in
      let s' = record s {
        cooldown =
            record_failure group_id ep.detail.model_id ep.detail.cooldown_failure_threshold
              ep.detail.cooldown_seconds now s.cooldown;
        world = w;
      } in
      (
        (
          none,
          attempts
              ++ stream_attempt group_id ep attempt "EmptyStream"
                  (String.◌++◌ ep.detail.model_name " returned an empty stream")
                ∷ [],
        ),
        (close_stream st s').1,
      )
  after_first group_id ep attempt left attempts (failed e, st, s) again =
      let rows = attempts ++ failed_attempt group_id ep attempt e ∷ [] in
      let s' = (close_stream st s).1 in
      if (is_timeout e.kind || is_retryable_error e) && ltb 0 left
      then again rows (exponential_backoff env attempt s')
      else ((none, rows), s')

  -- for attempt in range(max_retries), by the rounds left
  unfoldable pub first_chunk :
      ℕ
      → ModelEndpoint
      → ChatCall
      → (left attempt : ℕ) → List Attempt
      → Shared W
      → (Option (Json × Stream) × List Attempt) × Shared W
  unfolding semaphore_guarded_stream advance after_first
  first_chunk group_id ep call zero attempt attempts s = ((none, attempts), s)
  first_chunk group_id ep call (suc left) attempt attempts s =
      let (gen, w) = streams.chat_stream call s.world in
      let (st, s') = semaphore_guarded_stream gen ep.detail.provider_id (record s { world = w }) in
      after_first group_id ep attempt left attempts (advance st s')
        (λ attempts' t. first_chunk group_id ep call left (attempt + 1) attempts' t)

  -- A chunk on its way to the client.
  unfoldable pub deliver :
      ModelEndpoint → List Attempt → Json → Stream → Shared W → Event × Position × Shared W
  unfolding close_stream
  deliver ep attempts c st s =
      let (gone, s') = streams.is_disconnected s in
      let (st', s₂) = close_stream st s' in
      if gone
      then (state_event (committed false ep attempts), closing st', s₂)
      else (chunk_event c, streaming ep attempts st, s')

  -- Behind `__anext__` once the stream has started.
  unfoldable pub after_next :
      ModelEndpoint → List Attempt → Step × Stream × Shared W → Event × Position × Shared W
  unfolding deliver close_stream
  after_next ep attempts (chunk c, st, s) = deliver ep attempts c st s
  after_next ep attempts (finished, st, s) =
      (state_event (committed true ep attempts), closing st, s)
  after_next ep attempts (failed e, st, s) =
      let (st', s') = close_stream st s in
      (state_event (committed false ep attempts), closing st', s')

  -- Behind the attempts at one endpoint.
  unfoldable pub after_attempts :
      ℕ
      → ModelEndpoint
      → (Option (Json × Stream) × List Attempt) × Shared W
      → (List Attempt → Shared W → Event × Position × Shared W)
      → Event × Position × Shared W
  unfolding deliver
  after_attempts group_id ep ((none, attempts), s) again = again attempts s
  after_attempts group_id ep ((some (c, st), attempts), s) again =
      deliver ep attempts c st
        (record s { cooldown = record_success group_id ep.detail.model_id s.cooldown })
