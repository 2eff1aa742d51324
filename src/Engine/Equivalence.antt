-- ===== src/Engine/Equivalence.antt =====
-- The direct path `_run_one_fast` beside the graph path `_run_one`.
use openbotflow.Prelude.{
  ℕ, ◌+◌, ◌≡◌, ◌≢◌, refl, Option, none, some, List, [], ◌∷◌, arith, length, drop, drop_cons, false,
}
use openbotflow.Prelude.Int.{ℤ}
use openbotflow.Json.{Fields}
use openbotflow.Errors.{Attempt, Error, Result, err}
use openbotflow.Models.{Message, ModelEndpoint, ModelGroup, Response, RouteResult}
use openbotflow.Runtime.{Shared, Env}
use openbotflow.Engine.{RouteState, RunResult, Select, initial_state}
use openbotflow.Engine.Graph.{
  outcome_of, call_failed, try_call_from, try_call, after_call, after_endpoint, run_graph, run_one,
}
use openbotflow.Engine.Fast.{group_failure, walk, after_walk, run_one_fast}

module _ {W : Type 0} where
  -- What `_run_one` makes of the state that `try_call` leaves.
  abbrev finish : RouteState × Shared W → Result RunResult × Shared W
  finish r = let (final, s) = after_call r in (outcome_of final, s)

  finish-call_failed :
      (state : RouteState) (attempts : List Attempt) (m p : Option ℕ) (s : Shared W)
      → state.error ≡ none
      → state.result ≡ none
      → finish (call_failed state attempts m p, s) ≡ (err (group_failure attempts m p), s)
  unfolding after_call outcome_of
  finish-call_failed state attempts none none s e r = ground arith
  finish-call_failed state attempts none (some b) s e r = ground arith
  finish-call_failed state attempts (some a) none s e r = ground arith
  finish-call_failed state attempts (some a) (some b) s e r = ground arith

  finish-after_endpoint :
      (state : RouteState) (idx : ℕ) (attempts : List Attempt) (ep : ModelEndpoint)
      (r : (Option Response × Option Error × ℕ) × Shared W)
      (again : List Attempt → Shared W → RouteState × Shared W)
      (again' : List Attempt → Shared W → Result RunResult × Shared W)
      → ((a : List Attempt) (s : Shared W) → finish (again a s) ≡ again' a s)
      → finish (after_endpoint state idx attempts ep r again)
        ≡ after_walk state.group idx attempts ep r again'
  unfolding after_endpoint after_walk after_call outcome_of
  finish-after_endpoint state idx attempts ep ((some v, e, ms), s) again again' h = refl
  finish-after_endpoint state idx attempts ep ((none, e, ms), s) again again' h = h _ s

module _ {W : Type 0} (env : Env W) where
  finish-try_call_from :
      (state : RouteState) (eps : List ModelEndpoint) (idx : ℕ) (attempts : List Attempt)
      (m p : Option ℕ) (s : Shared W)
      → state.error ≡ none
      → state.result ≡ none
      → drop idx state.endpoints ≡ eps
      → finish (try_call_from env state (length eps) idx attempts m p s)
        ≡ walk env state.group state.truncated_messages state.temperature state.max_tokens
            state.extra_kwargs idx eps attempts m p s
  unfolding try_call_from walk
  finish-try_call_from state [] idx attempts m p s e r d =
      finish-call_failed state attempts m p s e r
  finish-try_call_from state (ep ∷ eps) idx attempts m p s e r d =
      let (found, rest) = drop_cons state.endpoints idx d in
      rw (found, try_call_from)
        (finish-after_endpoint state idx attempts ep _ _ _ (λ a s'.
          finish-try_call_from state eps (idx + 1) a (some ep.detail.model_id)
            (some ep.detail.provider_id) s' e r rest))

  -- With a queue that is selected and not empty, the direct path and the graph return the same
  -- result, or raise the same error with the same trail, and leave the same state.
  pub run_one_fast-eq-run_one :
      (select : Select W) (group : ModelGroup) (messages : List Message) (temperature : Option ℤ)
      (max_tokens : Option ℕ) (extra : Fields) (preselected : RouteResult) (s : Shared W)
      → preselected.endpoints ≢ []
      → run_one_fast env group temperature max_tokens extra preselected s
        ≡ run_one env select group messages temperature max_tokens extra (some preselected) s
  unfolding run_one run_graph try_call run_one_fast
  run_one_fast-eq-run_one select group messages temperature max_tokens extra preselected s h =
      ground (
        arith,
        finish-try_call_from
            (initial_state group messages false temperature max_tokens extra (some preselected))
            preselected.endpoints 0 [] none none s refl refl refl,
      )
