-- ===== src/Driver.antt =====
-- The group-level fallback loops: `_drive_chat` of core.py and `LangGraphEngine.route` of
-- pipeline/langgraph_engine.py, over an engine that runs one group. What `_log_call` and
-- `_log_attempts` are given comes back beside the result; of a row the bodies, the duration, the
-- usage and the traceback are left out.
pub mod Laws
pub mod Route
pub mod Streaming
use openbotflow.Prelude.{
  ℕ, zero, suc, ◌+◌, String, Bool, true, false, ◌||◌, Option, none, some, List, [], ◌∷◌, ◌++◌, leb,
  ◌==◌, nat_key, if◌then◌else◌, any, length,
}
use openbotflow.Prelude.Int.{negsuc}
use openbotflow.Json.{Json, str, Fields, put_field}
use openbotflow.Errors.{Attempt, Error, type_name, is_group_failure, Result, ok, err}
use openbotflow.Models.{ModelGroup, Routing}
use openbotflow.Engine.{RunResult}

-- One group's run and the loading of a backup group, over the state `S` that they share.
pub record Engine (S : Type 0) : Type 0 where
  pub run : ModelGroup → S → Result RunResult × S
  pub load_group : ℕ → S → Result ModelGroup × S

pub record CallRow : Type 0 where
  pub group_id : ℕ
  pub model_id : Option ℕ
  pub provider_id : Option ℕ
  pub status : String
  pub error_type : Option String
  pub error_message : Option String

-- What a request ends with: its answer or error, and what is logged of it.
pub record Outcome : Type 0 where
  pub result : Result Fields
  pub rows : List CallRow
  pub attempts : List Attempt

abbrev pub max_fallback_groups : ℕ
max_fallback_groups = 3

abbrev pub visits : ℕ → List ℕ → Bool
visits id visited = any (λ v. v == id) visited

-- visited.add(id)
abbrev pub add : ℕ → List ℕ → List ℕ
add id visited = if visits id visited then visited else visited ++ id ∷ []

abbrev pub routed_model : Option Routing → Option ℕ
routed_model none = none
routed_model (some r) = some r.model_id

abbrev pub routed_provider : Option Routing → Option ℕ
routed_provider none = none
routed_provider (some r) = some r.provider_id

abbrev pub error_row : ℕ → Option ℕ → Option ℕ → Error → CallRow
error_row group_id model_id provider_id e = record {
  group_id = group_id;
  model_id = model_id;
  provider_id = provider_id;
  status = "error";
  error_type = some (type_name e.kind);
  error_message = some e.message;
}

abbrev pub answered : ℕ → String → RunResult → List Attempt → Outcome
answered group_id model_name r attempts = record {
  result = ok (put_field "model" (str model_name) r.body);
  rows =
      record {
        group_id = group_id;
        model_id = routed_model r.routing;
        provider_id = routed_provider r.routing;
        status = "success";
        error_type = none;
        error_message = none;
      }
      ∷ [];
  attempts = attempts ++ r.attempts;
}

-- Every backup is used up: the group's error is logged and raised again.
abbrev pub given_up : ℕ → Error → List Attempt → Outcome
given_up group_id e attempts = record {
  result = err e;
  rows = error_row group_id e.used_model_id e.used_provider_id e ∷ [];
  attempts = attempts ++ e.attempts;
}

abbrev pub route_attempt : ℕ → Error → Attempt
route_attempt group_id e = record {
  group_id = group_id;
  model_id = none;
  provider_id = none;
  stage = "route";
  endpoint_idx = negsuc 0;
  attempt_no = 1;
  error_type = type_name e.kind;
  error_message = e.message;
  duration_ms = 0;
}

-- An error that no backup can mend.
abbrev pub fatal : ℕ → ℕ → Error → List Attempt → Outcome
fatal group_id current e attempts = record {
  result = err e;
  rows = error_row group_id none none e ∷ [];
  attempts = attempts ++ route_attempt current e ∷ [];
}

-- An exception of `_load_group`, raised inside the handler: nothing is logged.
abbrev pub unlogged : Error → Outcome
unlogged e = record { result = err e; rows = []; attempts = [] }

-- The backup to go on with, if there is one.
unfoldable pub backup : ModelGroup → List ℕ → Option ℕ
backup group visited = elim group.fallback_group_id [
  | none ↦ none
  | some fb ↦
      if visits fb visited || leb max_fallback_groups (length visited) then none else some fb
]

module _ {S : Type 0} (engine : Engine S) (group_id : ℕ) (model_name : String) where
  -- Behind the loading of a backup group.
  unfoldable pub with_backup :
      Result ModelGroup × S → (ModelGroup → S → Option Outcome × S) → Option Outcome × S
  with_backup (err e, s) next = (some (unlogged e), s)
  with_backup (ok group, s) next = next group s

  -- Behind one group's run.
  unfoldable pub after_run :
      ModelGroup
      → List ℕ
      → List Attempt
      → Result RunResult × S
      → (List Attempt → ModelGroup → S → Option Outcome × S)
      → Option Outcome × S
  unfolding is_group_failure backup with_backup
  after_run group visited attempts (ok r, s) next =
      (some (answered group_id model_name r attempts), s)
  after_run group visited attempts (err e, s) next =
      if is_group_failure e.kind
      then elim (backup group visited) [
        | none ↦ (some (given_up group_id e attempts), s)
        | some fb ↦ with_backup (engine.load_group fb s) (next (attempts ++ e.attempts))
      ]
      else (some (fatal group_id group.id e attempts), s)

  -- The loop; `none` is out of fuel.
  unfoldable pub drive_from : ℕ → ModelGroup → List ℕ → List Attempt → S → Option Outcome × S
  unfolding after_run
  drive_from zero group visited attempts s = (none, s)
  drive_from (suc fuel) group visited attempts s =
      after_run group visited attempts (engine.run group s)
        (λ attempts' group' s'. drive_from fuel group' (add group'.id visited) attempts' s')

  unfoldable pub drive_chat : ModelGroup → S → Option Outcome × S
  unfolding drive_from
  drive_chat primary s = drive_from max_fallback_groups primary (primary.id ∷ []) [] s
