-- ===== src/Driver/Streaming.antt =====
-- The streaming driver `_drive_stream` of core.py, over an engine whose runs are generators of
-- events. One step goes from an await of the engine to the next; what the driver has yielded and
-- logged so far stands in its state, so that a client that leaves early is a shorter run.
pub mod Rows
pub mod Commits
pub mod OneGroup
pub mod Ends
pub mod Direct
use openbotflow.Prelude.{
  ℕ, zero, suc, ◌+◌, String, Bool, true, false, Option, none, some, List, [], ◌∷◌, ◌++◌,
  if◌then◌else◌,
}
use openbotflow.Json.{Json, str, obj, Fields, end, put_field}
use openbotflow.Errors.{
  Attempt, Error, provider_error, other_error, raise, is_group_failure, Result, ok, err,
}
use openbotflow.Models.{ModelGroup}
use openbotflow.Driver.{CallRow, add, error_row, route_attempt, backup}
use openbotflow.Stream.{FinalState}

-- What `__anext__` of the engine's generator does.
pub data Pulled : Type 0 where
  a_chunk : Json → Pulled
  a_state : FinalState → Pulled
  exhausted : Pulled
  raised : Error → Pulled

-- The engine, its generators of the type `G`, and the client's connection.
pub record StreamEngine (S G : Type 0) : Type 0 where
  pub run : ModelGroup → S → Result G × S
  pub pull : G → S → Pulled × G × S
  pub close : G → S → S
  pub is_disconnected : S → Bool × S
  pub load_group : ℕ → S → Result ModelGroup × S

-- What the handlers pass to the driver: the conversion of a chunk into lines, with a usage if it has
-- one; the line of an error message; and the last line.
pub record Wire : Type 0 where
  pub model_name : String
  pub serialize : Json → Result (List String × Option Fields)
  pub error_line : String → String
  pub done_signal : String

-- Where the driver stands: before a group's run, within its events, or behind the end.
pub data Place (G : Type 0) : Type 0 where
  starting : ModelGroup → List ℕ → List Attempt → Place G
  pumping : ModelGroup → List ℕ → List Attempt → G → Option Fields → Option FinalState → Place G
  ended : Place G
  died : Error → Place G

pub record StreamRow : Type 0 where
  pub row : CallRow
  pub usage : Option Fields

-- The driver's state, with what it has yielded and logged, and of each chunk that it has yielded
-- the group that it is from.
pub record Drive (S G : Type 0) : Type 0 where
  pub place : Place G
  pub shared : S
  pub lines : List String
  pub rows : List StreamRow
  pub logged : List Attempt
  pub ran : List ℕ
  pub chunk_groups : List ℕ

-- chunk["model"] = model_name
abbrev pub named : String → Json → Result Json
named model_name (obj fields) = ok (obj (put_field "model" (str model_name) fields))
named model_name _ = err (raise (other_error "TypeError") "object does not support item assignment")

abbrev pub used_model : Option FinalState → Option ℕ
used_model none = none
used_model (some f) = f.used_model_id

abbrev pub used_provider : Option FinalState → Option ℕ
used_provider none = none
used_provider (some f) = f.used_provider_id

abbrev pub final_attempts : Option FinalState → List Attempt
final_attempts none = []
final_attempts (some f) = f.attempts

abbrev pub is_recoverable : Option FinalState → Bool
is_recoverable none = false
is_recoverable (some f) = f.recoverable

abbrev pub success_row : ℕ → Option FinalState → CallRow
success_row group_id final = record {
  group_id = group_id;
  model_id = used_model final;
  provider_id = used_provider final;
  status = "success";
  error_type = none;
  error_message = none;
}

-- `_usage` if it is not empty, else what was there.
abbrev pub latest_usage : Option Fields → Option Fields → Option Fields
latest_usage none before = before
latest_usage (some end) before = before
latest_usage (some u) before = some u

module _ {S G : Type 0} (engine : StreamEngine S G) (wire : Wire) (group_id : ℕ) where
  -- The last row, the last lines, and the end.
  unfoldable pub finish_with :
      CallRow → Option Fields → List Attempt → List String → Drive S G → Drive S G
  finish_with row usage attempts last m = record m {
    place = ended;
    lines = m.lines ++ (last ++ wire.done_signal ∷ []);
    rows = m.rows ++ record { row = row; usage = usage } ∷ [];
    logged = m.logged ++ attempts;
  }

  unfoldable pub after_load : List ℕ → List Attempt → Result ModelGroup × S → Drive S G → Drive S G
  after_load visited attempts (err e, s) m = record m { place = died e; shared = s }
  after_load visited attempts (ok group, s) m = record m {
    place = starting group (add group.id visited) attempts;
    shared = s;
  }

  unfoldable pub fall_back :
      Option ℕ → List ℕ → List Attempt → Option FinalState → Error → Drive S G → Drive S G
  unfolding finish_with after_load
  fall_back none visited attempts final e m =
      finish_with (error_row group_id (used_model final) (used_provider final) e) none attempts
        (wire.error_line e.message ∷ []) m
  fall_back (some fb) visited attempts final e m =
      after_load visited attempts (engine.load_group fb m.shared) m

  -- The two `except` clauses.
  unfoldable pub handle :
      ModelGroup → List ℕ → List Attempt → Option FinalState → Error → Drive S G → Drive S G
  unfolding finish_with fall_back is_group_failure backup
  handle group visited attempts final e m =
      if is_group_failure e.kind
      then fall_back (backup group visited) visited (attempts ++ e.attempts) final e m
      else finish_with (error_row group_id none none e) none
          (attempts ++ route_attempt group.id e ∷ []) (wire.error_line e.message ∷ []) m

  -- Behind the `async for`.
  unfoldable pub settle :
      ModelGroup → List ℕ → List Attempt → Option Fields → Option FinalState → Drive S G → Drive S G
  unfolding handle finish_with
  settle group visited attempts usage final m =
      let all = attempts ++ final_attempts final in
      if is_recoverable final
      then handle group visited all final (raise provider_error "Group stream exhausted, fallback")
          m
      else finish_with (success_row group_id final) usage all [] m

  -- Behind `_serialize(chunk)`.
  unfoldable pub emit :
      ModelGroup
      → List ℕ
      → List Attempt
      → G
      → Option Fields
      → Option FinalState
      → Result (List String × Option Fields)
      → Drive S G
      → Drive S G
  unfolding handle
  emit group visited attempts gen usage final (err e) m = handle group visited attempts final e m
  emit group visited attempts gen usage final (ok (lines, u)) m = record m {
    place = pumping group visited attempts gen (latest_usage u usage) final;
    lines = m.lines ++ lines;
    chunk_groups = m.chunk_groups ++ group.id ∷ [];
  }

  abbrev pub serialized : Result Json → Result (List String × Option Fields)
  serialized (err e) = err e
  serialized (ok chunk) = wire.serialize chunk

  -- The body of the loop for an event, the client being there.
  unfoldable pub receive :
      ModelGroup
      → List ℕ
      → List Attempt
      → G
      → Option Fields
      → Option FinalState
      → Pulled
      → Drive S G
      → Drive S G
  unfolding emit settle handle
  receive group visited attempts gen usage final (a_chunk c) m =
      emit group visited attempts gen usage final (serialized (named wire.model_name c)) m
  receive group visited attempts gen usage final (a_state f) m = record m {
    place = pumping group visited attempts gen usage (some f);
  }
  receive group visited attempts gen usage final exhausted m =
      settle group visited attempts usage final m
  receive group visited attempts gen usage final (raised e) m =
      handle group visited attempts final e m

  -- An event, of which the client is asked first whether it is still there.
  unfoldable pub attend :
      ModelGroup
      → List ℕ
      → List Attempt
      → G
      → Option Fields
      → Option FinalState
      → Pulled
      → Bool × S
      → Drive S G
      → Drive S G
  unfolding receive settle
  attend group visited attempts gen usage final event (gone, s) m =
      if gone
      then settle group visited attempts usage final (record m { shared = engine.close gen s })
      else receive group visited attempts gen usage final event (record m { shared = s })

  unfoldable pub after_pull :
      ModelGroup
      → List ℕ
      → List Attempt
      → Option Fields
      → Option FinalState
      → Pulled × G × S
      → Drive S G
      → Drive S G
  unfolding attend receive
  after_pull group visited attempts usage final (exhausted, gen, s) m =
      receive group visited attempts gen usage final exhausted (record m { shared = s })
  after_pull group visited attempts usage final (raised e, gen, s) m =
      receive group visited attempts gen usage final (raised e) (record m { shared = s })
  after_pull group visited attempts usage final (event, gen, s) m =
      attend group visited attempts gen usage final event (engine.is_disconnected s) m

  unfoldable pub after_start :
      ModelGroup → List ℕ → List Attempt → Result G × S → Drive S G → Drive S G
  unfolding handle
  after_start group visited attempts (err e, s) m =
      handle group visited attempts none e (record m { shared = s; ran = m.ran ++ group.id ∷ [] })
  after_start group visited attempts (ok gen, s) m = record m {
    place = pumping group visited attempts gen none none;
    shared = s;
    ran = m.ran ++ group.id ∷ [];
  }

  unfoldable pub step_from : Place G → Drive S G → Drive S G
  unfolding after_start after_pull
  step_from (starting group visited attempts) m =
      after_start group visited attempts (engine.run group m.shared) m
  step_from (pumping group visited attempts gen usage final) m =
      after_pull group visited attempts usage final (engine.pull gen m.shared) m
  step_from ended m = m
  step_from (died e) m = m

  unfoldable pub steps : ℕ → Drive S G → Drive S G
  unfolding step_from
  steps zero m = m
  steps (suc n) m = steps n (step_from m.place m)

  -- The first so many steps of `_drive_stream`.
  unfoldable pub drive_stream : ModelGroup → S → ℕ → Drive S G
  unfolding steps
  drive_stream primary s n = steps n (record {
    place = starting primary (primary.id ∷ []) [];
    shared = s;
    lines = [];
    rows = [];
    logged = [];
    ran = [];
    chunk_groups = [];
  })
