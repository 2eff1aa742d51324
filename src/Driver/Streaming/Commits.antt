-- ===== src/Driver/Streaming/Commits.antt =====
-- What `_drive_stream` relies on in its engine, to send a client the chunks of one group only.
use openbotflow.Prelude.{◌≡◌, false}
use openbotflow.Json.{Json}
use openbotflow.Errors.{Error, is_group_failure, Result, ok, err}
use openbotflow.Models.{ModelGroup}
use openbotflow.Driver.Streaming.{Pulled, a_chunk, a_state, exhausted, raised, StreamEngine, Wire}

-- How far a generator has come: before its first event, behind a chunk, or behind its state.
pub data Stage : Type 0 where
  fresh : Stage
  committed : Stage
  over : Stage

-- What an event says of the generator that it leaves: a state that allows a fallback comes only
-- where no chunk went before it, and an error behind a chunk allows none.
abbrev pub Follows : {S G : Type 0} → (G → Stage) → Stage → Pulled × G × S → Type 0
Follows stage fresh (a_chunk c, gen, s) = stage gen ≡ committed
Follows stage fresh (a_state f, gen, s) = stage gen ≡ over
Follows stage fresh (exhausted, gen, s) = Unit
Follows stage fresh (raised e, gen, s) = Unit
Follows stage committed (a_chunk c, gen, s) = stage gen ≡ committed
Follows stage committed (a_state f, gen, s) = (f.recoverable ≡ false) × (stage gen ≡ over)
Follows stage committed (exhausted, gen, s) = Unit
Follows stage committed (raised e, gen, s) = is_group_failure e.kind ≡ false
Follows stage over (a_chunk c, gen, s) = ⊥
Follows stage over (a_state f, gen, s) = ⊥
Follows stage over (exhausted, gen, s) = Unit
Follows stage over (raised e, gen, s) = is_group_failure e.kind ≡ false

abbrev pub Starts : {S G : Type 0} → (G → Stage) → Result G × S → Type 0
Starts stage (ok gen, s) = stage gen ≡ fresh
Starts stage (err e, s) = Unit

-- The events that the driver relies on.
pub record IsCommitting {S G : Type 0} (engine : StreamEngine S G) : Type 0 where
  pub stage : G → Stage
  pub run_starts : (group : ModelGroup) (s : S) → Starts stage (engine.run group s)
  pub pull_follows : (gen : G) (s : S) → Follows stage (stage gen) (engine.pull gen s)

-- An error of `_serialize` allows no fallback.
abbrev pub SerializesOrDies : Wire → Type 0
SerializesOrDies wire =
    (chunk : Json) (e : Error) → wire.serialize chunk ≡ err e → is_group_failure e.kind ≡ false
