-- ===== src/LogWriter.antt =====
-- `CallLogWriter` of core.py; Entries: `_log_call` and `_log_attempts`. The writer's lock is held
-- between awaits only, so what happens under it is one step; a flush writes its batch one database
-- call at a time, and other tasks may run between two of them.
pub mod Entries
pub mod Laws
pub mod Bounds
pub mod Drain
use openbotflow.Prelude.{
  ℕ, zero, suc, ◌+◌, String, Bool, true, false, ◌&&◌, Option, none, some, List, [], ◌∷◌, ◌++◌, map,
  leb, if◌then◌else◌, or_else, length, is_empty, get_elem?,
}
use openbotflow.Json.{Json, Fields, end, get_value}
use openbotflow.Errors.{Attempt}

-- `CallLog` of storage/models.py, as `_log_call` fills it.
pub record CallLog : Type 0 where
  pub api_key_id : Option ℕ
  pub group_id : Option ℕ
  pub model_id : Option ℕ
  pub provider_id : Option ℕ
  pub request_body : Option String
  pub response_body : Option String
  pub status : String
  pub error_type : Option String
  pub error_message : Option String
  pub traceback : Option String
  pub request_id : Option String
  pub duration_ms : Option ℕ
  pub prompt_tokens : Json
  pub completion_tokens : Json
  pub cache_tokens : Json
  pub total_tokens : Json

-- A row of `call_attempts`.
pub record AttemptRow : Type 0 where
  pub request_id : Option String
  pub attempt : Attempt

-- A flush on its way, with the rows that it took from the buffers and has not yet written. The
-- background task's own flush ends when that task is cancelled.
pub record Flush : Type 0 where
  pub by_loop : Bool
  pub logs : List CallLog
  pub attempts : List AttemptRow

-- The writer, the flushes that run, and the rows that are in the database. A row that a flush gives
-- up is in none of the lists.
pub record Writer : Type 0 where
  pub buffer : List CallLog
  pub attempts_buffer : List AttemptRow
  pub flushes : List Flush
  pub stored : List CallLog
  pub stored_attempts : List AttemptRow

abbrev pub idle_writer : Writer
idle_writer = record {
  buffer = [];
  attempts_buffer = [];
  flushes = [];
  stored = [];
  stored_attempts = [];
}

-- The start of a flush: both buffers are taken under the lock.
unfoldable pub flush : (by_loop : Bool) → Writer → Writer
flush by_loop w = if is_empty w.buffer && is_empty w.attempts_buffer then w else record w {
  buffer = [];
  attempts_buffer = [];
  flushes =
      w.flushes ++ record { by_loop = by_loop; logs = w.buffer; attempts = w.attempts_buffer } ∷ [];
}

unfoldable pub log : (max_buffer : ℕ) → CallLog → Writer → Writer
unfolding flush
log max_buffer entry w =
    let longer = record w { buffer = w.buffer ++ entry ∷ [] } in
    if leb max_buffer (length longer.buffer) then flush false longer else longer

unfoldable pub log_attempt : (max_buffer : ℕ) → AttemptRow → Writer → Writer
unfolding flush
log_attempt max_buffer row w =
    let longer = record w { attempts_buffer = w.attempts_buffer ++ row ∷ [] } in
    if leb max_buffer (length longer.attempts_buffer) then flush false longer else longer

-- What one database call of a flush leaves: what is still to write, and what it has written.
pub record Written : Type 0 where
  pub rest : Option Flush
  pub stored : List CallLog
  pub stored_attempts : List AttemptRow

-- A log row that fails drops itself and those behind it; the attempts are one call, behind the logs.
abbrev pub write_rows : (succeeds : Bool) → Flush → List CallLog → Written
write_rows succeeds f [] = record {
  rest = none;
  stored = [];
  stored_attempts = if succeeds then f.attempts else [];
}
write_rows succeeds f (entry ∷ entries) = record {
  rest = some (record f { logs = if succeeds then entries else [] });
  stored = if succeeds then entry ∷ [] else [];
  stored_attempts = [];
}

unfoldable pub write_next : (succeeds : Bool) → Flush → Written
write_next succeeds f = write_rows succeeds f f.logs

-- The running flushes with the i-th one replaced, or gone.
unfoldable pub replace_flush : ℕ → Option Flush → List Flush → List Flush
replace_flush i o [] = []
replace_flush zero none (f ∷ fs) = fs
replace_flush zero (some g) (f ∷ fs) = g ∷ fs
replace_flush (suc i) o (f ∷ fs) = f ∷ replace_flush i o fs

abbrev pub settle : ℕ → Written → Writer → Writer
settle i d w = record w {
  flushes = replace_flush i d.rest w.flushes;
  stored = w.stored ++ d.stored;
  stored_attempts = w.stored_attempts ++ d.stored_attempts;
}

abbrev pub write_of : ℕ → (succeeds : Bool) → Option Flush → Writer → Writer
write_of i succeeds none w = w
write_of i succeeds (some f) w = settle i (write_next succeeds f) w

-- The i-th running flush's next database call returns, or raises.
unfoldable pub write : ℕ → (succeeds : Bool) → Writer → Writer
unfolding write_next replace_flush
write i succeeds w = write_of i succeeds (get_elem? w.flushes i) w

-- The flushes that are not the background task's.
abbrev pub other_flushes : List Flush → List Flush
other_flushes [] = []
other_flushes (f ∷ fs) = let rest = other_flushes fs in if f.by_loop then rest else f ∷ rest

-- `stop`: the background task is cancelled, in the middle of a flush too, whose other rows are gone,
-- and a last flush starts.
unfoldable pub stop : Writer → Writer
unfolding flush
stop w = flush false (record w { flushes = other_flushes w.flushes })

-- What happens to the writer: the calls of other tasks, the background task's timer, and the
-- database calls of the running flushes, in any order.
pub data Operation : Type 0 where
  logs : CallLog → Operation
  logs_attempt : AttemptRow → Operation
  flushes : Operation
  writes : ℕ → Bool → Operation
  stops : Operation

unfoldable pub perform : (max_buffer : ℕ) → Operation → Writer → Writer
unfolding log log_attempt flush write stop
perform max_buffer (logs entry) w = log max_buffer entry w
perform max_buffer (logs_attempt row) w = log_attempt max_buffer row w
perform max_buffer flushes w = flush true w
perform max_buffer (writes i succeeds) w = write i succeeds w
perform max_buffer stops w = stop w

unfoldable pub perform_all : (max_buffer : ℕ) → List Operation → Writer → Writer
unfolding perform
perform_all max_buffer [] w = w
perform_all max_buffer (o ∷ os) w = perform_all max_buffer os (perform max_buffer o w)
