-- ===== src/Tests/Logging.antt =====
-- The log writer with a buffer of two.
use openbotflow.Prelude.{
  ◌+◌, ◌≤◌, ◌≡◌, refl, ◌⊎◌, any, String, Bool, true, false, none, some, List, [], ◌∷◌, arith, ◌==◌,
  string_key,
}
use openbotflow.Json.{null}
use openbotflow.Prelude.Int.{pos}
use openbotflow.LogWriter.{
  CallLog, AttemptRow, Writer, idle_writer, Operation, logs, flushes, writes, stops, perform_all,
}
use openbotflow.LogWriter.Laws.{drops, log_total, logged, log_total-perform_all}
use openbotflow.LogWriter.Bounds.{Within, perform_all-Within}
use openbotflow.LogWriter.Drain.{successes, Drained, successes-Drained}

abbrev row : String → CallLog
row status = record {
  api_key_id = none;
  group_id = some 1;
  model_id = none;
  provider_id = none;
  request_body = none;
  response_body = none;
  status = status;
  error_type = none;
  error_message = none;
  traceback = none;
  request_id = none;
  duration_ms = some 5;
  prompt_tokens = null;
  completion_tokens = null;
  cache_tokens = null;
  total_tokens = null;
}

abbrev failed : CallLog → Bool
failed entry = entry.status == "error"

-- The second row fills the buffer; the timer takes the third, of which one was written when the
-- service stops.
abbrev day : List Operation
day =
    logs (row "success")
    ∷ logs (row "error")
    ∷ writes 0 true
    ∷ logs (row "error")
    ∷ flushes
    ∷ stops
    ∷ []

abbrev end_of_day : Writer
end_of_day = perform_all 2 day idle_writer

-- What the background task had taken when the service stopped is gone: of two errors that were
-- logged, one is left.
stopped_in_flush : (log_total failed end_of_day + 1 ≡ logged failed day) × (end_of_day.buffer ≡ [])
unfolding perform_all
stopped_in_flush = (refl, refl)

still_writing :
    end_of_day.flushes ≡ record { by_loop = false; logs = row "error" ∷ []; attempts = [] } ∷ []
unfolding perform_all
still_writing = refl

log_total-perform_all_example :
    (log_total failed (perform_all 2 day idle_writer)
      ≤ log_total failed idle_writer + logged failed day)
    × ((log_total failed (perform_all 2 day idle_writer)
          ≡ log_total failed idle_writer + logged failed day)
        ⊎ (any drops day ≡ true))
log_total-perform_all_example = log_total-perform_all failed 2 day idle_writer

perform_all-Within_example : Within 2 (perform_all 2 day idle_writer)
perform_all-Within_example = perform_all-Within 2 (omega arith) day idle_writer (omega arith)

abbrev tried : AttemptRow
tried = record {
  request_id = none;
  attempt = record {
    group_id = 1;
    model_id = none;
    provider_id = none;
    stage = "chat";
    endpoint_idx = pos 0;
    attempt_no = 1;
    error_type = "ProviderError";
    error_message = "HTTP 503";
    duration_ms = 7;
  };
}

abbrev full : Writer
full = record idle_writer {
  flushes =
      record { by_loop = true; logs = row "success" ∷ row "error" ∷ []; attempts = tried ∷ [] }
      ∷ [];
}

successes-Drained_example : Drained full (perform_all 2 (successes 3) full)
successes-Drained_example = successes-Drained 2 3 full refl
