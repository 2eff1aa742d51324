-- ===== src/LogWriter/Entries.antt =====
-- `_log_call` and `_log_attempts` of core.py, with a writer that is there.
use openbotflow.Prelude.{ℕ, String, Option, none, some, List, [], ◌∷◌, or_else}
use openbotflow.Json.{Fields, end, get_value}
use openbotflow.Errors.{Attempt}
use openbotflow.LogWriter.{CallLog, Writer, log, log_attempt}

-- `_request_ctx`
pub record RequestContext : Type 0 where
  pub api_key_id : Option ℕ
  pub request_id : Option String

-- The arguments of `_log_call`.
pub record CallDetails : Type 0 where
  pub group_id : Option ℕ
  pub model_id : Option ℕ
  pub provider_id : Option ℕ
  pub request_body : Option String
  pub response_body : Option String
  pub status : String
  pub duration_ms : Option ℕ
  pub usage : Option Fields
  pub error_message : Option String
  pub api_key_id : Option ℕ
  pub error_type : Option String
  pub traceback_text : Option String
  pub request_id : Option String

abbrev pub given {ℓ} : {A : Type ℓ} → Option A → Option A → Option A
given none other = other
given (some a) other = some a

unfoldable pub log_entry : RequestContext → CallDetails → CallLog
unfolding get_value
log_entry ctx d =
    let usage = or_else d.usage end in
    record {
      api_key_id = given d.api_key_id ctx.api_key_id;
      group_id = d.group_id;
      model_id = d.model_id;
      provider_id = d.provider_id;
      request_body = d.request_body;
      response_body = d.response_body;
      status = d.status;
      error_type = d.error_type;
      error_message = d.error_message;
      traceback = d.traceback_text;
      request_id = given d.request_id ctx.request_id;
      duration_ms = d.duration_ms;
      prompt_tokens = get_value "prompt_tokens" usage;
      completion_tokens = get_value "completion_tokens" usage;
      cache_tokens = get_value "cache_tokens" usage;
      total_tokens = get_value "total_tokens" usage;
    }

-- `_log_call` with a writer that is there.
unfoldable pub log_call : (max_buffer : ℕ) → RequestContext → CallDetails → Writer → Writer
unfolding log log_entry
log_call max_buffer ctx d w = log max_buffer (log_entry ctx d) w

-- `_log_attempts` with a writer that is there.
unfoldable pub log_attempts : (max_buffer : ℕ) → RequestContext → List Attempt → Writer → Writer
unfolding log_attempt
log_attempts max_buffer ctx [] w = w
log_attempts max_buffer ctx (a ∷ attempts) w =
    log_attempts max_buffer ctx attempts
      (log_attempt max_buffer (record { request_id = ctx.request_id; attempt = a }) w)
