-- ===== src/Errors.antt =====
-- The exceptions: common/exceptions.py, `StrategyError` of pipeline/base.py, and those of Python
-- and the client libraries that the routing code tells apart.
use openbotflow.Prelude.{ℕ, String, Bool, true, false, Option, none, List, []}
use openbotflow.Prelude.Int.{ℤ}

-- One failed attempt: a row of `call_attempts`, storage/models.py (`CallAttempt`).
pub record Attempt : Type 0 where
  pub group_id : ℕ
  pub model_id : Option ℕ
  pub provider_id : Option ℕ
  pub stage : String
  pub endpoint_idx : ℤ
  pub attempt_no : ℕ
  pub error_type : String
  pub error_message : String
  pub duration_ms : ℕ

pub data ErrorType : Type 0 where
  no_available_model all_models_cooldown provider_error configuration_error : ErrorType
  strategy_error timeout_error stop_async_iteration : ErrorType
  other_error : String → ErrorType

-- An exception, with the attributes that the code reads and sets on it.
pub record Error : Type 0 where
  pub kind : ErrorType
  pub message : String
  pub status_code : Option ℕ
  pub attempts : List Attempt
  pub used_model_id : Option ℕ
  pub used_provider_id : Option ℕ

-- Raising a class with a message.
abbrev pub raise : ErrorType → String → Error
raise k m = record {
  kind = k;
  message = m;
  status_code = none;
  attempts = [];
  used_model_id = none;
  used_provider_id = none;
}

-- type(e).__name__
unfoldable pub type_name : ErrorType → String
type_name no_available_model = "NoAvailableModelError"
type_name all_models_cooldown = "AllModelsCooldownError"
type_name provider_error = "ProviderError"
type_name configuration_error = "ConfigurationError"
type_name strategy_error = "StrategyError"
type_name timeout_error = "TimeoutError"
type_name stop_async_iteration = "StopAsyncIteration"
type_name (other_error name) = name

-- isinstance(e, BotflowError)
unfoldable pub is_botflow_error : ErrorType → Bool
is_botflow_error no_available_model = true
is_botflow_error all_models_cooldown = true
is_botflow_error provider_error = true
is_botflow_error configuration_error = true
is_botflow_error _ = false

-- except (AllModelsCooldownError, NoAvailableModelError, ProviderError)
unfoldable pub is_group_failure : ErrorType → Bool
is_group_failure no_available_model = true
is_group_failure all_models_cooldown = true
is_group_failure provider_error = true
is_group_failure _ = false

-- A call that returns or raises.
pub data Result {ℓ} (A : Type ℓ) : Type ℓ where
  ok : A → Result A
  err : Error → Result A
