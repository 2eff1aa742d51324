-- ===== src/Call.antt =====
-- `call_llm` of pipeline/_shared.py, with the semaphores of router.py: one endpoint, with its
-- retries, its cooldown and its provider's permit.
pub mod Laws
use openbotflow.Prelude.{
  ℕ, zero, suc, ◌+◌, ◌-◌, ◌/◌, String, Bool, true, false, ◌&&◌, ◌||◌, Option, none, some, List, [],
  ◌∷◌, ltb, ◌==◌, nat_key, string_key, if◌then◌else◌, or_else, any, not,
}
use openbotflow.Prelude.Assoc.{get, put}
use openbotflow.Prelude.Int.{ℤ}
use openbotflow.Json.{
  Json, null, bool, num, str, arr, obj, Items, nil, cons, Fields, get_value, keep_fields,
}
use openbotflow.Errors.{Error, Result, ok, err}
use openbotflow.Models.{Message, ModelEndpoint, Response}
use openbotflow.Cooldown.{record_success, record_failure}
use openbotflow.Retry.{is_retryable_error, backoff_delay}
use openbotflow.Runtime.{Semaphore, Shared, ChatCall, Env}

-- The provider's semaphore, created on first use. A provider is known by its id, and so is its
-- semaphore; `none` is no limit.
unfoldable pub ensure_provider_semaphore :
    ℕ → ℕ → List (ℕ × Option Semaphore) → Option ℕ × List (ℕ × Option Semaphore)
unfolding get put
ensure_provider_semaphore provider_id size table = elim (or_else (get provider_id table) none) [
  | some entry ↦ (some provider_id, table)
  | none ↦
      if size == 0
      then (none, put provider_id none table)
      else (some provider_id, put provider_id (some (record { size = size; held = 0 })) table)
]

-- The texts of a list; other items are equal to no keyword.
abbrev pub strings : Items → List String
strings nil = []
strings (cons (str s) xs) = s ∷ strings xs
strings (cons _ xs) = strings xs

abbrev pub listed : Json → String → Bool
listed (arr xs) k = any (λ s. s == k) (strings xs)
listed _ k = false

abbrev pub is_off : Json → Bool
is_off (str s) = s == "off"
is_off _ = false

abbrev pub is_reasoning : String → Bool
is_reasoning k = k == "reasoning_effort" || k == "reasoning_content"

unfoldable pub apply_model_extra_config : Fields → Fields → Fields
unfolding keep_fields get_value
apply_model_extra_config kwargs cfg =
    let off =
      is_off (get_value "reasoning_mode" cfg) || is_off (get_value "reasoning_mode" kwargs) in
    keep_fields (λ k. not (listed (get_value "strip_params" cfg) k || (off && is_reasoning k)))
      kwargs

-- One more permit taken, or given back.
abbrev pub hold : Option Semaphore → Option Semaphore
hold none = none
hold (some sem) = some (record sem { held = sem.held + 1 })

abbrev pub let_go : Option Semaphore → Option Semaphore
let_go none = none
let_go (some sem) = some (record sem { held = sem.held - 1 })

abbrev pub change_permit {ℓ} : {A : Type ℓ} → ℕ → (A → A) → List (ℕ × A) → List (ℕ × A)
change_permit id f table = elim (get id table) [ none ↦ table | some v ↦ put id (f v) table ]

module _ {W : Type 0} (env : Env W) where
  unfoldable pub acquire : Option ℕ → Shared W → Shared W
  unfolding get put
  acquire none s = s
  acquire (some id) s =
      let s' = env.wait_permit id s in
      record s' { semaphores = change_permit id hold s'.semaphores }

  unfoldable pub release : Option ℕ → Shared W → Shared W
  unfolding get put
  release none s = s
  release (some id) s = record s { semaphores = change_permit id let_go s.semaphores }

  -- await exponential_backoff(attempt)
  unfoldable pub exponential_backoff : ℕ → Shared W → Shared W
  exponential_backoff attempt s =
      let delay = backoff_delay attempt in
      let (jitter, w) = env.uniform (delay / 10) s.world in
      env.sleep (delay + jitter) (record s { world = w })

  -- async with sem: provider.chat(...)
  unfoldable pub guarded_chat : Option ℕ → ChatCall → Shared W → Result Fields × Shared W
  unfolding acquire release
  guarded_chat sem call s = let (r, s') = env.chat call (acquire sem s) in (r, release sem s')

  -- The exit of the loop without a result.
  unfoldable pub exhausted :
      ModelEndpoint → ℕ → Option Error → Shared W → (Option Response × Option Error) × Shared W
  exhausted ep group_id last_error s =
      let (now, w) = env.monotonic s.world in
      (
        (none, last_error),
        record s {
          cooldown =
              record_failure group_id ep.detail.model_id ep.detail.cooldown_failure_threshold
                ep.detail.cooldown_seconds now s.cooldown;
          world = w;
        },
      )

  unfoldable pub succeeded :
      ModelEndpoint → ℕ → Fields → Shared W → (Option Response × Option Error) × Shared W
  succeeded ep group_id body s = (
    (
      some (record {
        body = body;
        routing =
            some (record { model_id = ep.detail.model_id; provider_id = ep.detail.provider_id });
      }),
      none,
    ),
    record s { cooldown = record_success group_id ep.detail.model_id s.cooldown },
  )

  -- One round's answer: return, try again, or give up.
  unfoldable pub after_round :
      ModelEndpoint
      → ℕ
      → ℕ
      → Result Fields
      → Shared W
      → (Error → (Option Response × Option Error) × Shared W)
      → (Option Response × Option Error) × Shared W
  unfolding exhausted succeeded
  after_round ep group_id attempt (ok body) s again = succeeded ep group_id body s
  after_round ep group_id attempt (err e) s again =
      if is_retryable_error e && ltb (attempt + 1) ep.detail.max_retries
      then again e
      else exhausted ep group_id (some e) s

  -- The rounds left, and the number of the next one.
  unfoldable pub call_rounds :
      ModelEndpoint
      → ℕ
      → Option ℕ
      → ChatCall
      → (left attempt : ℕ) → Option Error
      → Shared W
      → (Option Response × Option Error) × Shared W
  unfolding guarded_chat exponential_backoff after_round
  call_rounds ep group_id sem call zero attempt last_error s = exhausted ep group_id last_error s
  call_rounds ep group_id sem call (suc left) attempt last_error s =
      let (r, s') = guarded_chat sem call s in
      after_round ep group_id attempt r s' (λ e.
        call_rounds ep group_id sem call left (attempt + 1) (some e)
          (exponential_backoff attempt s'))

  unfoldable pub call_llm :
      ModelEndpoint
      → List Message
      → ℕ
      → Option ℤ
      → Option ℕ
      → Fields
      → Shared W
      → (Option Response × Option Error) × Shared W
  unfolding ensure_provider_semaphore apply_model_extra_config call_rounds
  call_llm ep messages group_id temperature max_tokens kwargs s =
      let (sem, table) =
        ensure_provider_semaphore ep.detail.provider_id (env.semaphore_size s.world) s.semaphores in
      let call : ChatCall = record {
        provider = ep.provider;
        model = ep.detail.model_name;
        messages = messages;
        temperature = temperature;
        max_tokens = max_tokens;
        kwargs = apply_model_extra_config kwargs ep.detail.extra_config;
      } in
      call_rounds ep group_id sem call ep.detail.max_retries 0 none
        (record s { semaphores = table })
