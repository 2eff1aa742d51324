-- ===== src/Tests/Routing.antt =====
-- A small world of scripted replies: cooldowns, calls, the engine and the drivers.
use openbotflow.Prelude.{
  ℕ, ◌+◌, ◌*◌, ◌≤◌, ◌<◌, ◌≡◌, ◌≢◌, ◌↔◌, refl, true, Option, none, some, List, [], ◌∷◌, arith,
  nat_key, pair_key, ◌==◌, if◌then◌else◌,
}
use openbotflow.Prelude.Assoc.{get}
use openbotflow.Prelude.Int.{pos}
use openbotflow.Json.{num, str, Fields, end, field}
use openbotflow.Errors.{
  Error, raise, provider_error, all_models_cooldown, configuration_error, Result, ok, err,
}
use openbotflow.Models.{GroupModelWithDetails, ModelEndpoint, ModelGroup, RouteResult}
use openbotflow.Cooldown.{
  record_failure, record_success, second, is_on_cooldown, get_failure_count, CooldownManager,
}
use openbotflow.Cooldown.Saved.{SavedCooldowns, periodic_cooldown_save, restore_cooldowns}
use openbotflow.Cooldown.Laws.{fail_at, fail_at-is_on_cooldown}
use openbotflow.Cooldown.Persistence.{survivor, get-restart}
use openbotflow.Retry.{is_retryable_error}
use openbotflow.Retry.Laws.{is_retryable_error-status_line}
use openbotflow.Runtime.{Shared, ChatCall, Env}
use openbotflow.Call.{ensure_provider_semaphore, call_llm}
use openbotflow.Call.Laws.{IsQuiet, Settled, call_llm-Settled}
use openbotflow.Engine.{RunResult, Select}
use openbotflow.Engine.Graph.{run_one}
use openbotflow.Engine.Fast.{run_one_fast}
use openbotflow.Engine.Equivalence.{run_one_fast-eq-run_one}
use openbotflow.Driver.{Engine, drive_chat}
use openbotflow.Driver.Laws.{IsFaithful, IsSettled, watched, unwatched, drive_chat-IsSettled}
use openbotflow.Driver.Route.{route, Agrees, drive_chat-Agrees-route}

-- The replies that are still to come, and the clock.
pub record World : Type 0 where
  pub replies : List (Result Fields)
  pub clock : ℕ

abbrev pub busy : Error
busy = raise provider_error "HTTP 503 unavailable"

abbrev refused : Error
refused = raise provider_error "HTTP 400 bad request"

abbrev pub reply : Fields
reply = field "id" (str "r1") end

abbrev sim_chat : ChatCall → Shared World → Result Fields × Shared World
sim_chat c s = elim s.world.replies [
  | [] ↦ (err refused, s)
  | r ∷ rs ↦ (r, record s { world = record { replies = rs; clock = s.world.clock + 2000 } })
]

abbrev pub sim : Env World
sim = record {
  chat = sim_chat;
  wait_permit = λ id s. s;
  sleep =
      λ t s. record s { world = record { replies = s.world.replies; clock = s.world.clock + t } };
  get_group = λ id s. (none, s);
  uniform = λ n w. (0, w);
  monotonic = λ w. (w.clock, w);
  time = λ w. (w.clock, w);
  semaphore_size = λ w. 2;
}

abbrev pub start : List (Result Fields) → Shared World
start replies = record {
  cooldown = [];
  semaphores = [];
  group_cache = [];
  world = record { replies = replies; clock = 5 * second };
}

abbrev pub detail : ℕ → GroupModelWithDetails
detail model = record {
  id = model;
  group_id = 1;
  model_id = model;
  weight = pos 1;
  is_enabled = true;
  model_name = "m";
  display_name = "";
  api_format = "";
  provider_id = 7;
  provider_name = "p";
  provider_type = "openai";
  max_retries = 2;
  cooldown_seconds = 60;
  cooldown_failure_threshold = 1;
  context_window = 0;
  proxy = "";
  extra_config = field "temperature" (num (pos 3)) end;
}

abbrev pub endpoint : ℕ → ModelEndpoint
endpoint model = record { detail = detail model; provider = 70 }

abbrev pub group : ℕ → Option ℕ → ModelGroup
group id fallback = record {
  id = id;
  name = "g";
  description = "";
  type = "sequential";
  params = end;
  is_enabled = true;
  fallback_group_id = fallback;
}

pub sim-IsQuiet : IsQuiet sim
sim-IsQuiet = record {
  chat_cooldown = λ c s. ground arith;
  chat_semaphores = λ c s. ground arith;
  permit_cooldown = λ id s. refl;
  permit_semaphores = λ id s. refl;
  sleep_cooldown = λ t s. refl;
  sleep_semaphores = λ t s. refl;
}

call_tests :
    ((call_llm sim (endpoint 4) [] 1 none none end (start (err busy ∷ ok reply ∷ []))).1.cooldown
      ≡ [])
    × (get_failure_count 1 4
          (call_llm sim
            (endpoint 4)
            []
            1
            none
            none
            end
            (start (err refused ∷ ok reply ∷ []))).1.cooldown
        ≡ 1)
unfolding call_llm record_failure record_success get_failure_count is_retryable_error
call_tests = (refl, refl)

call_llm-Settled_example :
    Settled
      (endpoint 4)
      1
      (record (start (err busy ∷ [])) { semaphores = (ensure_provider_semaphore 7 2 []).1 })
      (call_llm sim (endpoint 4) [] 1 none none end (start (err busy ∷ [])))
call_llm-Settled_example =
    call_llm-Settled sim (endpoint 4) 1 sim-IsQuiet [] none none end (start (err busy ∷ []))

fail_at-is_on_cooldown_example :
    (get_failure_count 1 4 (fail_at 1 4 3 60 (10 ∷ 20 ∷ 30 ∷ []) [])
      ≡ get_failure_count 1 4 [] + 2 + 1)
    × (((is_on_cooldown 1 4 40 (fail_at 1 4 3 60 (10 ∷ 20 ∷ 30 ∷ []) [])).0 ≡ true)
        ↔ (3 ≤ get_failure_count 1 4 [] + 2 + 1) × (40 < 30 + 60 * second))
unfolding get
fail_at-is_on_cooldown_example = fail_at-is_on_cooldown 1 4 3 60 (10 ∷ 20 ∷ []) 30 40 [] refl

-- Model 4 is cooling down; model 5 has recovered since its row was written.
abbrev half_recovered : CooldownManager
half_recovered =
    ((1, 4), record { consecutive_failures = 3; cooldown_until = 50 * second })
    ∷ ((1, 5), record { consecutive_failures = 0; cooldown_until = 0 })
    ∷ []

abbrev saved_before : SavedCooldowns
saved_before = ((1, 5), record { failures = 2; cooldown_until = 90 * second }) ∷ []

get-restart_example :
    get
      (1, 5)
      (restore_cooldowns 5
        (10 * second)
        (periodic_cooldown_save (20 * second) (8 * second) half_recovered saved_before))
    ≡ survivor
        (20 * second)
        (8 * second)
        5
        (10 * second)
        (get (1, 5) half_recovered)
        (get (1, 5) saved_before)
unfolding get
get-restart_example =
    get-restart (20 * second) (8 * second) 5 (10 * second) 1 5 half_recovered saved_before
      (refl, (refl, tt)) (refl, tt)

-- The recovered model is on cooldown again.
revived :
    (is_on_cooldown 1 5 (10 * second) (
      restore_cooldowns 5
        (10 * second)
        (periodic_cooldown_save (20 * second) (8 * second) half_recovered saved_before))).0
    ≡ true
unfolding is_on_cooldown restore_cooldowns periodic_cooldown_save
revived = refl

is_retryable_error-status_line_example : is_retryable_error busy ≡ true
is_retryable_error-status_line_example =
    is_retryable_error-status_line busy []
      (32 ∷ 117 ∷ 110 ∷ 97 ∷ 118 ∷ 97 ∷ 105 ∷ 108 ∷ 97 ∷ 98 ∷ 108 ∷ 101 ∷ []) 5 0 3 refl tt
      (omega arith) (omega arith) (omega arith) refl refl

abbrev queue : RouteResult
queue = record {
  endpoints = endpoint 4 ∷ endpoint 5 ∷ [];
  messages = [];
  temperature = none;
  max_tokens = none;
  extra_kwargs = end;
}

abbrev select_queue : Select World
select_queue g messages temperature max_tokens extra s = (ok queue, s)

run_one_fast-eq-run_one_example :
    run_one_fast sim (group 1 none) none none end queue (start (err refused ∷ ok reply ∷ []))
    ≡ run_one sim select_queue
        (group 1 none)
        []
        none
        none
        end
        (some queue)
        (start (err refused ∷ ok reply ∷ []))
run_one_fast-eq-run_one_example =
    run_one_fast-eq-run_one sim select_queue (group 1 none) [] none none end queue
      (start (err refused ∷ ok reply ∷ [])) (λ e. cc e)

-- Group 1 cools down, group 2 answers; group 9 is gone.
abbrev sim_run : ModelGroup → ℕ → Result RunResult × ℕ
sim_run g s = (
  (if g.id == 2
      then ok (record { body = reply; routing = none; attempts = [] })
      else err (raise all_models_cooldown "cooling")),
  s + 1,
)

abbrev sim_load : ℕ → ℕ → Result ModelGroup × ℕ
sim_load id s =
    ((if id == 9 then err (raise configuration_error "gone") else ok (group id none)), s)

abbrev sim_engine : Engine ℕ
sim_engine = record { run = sim_run; load_group = sim_load }

sim-IsFaithful : IsFaithful sim_engine
sim-IsFaithful = record { same_id = λ id s g h. ground arith }

drive_chat-IsSettled_example :
    IsSettled sim_engine 1
      (drive_chat (watched sim_engine) 1 "gpt" (group 1 (some 2)) (unwatched 0))
drive_chat-IsSettled_example =
    drive_chat-IsSettled sim_engine 1 "gpt" sim-IsFaithful (group 1 (some 2)) 0

drive_chat-Agrees-route_example :
    let r = route (watched sim_engine) (group 1 (some 1)) (unwatched 0) in
    let d = drive_chat (watched sim_engine) 1 "gpt" (group 1 (some 1)) (unwatched 0) in
    (r.0 ≢ none) × (d.0 ≢ none) × (d.1 ≡ r.1) × Agrees "gpt" d.1.runs r.0 d.0
drive_chat-Agrees-route_example =
    drive_chat-Agrees-route sim_engine 1 "gpt" sim-IsFaithful (group 1 (some 1)) 0
