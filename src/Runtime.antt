-- ===== src/Runtime.antt =====
-- The state that tasks share and what lies outside the repository: the clients' calls, the clocks,
-- sleeping and the settings. Other tasks may run while one awaits, so an awaited call returns a
-- whole new shared state; a plain call changes the outside world alone.
use openbotflow.Prelude.{ℕ, String, Option, List}
use openbotflow.Prelude.Int.{ℤ}
use openbotflow.Json.{Fields}
use openbotflow.Errors.{Result}
use openbotflow.Models.{Message, ModelGroup}
use openbotflow.Cooldown.{CooldownManager}

-- An `asyncio.Semaphore` of a provider: its size, and how many permits are taken.
pub record Semaphore : Type 0 where
  pub size : ℕ
  pub held : ℕ

-- `_cooldown_manager`, `_provider_semaphores` and `_group_cache` (with the time of each entry).
pub record Shared (W : Type 0) : Type 0 where
  pub cooldown : CooldownManager
  pub semaphores : List (ℕ × Option Semaphore)
  pub group_cache : List (ℕ × (ModelGroup × ℕ))
  pub world : W

-- The arguments of `provider.chat` and `provider.chat_stream`.
pub record ChatCall : Type 0 where
  pub provider : ℕ
  pub model : String
  pub messages : List Message
  pub temperature : Option ℤ
  pub max_tokens : Option ℕ
  pub kwargs : Fields

pub record Env (W : Type 0) : Type 0 where
  -- provider.chat, awaited
  pub chat : ChatCall → Shared W → Result Fields × Shared W
  -- waiting for a permit of a provider's semaphore
  pub wait_permit : ℕ → Shared W → Shared W
  -- asyncio.sleep, in microseconds
  pub sleep : ℕ → Shared W → Shared W
  -- the row of a group in the database, awaited
  pub get_group : ℕ → Shared W → Option ModelGroup × Shared W
  -- random.uniform(0, n), in microseconds
  pub uniform : ℕ → W → ℕ × W
  -- time.monotonic() and time.time(), in microseconds
  pub monotonic : W → ℕ × W
  pub time : W → ℕ × W
  -- get_config().upstream_semaphore_size
  pub semaphore_size : W → ℕ
