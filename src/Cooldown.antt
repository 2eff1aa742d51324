-- ===== src/Cooldown.antt =====
-- `CooldownManager` of router.py. Clocks count microseconds; the monotonic and the wall clock are
-- arguments, read once where the code reads them.
pub mod Laws
pub mod Saved
pub mod Persistence
use openbotflow.Prelude.{
  ℕ, ◌+◌, ◌-◌, ◌*◌, Bool, true, false, not, Option, none, some, List, [], ◌∷◌, leb, ltb, ◌==◌,
  nat_key, pair_key, if◌then◌else◌, or_else,
}
use openbotflow.Prelude.Assoc.{get, put}

abbrev pub second : ℕ
second = 1_000_000

pub record CooldownState : Type 0 where
  pub consecutive_failures : ℕ
  pub cooldown_until : ℕ

-- (group_id, model_id) -> state
abbrev pub CooldownManager : Type 0
CooldownManager = List ((ℕ × ℕ) × CooldownState)

abbrev pub fresh : CooldownState
fresh = record { consecutive_failures = 0; cooldown_until = 0 }

unfoldable pub record_success : ℕ → ℕ → CooldownManager → CooldownManager
unfolding get put
record_success group_id model_id states = elim (get (group_id, model_id) states) [
  | none ↦ states
  | some state ↦ put (group_id, model_id) fresh states
]

-- The state after one more failure.
abbrev pub failed : ℕ → ℕ → ℕ → CooldownState → CooldownState
failed threshold seconds now state =
    let failures = state.consecutive_failures + 1 in
    record {
      consecutive_failures = failures;
      cooldown_until =
          if leb threshold failures then now + seconds * second else state.cooldown_until;
    }

unfoldable pub record_failure : ℕ → ℕ → ℕ → ℕ → ℕ → CooldownManager → CooldownManager
unfolding get put
record_failure group_id model_id threshold seconds now states =
    put (group_id, model_id)
      (failed threshold seconds now (or_else (get (group_id, model_id) states) fresh)) states

-- Asking resets a cooldown that has expired.
unfoldable pub is_on_cooldown : ℕ → ℕ → ℕ → CooldownManager → Bool × CooldownManager
unfolding get put
is_on_cooldown group_id model_id now states = elim (get (group_id, model_id) states) [
  | none ↦ (false, states)
  | some state ↦
      if state.cooldown_until == 0
      then (false, states)
      else if leb state.cooldown_until now
      then (false, put (group_id, model_id) fresh states)
      else (true, states)
]

-- Does `is_on_cooldown` look at the clock?
unfoldable pub reads_clock : ℕ → ℕ → CooldownManager → Bool
unfolding get
reads_clock group_id model_id states = elim (get (group_id, model_id) states) [
  | none ↦ false
  | some state ↦ not (state.cooldown_until == 0)
]

unfoldable pub get_failure_count : ℕ → ℕ → CooldownManager → ℕ
unfolding get
get_failure_count group_id model_id states = elim (get (group_id, model_id) states) [
  | none ↦ 0
  | some state ↦ state.consecutive_failures
]

-- A cooldown as it is saved and restored; its `cooldown_until` is wall-clock time.
pub record ActiveCooldown : Type 0 where
  pub group_id : ℕ
  pub model_id : ℕ
  pub consecutive_failures : ℕ
  pub cooldown_until : ℕ

unfoldable pub get_all_active_cooldowns : ℕ → ℕ → CooldownManager → List ActiveCooldown
get_all_active_cooldowns now_mono wall_now [] = []
get_all_active_cooldowns now_mono wall_now (((g, m), state) ∷ states) =
    let rest = get_all_active_cooldowns now_mono wall_now states in
    if ltb now_mono state.cooldown_until
    then record {
      group_id = g;
      model_id = m;
      consecutive_failures = state.consecutive_failures;
      cooldown_until = wall_now + (state.cooldown_until - now_mono);
    }
      ∷ rest
    else rest

unfoldable pub restore_state : ℕ → ℕ → ℕ → ℕ → (mono wall : ℕ) → CooldownManager → CooldownManager
unfolding put
restore_state group_id model_id failures cooldown_until mono wall states =
    if leb cooldown_until wall
    then states
    else put (group_id, model_id)
        (record {
          consecutive_failures = failures;
          cooldown_until = mono + (cooldown_until - wall);
        })
        states

-- The restore loop of the service's start, over the cooldowns read back from the config table, with
-- clocks that stand still meanwhile.
unfoldable pub restore_all :
    (mono wall : ℕ) → List ActiveCooldown → CooldownManager → CooldownManager
unfolding restore_state
restore_all mono wall [] states = states
restore_all mono wall (row ∷ rows) states = restore_all mono wall rows (
    restore_state row.group_id row.model_id row.consecutive_failures row.cooldown_until mono wall
      states)
