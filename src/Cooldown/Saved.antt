-- ===== src/Cooldown/Saved.antt =====
-- The cooldowns in the config table: `save_cooldown_state` and `load_cooldown_states` of storage/db.py,
-- and of core.py the periodic save and the restoring on start. Of the config table these are the rows
-- whose key is `cooldown:{group_id}:{model_id}`, by the two ids; the JSON of a row is taken as read
-- back, and a database that fails is left out. Nothing is saved on shutdown.
use openbotflow.Prelude.{ℕ, List, [], ◌∷◌, nat_key, pair_key}
use openbotflow.Prelude.Assoc.{put}
use openbotflow.Cooldown.{CooldownManager, ActiveCooldown, get_all_active_cooldowns, restore_all}

pub record SavedCooldown : Type 0 where
  pub failures : ℕ
  pub cooldown_until : ℕ

abbrev pub SavedCooldowns : Type 0
SavedCooldowns = List ((ℕ × ℕ) × SavedCooldown)

-- One row for each cooldown; rows that are there already are not removed.
unfoldable pub save_cooldown_state : List ActiveCooldown → SavedCooldowns → SavedCooldowns
unfolding put
save_cooldown_state [] saved = saved
save_cooldown_state (state ∷ states) saved = save_cooldown_state states (
    put (state.group_id, state.model_id)
      (record { failures = state.consecutive_failures; cooldown_until = state.cooldown_until })
      saved)

unfoldable pub load_cooldown_states : SavedCooldowns → List ActiveCooldown
load_cooldown_states [] = []
load_cooldown_states (((g, m), row) ∷ saved) =
    record {
      group_id = g;
      model_id = m;
      consecutive_failures = row.failures;
      cooldown_until = row.cooldown_until;
    }
    ∷ load_cooldown_states saved

-- One round of the periodic save.
unfoldable pub periodic_cooldown_save :
    (now_mono wall_now : ℕ) → CooldownManager → SavedCooldowns → SavedCooldowns
unfolding get_all_active_cooldowns save_cooldown_state
periodic_cooldown_save now_mono wall_now states saved =
    save_cooldown_state (get_all_active_cooldowns now_mono wall_now states) saved

-- The manager behind the start of the service.
unfoldable pub restore_cooldowns : (mono wall : ℕ) → SavedCooldowns → CooldownManager
unfolding load_cooldown_states restore_all
restore_cooldowns mono wall saved = restore_all mono wall (load_cooldown_states saved) []
