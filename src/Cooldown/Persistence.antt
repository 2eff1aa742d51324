-- ===== src/Cooldown/Persistence.antt =====
-- What a restart makes of the cooldowns, after a periodic save.
use openbotflow.Prelude.{
  ℕ, ◌+◌, ◌-◌, ◌≡◌, refl, ap, ◌∙◌, Option, none, some, List, [], ◌∷◌, arith, leb, ltb, nat_key,
  pair_key, if◌then◌else◌, Bool-cases, inl, inr, Key, ◌==◌,
}
use openbotflow.Prelude.Assoc.{get, put, get-put, put-IsDict, IsDict}
use openbotflow.Cooldown.{
  CooldownState, CooldownManager, ActiveCooldown, get_all_active_cooldowns, restore_state,
  restore_all,
}
use openbotflow.Cooldown.Saved.{
  SavedCooldown, SavedCooldowns, save_cooldown_state, load_cooldown_states, periodic_cooldown_save,
  restore_cooldowns,
}

save_cooldown_state-IsDict :
    (states : List ActiveCooldown) (saved : SavedCooldowns)
    → IsDict saved
    → IsDict (save_cooldown_state states saved)
unfolding save_cooldown_state
save_cooldown_state-IsDict [] saved d = d
save_cooldown_state-IsDict (state ∷ states) saved d = save_cooldown_state-IsDict states _ (
    put-IsDict (state.group_id, state.model_id)
      (record { failures = state.consecutive_failures; cooldown_until = state.cooldown_until })
      saved d)

module _ (mono wall : ℕ) where
  -- The row of a model behind a save: of its cooldown if it is cooling down, or else as before.
  abbrev pub row_behind : Option CooldownState → Option SavedCooldown → Option SavedCooldown
  row_behind none before = before
  row_behind (some state) before =
      if ltb mono state.cooldown_until
      then some (record {
        failures = state.consecutive_failures;
        cooldown_until = wall + (state.cooldown_until - mono);
      })
      else before

  get-save :
      (k : ℕ × ℕ) (states : CooldownManager) (saved : SavedCooldowns)
      → IsDict states
      → get k (save_cooldown_state (get_all_active_cooldowns mono wall states) saved)
        ≡ row_behind (get k states) (get k saved)
  unfolding save_cooldown_state get_all_active_cooldowns get
  get-save k [] saved d = refl
  get-save k (((g, m), state) ∷ states) saved (new, d) =
      let row : SavedCooldown = record {
        failures = state.consecutive_failures;
        cooldown_until = wall + (state.cooldown_until - mono);
      } in
      let e : Key (ℕ × ℕ) = pair_key in
      ground (
        arith,
        get-save k states saved d,
        get-save k states (put (g, m) row saved) d,
        get-put (g, m) k row saved,
        e.same_iff (g, m) k,
      )

module _ (mono wall : ℕ) where
  -- What a start makes of a row: the rest of the cooldown, if its deadline is still ahead.
  abbrev pub restored : Option SavedCooldown → Option CooldownState → Option CooldownState
  restored none before = before
  restored (some row) before =
      if leb row.cooldown_until wall
      then before
      else some (record {
        consecutive_failures = row.failures;
        cooldown_until = mono + (row.cooldown_until - wall);
      })

  get-restore_state :
      (g m failures deadline : ℕ) (k : ℕ × ℕ) (acc : CooldownManager)
      → get k (restore_state g m failures deadline mono wall acc) ≡ (
          if leb deadline wall
          then get k acc
          else if (g, m) == k
          then some (record {
            consecutive_failures = failures;
            cooldown_until = mono + (deadline - wall);
          })
          else get k acc)
  unfolding restore_state
  get-restore_state g m failures deadline k acc = elim (Bool-cases (leb deadline wall)) [
    | inl late ↦ rw late
    | inr ahead ↦ rw ahead (get-put (g, m) k _ acc)
  ]

  get-restore_all :
      (k : ℕ × ℕ) (saved : SavedCooldowns) (acc : CooldownManager)
      → IsDict saved
      → get k (restore_all mono wall (load_cooldown_states saved) acc)
        ≡ restored (get k saved) (get k acc)
  unfolding restore_all load_cooldown_states get
  get-restore_all k [] acc d = refl
  get-restore_all k (((g, m), row) ∷ saved) acc (new, d) =
      let after = restore_state g m row.failures row.cooldown_until mono wall acc in
      let e : Key (ℕ × ℕ) = pair_key in
      ground (
        arith,
        get-restore_all k saved after d,
        get-restore_state g m row.failures row.cooldown_until k acc,
        e.same_iff (g, m) k,
      )

-- What a restart makes of a model, of the state and the row that it had at the last save.
abbrev pub survivor :
    (mono wall mono' wall' : ℕ) → Option CooldownState → Option SavedCooldown → Option CooldownState
survivor mono wall mono' wall' state row =
    restored mono' wall' (row_behind mono wall state row) none

-- A periodic save and then a restart, where each model has one state and one row at most. A model
-- that was cooling down at the save goes on to the same wall-clock deadline with its failures, if
-- that is still ahead. For any other model the row of an earlier save counts: it is put on cooldown
-- until that row's deadline, if that is still ahead, even if it had recovered by the time of the
-- save. In all other cases the model starts without a state.
pub get-restart :
    (mono wall mono' wall' g m : ℕ) (states : CooldownManager) (saved : SavedCooldowns)
    → IsDict states
    → IsDict saved
    → get (g, m) (restore_cooldowns mono' wall' (periodic_cooldown_save mono wall states saved))
      ≡ survivor mono wall mono' wall' (get (g, m) states) (get (g, m) saved)
unfolding restore_cooldowns periodic_cooldown_save get
get-restart mono wall mono' wall' g m states saved d d' =
    get-restore_all mono' wall' (g, m) _ []
      (save_cooldown_state-IsDict (get_all_active_cooldowns mono wall states) saved d')
    ∙ ap (λ row. restored mono' wall' row none) (get-save mono wall (g, m) states saved d)
