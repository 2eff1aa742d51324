-- ===== src/Engine/Run.antt =====
-- `LangGraphEngine.run` in its chat mode, and `_load_group` with its cache.
use openbotflow.Prelude.{ℕ, ◌+◌, ◌*◌, Option, none, some, List, ltb, nat_key, if◌then◌else◌}
use openbotflow.Prelude.Assoc.{get, put}
use openbotflow.Prelude.Int.{ℤ}
use openbotflow.Json.{Fields}
use openbotflow.Errors.{configuration_error, raise, Result, ok, err}
use openbotflow.Models.{Message, ModelGroup}
use openbotflow.Cooldown.{second}
use openbotflow.Runtime.{Shared, Env}
use openbotflow.Engine.{RunResult, Select}
use openbotflow.Engine.Fast.{run_one_fast}

abbrev pub group_cache_ttl : ℕ
group_cache_ttl = 60 * second

module _ {W : Type 0} (env : Env W) where
  -- A fresh copy of the group's row, which goes into the cache at the time `now`.
  unfoldable pub reload_group : ℕ → ℕ → Shared W → Result ModelGroup × Shared W
  unfolding put
  reload_group id now s =
      let (found, s') = env.get_group id s in
      elim found [
        | none ↦ (err (raise configuration_error "Group not found"), s')
        | some group ↦ (ok group, record s' { group_cache = put id (group, now) s'.group_cache })
      ]

  unfoldable pub load_group : ℕ → Shared W → Result ModelGroup × Shared W
  unfolding get reload_group
  load_group id s =
      let (now, w) = env.time s.world in
      let s₁ = record s { world = w } in
      elim (get id s.group_cache) [
        | none ↦ reload_group id now s₁
        | some (group, ts) ↦
            if ltb now (ts + group_cache_ttl) then (ok group, s₁) else reload_group id now s₁
      ]

  unfoldable pub run_chat :
      Select W
      → ModelGroup
      → List Message
      → Option ℤ
      → Option ℕ
      → Fields
      → Shared W
      → Result RunResult × Shared W
  unfolding run_one_fast
  run_chat select group messages temperature max_tokens extra s =
      let (r, s') = select group messages temperature max_tokens extra s in
      elim r [
        | err e ↦ (err e, s')
        | ok preselected ↦ run_one_fast env group temperature max_tokens extra preselected s'
      ]
