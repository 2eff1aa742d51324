-- ===== src/Driver/Laws.antt =====
-- The fallback loop of `_drive_chat`: its rounds, the groups it visits and its audit rows.
use openbotflow.Prelude.{
  ℕ, zero, suc, ◌+◌, ◌≤◌, ◌<◌, ◌≡◌, refl, sym, ap, ◌∙◌, subst, ◌⊎◌, inl, inr, String, false, Option,
  none, some, List, [], ◌∷◌, ◌++◌, arith, nat_key, ◌==◌, length, length-append, Bool-cases,
  Option-cases,
}
use openbotflow.Json.{Fields}
use openbotflow.Errors.{Attempt, Error, type_name, is_group_failure, Result, ok, err}
use openbotflow.Models.{ModelGroup}
use openbotflow.Engine.{RunResult}
use openbotflow.Driver.{
  Engine, CallRow, Outcome, visits, backup, with_backup, after_run, drive_from, drive_chat,
  max_fallback_groups,
}

-- A backup group is loaded under the id that was asked for.
pub record IsFaithful {S : Type 0} (engine : Engine S) : Type 0 where
  pub same_id : (id : ℕ) (s : S) (g : ModelGroup) → (engine.load_group id s).0 ≡ ok g → g.id ≡ id

abbrev pub Distinct : List ℕ → Type 0
Distinct [] = Unit
Distinct (x ∷ xs) = (visits x xs ≡ false) × Distinct xs

pub visits-concat :
    (x y : ℕ) (xs : List ℕ)
    → visits x xs ≡ false
    → (y == x) ≡ false
    → visits x (xs ++ y ∷ []) ≡ false
visits-concat x y [] h k = ground arith
visits-concat x y (z ∷ xs) h k = ground (arith, visits-concat x y xs)

pub Distinct-concat :
    (y : ℕ) (xs : List ℕ) → visits y xs ≡ false → Distinct xs → Distinct (xs ++ y ∷ [])
Distinct-concat y [] h d = (refl, tt)
Distinct-concat y (x ∷ xs) h d =
    ground (arith, Distinct-concat y xs, visits-concat x y xs, nat_key.same_iff x y)

-- One run of a group, and how it ended.
pub record Run : Type 0 where
  pub ran : ModelGroup
  pub ended : Result RunResult

-- The engine's state, and the runs so far, the oldest first.
pub record Watched (S : Type 0) : Type 0 where
  pub state : S
  pub runs : List Run

abbrev pub noted :
    {S : Type 0} → ModelGroup → List Run → Result RunResult × S → Result RunResult × Watched S
noted group runs (r, s) =
    (r, record { state = s; runs = runs ++ record { ran = group; ended = r } ∷ [] })

abbrev pub kept_runs :
    {S : Type 0} → List Run → Result ModelGroup × S → Result ModelGroup × Watched S
kept_runs runs (r, s) = (r, record { state = s; runs = runs })

-- The same engine, noting each of its runs.
abbrev pub watched : {S : Type 0} → Engine S → Engine (Watched S)
watched engine = record {
  run = λ group w. noted group w.runs (engine.run group w.state);
  load_group = λ id w. kept_runs w.runs (engine.load_group id w.state);
}

abbrev pub unwatched : {S : Type 0} → S → Watched S
unwatched s = record { state = s; runs = [] }

-- The ids of the groups that were run.
abbrev pub ids_of : List Run → List ℕ
ids_of [] = []
ids_of (x ∷ xs) = x.ran.id ∷ ids_of xs

pub ids_of-concat : (xs : List Run) (x : Run) → ids_of (xs ++ x ∷ []) ≡ ids_of xs ++ x.ran.id ∷ []
ids_of-concat [] x = refl
ids_of-concat (y ∷ xs) x = ap (λ ids. y.ran.id ∷ ids) (ids_of-concat xs x)

-- A logged row that says how the request ended.
abbrev pub Matches : Result Fields → CallRow → Type 0
Matches (ok body) row = (row.status ≡ "success") × (row.error_type ≡ none)
Matches (err e) row = (row.status ≡ "error") × (row.error_type ≡ some (type_name e.kind))

abbrev pub IsAudited : ℕ → Outcome → Type 0
IsAudited group_id o =
    (row : CallRow) × (o.rows ≡ row ∷ []) × (row.group_id ≡ group_id) × Matches o.result row

-- The request died of an exception while a backup group was loaded.
abbrev pub IsLoadFailure : {S : Type 0} → Engine S → Outcome → Type 0
IsLoadFailure {S} engine o =
    (id : ℕ) × (s : S) × (e : Error) × ((engine.load_group id s).0 ≡ err e)
    × (o.result ≡ err e)
    × (o.rows ≡ [])
    × (o.attempts ≡ [])

pub record IsSettled {S : Type 0} (engine : Engine S) (group_id : ℕ)
    (r : Option Outcome × Watched S) : Type 0 where
  pub outcome : Outcome
  pub returned : r.0 ≡ some outcome
  pub distinct : Distinct (ids_of r.1.runs)
  pub bounded : length (ids_of r.1.runs) ≤ max_fallback_groups
  pub logged : IsAudited group_id outcome ⊎ IsLoadFailure engine outcome

pub backup-some :
    (group : ModelGroup) (visited : List ℕ) (fb : ℕ)
    → backup group visited ≡ some fb
    → (group.fallback_group_id ≡ some fb)
      × (visits fb visited ≡ false)
      × (length visited < max_fallback_groups)
unfolding backup
backup-some group visited fb h = ground arith

module _ {S : Type 0} (engine : Engine S) (group_id : ℕ) (model_name : String)
    (f : IsFaithful engine) where
  with_backup-IsSettled :
      (fb : ℕ) (w : Watched S) (loaded : Result ModelGroup × S)
      (next : ModelGroup → Watched S → Option Outcome × Watched S)
      → engine.load_group fb w.state ≡ loaded
      → Distinct (ids_of w.runs)
      → length (ids_of w.runs) ≤ max_fallback_groups
      → ((g : ModelGroup) (w' : Watched S)
          → g.id ≡ fb
          → w'.runs ≡ w.runs
          → IsSettled engine group_id (next g w'))
      → IsSettled engine group_id
          (with_backup (watched engine) group_id model_name (kept_runs w.runs loaded) next)
  unfolding with_backup
  with_backup-IsSettled fb w (ok g, s') next e d b h =
      h g _ (f.same_id fb w.state g (ap (λ r. r.0) e)) refl
  with_backup-IsSettled fb w (err x, s') next e d b h = record {
    outcome = _;
    returned = refl;
    distinct = d;
    bounded = b;
    logged = inr (fb, w.state, x, ap (λ r. r.0) e, refl, refl, refl);
  }

  after_run-IsSettled :
      (group : ModelGroup) (visited : List ℕ) (attempts : List Attempt) (r : Result RunResult)
      (w : Watched S) (next : List Attempt → ModelGroup → Watched S → Option Outcome × Watched S)
      → visited ≡ ids_of w.runs
      → Distinct visited
      → length visited ≤ max_fallback_groups
      → ((a : List Attempt) (g : ModelGroup) (w' : Watched S)
          → w'.runs ≡ w.runs
          → visits g.id visited ≡ false
          → length visited < max_fallback_groups
          → IsSettled engine group_id (next a g w'))
      → IsSettled engine group_id
          (after_run (watched engine) group_id model_name group visited attempts (r, w) next)
  unfolding after_run
  after_run-IsSettled group visited attempts (ok r) w next v d b h = record {
    outcome = _;
    returned = refl;
    distinct = subst Distinct v d;
    bounded = subst (λ ids. length ids ≤ max_fallback_groups) v b;
    logged = inl (_, refl, refl, (refl, refl));
  }
  after_run-IsSettled group visited attempts (err e) w next v d b h =
      let d' = subst Distinct v d in
      let b' = subst (λ ids. length ids ≤ max_fallback_groups) v b in
      elim (Bool-cases (is_group_failure e.kind)) [
        | inr dead ↦ rw dead (record {
          outcome = _;
          returned = refl;
          distinct = d';
          bounded = b';
          logged = inl (_, refl, refl, (refl, refl));
        })
        | inl again ↦ rw again (elim (Option-cases (backup group visited)) [
          | inl over ↦ rw over (record {
            outcome = _;
            returned = refl;
            distinct = d';
            bounded = b';
            logged = inl (_, refl, refl, (refl, refl));
          })
          | inr (fb, more) ↦
              let (_, new, room) = backup-some group visited fb more in
              rw more (
                with_backup-IsSettled fb w _ _ refl d' b'
                  (λ g w' same kept. h _ g w' kept (rw same new) room))
        ])
      ]

  -- A group about to be run, behind the others.
  drive_from-IsSettled :
      (fuel : ℕ) (group : ModelGroup) (visited : List ℕ) (attempts : List Attempt) (w : Watched S)
      → visited ≡ ids_of w.runs ++ group.id ∷ []
      → Distinct visited
      → length visited ≤ max_fallback_groups
      → max_fallback_groups < length visited + fuel
      → IsSettled engine group_id
          (drive_from (watched engine) group_id model_name fuel group visited attempts w)
  unfolding drive_from
  drive_from-IsSettled zero group visited attempts w v d b enough = absurd (omega arith)
  drive_from-IsSettled (suc fuel) group visited attempts w v d b enough =
      let (r, s') = engine.run group w.state in
      let run : Run = record { ran = group; ended = r } in
      let now = v ∙ sym (ids_of-concat w.runs run) in
      after_run-IsSettled group visited attempts r
        (record { state = s'; runs = w.runs ++ run ∷ [] }) _ now d b
        (λ a g w' same new room.
          let grown = length-append visited (g.id ∷ []) in
          rw new (
            drive_from-IsSettled fuel g (visited ++ g.id ∷ []) a w'
              (ap (λ ids. ids ++ g.id ∷ []) (now ∙ sym (ap ids_of same)))
              (Distinct-concat g.id visited new d) (omega (arith, grown)) (omega (arith, grown))))

  -- Where a backup group is loaded under the id that was asked for: the request is answered or
  -- refused after at most three runs of groups, no two of which have the same id. One row is logged
  -- that names the primary group and how the request ended, unless loading a backup group raised:
  -- then the request fails with that exception, and no row and no attempt is logged.
  pub drive_chat-IsSettled :
      (primary : ModelGroup) (s : S)
      → IsSettled engine group_id
          (drive_chat (watched engine) group_id model_name primary (unwatched s))
  unfolding drive_chat
  drive_chat-IsSettled primary s =
      drive_from-IsSettled max_fallback_groups primary (primary.id ∷ []) [] (unwatched s) refl
        (refl, tt) (omega arith) (omega arith)
