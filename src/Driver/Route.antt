-- ===== src/Driver/Route.antt =====
-- `LangGraphEngine.route`, the older loop over backup groups, and how it agrees with `_drive_chat`.
use openbotflow.Prelude.{
  ℕ, zero, suc, ◌≡◌, ◌≢◌, refl, sym, ◌∙◌, subst, ◌⊎◌, inl, inr, String, Option, none, some, List,
  [], ◌∷◌, ◌++◌, arith, leb, nat_key, length, if◌then◌else◌, Bool-cases, Option-cases,
}
use openbotflow.Json.{str, put_field}
use openbotflow.Errors.{Attempt, Error, provider_error, raise, is_group_failure, Result, ok, err}
use openbotflow.Models.{ModelGroup}
use openbotflow.Engine.{RunResult}
use openbotflow.Driver.{
  Engine, Outcome, visits, add, max_fallback_groups, backup, with_backup, after_run, drive_from,
  drive_chat,
}
use openbotflow.Driver.Laws.{
  IsFaithful, drive_chat-IsSettled, Run, Watched, noted, kept_runs, watched, unwatched,
}

-- The next group, or the error that ends the route.
unfoldable pub route_backup : ModelGroup → List ℕ → Error → Error ⊎ ℕ
route_backup group visited e = elim group.fallback_group_id [
  | none ↦ inl e
  | some fb ↦
      if visits fb visited
      then inl (raise provider_error "No fallback group available")
      else if leb max_fallback_groups (length visited)
      then inl (raise provider_error "Fallback chain too deep")
      else inr fb
]

module _ {S : Type 0} (engine : Engine S) where
  unfoldable pub with_route_backup :
      Result ModelGroup × S
      → (ModelGroup → S → Option (Result RunResult) × S)
      → Option (Result RunResult) × S
  with_route_backup (err e, s) next = (some (err e), s)
  with_route_backup (ok group, s) next = next group s

  unfoldable pub after_route :
      ModelGroup
      → List ℕ
      → Result RunResult × S
      → (ModelGroup → S → Option (Result RunResult) × S)
      → Option (Result RunResult) × S
  unfolding is_group_failure route_backup with_route_backup
  after_route group visited (ok r, s) next = (some (ok r), s)
  after_route group visited (err e, s) next =
      if is_group_failure e.kind
      then elim (route_backup group visited e) [
        | inl e' ↦ (some (err e'), s)
        | inr fb ↦ with_route_backup (engine.load_group fb s) next
      ]
      else (some (err e), s)

  unfoldable pub route_from : ℕ → ModelGroup → List ℕ → S → Option (Result RunResult) × S
  unfolding after_route
  route_from zero group visited s = (none, s)
  route_from (suc fuel) group visited s =
      after_route group visited (engine.run group s)
        (λ group' s'. route_from fuel group' (add group'.id visited) s')

  unfoldable pub route : ModelGroup → S → Option (Result RunResult) × S
  unfolding route_from
  route group s = route_from max_fallback_groups group (group.id ∷ []) s

-- The two errors of a route whose backups are used up.
abbrev pub IsUsedUp : Error → Type 0
IsUsedUp e =
    (e ≡ raise provider_error "No fallback group available")
    ⊎ (e ≡ raise provider_error "Fallback chain too deep")

-- The last of the runs ended with that error.
abbrev pub IsLastError : Error → List Run → Type 0
IsLastError e runs =
    (earlier : List Run) × (group : ModelGroup) × (runs
      ≡ earlier ++ record { ran = group; ended = err e } ∷ [])

-- The same answer with the model's name set; or the same error; or, where the route reports that its
-- backups are used up, the error of the last run.
abbrev pub Agrees : String → List Run → Option (Result RunResult) → Option Outcome → Type 0
Agrees name runs none o = o ≡ none
Agrees name runs (some (ok r)) o =
    (out : Outcome) × (o ≡ some out) × (out.result ≡ ok (put_field "model" (str name) r.body))
Agrees name runs (some (err e)) o =
    (out : Outcome) × (e' : Error) × (o ≡ some out)
    × (out.result ≡ err e')
    × ((e' ≡ e) ⊎ IsUsedUp e × IsLastError e' runs)

module _ {S : Type 0} (engine : Engine S) (group_id : ℕ) (name : String) where
  none-some : (o : Outcome) → none ≢ some o
  none-some o h = cc

  abbrev Both : Option (Result RunResult) × Watched S → Option Outcome × Watched S → Type 0
  Both r d = Agrees name d.1.runs r.0 d.0 × (d.1 ≡ r.1)

  with_backup-Both :
      (runs : List Run) (r : Result ModelGroup × S)
      (next : ModelGroup → Watched S → Option (Result RunResult) × Watched S)
      (next' : ModelGroup → Watched S → Option Outcome × Watched S)
      → ((g : ModelGroup) (w : Watched S) → Both (next g w) (next' g w))
      → Both
          (with_route_backup (watched engine) (kept_runs runs r) next)
          (with_backup (watched engine) group_id name (kept_runs runs r) next')
  unfolding with_route_backup with_backup
  with_backup-Both runs (ok g, s) next next' h = h g _
  with_backup-Both runs (err e, s) next next' h = ((_, e, refl, refl, inl refl), refl)

  -- The two choices of a backup are one.
  route_backup_cases :
      (group : ModelGroup) (visited : List ℕ) (e : Error)
      → ((x : Error) × (route_backup group visited e ≡ inl x)
          × (backup group visited ≡ none)
          × ((e ≡ x) ⊎ IsUsedUp x))
        ⊎ ((fb : ℕ) × (route_backup group visited e ≡ inr fb) × (backup group visited ≡ some fb))
  unfolding route_backup backup
  route_backup_cases group visited e = elim (Option-cases group.fallback_group_id) [
    | inl n ↦ inl (e, ground arith, ground arith, inl refl)
    | inr (fb, n) ↦ elim (Bool-cases (visits fb visited)) [
      | inl seen ↦ inl (
        raise provider_error "No fallback group available",
        ground arith,
        ground arith,
        inr (inl refl),
      )
      | inr new ↦ elim (Bool-cases (leb max_fallback_groups (length visited))) [
        | inl full ↦ inl (
          raise provider_error "Fallback chain too deep",
          ground arith,
          ground arith,
          inr (inr refl),
        )
        | inr room ↦ inr (fb, ground arith, ground arith)
      ]
    ]
  ]

  same_or_last :
      (e x : Error) (group : ModelGroup) (runs : List Run)
      → (e ≡ x) ⊎ IsUsedUp x
      → (e ≡ x) ⊎ IsUsedUp x × IsLastError e (runs ++ record { ran = group; ended = err e } ∷ [])
  same_or_last e x group runs (inl same) = inl same
  same_or_last e x group runs (inr used_up) = inr (used_up, (runs, group, refl))

  after_run-Both :
      (group : ModelGroup) (visited : List ℕ) (attempts : List Attempt) (runs : List Run)
      (r : Result RunResult × S)
      (next : ModelGroup → Watched S → Option (Result RunResult) × Watched S)
      (next' : List Attempt → ModelGroup → Watched S → Option Outcome × Watched S)
      → ((a : List Attempt) (g : ModelGroup) (w : Watched S) → Both (next g w) (next' a g w))
      → Both (after_route (watched engine) group visited (noted group runs r) next) (
          after_run
            (watched engine)
            group_id
            name
            group
            visited
            attempts
            (noted group runs r)
            next')
  unfolding after_route after_run
  after_run-Both group visited attempts runs (ok r, s) next next' h = ((_, refl, refl), refl)
  after_run-Both group visited attempts runs (err e, s) next next' h =
      elim (Bool-cases (is_group_failure e.kind)) [
        | inr dead ↦ rw dead ((_, e, refl, refl, inl refl), refl)
        | inl again ↦ rw again (elim (route_backup_cases group visited e) [
          | inl (x, a, b, same) ↦
              rw (a, b) ((_, e, refl, refl, same_or_last e x group runs same), refl)
          | inr (fb, a, b) ↦
              rw (a, b) (with_backup-Both _ _ next (next' (attempts ++ e.attempts)) (h _))
        ])
      ]

  drive_from-Both :
      (fuel : ℕ) (group : ModelGroup) (visited : List ℕ) (attempts : List Attempt) (w : Watched S)
      → Both
          (route_from (watched engine) fuel group visited w)
          (drive_from (watched engine) group_id name fuel group visited attempts w)
  unfolding route_from drive_from
  drive_from-Both zero group visited attempts w = (refl, refl)
  drive_from-Both (suc fuel) group visited attempts w =
      after_run-Both group visited attempts w.runs (engine.run group w.state) _ _
        (λ a g w'. drive_from-Both fuel g (add g.id visited) a w')

  -- Over an engine that loads a backup group under the id that was asked for, both loops return, and
  -- make the same runs, in the same order and with the same ends, to the same state. Both answer, the
  -- body the same but for the model's name, which `_drive_chat` sets; or both fail, with the same
  -- error: but where the route says that no fallback group is available or that the chain is too
  -- deep, `_drive_chat` may fail with the error of the last run instead.
  pub drive_chat-Agrees-route :
      (f : IsFaithful engine) (group : ModelGroup) (s : S)
      → let r = route (watched engine) group (unwatched s) in
        let d = drive_chat (watched engine) group_id name group (unwatched s) in
        (r.0 ≢ none) × (d.0 ≢ none) × (d.1 ≡ r.1) × Agrees name d.1.runs r.0 d.0
  unfolding route drive_chat
  drive_chat-Agrees-route f group s =
      let d = drive_chat (watched engine) group_id name group (unwatched s) in
      let (agrees, same) =
        drive_from-Both max_fallback_groups group (group.id ∷ []) [] (unwatched s) in
      let returned = (drive_chat-IsSettled engine group_id name f group s).returned in
      let never : d.0 ≢ none = λ h. none-some _ (sym h ∙ returned) in
      ((λ h. never (subst (λ x. Agrees name d.1.runs x d.0) h agrees)), never, same, agrees)
