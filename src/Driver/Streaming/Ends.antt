-- ===== src/Driver/Streaming/Ends.antt =====
-- How long `_drive_stream` runs.
use openbotflow.Prelude.{
  ℕ, zero, suc, ◌+◌, ◌-◌, ◌*◌, ◌≤◌, ◌<◌, ◌≡◌, refl, ap, String, Bool, true, false, Option, none,
  some, List, [], ◌∷◌, ◌++◌, arith, length, length-append, Bool-cases, inl, inr,
}
use openbotflow.Json.{Fields}
use openbotflow.Errors.{Attempt, Error, provider_error, raise, is_group_failure, Result, ok, err}
use openbotflow.Models.{ModelGroup}
use openbotflow.Driver.{max_fallback_groups, backup, visits}
use openbotflow.Driver.Laws.{backup-some}
use openbotflow.Stream.{FinalState}
use openbotflow.Driver.Streaming.{
  Pulled, a_chunk, a_state, exhausted, raised, StreamEngine, Wire, Place, starting, pumping, ended,
  died, Drive, named, is_recoverable, final_attempts, after_load, fall_back, finish_with, handle,
  settle, emit, serialized, receive, attend, after_pull, after_start, step_from, steps,
  drive_stream,
}
use openbotflow.Driver.Streaming.Rows.{LoadsById}

abbrev pub IsBelow : {S G : Type 0} → (G → ℕ) → ℕ → Result G × S → Type 0
IsBelow left most (ok gen, s) = left gen ≤ most
IsBelow left most (err e, s) = Unit

abbrev pub IsShorter : {S G : Type 0} → (G → ℕ) → ℕ → Pulled × G × S → Type 0
IsShorter left before (a_chunk c, gen, s) = left gen < before
IsShorter left before (a_state f, gen, s) = left gen < before
IsShorter left before (exhausted, gen, s) = Unit
IsShorter left before (raised e, gen, s) = Unit

-- The generators of the runs send at most so many events each.
pub record IsBounded {S G : Type 0} (engine : StreamEngine S G) (most : ℕ) : Type 0 where
  pub left : G → ℕ
  pub run_bounded : (group : ModelGroup) (s : S) → IsBelow left most (engine.run group s)
  pub pull_shorter : (gen : G) (s : S) → IsShorter left (left gen) (engine.pull gen s)

abbrev pub IsAtEnd : {G : Type 0} → Place G → Type 0
IsAtEnd (starting group visited attempts) = ⊥
IsAtEnd (pumping group visited attempts gen usage final) = ⊥
IsAtEnd ended = Unit
IsAtEnd (died e) = Unit

-- The steps that so many more groups can take.
budget : (most groups : ℕ) → ℕ
budget most zero = 0
budget most (suc groups) = suc (suc most) + budget most groups

abbrev rest : ℕ → List ℕ → ℕ
rest most visited = budget most (max_fallback_groups - length visited)

rest-more :
    (most : ℕ) (visited : List ℕ) (id : ℕ)
    → length visited < max_fallback_groups
    → rest most visited ≡ suc (suc most) + rest most (visited ++ id ∷ [])
unfolding budget
rest-more most visited id room =
    let one : max_fallback_groups - length visited
        ≡ suc (max_fallback_groups - length (visited ++ id ∷ [])) =
      omega (arith, length-append visited (id ∷ []), room) in
    ap (budget most) one

module _ {S G : Type 0} (engine : StreamEngine S G) (wire : Wire) (group_id : ℕ)
    (loads : LoadsById engine) (most : ℕ) (bounded : IsBounded engine most) where
  -- The steps that the driver has left at most.
  cost : Place G → ℕ
  cost (starting group visited attempts) = suc (suc most) + rest most visited
  cost (pumping group visited attempts gen usage final) = suc (bounded.left gen) + rest most visited
  cost ended = 0
  cost (died e) = 0

  after_load-cost :
      (group : ModelGroup) (visited : List ℕ) (attempts : List Attempt) (fb : ℕ) (m : Drive S G)
      (r : Result ModelGroup × S)
      → engine.load_group fb m.shared ≡ r
      → backup group visited ≡ some fb
      → cost (after_load engine wire group_id visited attempts r m).place ≤ rest most visited
  unfolding after_load cost
  after_load-cost group visited attempts fb m (err e, s) l b = omega arith
  after_load-cost group visited attempts fb m (ok g, s) l b =
      let (_, new, room) = backup-some group visited fb b in
      let same = loads.same_id fb m.shared g (ap (λ r. r.0) l) in
      let fresh : visits g.id visited ≡ false = rw same new in
      rw fresh (omega (arith, rest-more most visited g.id room))

  fall_back-cost :
      (group : ModelGroup) (visited : List ℕ) (attempts : List Attempt) (final : Option FinalState)
      (e : Error) (fb : Option ℕ) (m : Drive S G)
      → backup group visited ≡ fb
      → cost (fall_back engine wire group_id fb visited attempts final e m).place
        ≤ rest most visited
  unfolding fall_back finish_with cost
  fall_back-cost group visited attempts final e none m b = omega arith
  fall_back-cost group visited attempts final e (some fb) m b =
      after_load-cost group visited attempts fb m (engine.load_group fb m.shared) refl b

  handle-cost :
      (group : ModelGroup) (visited : List ℕ) (attempts : List Attempt) (final : Option FinalState)
      (e : Error) (m : Drive S G)
      → cost (handle engine wire group_id group visited attempts final e m).place
        ≤ rest most visited
  unfolding handle finish_with cost
  handle-cost group visited attempts final e m = elim (Bool-cases (is_group_failure e.kind)) [
    | inl again ↦ rw again (
        fall_back-cost group visited (attempts ++ e.attempts) final e (backup group visited) m refl)
    | inr dead ↦ rw dead (omega arith)
  ]

  settle-cost :
      (group : ModelGroup) (visited : List ℕ) (attempts : List Attempt) (usage : Option Fields)
      (final : Option FinalState) (m : Drive S G)
      → cost (settle engine wire group_id group visited attempts usage final m).place
        ≤ rest most visited
  unfolding settle finish_with cost
  settle-cost group visited attempts usage final m = elim (Bool-cases (is_recoverable final)) [
    | inl again ↦ rw again (
        handle-cost group visited (attempts ++ final_attempts final) final
          (raise provider_error "Group stream exhausted, fallback") m)
    | inr over ↦ rw over (omega arith)
  ]

  emit-cost :
      (group : ModelGroup) (visited : List ℕ) (attempts : List Attempt) (gen : G)
      (usage : Option Fields) (final : Option FinalState) (r : Result (List String × Option Fields))
      (m : Drive S G)
      → cost (emit engine wire group_id group visited attempts gen usage final r m).place
        ≤ suc (bounded.left gen) + rest most visited
  unfolding emit cost
  emit-cost group visited attempts gen usage final (err e) m =
      omega (arith, handle-cost group visited attempts final e m)
  emit-cost group visited attempts gen usage final (ok (lines, u)) m = omega arith

  receive-cost :
      (group : ModelGroup) (visited : List ℕ) (attempts : List Attempt) (gen : G)
      (usage : Option Fields) (final : Option FinalState) (event : Pulled) (m : Drive S G)
      → cost (receive engine wire group_id group visited attempts gen usage final event m).place
        ≤ suc (bounded.left gen) + rest most visited
  unfolding receive cost
  receive-cost group visited attempts gen usage final (a_chunk c) m =
      emit-cost group visited attempts gen usage final
        (serialized engine wire group_id (named wire.model_name c)) m
  receive-cost group visited attempts gen usage final (a_state f) m = omega arith
  receive-cost group visited attempts gen usage final exhausted m =
      omega (arith, settle-cost group visited attempts usage final m)
  receive-cost group visited attempts gen usage final (raised e) m =
      omega (arith, handle-cost group visited attempts final e m)

  attend-cost :
      (group : ModelGroup) (visited : List ℕ) (attempts : List Attempt) (gen : G)
      (usage : Option Fields) (final : Option FinalState) (event : Pulled) (r : Bool × S)
      (m : Drive S G)
      → cost (attend engine wire group_id group visited attempts gen usage final event r m).place
        ≤ suc (bounded.left gen) + rest most visited
  unfolding attend
  attend-cost group visited attempts gen usage final event (true, s) m = omega (
    arith,
    settle-cost group visited attempts usage final (record m { shared = engine.close gen s }),
  )
  attend-cost group visited attempts gen usage final event (false, s) m =
      receive-cost group visited attempts gen usage final event (record m { shared = s })

  after_pull-cost :
      (group : ModelGroup) (visited : List ℕ) (attempts : List Attempt) (before : ℕ)
      (usage : Option Fields) (final : Option FinalState) (r : Pulled × G × S) (m : Drive S G)
      → IsShorter bounded.left before r
      → cost (after_pull engine wire group_id group visited attempts usage final r m).place
        ≤ before + rest most visited
  unfolding after_pull receive
  after_pull-cost group visited attempts before usage final (exhausted, gen, s) m h =
      omega (arith, settle-cost group visited attempts usage final (record m { shared = s }))
  after_pull-cost group visited attempts before usage final (raised e, gen, s) m h =
      omega (arith, handle-cost group visited attempts final e (record m { shared = s }))
  after_pull-cost group visited attempts before usage final (a_chunk c, gen, s) m h = omega (
    arith,
    attend-cost group visited attempts gen usage final (a_chunk c) (engine.is_disconnected s) m,
  )
  after_pull-cost group visited attempts before usage final (a_state f, gen, s) m h = omega (
    arith,
    attend-cost group visited attempts gen usage final (a_state f) (engine.is_disconnected s) m,
  )

  after_start-cost :
      (group : ModelGroup) (visited : List ℕ) (attempts : List Attempt) (r : Result G × S)
      (m : Drive S G)
      → IsBelow bounded.left most r
      → cost (after_start engine wire group_id group visited attempts r m).place
        ≤ suc most + rest most visited
  unfolding after_start cost
  after_start-cost group visited attempts (err e, s) m h = omega (
    arith,
    handle-cost group visited attempts none e
        (record m { shared = s; ran = m.ran ++ group.id ∷ [] }),
  )
  after_start-cost group visited attempts (ok gen, s) m h = omega arith

  step_from-cost :
      (place : Place G) (m : Drive S G)
      → m.place ≡ place
      → cost (step_from engine wire group_id place m).place ≤ cost place - 1
  unfolding step_from cost
  step_from-cost (starting group visited attempts) m e = omega (
    arith,
    after_start-cost group visited attempts (engine.run group m.shared) m
        (bounded.run_bounded group m.shared),
  )
  step_from-cost (pumping group visited attempts gen usage final) m e = omega (
    arith,
    after_pull-cost group visited attempts (bounded.left gen) usage final (engine.pull gen m.shared)
        m (bounded.pull_shorter gen m.shared),
  )
  step_from-cost ended m e = rw e (omega arith)
  step_from-cost (died x) m e = rw e (omega arith)

  cost-IsAtEnd : (place : Place G) → cost place ≤ 0 → IsAtEnd place
  unfolding cost
  cost-IsAtEnd (starting group visited attempts) h = let off : ⊥ = omega (arith, h) in off
  cost-IsAtEnd (pumping group visited attempts gen usage final) h =
      let off : ⊥ = omega (arith, h) in off
  cost-IsAtEnd ended h = tt
  cost-IsAtEnd (died e) h = tt

  steps-IsAtEnd :
      (n : ℕ) (m : Drive S G) → cost m.place ≤ n → IsAtEnd (steps engine wire group_id n m).place
  unfolding steps
  steps-IsAtEnd zero m h = cost-IsAtEnd m.place h
  steps-IsAtEnd (suc n) m h =
      steps-IsAtEnd n (step_from engine wire group_id m.place m)
        (omega (arith, step_from-cost m.place m refl, h))

  -- Where a backup group is loaded under the id that was asked for, and the generator of a group
  -- sends at most so many events, the driver is at its end after as many steps for each of three
  -- groups, with two more for the group's start and end: its fallback loop does not go on for ever.
  pub drive_stream-IsAtEnd :
      (primary : ModelGroup) (s : S)
      → IsAtEnd (drive_stream engine wire group_id primary s (3 * (most + 2))).place
  unfolding drive_stream budget cost
  drive_stream-IsAtEnd primary s =
      steps-IsAtEnd (3 * (most + 2))
        (record {
          place = starting primary (primary.id ∷ []) [];
          shared = s;
          lines = [];
          rows = [];
          logged = [];
          ran = [];
          chunk_groups = [];
        })
        (omega arith)
