-- ===== src/Driver/Streaming/Rows.antt =====
-- What `_drive_stream` logs, how it ends, and which groups it runs.
use openbotflow.Prelude.{
  ℕ, zero, suc, ◌≤◌, ◌≡◌, refl, sym, ap, subst, append_assoc, inl, inr, String, Bool, true, false,
  Option, none, some, List, [], ◌∷◌, ◌++◌, arith, length, length-append, Bool-cases,
}
use openbotflow.Json.{Fields}
use openbotflow.Errors.{Attempt, Error, provider_error, raise, is_group_failure, Result, ok, err}
use openbotflow.Models.{ModelGroup}
use openbotflow.Driver.{max_fallback_groups, CallRow, error_row, route_attempt, backup, visits}
use openbotflow.Driver.Laws.{Distinct, Distinct-concat, backup-some}
use openbotflow.Stream.{FinalState}
use openbotflow.Driver.Streaming.{
  Pulled, a_chunk, a_state, exhausted, raised, StreamEngine, Wire, Place, starting, pumping, ended,
  died, StreamRow, Drive, named, used_model, used_provider, final_attempts, is_recoverable,
  success_row, finish_with, after_load, fall_back, handle, settle, emit, serialized, receive,
  attend, after_pull, after_start, step_from, steps, drive_stream,
}

-- A backup group is loaded under the id that was asked for.
pub record LoadsById {S G : Type 0} (engine : StreamEngine S G) : Type 0 where
  pub same_id : (id : ℕ) (s : S) (g : ModelGroup) → (engine.load_group id s).0 ≡ ok g → g.id ≡ id

abbrev pub AtMostThree : List ℕ → Type 0
AtMostThree groups = Distinct groups × (length groups ≤ max_fallback_groups)

-- Nothing is logged.
abbrev pub IsUnlogged : {S G : Type 0} → Drive S G → Type 0
IsUnlogged m = (m.rows ≡ []) × (m.logged ≡ [])

-- One row is logged, of the primary group, and the last line is out.
abbrev pub IsClosed : {S G : Type 0} → Wire → ℕ → Drive S G → Type 0
IsClosed wire group_id m =
    ((row : StreamRow) × (m.rows ≡ row ∷ []) × (row.row.group_id ≡ group_id))
    × ((lines : List String) × (m.lines ≡ lines ++ wire.done_signal ∷ []))

-- What holds of the driver's state where it stands, but for the groups.
abbrev pub IsAccounted : {S G : Type 0} → Wire → ℕ → Place G → Drive S G → Type 0
IsAccounted wire group_id (starting group visited attempts) m = IsUnlogged m
IsAccounted wire group_id (pumping group visited attempts gen usage final) m = IsUnlogged m
IsAccounted wire group_id ended m = IsClosed wire group_id m
IsAccounted wire group_id (died e) m = IsUnlogged m

-- What the driver has visited, and what it has run.
abbrev IsVisited : {S G : Type 0} → Place G → Drive S G → Type 0
IsVisited (starting group visited attempts) m =
    AtMostThree visited × (visited ≡ m.ran ++ group.id ∷ [])
IsVisited (pumping group visited attempts gen usage final) m =
    AtMostThree visited × (visited ≡ m.ran)
IsVisited ended m = AtMostThree m.ran
IsVisited (died e) m = AtMostThree m.ran

visits-prefix : (x y : ℕ) (xs : List ℕ) → visits x (xs ++ y ∷ []) ≡ false → visits x xs ≡ false
visits-prefix x y [] h = refl
visits-prefix x y (z ∷ xs) h = ground (arith, visits-prefix x y xs)

Distinct-prefix : (y : ℕ) (xs : List ℕ) → Distinct (xs ++ y ∷ []) → Distinct xs
Distinct-prefix y [] d = tt
Distinct-prefix y (x ∷ xs) (new, d) = (visits-prefix x y xs new, Distinct-prefix y xs d)

AtMostThree-ran :
    {S G : Type 0} (place : Place G) (m : Drive S G) → IsVisited place m → AtMostThree m.ran
AtMostThree-ran (starting group visited attempts) m ((d, n), e) = (
  Distinct-prefix group.id m.ran (subst Distinct e d),
  omega (arith, length-append m.ran (group.id ∷ []), ap length e),
)
AtMostThree-ran (pumping group visited attempts gen usage final) m (v, e) = subst AtMostThree e v
AtMostThree-ran ended m v = v
AtMostThree-ran (died e) m v = v

module _ {S G : Type 0} (engine : StreamEngine S G) (wire : Wire) (group_id : ℕ)
    (loads : LoadsById engine) where
  abbrev Holds : Drive S G → Type 0
  Holds m = IsAccounted wire group_id m.place m × IsVisited m.place m

  -- In the run of a group, whatever the place that the state still shows.
  abbrev IsOpen : List ℕ → Drive S G → Type 0
  IsOpen visited m = IsUnlogged m × (AtMostThree visited × (visited ≡ m.ran))

  finish_with-Holds :
      (row : CallRow) (usage : Option Fields) (attempts : List Attempt) (last : List String)
      (visited : List ℕ) (m : Drive S G)
      → row.group_id ≡ group_id
      → IsOpen visited m
      → Holds (finish_with engine wire group_id row usage attempts last m)
  unfolding finish_with
  finish_with-Holds row usage attempts last visited m e ((r, l), (v, e')) = (
    (
      (record { row = row; usage = usage }, rw r refl, e),
      (m.lines ++ last, sym (append_assoc m.lines last (wire.done_signal ∷ []))),
    ),
    subst AtMostThree e' v,
  )

  after_load-Holds :
      (group : ModelGroup) (visited : List ℕ) (attempts : List Attempt) (fb : ℕ) (m : Drive S G)
      (r : Result ModelGroup × S)
      → engine.load_group fb m.shared ≡ r
      → backup group visited ≡ some fb
      → IsOpen visited m
      → Holds (after_load engine wire group_id visited attempts r m)
  unfolding after_load
  after_load-Holds group visited attempts fb m (err e, s) l b (u, (v, e')) =
      (u, subst AtMostThree e' v)
  after_load-Holds group visited attempts fb m (ok g, s) l b (u, ((d, n), e')) =
      let (_, new, room) = backup-some group visited fb b in
      let same = loads.same_id fb m.shared g (ap (λ r. r.0) l) in
      let fresh : visits g.id visited ≡ false = rw same new in
      rw fresh (
        u,
        (
          (
            Distinct-concat g.id visited fresh d,
            omega (arith, length-append visited (g.id ∷ []), room),
          ),
          ap (λ v. v ++ g.id ∷ []) e',
        ),
      )

  fall_back-Holds :
      (group : ModelGroup) (visited : List ℕ) (attempts : List Attempt) (final : Option FinalState)
      (e : Error) (fb : Option ℕ) (m : Drive S G)
      → backup group visited ≡ fb
      → IsOpen visited m
      → Holds (fall_back engine wire group_id fb visited attempts final e m)
  unfolding fall_back
  fall_back-Holds group visited attempts final e none m b h =
      finish_with-Holds (error_row group_id (used_model final) (used_provider final) e) none
        attempts (wire.error_line e.message ∷ []) visited m refl h
  fall_back-Holds group visited attempts final e (some fb) m b h =
      after_load-Holds group visited attempts fb m (engine.load_group fb m.shared) refl b h

  handle-Holds :
      (group : ModelGroup) (visited : List ℕ) (attempts : List Attempt) (final : Option FinalState)
      (e : Error) (m : Drive S G)
      → IsOpen visited m
      → Holds (handle engine wire group_id group visited attempts final e m)
  unfolding handle
  handle-Holds group visited attempts final e m h = elim (Bool-cases (is_group_failure e.kind)) [
    | inl again ↦ rw again (
        fall_back-Holds group visited (attempts ++ e.attempts) final e (backup group visited) m refl
          h)
    | inr dead ↦ rw dead (
        finish_with-Holds (error_row group_id none none e) none
          (attempts ++ route_attempt group.id e ∷ []) (wire.error_line e.message ∷ []) visited m
          refl h)
  ]

  settle-Holds :
      (group : ModelGroup) (visited : List ℕ) (attempts : List Attempt) (usage : Option Fields)
      (final : Option FinalState) (m : Drive S G)
      → IsOpen visited m
      → Holds (settle engine wire group_id group visited attempts usage final m)
  unfolding settle
  settle-Holds group visited attempts usage final m h = elim (Bool-cases (is_recoverable final)) [
    | inl again ↦ rw again (
        handle-Holds group visited (attempts ++ final_attempts final) final
          (raise provider_error "Group stream exhausted, fallback") m h)
    | inr over ↦ rw over (
        finish_with-Holds (success_row group_id final) usage (attempts ++ final_attempts final) []
          visited m refl h)
  ]

  emit-Holds :
      (group : ModelGroup) (visited : List ℕ) (attempts : List Attempt) (gen : G)
      (usage : Option Fields) (final : Option FinalState) (r : Result (List String × Option Fields))
      (m : Drive S G)
      → IsOpen visited m
      → Holds (emit engine wire group_id group visited attempts gen usage final r m)
  unfolding emit
  emit-Holds group visited attempts gen usage final (err e) m h =
      handle-Holds group visited attempts final e m h
  emit-Holds group visited attempts gen usage final (ok (lines, u)) m h = h

  receive-Holds :
      (group : ModelGroup) (visited : List ℕ) (attempts : List Attempt) (gen : G)
      (usage : Option Fields) (final : Option FinalState) (event : Pulled) (m : Drive S G)
      → IsOpen visited m
      → Holds (receive engine wire group_id group visited attempts gen usage final event m)
  unfolding receive
  receive-Holds group visited attempts gen usage final (a_chunk c) m h =
      emit-Holds group visited attempts gen usage final
        (serialized engine wire group_id (named wire.model_name c)) m h
  receive-Holds group visited attempts gen usage final (a_state f) m h = h
  receive-Holds group visited attempts gen usage final exhausted m h =
      settle-Holds group visited attempts usage final m h
  receive-Holds group visited attempts gen usage final (raised e) m h =
      handle-Holds group visited attempts final e m h

  attend-Holds :
      (group : ModelGroup) (visited : List ℕ) (attempts : List Attempt) (gen : G)
      (usage : Option Fields) (final : Option FinalState) (event : Pulled) (r : Bool × S)
      (m : Drive S G)
      → IsOpen visited m
      → Holds (attend engine wire group_id group visited attempts gen usage final event r m)
  unfolding attend
  attend-Holds group visited attempts gen usage final event (true, s) m h =
      settle-Holds group visited attempts usage final (record m { shared = engine.close gen s }) h
  attend-Holds group visited attempts gen usage final event (false, s) m h =
      receive-Holds group visited attempts gen usage final event (record m { shared = s }) h

  after_pull-Holds :
      (group : ModelGroup) (visited : List ℕ) (attempts : List Attempt) (usage : Option Fields)
      (final : Option FinalState) (r : Pulled × G × S) (m : Drive S G)
      → IsOpen visited m
      → Holds (after_pull engine wire group_id group visited attempts usage final r m)
  unfolding after_pull
  after_pull-Holds group visited attempts usage final (exhausted, gen, s) m h =
      receive-Holds group visited attempts gen usage final exhausted (record m { shared = s }) h
  after_pull-Holds group visited attempts usage final (raised e, gen, s) m h =
      receive-Holds group visited attempts gen usage final (raised e) (record m { shared = s }) h
  after_pull-Holds group visited attempts usage final (a_chunk c, gen, s) m h =
      attend-Holds group visited attempts gen usage final (a_chunk c) (engine.is_disconnected s) m h
  after_pull-Holds group visited attempts usage final (a_state f, gen, s) m h =
      attend-Holds group visited attempts gen usage final (a_state f) (engine.is_disconnected s) m h

  after_start-Holds :
      (group : ModelGroup) (visited : List ℕ) (attempts : List Attempt) (r : Result G × S)
      (m : Drive S G)
      → IsUnlogged m × (AtMostThree visited × (visited ≡ m.ran ++ group.id ∷ []))
      → Holds (after_start engine wire group_id group visited attempts r m)
  unfolding after_start
  after_start-Holds group visited attempts (err e, s) m h =
      handle-Holds group visited attempts none e
        (record m { shared = s; ran = m.ran ++ group.id ∷ [] }) h
  after_start-Holds group visited attempts (ok gen, s) m h = h

  step_from-Holds :
      (place : Place G) (m : Drive S G)
      → m.place ≡ place
      → IsAccounted wire group_id place m × IsVisited place m
      → Holds (step_from engine wire group_id place m)
  unfolding step_from
  step_from-Holds (starting group visited attempts) m e h =
      after_start-Holds group visited attempts (engine.run group m.shared) m h
  step_from-Holds (pumping group visited attempts gen usage final) m e h =
      after_pull-Holds group visited attempts usage final (engine.pull gen m.shared) m h
  step_from-Holds ended m e h = rw e h
  step_from-Holds (died x) m e h = rw e h

  steps-Holds : (n : ℕ) (m : Drive S G) → Holds m → Holds (steps engine wire group_id n m)
  unfolding steps
  steps-Holds zero m h = h
  steps-Holds (suc n) m h =
      steps-Holds n (step_from engine wire group_id m.place m) (step_from-Holds m.place m refl h)

  drive_stream-Holds :
      (primary : ModelGroup) (s : S) (n : ℕ) → Holds (drive_stream engine wire group_id primary s n)
  unfolding drive_stream
  drive_stream-Holds primary s n = steps-Holds n _ ((refl, refl), (((refl, tt), omega arith), refl))

  -- Where a backup group is loaded under the id that was asked for: at whatever step the client
  -- stops to listen, at most three groups have been run, no group twice. Nothing has been logged
  -- before the driver is at its end, and at its end exactly one row, which names the primary group,
  -- and `done_signal` is the last line. If the driver died of an exception, no row and no attempt
  -- is logged.
  pub drive_stream-IsAccounted :
      (primary : ModelGroup) (s : S) (n : ℕ)
      → IsAccounted wire group_id
          (drive_stream engine wire group_id primary s n).place
          (drive_stream engine wire group_id primary s n)
        × AtMostThree (drive_stream engine wire group_id primary s n).ran
  drive_stream-IsAccounted primary s n =
      let m = drive_stream engine wire group_id primary s n in
      let (accounted, visited) = drive_stream-Holds primary s n in
      (accounted, AtMostThree-ran m.place m visited)
