-- ===== src/Driver/Streaming/OneGroup.antt =====
-- Which groups' chunks `_drive_stream` sends to a client.
use openbotflow.Prelude.{
  ℕ, zero, suc, ◌≡◌, refl, sym, ap, ◌⊎◌, inl, inr, String, Bool, true, false, Option, none, some,
  List, [], ◌∷◌, ◌++◌, All, All-append, Bool-cases,
}
use openbotflow.Json.{Json, Fields, null, bool, num, str, arr, obj}
use openbotflow.Errors.{Attempt, Error, provider_error, raise, is_group_failure, Result, ok, err}
use openbotflow.Models.{ModelGroup}
use openbotflow.Driver.{backup}
use openbotflow.Stream.{FinalState}
use openbotflow.Driver.Streaming.{
  Pulled, a_chunk, a_state, exhausted, raised, StreamEngine, Wire, Place, starting, pumping, ended,
  died, Drive, named, is_recoverable, after_load, fall_back, finish_with, handle, final_attempts,
  settle, emit, serialized, receive, attend, after_pull, after_start, step_from, steps,
  drive_stream,
}
use openbotflow.Driver.Streaming.Commits.{
  Stage, fresh, committed, over, Follows, Starts, IsCommitting, SerializesOrDies,
}

-- No chunk is out, or the chunks are all from one group.
abbrev IsSilent : {S G : Type 0} → Drive S G → Type 0
IsSilent m = m.chunk_groups ≡ []

abbrev IsFrom : {S G : Type 0} → ℕ → Drive S G → Type 0
IsFrom id m = All (λ (g : ℕ). g ≡ id) m.chunk_groups

abbrev pub IsOneGroup : {S G : Type 0} → Drive S G → Type 0
IsOneGroup m = (id : ℕ) × All (λ (g : ℕ). g ≡ id) m.chunk_groups

abbrev Sent : Stage → Option FinalState → ℕ → List ℕ → Type 0
Sent fresh final id gs = (gs ≡ []) × (is_recoverable final ≡ false)
Sent committed final id gs = All (λ (g : ℕ). g ≡ id) gs × (is_recoverable final ≡ false)
Sent over final id gs = (gs ≡ []) ⊎ (All (λ (g : ℕ). g ≡ id) gs × (is_recoverable final ≡ false))

Sent-over :
    (stage : Stage) (final : Option FinalState) (id : ℕ) (gs : List ℕ)
    → Sent stage final id gs
    → Sent over final id gs
Sent-over fresh final id gs (h, r) = inl h
Sent-over committed final id gs h = inr h
Sent-over over final id gs h = h

IsSilent-IsOneGroup : {S G : Type 0} (m : Drive S G) → IsSilent m → IsOneGroup m
IsSilent-IsOneGroup m h = (0, rw h tt)

IsSilent-IsFrom : {S G : Type 0} (id : ℕ) (m : Drive S G) → IsSilent m → IsFrom id m
IsSilent-IsFrom id m h = rw h tt

Sent-IsOneGroup :
    {S G : Type 0} (stage : Stage) (final : Option FinalState) (id : ℕ) (m : Drive S G)
    → Sent stage final id m.chunk_groups
    → IsOneGroup m
Sent-IsOneGroup fresh final id m (h, r) = IsSilent-IsOneGroup m h
Sent-IsOneGroup committed final id m (h, r) = (id, h)
Sent-IsOneGroup over final id m (inl h) = IsSilent-IsOneGroup m h
Sent-IsOneGroup over final id m (inr (h, r)) = (id, h)

-- Whether a call raised an error that lets a group fall back.
abbrev fails_group {ℓ} : {A : Type ℓ} → Result A → Bool
fails_group (ok a) = false
fails_group (err e) = is_group_failure e.kind

module _ {S G : Type 0} (engine : StreamEngine S G) (wire : Wire) (group_id : ℕ)
    (commits : IsCommitting engine) (dies : SerializesOrDies wire) where
  abbrev Keeps : Place G → Drive S G → Type 0
  Keeps (starting group visited attempts) m = IsSilent m
  Keeps (pumping group visited attempts gen usage final) m =
      Sent (commits.stage gen) final group.id m.chunk_groups
  Keeps ended m = IsOneGroup m
  Keeps (died e) m = IsOneGroup m

  abbrev Holds : Drive S G → Type 0
  Holds m = Keeps m.place m

  after_load-Holds :
      (visited : List ℕ) (attempts : List Attempt) (r : Result ModelGroup × S) (m : Drive S G)
      → IsSilent m
      → Holds (after_load engine wire group_id visited attempts r m)
  unfolding after_load
  after_load-Holds visited attempts (err e, s) m h = IsSilent-IsOneGroup m h
  after_load-Holds visited attempts (ok g, s) m h = h

  fall_back-Holds :
      (fb : Option ℕ) (visited : List ℕ) (attempts : List Attempt) (final : Option FinalState)
      (e : Error) (m : Drive S G)
      → IsSilent m
      → Holds (fall_back engine wire group_id fb visited attempts final e m)
  unfolding fall_back finish_with
  fall_back-Holds none visited attempts final e m h = IsSilent-IsOneGroup m h
  fall_back-Holds (some fb) visited attempts final e m h =
      after_load-Holds visited attempts (engine.load_group fb m.shared) m h

  handle-Holds :
      (group : ModelGroup) (visited : List ℕ) (attempts : List Attempt) (final : Option FinalState)
      (e : Error) (m : Drive S G)
      → IsSilent m ⊎ (IsFrom group.id m × (is_group_failure e.kind ≡ false))
      → Holds (handle engine wire group_id group visited attempts final e m)
  unfolding handle finish_with
  handle-Holds group visited attempts final e m (inr (h, dead)) = rw dead (group.id, h)
  handle-Holds group visited attempts final e m (inl h) =
      elim (Bool-cases (is_group_failure e.kind)) [
        | inl again ↦
            rw again
              (fall_back-Holds (backup group visited) visited (attempts ++ e.attempts) final e m h)
        | inr dead ↦ rw dead (IsSilent-IsOneGroup m h)
      ]

  settle-Holds :
      (group : ModelGroup) (visited : List ℕ) (attempts : List Attempt) (usage : Option Fields)
      (final : Option FinalState) (m : Drive S G)
      → Sent over final group.id m.chunk_groups
      → Holds (settle engine wire group_id group visited attempts usage final m)
  unfolding settle finish_with
  settle-Holds group visited attempts usage final m (inr (h, r)) = rw r (group.id, h)
  settle-Holds group visited attempts usage final m (inl h) =
      elim (Bool-cases (is_recoverable final)) [
        | inl again ↦ rw again (
            handle-Holds group visited (attempts ++ final_attempts final) final
              (raise provider_error "Group stream exhausted, fallback") m (inl h))
        | inr done ↦ rw done (IsSilent-IsOneGroup m h)
      ]

  -- A chunk that is passed on, from a generator that sent nothing before it, or chunks.
  emit-Holds :
      (group : ModelGroup) (visited : List ℕ) (attempts : List Attempt) (gen : G)
      (usage : Option Fields) (final : Option FinalState) (r : Result (List String × Option Fields))
      (m : Drive S G)
      → ((e : Error) → r ≡ err e → is_group_failure e.kind ≡ false)
      → commits.stage gen ≡ committed
      → Sent committed final group.id m.chunk_groups
      → Holds (emit engine wire group_id group visited attempts gen usage final r m)
  unfolding emit
  emit-Holds group visited attempts gen usage final (err e) m d st (h, r) =
      handle-Holds group visited attempts final e m (inr (h, d e refl))
  emit-Holds group visited attempts gen usage final (ok (lines, u)) m d st (h, r) =
      rw st (All-append (λ (g : ℕ). g ≡ group.id) m.chunk_groups (group.id ∷ []) h (refl, tt), r)

  serialized-dies :
      (chunk : Json) (e : Error)
      → serialized engine wire group_id (named wire.model_name chunk) ≡ err e
      → is_group_failure e.kind ≡ false
  unfolding is_group_failure
  serialized-dies (obj fields) e h = dies _ e h
  serialized-dies null e h = sym (ap fails_group h)
  serialized-dies (bool b) e h = sym (ap fails_group h)
  serialized-dies (num n) e h = sym (ap fails_group h)
  serialized-dies (str t) e h = sym (ap fails_group h)
  serialized-dies (arr a) e h = sym (ap fails_group h)

  receive-Holds :
      (group : ModelGroup) (visited : List ℕ) (attempts : List Attempt) (stage : Stage) (gen : G)
      (usage : Option Fields) (final : Option FinalState) (event : Pulled) (s : S) (m : Drive S G)
      → Follows commits.stage stage (event, gen, s)
      → Sent stage final group.id m.chunk_groups
      → Holds (receive engine wire group_id group visited attempts gen usage final event m)
  unfolding receive
  receive-Holds group visited attempts fresh gen usage final (a_chunk c) s m f (h, r) =
      emit-Holds group visited attempts gen usage final
        (serialized engine wire group_id (named wire.model_name c)) m (serialized-dies c) f
        (IsSilent-IsFrom group.id m h, r)
  receive-Holds group visited attempts committed gen usage final (a_chunk c) s m f h =
      emit-Holds group visited attempts gen usage final
        (serialized engine wire group_id (named wire.model_name c)) m (serialized-dies c) f h
  receive-Holds group visited attempts over gen usage final (a_chunk c) s m f h = elim f [ ]
  receive-Holds group visited attempts fresh gen usage final (a_state x) s m f (h, r) = rw f (inl h)
  receive-Holds group visited attempts committed gen usage final (a_state x) s m (d, f) (h, r) =
      rw f (inr (h, d))
  receive-Holds group visited attempts over gen usage final (a_state x) s m f h = elim f [ ]
  receive-Holds group visited attempts stage gen usage final exhausted s m f h =
      settle-Holds group visited attempts usage final m
        (Sent-over stage final group.id m.chunk_groups h)
  receive-Holds group visited attempts fresh gen usage final (raised e) s m f (h, r) =
      handle-Holds group visited attempts final e m (inl h)
  receive-Holds group visited attempts committed gen usage final (raised e) s m f (h, r) =
      handle-Holds group visited attempts final e m (inr (h, f))
  receive-Holds group visited attempts over gen usage final (raised e) s m f (inl h) =
      handle-Holds group visited attempts final e m (inl h)
  receive-Holds group visited attempts over gen usage final (raised e) s m f (inr (h, r)) =
      handle-Holds group visited attempts final e m (inr (h, f))

  attend-Holds :
      (group : ModelGroup) (visited : List ℕ) (attempts : List Attempt) (stage : Stage) (gen : G)
      (usage : Option Fields) (final : Option FinalState) (event : Pulled) (s : S) (r : Bool × S)
      (m : Drive S G)
      → Follows commits.stage stage (event, gen, s)
      → Sent stage final group.id m.chunk_groups
      → Holds (attend engine wire group_id group visited attempts gen usage final event r m)
  unfolding attend
  attend-Holds group visited attempts stage gen usage final event s (true, t) m f h =
      settle-Holds group visited attempts usage final (record m { shared = engine.close gen t })
        (Sent-over stage final group.id m.chunk_groups h)
  attend-Holds group visited attempts stage gen usage final event s (false, t) m f h =
      receive-Holds group visited attempts stage gen usage final event s (record m { shared = t }) f
        h

  after_pull-Holds :
      (group : ModelGroup) (visited : List ℕ) (attempts : List Attempt) (stage : Stage)
      (usage : Option Fields) (final : Option FinalState) (r : Pulled × G × S) (m : Drive S G)
      → Follows commits.stage stage r
      → Sent stage final group.id m.chunk_groups
      → Holds (after_pull engine wire group_id group visited attempts usage final r m)
  unfolding after_pull
  after_pull-Holds group visited attempts stage usage final (exhausted, gen, s) m f h =
      receive-Holds group visited attempts stage gen usage final exhausted s
        (record m { shared = s }) f h
  after_pull-Holds group visited attempts stage usage final (raised e, gen, s) m f h =
      receive-Holds group visited attempts stage gen usage final (raised e) s
        (record m { shared = s }) f h
  after_pull-Holds group visited attempts stage usage final (a_chunk c, gen, s) m f h =
      attend-Holds group visited attempts stage gen usage final (a_chunk c) s
        (engine.is_disconnected s) m f h
  after_pull-Holds group visited attempts stage usage final (a_state x, gen, s) m f h =
      attend-Holds group visited attempts stage gen usage final (a_state x) s
        (engine.is_disconnected s) m f h

  after_start-Holds :
      (group : ModelGroup) (visited : List ℕ) (attempts : List Attempt) (r : Result G × S)
      (m : Drive S G)
      → Starts commits.stage r
      → IsSilent m
      → Holds (after_start engine wire group_id group visited attempts r m)
  unfolding after_start
  after_start-Holds group visited attempts (err e, s) m st h =
      handle-Holds group visited attempts none e
        (record m { shared = s; ran = m.ran ++ group.id ∷ [] }) (inl h)
  after_start-Holds group visited attempts (ok gen, s) m st h = rw st (h, refl)

  step_from-Holds :
      (place : Place G) (m : Drive S G)
      → m.place ≡ place
      → Keeps place m
      → Holds (step_from engine wire group_id place m)
  unfolding step_from
  step_from-Holds (starting group visited attempts) m e h =
      after_start-Holds group visited attempts (engine.run group m.shared) m
        (commits.run_starts group m.shared) h
  step_from-Holds (pumping group visited attempts gen usage final) m e h =
      after_pull-Holds group visited attempts (commits.stage gen) usage final
        (engine.pull gen m.shared) m (commits.pull_follows gen m.shared) h
  step_from-Holds ended m e h = rw e h
  step_from-Holds (died x) m e h = rw e h

  steps-Holds : (n : ℕ) (m : Drive S G) → Holds m → Holds (steps engine wire group_id n m)
  unfolding steps
  steps-Holds zero m h = h
  steps-Holds (suc n) m h =
      steps-Holds n (step_from engine wire group_id m.place m) (step_from-Holds m.place m refl h)

  Keeps-IsOneGroup : (place : Place G) (m : Drive S G) → Keeps place m → IsOneGroup m
  Keeps-IsOneGroup (starting group visited attempts) m h = IsSilent-IsOneGroup m h
  Keeps-IsOneGroup (pumping group visited attempts gen usage final) m h =
      Sent-IsOneGroup (commits.stage gen) final group.id m h
  Keeps-IsOneGroup ended m h = h
  Keeps-IsOneGroup (died e) m h = h

  -- With an engine whose states allow a fallback only before the first chunk, and errors of
  -- `_serialize` that allow none: at whatever step the client stops to listen, all the chunks that it
  -- got came from one group.
  pub drive_stream-IsOneGroup :
      (primary : ModelGroup) (s : S) (n : ℕ)
      → IsOneGroup (drive_stream engine wire group_id primary s n)
  unfolding drive_stream
  drive_stream-IsOneGroup primary s n =
      let m = drive_stream engine wire group_id primary s n in
      Keeps-IsOneGroup m.place m (steps-Holds n _ refl)
