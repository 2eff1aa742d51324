-- ===== src/Stream/Protocol.antt =====
-- The order of a stream's events.
use openbotflow.Prelude.{
  ℕ, zero, suc, ◌≡◌, refl, Bool, false, Option, none, some, List, [], ◌∷◌, max, Bool-cases, inl,
  inr,
}
use openbotflow.Json.{Json}
use openbotflow.Errors.{Attempt}
use openbotflow.Models.{ModelEndpoint}
use openbotflow.Cooldown.{record_success}
use openbotflow.Runtime.{Shared, Env}
use openbotflow.Stream.{
  Step, chunk, finished, failed, Streams, Stream, Event, chunk_event, state_event, stop_iteration,
  Position, at_start, streaming, closing, at_end, advance, first_chunk, deliver, after_next,
  after_attempts,
}
use openbotflow.Stream.Run.{StreamRequest, stream_call, walk_endpoints, resume, consume}

-- The generator is over.
abbrev pub IsOver : List Event → Type 0
IsOver [] = Unit
IsOver (stop_iteration ∷ events) = IsOver events
IsOver (_ ∷ events) = ⊥

-- Behind a chunk: more chunks, then a state that allows no fallback, then nothing.
abbrev pub IsCommitted : List Event → Type 0
IsCommitted [] = Unit
IsCommitted (chunk_event c ∷ events) = IsCommitted events
IsCommitted (state_event f ∷ events) = (f.recoverable ≡ false) × IsOver events
IsCommitted (stop_iteration ∷ events) = ⊥

-- From the start: a state at once, or chunks and then such a state.
abbrev pub IsProtocol : List Event → Type 0
IsProtocol [] = Unit
IsProtocol (chunk_event c ∷ events) = IsCommitted events
IsProtocol (state_event f ∷ events) = IsOver events
IsProtocol (stop_iteration ∷ events) = ⊥

-- What is expected of the events from a position on.
abbrev Expected : Position → List Event → Type 0
Expected at_start events = IsProtocol events
Expected (streaming ep attempts st) events = IsCommitted events
Expected (closing st) events = IsOver events
Expected at_end events = IsOver events

abbrev pub Ended : Position → Type 0
Ended (closing st) = Unit
Ended at_end = Unit
Ended _ = ⊥

abbrev pub Running : Position → Type 0
Running (streaming ep attempts st) = Unit
Running _ = ⊥

-- An event and the position that it leaves, with what a state says of a fallback.
abbrev pub Leaves : {W : Type 0} → (Bool → Type 0) → Event × Position × Shared W → Type 0
Leaves P (chunk_event c, position, s) = Running position
Leaves P (state_event f, position, s) = P f.recoverable × Ended position
Leaves P (stop_iteration, position, s) = ⊥

abbrev pub Never : Bool → Type 0
Never b = b ≡ false

module _ {W : Type 0} (env : Env W) (streams : Streams W) where
  deliver-Leaves :
      (ep : ModelEndpoint) (attempts : List Attempt) (c : Json) (st : Stream) (s : Shared W)
      → Leaves Never (deliver env streams ep attempts c st s)
  unfolding deliver
  deliver-Leaves ep attempts c st s = elim (Bool-cases (streams.is_disconnected s).0) [
    | inl gone ↦ rw gone (refl, tt)
    | inr there ↦ rw there tt
  ]

  pub after_next-Leaves :
      (ep : ModelEndpoint) (attempts : List Attempt) (r : Step × Stream × Shared W)
      → Leaves Never (after_next env streams ep attempts r)
  unfolding after_next
  after_next-Leaves ep attempts (chunk c, st, s) = deliver-Leaves ep attempts c st s
  after_next-Leaves ep attempts (finished, st, s) = (refl, tt)
  after_next-Leaves ep attempts (failed e, st, s) = (refl, tt)

  weaken : (r : Event × Position × Shared W) → Leaves Never r → Leaves (λ b. Unit) r
  weaken (chunk_event c, position, s) h = h
  weaken (state_event f, position, s) (e, h) = (tt, h)
  weaken (stop_iteration, position, s) h = h

  after_attempts-Leaves :
      (group_id : ℕ) (ep : ModelEndpoint) (r : (Option (Json × Stream) × List Attempt) × Shared W)
      (again : List Attempt → Shared W → Event × Position × Shared W)
      → ((rows : List Attempt) (s : Shared W) → Leaves (λ b. Unit) (again rows s))
      → Leaves (λ b. Unit) (after_attempts env streams group_id ep r again)
  unfolding after_attempts
  after_attempts-Leaves group_id ep ((none, attempts), s) again k = k attempts s
  after_attempts-Leaves group_id ep ((some (c, st), attempts), s) again k =
      weaken
        (deliver env streams ep attempts c st
          (record s { cooldown = record_success group_id ep.detail.model_id s.cooldown }))
        (deliver-Leaves ep attempts c st _)

  module _ (q : StreamRequest) where
    pub walk_endpoints-Leaves :
        (eps : List ModelEndpoint) (attempts : List Attempt) (model_id provider_id : Option ℕ)
        (s : Shared W)
        → Leaves (λ b. Unit) (walk_endpoints env streams q eps attempts model_id provider_id s)
    unfolding walk_endpoints
    walk_endpoints-Leaves [] attempts model_id provider_id s = (tt, tt)
    walk_endpoints-Leaves (ep ∷ eps) attempts model_id provider_id s =
        after_attempts-Leaves q.group.id ep
          (first_chunk env streams q.group.id ep (stream_call q ep) (max ep.detail.max_retries 1) 0
            attempts s)
          _
          (λ rows t.
            walk_endpoints-Leaves eps rows (some ep.detail.model_id) (some ep.detail.provider_id) t)

    -- An event that leaves a position, before what is expected from there.
    first-Expected :
        (r : Event × Position × Shared W) (events : List Event)
        → Leaves (λ b. Unit) r
        → Expected r.1 events
        → IsProtocol (r.0 ∷ events)
    first-Expected (chunk_event c, streaming ep attempts st, s) events h k = k
    first-Expected (chunk_event c, at_start, s) events h k = elim h [ ]
    first-Expected (chunk_event c, closing st, s) events h k = elim h [ ]
    first-Expected (chunk_event c, at_end, s) events h k = elim h [ ]
    first-Expected (state_event f, streaming ep attempts st, s) events h k = elim h.1 [ ]
    first-Expected (state_event f, at_start, s) events h k = elim h.1 [ ]
    first-Expected (state_event f, closing st, s) events h k = k
    first-Expected (state_event f, at_end, s) events h k = k
    first-Expected (stop_iteration, position, s) events h k = elim h [ ]

    later-Expected :
        (r : Event × Position × Shared W) (events : List Event)
        → Leaves Never r
        → Expected r.1 events
        → IsCommitted (r.0 ∷ events)
    later-Expected (chunk_event c, streaming ep attempts st, s) events h k = k
    later-Expected (chunk_event c, at_start, s) events h k = elim h [ ]
    later-Expected (chunk_event c, closing st, s) events h k = elim h [ ]
    later-Expected (chunk_event c, at_end, s) events h k = elim h [ ]
    later-Expected (state_event f, streaming ep attempts st, s) events h k = elim h.1 [ ]
    later-Expected (state_event f, at_start, s) events h k = elim h.1 [ ]
    later-Expected (state_event f, closing st, s) events h k = (h.0, k)
    later-Expected (state_event f, at_end, s) events h k = (h.0, k)
    later-Expected (stop_iteration, position, s) events h k = elim h [ ]

    consume-Expected :
        (n : ℕ) (position : Position) (s : Shared W)
        → Expected position (consume env streams q n position s).0
    unfolding consume resume
    consume-Expected zero at_start s = tt
    consume-Expected zero (streaming ep attempts st) s = tt
    consume-Expected zero (closing st) s = tt
    consume-Expected zero at_end s = tt
    consume-Expected (suc n) at_start s =
        first-Expected (walk_endpoints env streams q q.preselected.endpoints [] none none s) _
          (walk_endpoints-Leaves q.preselected.endpoints [] none none s) (consume-Expected n _ _)
    consume-Expected (suc n) (streaming ep attempts st) s =
        later-Expected (after_next env streams ep attempts (advance env streams st s)) _
          (after_next-Leaves ep attempts (advance env streams st s)) (consume-Expected n _ _)
    consume-Expected (suc n) (closing st) s = consume-Expected n at_end _
    consume-Expected (suc n) at_end s = consume-Expected n at_end s

-- Whatever the provider and the client do, a stream's events are chunks and one state at their end,
-- and a state that allows a fallback to another group comes only where no chunk went out before it.
pub consume-IsProtocol :
    {W : Type 0} (env : Env W) (streams : Streams W) (q : StreamRequest) (n : ℕ) (s : Shared W)
    → IsProtocol (consume env streams q n at_start s).0
consume-IsProtocol env streams q n s = consume-Expected env streams q n at_start s
