-- ===== src/Stream/Laws.antt =====
-- The permit of a guarded stream, in every position of `_run_stream_fast`.
use openbotflow.Prelude.{
  ℕ, zero, suc, ◌+◌, ◌≡◌, refl, sym, subst, ◌&&◌, ◌||◌, Option, none, some, List, [], ◌∷◌, ltb, max,
  nat_key, Bool-cases, inl, inr, arith,
}
use openbotflow.Json.{Json}
use openbotflow.Errors.{Attempt}
use openbotflow.Models.{ModelEndpoint}
use openbotflow.Retry.{is_retryable_error}
use openbotflow.Runtime.{Shared, ChatCall, Env}
use openbotflow.Call.{exponential_backoff, acquire}
use openbotflow.Call.Laws.{IsQuiet}
use openbotflow.Stream.{
  Step, chunk, finished, failed, Streams, Stream, Event, Position, at_start, streaming, closing,
  at_end, is_timeout, semaphore_guarded_stream, leave, after_step, advance, close_stream,
  after_first, first_chunk, deliver, after_next, after_attempts,
}
use openbotflow.Stream.Run.{StreamRequest, stream_call, walk_endpoints, resume, quit, consume}
use openbotflow.Stream.Permits.{
  Semaphores, held, Holds, IsReady, acquire-Holds, release-Holds, ensure-Holds,
}

abbrev made : ℕ → Option ℕ → Option ℕ → Stream
made g sem permit = record { inner = g; sem = sem; permit = permit }

-- No other task touches the semaphores while the stream awaits.
pub record IsQuietStream {W : Type 0} (streams : Streams W) : Type 0 where
  pub next_semaphores : (g : ℕ) (s : Shared W) → (streams.next g s).1.semaphores ≡ s.semaphores
  pub close_semaphores : (g : ℕ) (s : Shared W) → (streams.close g s).semaphores ≡ s.semaphores
  pub disconnected_semaphores :
      (s : Shared W) → (streams.is_disconnected s).1.semaphores ≡ s.semaphores

module _ {W : Type 0} (env : Env W) (streams : Streams W) (quiet : IsQuiet env)
    (quiet_stream : IsQuietStream streams) (base : Semaphores) where
  -- The permits in use, over those of `base`.
  abbrev Using : Option ℕ → Shared W → Type 0
  Using permit s = Holds base permit s.semaphores

  -- A stream that runs holds its permit, and one that does not holds none.
  abbrev Running : Stream → Shared W → Type 0
  Running st s = (st.permit ≡ st.sem) × Using st.sem s

  abbrev Stopped : Stream → Shared W → Type 0
  Stopped st s = (st.permit ≡ none) × Using none s

  abbrev StepOk : Step × Stream × Shared W → Type 0
  StepOk (chunk c, st, s) = Running st s
  StepOk (finished, st, s) = Stopped st s
  StepOk (failed e, st, s) = Stopped st s

  leave-Using :
      (g : ℕ) (sem permit : Option ℕ) (s : Shared W)
      → Using sem s
      → Using none (leave env streams (made g sem permit) s)
  unfolding leave
  leave-Using g none p s h = h
  leave-Using g (some id) p s h =
      subst (Holds base none) (sym (quiet_stream.close_semaphores g _))
        (release-Holds env quiet base (some id) s h)

  after_step-StepOk :
      (st : Stream) (r : Step × Shared W) → Using st.sem r.1 → StepOk (after_step env streams st r)
  unfolding after_step
  after_step-StepOk st (chunk c, s) h = (refl, h)
  after_step-StepOk st (finished, s) h = (refl, leave-Using st.inner st.sem st.permit s h)
  after_step-StepOk st (failed e, s) h = (refl, leave-Using st.inner st.sem st.permit s h)

  -- With the permit, or before it is taken.
  next-StepOk :
      (st : Stream) (s : Shared W)
      → Using st.sem s
      → StepOk (after_step env streams st (streams.next st.inner s))
  next-StepOk st s h =
      after_step-StepOk st (streams.next st.inner s)
        (subst (Holds base st.sem) (sym (quiet_stream.next_semaphores st.inner s)) h)

  advance_fresh-StepOk :
      (g : ℕ) (sem : Option ℕ) (s : Shared W)
      → IsReady sem s.semaphores
      → Using none s
      → StepOk (advance env streams (record { inner = g; sem = sem; permit = none }) s)
  unfolding advance
  advance_fresh-StepOk g sem s ready h =
      next-StepOk (made g sem none) _ (acquire-Holds env quiet base sem s ready h)

  advance-StepOk :
      (g : ℕ) (sem permit : Option ℕ) (s : Shared W)
      → Running (made g sem permit) s
      → StepOk (advance env streams (made g sem permit) s)
  unfolding advance acquire
  advance-StepOk g none none s (e, h) = next-StepOk (made g none none) s h
  advance-StepOk g none (some p) s (e, h) = cc
  advance-StepOk g (some id) none s (e, h) = cc
  advance-StepOk g (some id) (some p) s (e, h) = next-StepOk (made g (some id) (some p)) s h

  close-Stopped :
      (g : ℕ) (sem permit : Option ℕ) (s : Shared W)
      → Stopped (made g sem permit) s
      → Stopped
          (close_stream env streams (made g sem permit) s).0
          (close_stream env streams (made g sem permit) s).1
  unfolding close_stream
  close-Stopped g none p s (e, h) =
      (e, subst (Holds base none) (sym (quiet_stream.close_semaphores g s)) h)
  close-Stopped g (some id) none s (e, h) = (e, h)
  close-Stopped g (some id) (some p) s (e, h) = cc

  close-Running :
      (g : ℕ) (sem permit : Option ℕ) (s : Shared W)
      → Running (made g sem permit) s
      → Stopped
          (close_stream env streams (made g sem permit) s).0
          (close_stream env streams (made g sem permit) s).1
  unfolding close_stream
  close-Running g none p s (e, h) =
      (e, subst (Holds base none) (sym (quiet_stream.close_semaphores g s)) h)
  close-Running g (some id) none s (e, h) = cc
  close-Running g (some id) (some p) s (e, h) = (refl, leave-Using g (some id) (some p) s h)

  backoff-Using :
      (attempt : ℕ) (s : Shared W) → Using none s → Using none (exponential_backoff env attempt s)
  unfolding exponential_backoff
  backoff-Using attempt s h = subst (Holds base none) (sym (quiet.sleep_semaphores _ _)) h

  abbrev FirstOk : (Option (Json × Stream) × List Attempt) × Shared W → Type 0
  FirstOk ((none, attempts), s) = Using none s
  FirstOk ((some (c, st), attempts), s) = Running st s

  after_first-FirstOk :
      (group_id : ℕ) (ep : ModelEndpoint) (attempt left : ℕ) (attempts : List Attempt)
      (r : Step × Stream × Shared W)
      (again : List Attempt → Shared W → (Option (Json × Stream) × List Attempt) × Shared W)
      → StepOk r
      → ((rows : List Attempt) (s : Shared W) → Using none s → FirstOk (again rows s))
      → FirstOk (after_first env streams group_id ep attempt left attempts r again)
  unfolding after_first
  after_first-FirstOk group_id ep attempt left attempts (chunk c, st, s) again h k = h
  after_first-FirstOk group_id ep attempt left attempts (finished, st, s) again (e, h) k =
      (close-Stopped st.inner st.sem st.permit _ (e, h)).1
  after_first-FirstOk group_id ep attempt left attempts (failed e, st, s) again h k =
      elim (Bool-cases ((is_timeout e.kind || is_retryable_error e) && ltb 0 left)) [
        | inl retry ↦
            rw retry
              (k _ _ (backoff-Using attempt _ (close-Stopped st.inner st.sem st.permit s h).1))
        | inr stop ↦ rw stop (close-Stopped st.inner st.sem st.permit s h).1
      ]

  first_chunk-FirstOk :
      (group_id : ℕ) (ep : ModelEndpoint) (call : ChatCall) (left attempt : ℕ)
      (attempts : List Attempt) (s : Shared W)
      → Using none s
      → FirstOk (first_chunk env streams group_id ep call left attempt attempts s)
  unfolding first_chunk semaphore_guarded_stream
  first_chunk-FirstOk group_id ep call zero attempt attempts s h = h
  first_chunk-FirstOk group_id ep call (suc left) attempt attempts s h =
      let w = (streams.chat_stream call s.world).1 in
      let (h', ready) =
        ensure-Holds base ep.detail.provider_id (env.semaphore_size w) s.semaphores h in
      after_first-FirstOk group_id ep attempt left attempts _ _
        (advance_fresh-StepOk (streams.chat_stream call s.world).0 _ _ ready h')
        (λ rows t k. first_chunk-FirstOk group_id ep call left (attempt + 1) rows t k)

  -- Where the generator is suspended, with the permits in use.
  abbrev PositionOk : Position → Shared W → Type 0
  PositionOk at_start s = Using none s
  PositionOk (streaming ep attempts st) s = Running st s
  PositionOk (closing st) s = Stopped st s
  PositionOk at_end s = Using none s

  abbrev EventOk : Event × Position × Shared W → Type 0
  EventOk (e, position, s) = PositionOk position s

  deliver-EventOk :
      (ep : ModelEndpoint) (attempts : List Attempt) (c : Json) (st : Stream) (s : Shared W)
      → Running st s
      → EventOk (deliver env streams ep attempts c st s)
  unfolding deliver
  deliver-EventOk ep attempts c st s (e, h) =
      let s' = (streams.is_disconnected s).1 in
      let h' : Running st s' =
        (e, subst (Holds base st.sem) (sym (quiet_stream.disconnected_semaphores s)) h) in
      elim (Bool-cases (streams.is_disconnected s).0) [
        | inl gone ↦ rw gone (close-Running st.inner st.sem st.permit s' h')
        | inr there ↦ rw there h'
      ]

  after_next-EventOk :
      (ep : ModelEndpoint) (attempts : List Attempt) (r : Step × Stream × Shared W)
      → StepOk r
      → EventOk (after_next env streams ep attempts r)
  unfolding after_next
  after_next-EventOk ep attempts (chunk c, st, s) h = deliver-EventOk ep attempts c st s h
  after_next-EventOk ep attempts (finished, st, s) h = h
  after_next-EventOk ep attempts (failed e, st, s) h = close-Stopped st.inner st.sem st.permit s h

  after_attempts-EventOk :
      (group_id : ℕ) (ep : ModelEndpoint) (r : (Option (Json × Stream) × List Attempt) × Shared W)
      (again : List Attempt → Shared W → Event × Position × Shared W)
      → FirstOk r
      → ((rows : List Attempt) (s : Shared W) → Using none s → EventOk (again rows s))
      → EventOk (after_attempts env streams group_id ep r again)
  unfolding after_attempts
  after_attempts-EventOk group_id ep ((none, attempts), s) again h k = k attempts s h
  after_attempts-EventOk group_id ep ((some (c, st), attempts), s) again h k =
      deliver-EventOk ep attempts c st _ h

  module _ (q : StreamRequest) where
    walk_endpoints-EventOk :
        (eps : List ModelEndpoint) (attempts : List Attempt) (model_id provider_id : Option ℕ)
        (s : Shared W)
        → Using none s
        → EventOk (walk_endpoints env streams q eps attempts model_id provider_id s)
    unfolding walk_endpoints
    walk_endpoints-EventOk [] attempts model_id provider_id s h = h
    walk_endpoints-EventOk (ep ∷ eps) attempts model_id provider_id s h =
        after_attempts-EventOk q.group.id ep _ _
          (first_chunk-FirstOk q.group.id ep (stream_call q ep) (max ep.detail.max_retries 1) 0
            attempts s h)
          (λ rows t k.
            walk_endpoints-EventOk eps rows (some ep.detail.model_id) (some ep.detail.provider_id) t
              k)

    resume-EventOk :
        (position : Position) (s : Shared W)
        → PositionOk position s
        → EventOk (resume env streams q position s)
    unfolding resume
    resume-EventOk at_start s h = walk_endpoints-EventOk q.preselected.endpoints [] none none s h
    resume-EventOk (streaming ep attempts st) s h =
        after_next-EventOk ep attempts _ (advance-StepOk st.inner st.sem st.permit s h)
    resume-EventOk (closing st) s h = (close-Stopped st.inner st.sem st.permit s h).1
    resume-EventOk at_end s h = h

    quit-Using :
        (position : Position) (s : Shared W)
        → PositionOk position s
        → Using none (quit env streams q position s).1
    unfolding quit
    quit-Using at_start s h = h
    quit-Using (streaming ep attempts st) s h = (close-Running st.inner st.sem st.permit s h).1
    quit-Using (closing st) s h = (close-Stopped st.inner st.sem st.permit s h).1
    quit-Using at_end s h = h

    consume-Using :
        (n : ℕ) (position : Position) (s : Shared W)
        → PositionOk position s
        → Using none (consume env streams q n position s).1
    unfolding consume
    consume-Using zero position s h = quit-Using position s h
    consume-Using (suc n) position s h = consume-Using n _ _ (resume-EventOk position s h)

-- However many events its consumer takes before it closes the stream, and whatever the provider
-- does, every provider has as many permits taken afterwards as before: on success, failure, retry,
-- disconnection and an early close, while no other task touches the semaphores.
pub consume-held :
    {W : Type 0} (env : Env W) (streams : Streams W) (q : StreamRequest) (n : ℕ) (s : Shared W)
    (provider : ℕ)
    → IsQuiet env
    → IsQuietStream streams
    → held provider (consume env streams q n at_start s).1.semaphores ≡ held provider s.semaphores
consume-held env streams q n s provider quiet quiet_stream = omega (
  arith,
  consume-Using env streams quiet quiet_stream s.semaphores q n at_start s (λ p. omega arith)
      provider,
)
