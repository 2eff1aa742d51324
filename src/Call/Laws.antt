-- ===== src/Call/Laws.antt =====
-- What one call of `call_llm` leaves behind: the cooldown of its model and the permits.
use openbotflow.Prelude.{
  ℕ, zero, suc, ◌+◌, ◌≡◌, refl, ◌⊎◌, inl, inr, Option, none, some, List, arith, nat_key, pair_key,
  ◌==◌, or_else, false, ltb, ◌&&◌, Option-cases, Bool-cases, ◌∙◌,
}
use openbotflow.Prelude.Int.{ℤ}
use openbotflow.Prelude.Assoc.{get, get-put, get-put_self, put-put, put_self}
use openbotflow.Json.{Fields}
use openbotflow.Errors.{Error, Result, ok, err}
use openbotflow.Models.{Message, ModelEndpoint, Response}
use openbotflow.Cooldown.{
  CooldownManager, fresh, failed, record_success, record_failure, is_on_cooldown, get_failure_count,
}
use openbotflow.Cooldown.Laws.{record_success_resets}
use openbotflow.Retry.{is_retryable_error}
use openbotflow.Runtime.{Semaphore, Shared, ChatCall, Env}
use openbotflow.Call.{
  ensure_provider_semaphore, hold, let_go, change_permit, exponential_backoff, guarded_chat,
  exhausted, succeeded, after_round, call_rounds, call_llm,
}

let_go-hold : (v : Option Semaphore) → let_go (hold v) ≡ v
let_go-hold none = refl
let_go-hold (some sem) = ground arith

let_go-hold_table :
    (id : ℕ) (table : List (ℕ × Option Semaphore))
    → change_permit id let_go (change_permit id hold table) ≡ table
let_go-hold_table id table = elim (Option-cases (get id table)) [
  | inl missing ↦ ground (arith)
  | inr (v, found) ↦ ground (
    arith,
    get-put_self id (hold v) table,
    put-put id (hold v) v table,
    put_self id v table found,
    let_go-hold v,
  )
]

-- No other task touches the cooldowns and the semaphores while this one awaits.
pub record IsQuiet {W : Type 0} (env : Env W) : Type 0 where
  pub chat_cooldown : (c : ChatCall) (s : Shared W) → (env.chat c s).1.cooldown ≡ s.cooldown
  pub chat_semaphores : (c : ChatCall) (s : Shared W) → (env.chat c s).1.semaphores ≡ s.semaphores
  pub permit_cooldown : (id : ℕ) (s : Shared W) → (env.wait_permit id s).cooldown ≡ s.cooldown
  pub permit_semaphores : (id : ℕ) (s : Shared W) → (env.wait_permit id s).semaphores ≡ s.semaphores
  pub sleep_cooldown : (t : ℕ) (s : Shared W) → (env.sleep t s).cooldown ≡ s.cooldown
  pub sleep_semaphores : (t : ℕ) (s : Shared W) → (env.sleep t s).semaphores ≡ s.semaphores

module _ {W : Type 0} (env : Env W) (q : IsQuiet env) where
  guarded_chat-cooldown :
      (sem : Option ℕ) (call : ChatCall) (s : Shared W)
      → (guarded_chat env sem call s).1.cooldown ≡ s.cooldown
  unfolding guarded_chat
  guarded_chat-cooldown none call s = q.chat_cooldown call s
  guarded_chat-cooldown (some id) call s = q.chat_cooldown call _ ∙ q.permit_cooldown id s

  guarded_chat-semaphores :
      (sem : Option ℕ) (call : ChatCall) (s : Shared W)
      → (guarded_chat env sem call s).1.semaphores ≡ s.semaphores
  unfolding guarded_chat
  guarded_chat-semaphores none call s = q.chat_semaphores call s
  guarded_chat-semaphores (some id) call s =
      rw (q.chat_semaphores, q.permit_semaphores) (let_go-hold_table id s.semaphores)

  exponential_backoff_quiet :
      (attempt : ℕ) (s : Shared W)
      → ((exponential_backoff env attempt s).cooldown ≡ s.cooldown)
        × ((exponential_backoff env attempt s).semaphores ≡ s.semaphores)
  unfolding exponential_backoff
  exponential_backoff_quiet attempt s = (q.sleep_cooldown _ _, q.sleep_semaphores _ _)

-- How a call ends, over the state it began in: with a response that names its endpoint, no failure
-- of the model on record and the model on no cooldown, or without a response and with one more
-- failure on record. The permits and the other models' cooldowns are as before.
pub record Settled {W : Type 0} (ep : ModelEndpoint) (group_id : ℕ) (s : Shared W)
    (r : (Option Response × Option Error) × Shared W) : Type 0 where
  pub permits : r.1.semaphores ≡ s.semaphores
  pub outcome :
      ((body : Fields) × (r.0 ≡ (
        some (record {
          body = body;
          routing =
              some (record { model_id = ep.detail.model_id; provider_id = ep.detail.provider_id });
        }),
        none,
      ))
        × (get_failure_count group_id ep.detail.model_id r.1.cooldown ≡ 0)
        × ((now : ℕ) → (is_on_cooldown group_id ep.detail.model_id now r.1.cooldown).0 ≡ false))
      ⊎ (r.0.0 ≡ none)
        × (get_failure_count group_id ep.detail.model_id r.1.cooldown
            ≡ get_failure_count group_id ep.detail.model_id s.cooldown + 1)
  pub others :
      (g m : ℕ)
      → ◌==◌ {A = ℕ × ℕ} (group_id, ep.detail.model_id) (g, m) ≡ false
      → get (g, m) r.1.cooldown ≡ get (g, m) s.cooldown

module _ (g m : ℕ) (states : CooldownManager) where
  get_failure_count-record_failure :
      (threshold seconds now : ℕ)
      → get_failure_count g m (record_failure g m threshold seconds now states)
        ≡ get_failure_count g m states + 1
  unfolding get_failure_count record_failure
  get_failure_count-record_failure threshold seconds now = ground (
    arith,
    get-put_self (g, m) (failed threshold seconds now (or_else (get (g, m) states) fresh)) states,
  )

  get-record_failure :
      (threshold seconds now g' m' : ℕ)
      → ◌==◌ {A = ℕ × ℕ} (g, m) (g', m') ≡ false
      → get (g', m') (record_failure g m threshold seconds now states) ≡ get (g', m') states
  unfolding record_failure
  get-record_failure threshold seconds now g' m' other =
      rw (get-put (g, m) (g', m') _ states, other) refl

  get-record_success :
      (g' m' : ℕ)
      → ◌==◌ {A = ℕ × ℕ} (g, m) (g', m') ≡ false
      → get (g', m') (record_success g m states) ≡ get (g', m') states
  unfolding record_success
  get-record_success g' m' other = ground (arith, get-put (g, m) (g', m') fresh states, other)

module _ {W : Type 0} (env : Env W) (ep : ModelEndpoint) (group_id : ℕ) where
  exhausted-Settled :
      (e : Option Error) (s s' : Shared W)
      → s'.cooldown ≡ s.cooldown
      → s'.semaphores ≡ s.semaphores
      → Settled ep group_id s (exhausted env ep group_id e s')
  unfolding exhausted
  exhausted-Settled e s s' c p = record {
    permits = p;
    outcome = inr (
      refl,
      rw c (
          get_failure_count-record_failure group_id ep.detail.model_id s.cooldown
            ep.detail.cooldown_failure_threshold ep.detail.cooldown_seconds _),
    );
    others = λ g m other. rw c (
        get-record_failure group_id ep.detail.model_id s.cooldown
          ep.detail.cooldown_failure_threshold ep.detail.cooldown_seconds _ g m other);
  }

  succeeded-Settled :
      (body : Fields) (s s' : Shared W)
      → s'.cooldown ≡ s.cooldown
      → s'.semaphores ≡ s.semaphores
      → Settled ep group_id s (succeeded env ep group_id body s')
  unfolding succeeded
  succeeded-Settled body s s' c p = record {
    permits = p;
    outcome =
        let resets = record_success_resets group_id ep.detail.model_id in
        inl (body, refl, (resets 0 s'.cooldown).1, (λ now. (resets now s'.cooldown).0));
    others =
        λ g m other. rw c (get-record_success group_id ep.detail.model_id s.cooldown g m other);
  }

  after_round-Settled :
      (attempt : ℕ) (r : Result Fields) (s s' : Shared W)
      (again : Error → (Option Response × Option Error) × Shared W)
      → s'.cooldown ≡ s.cooldown
      → s'.semaphores ≡ s.semaphores
      → ((e : Error) → Settled ep group_id s (again e))
      → Settled ep group_id s (after_round env ep group_id attempt r s' again)
  unfolding after_round
  after_round-Settled attempt (ok body) s s' again c p h = succeeded-Settled body s s' c p
  after_round-Settled attempt (err e) s s' again c p h =
      elim (Bool-cases (is_retryable_error e && ltb (attempt + 1) ep.detail.max_retries)) [
        | inl more ↦ rw more (h e)
        | inr done ↦ rw done (exhausted-Settled (some e) s s' c p)
      ]

  module _ (q : IsQuiet env) where
    call_rounds-Settled :
        (sem : Option ℕ) (call : ChatCall) (left attempt : ℕ) (e : Option Error) (s₀ s : Shared W)
        → s.cooldown ≡ s₀.cooldown
        → s.semaphores ≡ s₀.semaphores
        → Settled ep group_id s₀ (call_rounds env ep group_id sem call left attempt e s)
    unfolding call_rounds
    call_rounds-Settled sem call zero attempt e s₀ s c p = exhausted-Settled e s₀ s c p
    call_rounds-Settled sem call (suc left) attempt e s₀ s c p =
        let (r, s') = guarded_chat env sem call s in
        let c' = guarded_chat-cooldown env q sem call s ∙ c in
        let p' = guarded_chat-semaphores env q sem call s ∙ p in
        after_round-Settled attempt r s₀ s' _ c' p' (λ err.
          let b = exponential_backoff_quiet env q attempt s' in
          call_rounds-Settled sem call left (attempt + 1) (some err) s₀
            (exponential_backoff env attempt s') (b.0 ∙ c') (b.1 ∙ p'))

    -- If no other task touches the cooldowns and the permits meanwhile, a call ends in one of two
    -- ways. With a response, it names the endpoint, and the model has no failure on record and is not
    -- on cooldown at any time; without one, the model has exactly one failure more on record than
    -- before. Either way the other models' cooldowns and the counts of permits are as before.
    pub call_llm-Settled :
        (messages : List Message) (temperature : Option ℤ) (max_tokens : Option ℕ) (kwargs : Fields)
        (s : Shared W)
        → let size = env.semaphore_size s.world in
          let table = (ensure_provider_semaphore ep.detail.provider_id size s.semaphores).1 in
          Settled ep group_id
            (record s { semaphores = table })
            (call_llm env ep messages group_id temperature max_tokens kwargs s)
    unfolding call_llm
    call_llm-Settled messages temperature max_tokens kwargs s =
        call_rounds-Settled _ _ ep.detail.max_retries 0 none _ _ refl refl
