-- ===== src/Context/Endpoints.antt =====
-- `truncate_messages`, and the endpoints that may be tried.
use openbotflow.Prelude.{
  ℕ, zero, suc, ◌≤◌, ◌<◌, ◌≡◌, ◌⊎◌, inl, inr, refl, String, Option, none, some, List, [], ◌∷◌,
  arith, ltb, min, nat_key, keep, Bool-cases, All,
}
use openbotflow.Models.{Message, ModelEndpoint}
use openbotflow.Context.{
  estimate_tokens, is_system, token_limit, last_n, truncate_messages, truncate_to_smallest, windows,
  minimum,
}
use openbotflow.Context.Laws.{IsByteBounded, truncate_to_context_window-Fits}

abbrev pub Serves : (encode : String → ℕ) → Option ℕ → List Message → ModelEndpoint → Type 0
Serves encode max_tokens result ep =
    (ep.detail.context_window ≡ 0)
    ⊎ (estimate_tokens encode result ≤ token_limit ep.detail.context_window max_tokens)

-- The messages that have to stay: the system messages, or the last message where there are none.
abbrev pub IsLeast : List Message → List Message → Type 0
IsLeast messages result =
    (result ≡ keep is_system messages)
    ⊎ (keep is_system messages ≡ []) × (result ≡ last_n 1 messages)

token_limit_mono :
    (a b : ℕ) (max_tokens : Option ℕ) → a ≤ b → token_limit a max_tokens ≤ token_limit b max_tokens
token_limit_mono a b none h = omega arith
token_limit_mono a b (some zero) h = omega arith
token_limit_mono a b (some (suc n)) h = omega arith

minimum-le : (n : ℕ) (ms : List ℕ) → minimum n ms ≤ n
minimum-le n [] = omega arith
minimum-le n (m ∷ ms) = omega (arith, minimum-le (min n m) ms)

minimum-pos : (n : ℕ) (ms : List ℕ) → 0 < n → All (λ m. 0 < m) ms → 0 < minimum n ms
minimum-pos n [] h k = h
minimum-pos n (m ∷ ms) h k = minimum-pos (min n m) ms (omega arith) k.1

minimum-All : (n : ℕ) (ms : List ℕ) → All (λ m. minimum n ms ≤ m) ms
minimum-All n [] = tt
minimum-All n (m ∷ ms) = (omega (arith, minimum-le (min n m) ms), minimum-All (min n m) ms)

windows-pos : (eps : List ModelEndpoint) → All (λ w. 0 < w) (windows eps)
unfolding windows
windows-pos [] = tt
windows-pos (ep ∷ eps) = elim (Bool-cases (ltb 0 ep.detail.context_window)) [
  | inl set ↦ rw set (ground (arith, set), windows-pos eps)
  | inr unset ↦ rw unset (windows-pos eps)
]

windows-Serves :
    (encode : String → ℕ) (max_tokens : Option ℕ) (result : List Message) (w : ℕ)
    (eps : List ModelEndpoint)
    → All (λ v. w ≤ v) (windows eps)
    → estimate_tokens encode result ≤ token_limit w max_tokens
    → All (Serves encode max_tokens result) eps
unfolding windows
windows-Serves encode max_tokens result w [] h fit = tt
windows-Serves encode max_tokens result w (ep ∷ eps) h fit =
    elim (Bool-cases (ltb 0 ep.detail.context_window)) [
      | inr unset ↦ (
        inl (ground (arith, unset)),
        windows-Serves encode max_tokens result w eps (rw unset at h) fit,
      )
      | inl set ↦
          let h' = rw set at h in
          (
            inr (omega (arith, token_limit_mono w ep.detail.context_window max_tokens h'.0)),
            windows-Serves encode max_tokens result w eps h'.1 fit,
          )
    ]

windows_none :
    (encode : String → ℕ) (max_tokens : Option ℕ) (result : List Message) (eps : List ModelEndpoint)
    → windows eps ≡ []
    → All (Serves encode max_tokens result) eps
unfolding windows
windows_none encode max_tokens result [] h = tt
windows_none encode max_tokens result (ep ∷ eps) h =
    elim (Bool-cases (ltb 0 ep.detail.context_window)) [
      | inl set ↦ cc (rw set at h)
      | inr unset ↦
          (inl (ground (arith, unset)), windows_none encode max_tokens result eps (rw unset at h))
    ]

-- What `truncate_messages` answers fits into the context window of every endpoint that has one, for a
-- tokenizer that makes at most one token of a byte; or else it is no more than what has to stay.
pub truncate_messages-Serves :
    (encode : String → ℕ) (messages : List Message) (endpoints : List ModelEndpoint)
    (max_tokens : Option ℕ)
    → IsByteBounded encode
    → let result = truncate_messages encode messages endpoints max_tokens in
      All (Serves encode max_tokens result) endpoints ⊎ IsLeast messages result
unfolding truncate_messages truncate_to_smallest
truncate_messages-Serves encode messages endpoints max_tokens bounded =
    go (windows endpoints) refl (windows-pos endpoints)
  where
    go :
        (ws : List ℕ)
        → windows endpoints ≡ ws
        → All (λ w. 0 < w) ws
        → let result = truncate_to_smallest encode messages max_tokens ws in
          All (Serves encode max_tokens result) endpoints ⊎ IsLeast messages result
    go [] e h = inl (windows_none encode max_tokens messages endpoints e)
    go (w ∷ ws) e h =
        elim (truncate_to_context_window-Fits encode messages (minimum w ws) max_tokens bounded
          (minimum-pos w ws h.0 h.1)) [
            | inl fit ↦ inl (
                windows-Serves encode max_tokens _ (minimum w ws) endpoints
                  (rw e (minimum-le w ws, minimum-All w ws)) fit)
            | inr long ↦ inr long.1
          ]
