-- ===== src/Context/Laws.antt =====
-- What truncation promises of the messages that it lets through.
use Prim.Native.String.{len}
use openbotflow.Prelude.{
  ℕ, zero, suc, ◌≤◌, ◌<◌, ◌≡◌, ◌⊎◌, inl, inr, refl, String, true, false, not, Option, List, [], ◌∷◌,
  ◌++◌, ◌-◌, drop, arith, leb, ◌==◌, nat_key, length, keep, Bool-cases,
}
use openbotflow.Models.{Message}
use openbotflow.Context.{
  token_upper_bound, estimate_tokens, is_system, fits, kept, last_n, token_limit,
  truncate_to_context_window,
}
use openbotflow.Context.Search.{last_fit, search-last_fit, last_fit-IsLongest}
use openbotflow.Context.Estimate.{total-le, fits-IsMonotone}

-- A byte is covered by at most one token.
abbrev pub IsByteBounded : (String → ℕ) → Type 0
IsByteBounded encode = (s : String) → encode s ≤ len s

-- The messages that are not the system's.
abbrev pub history_of : List Message → List Message
history_of messages = keep (λ m. not (is_system m)) messages

module _ (encode : String → ℕ) where
  -- Either the messages fit, or those that must stay are too long by themselves: the system
  -- messages, or the last message where there are none.
  abbrev pub Outcome : (messages system : List Message) → ℕ → List Message → Type 0
  Outcome messages system limit result =
      (estimate_tokens encode result ≤ limit)
      ⊎ (limit < estimate_tokens encode result)
        × ((result ≡ system) ⊎ (system ≡ []) × (result ≡ last_n 1 messages))

  abbrev pub Fits : List Message → ℕ → List Message → Type 0
  Fits messages limit result = Outcome messages (keep is_system messages) limit result

  -- The system messages and the last n of the others.
  abbrev pub with_last : List Message → ℕ → List Message
  with_last messages n =
      let history = history_of messages in
      keep is_system messages ++ drop (length history - n) history

  -- So many of the last messages fit, or none does beside the system messages, and more do not.
  abbrev pub IsMost : List Message → ℕ → ℕ → Type 0
  IsMost messages limit n =
      (n ≤ length (history_of messages))
      × (0 < n → estimate_tokens encode (with_last messages n) ≤ limit)
      × ((m : ℕ)
          → n < m
          → m ≤ length (history_of messages)
          → limit < estimate_tokens encode (with_last messages m))

  -- The answer when so many of the last messages are taken.
  abbrev pub Takes : List Message → ℕ → List Message → Type 0
  Takes messages (suc n) result = result ≡ with_last messages (suc n)
  Takes messages zero result =
      (result ≡ keep is_system messages) × (0 < length (keep is_system messages))
      ⊎ (keep is_system messages ≡ []) × (result ≡ drop (length messages - 1) messages)

  kept-Takes :
      (messages system : List Message) (n : ℕ)
      → keep is_system messages ≡ system
      → Takes messages n (kept encode messages system (history_of messages) n)
  kept-Takes messages (m ∷ system) (suc n) e = rw e refl
  kept-Takes messages [] (suc n) e = rw e refl
  kept-Takes messages (m ∷ system) zero e = rw e (inl (refl, omega arith))
  kept-Takes messages [] zero e = rw e (inr (refl, refl))

  last_fit-IsMost :
      (messages : List Message) (limit : ℕ)
      → let history = history_of messages in
        IsMost messages limit
          (last_fit (fits encode limit (keep is_system messages) history) (length history))
  unfolding fits
  last_fit-IsMost messages limit =
      let history = history_of messages in
      let (bound, fit, unfit) =
        last_fit-IsLongest (fits encode limit (keep is_system messages) history) (length history) in
      (
        bound,
        (λ h. let e = fit h in ground (arith, e)),
        (λ m h k. let e = unfit m h k in ground (arith, e)),
      )

  -- Where a context window is set and the messages' byte bound is over the limit, truncation takes the
  -- most of the last messages that fit beside the system messages, and more would not fit. If none of
  -- them fits, it answers the system messages alone; and where there are none of these, the last
  -- message, although it is too long.
  pub truncate_to_context_window-IsMost :
      (messages : List Message) (context_window : ℕ) (max_tokens : Option ℕ)
      → 0 < context_window
      → token_limit context_window max_tokens < token_upper_bound messages
      → (n : ℕ) × IsMost messages (token_limit context_window max_tokens) n
        × Takes messages n (truncate_to_context_window encode messages context_window max_tokens)
  unfolding truncate_to_context_window
  truncate_to_context_window-IsMost messages context_window max_tokens h k =
      let limit = token_limit context_window max_tokens in
      let system = keep is_system messages in
      let history = history_of messages in
      let a : (context_window == 0) ≡ false = ground arith in
      let b : leb (token_upper_bound messages) limit ≡ false = ground arith in
      (
        last_fit (fits encode limit system history) (length history),
        last_fit-IsMost messages limit,
        rw
            (
              a,
              b,
              search-last_fit (fits encode limit system history)
                  (fits-IsMonotone encode limit system history) (length history),
            )
            (kept-Takes messages system _ refl),
      )

  too_long :
      (messages system : List Message) (limit : ℕ) (result : List Message)
      → (result ≡ system) ⊎ (system ≡ []) × (result ≡ last_n 1 messages)
      → Outcome messages system limit result
  too_long messages system limit result h =
      elim (Bool-cases (leb (estimate_tokens encode result) limit)) [
        | inl fit ↦ inl (ground (arith, fit))
        | inr long ↦ inr (ground (arith, long), h)
      ]

  kept-Outcome :
      (messages system history : List Message) (limit best : ℕ)
      → (0 < best → fits encode limit system history best ≡ true)
      → Outcome messages system limit (kept encode messages system history best)
  unfolding fits
  kept-Outcome messages (m ∷ system) history limit zero h =
      too_long messages (m ∷ system) limit _ (inl refl)
  kept-Outcome messages [] history limit zero h = too_long messages [] limit _ (inr (refl, refl))
  kept-Outcome messages (m ∷ system) history limit (suc n) h = inl (ground (arith, h (omega arith)))
  kept-Outcome messages [] history limit (suc n) h = inl (ground (arith, h (omega arith)))

  -- What truncation answers fits into the limit, for a context window that is set and a tokenizer
  -- that makes at most one token of a byte, unless what has to stay is too long by itself: the
  -- system messages, or the last message where there are none.
  pub truncate_to_context_window-Fits :
      (messages : List Message) (context_window : ℕ) (max_tokens : Option ℕ)
      → IsByteBounded encode
      → 0 < context_window
      → Fits messages
          (token_limit context_window max_tokens)
          (truncate_to_context_window encode messages context_window max_tokens)
  unfolding truncate_to_context_window estimate_tokens
  truncate_to_context_window-Fits messages context_window max_tokens bounded h =
      let limit = token_limit context_window max_tokens in
      let system = keep is_system messages in
      let history = history_of messages in
      let a : (context_window == 0) ≡ false = ground arith in
      elim (Bool-cases (leb (token_upper_bound messages) limit)) [
        | inl small ↦
            rw (a, small) (inl (ground (arith, small, total-le encode len bounded messages)))
        | inr large ↦
            rw
              (
                a,
                large,
                search-last_fit (fits encode limit system history)
                    (fits-IsMonotone encode limit system history) (length history),
              )
              (kept-Outcome messages system history limit _
                (last_fit-IsLongest (fits encode limit system history) (length history)).1)
      ]
