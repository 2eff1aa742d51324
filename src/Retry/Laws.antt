-- ===== src/Retry/Laws.antt =====
-- Which errors are retried, and the bound on the backoff.
use openbotflow.Prelude.{
  ℕ, ◌+◌, ◌*◌, ◌≤◌, ◌<◌, ◌≡◌, ◌≢◌, true, some, List, [], ◌∷◌, ◌++◌, arith, nat_key, All,
}
use native.Mathlib.Nat.{one-le-pow}
use openbotflow.Cooldown.{second}
use openbotflow.Errors.{Error}
use openbotflow.Retry.{
  at_boundary, search_http, is_retryable_status, is_retryable_error, codes, backoff_delay,
}

-- A status line behind a text with no H is read back, whatever follows it.
search_http-append :
    (before after : List ℕ) (a b c : ℕ)
    → All (λ x. x ≢ b'H') before
    → a < 10
    → b < 10
    → c < 10
    → at_boundary after ≡ true
    → search_http (before ++ codes "HTTP " ++ (a + b'0') ∷ (b + b'0') ∷ (c + b'0') ∷ after)
      ≡ some (a * 100 + b * 10 + c)
unfolding search_http
search_http-append [] after a b c h pa pb pc e = ground arith
search_http-append (x ∷ before) after a b c h pa pb pc e =
    ground (arith, search_http-append before after a b c h.1 pa pb pc e)

-- An error whose text holds a status line with a retryable status is retried, whatever stands
-- before it (with no H) and behind it (no word character first).
pub is_retryable_error-status_line :
    (e : Error) (before after : List ℕ) (a b c : ℕ)
    → codes e.message ≡ before ++ codes "HTTP " ++ (a + b'0') ∷ (b + b'0') ∷ (c + b'0') ∷ after
    → All (λ x. x ≢ b'H') before
    → a < 10
    → b < 10
    → c < 10
    → at_boundary after ≡ true
    → is_retryable_status (a * 100 + b * 10 + c) ≡ true
    → is_retryable_error e ≡ true
unfolding is_retryable_error
is_retryable_error-status_line e before after a b c text h pa pb pc edge ok =
    rw (text, search_http-append before after a b c h pa pb pc edge, ok) (ground arith)

-- The delay before a retry is between one second and thirty.
pub backoff_delay_bounds :
    (attempt : ℕ) → (second ≤ backoff_delay attempt) × (backoff_delay attempt ≤ 30 * second)
unfolding backoff_delay
backoff_delay_bounds attempt = omega (arith, one-le-pow attempt 2 (omega arith))
