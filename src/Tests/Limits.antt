-- ===== src/Tests/Limits.antt =====
-- The rate limiter at work.
use openbotflow.Prelude.{
  ℕ, ◌+◌, ◌*◌, ◌≤◌, ◌<◌, ◌⊎◌, ◌≡◌, refl, true, none, String, List, [], ◌∷◌, arith,
}
use openbotflow.Cooldown.{second}
use openbotflow.RateLimit.{Limiter, forwarded, too_many, admit, get_rate_limit_key}
use openbotflow.RateLimit.Window.{in_window}
use openbotflow.RateLimit.Bound.{serve, empty, serve_bound}
use openbotflow.RateLimit.RetryAfter.{IsTooMany, admit-retry_after}

abbrev burst : List (String × ℕ)
burst =
    ("a", 10 * second)
    ∷ ("b", 11 * second)
    ∷ ("a", 12 * second)
    ∷ ("a", 13 * second)
    ∷ ("a", 14 * second)
    ∷ []

burst_served : (serve 3 (60 * second) 10 "a" burst empty []).1 ≡ 12 * second ∷ 10 * second ∷ []
unfolding serve
burst_served = refl

serve_bound_example :
    in_window (60 * second) (15 * second) (serve 3 (60 * second) 10 "a" burst empty []).1 ≤ 3
serve_bound_example =
    serve_bound 3 (60 * second) 10 "a" burst (15 * second) (omega arith)
      (omega arith, (omega arith, (omega arith, (omega arith, (omega arith, omega arith)))))

-- A key that has used up its two requests.
abbrev used_up : Limiter
used_up = record {
  requests = ("a", 13 * second ∷ 20 * second ∷ []) ∷ [];
  last_access = ("a", 20 * second) ∷ [];
  request_count = 2;
}

admit-retry_after_example :
    let next =
      (admit 2
        (60 * second)
        10
        "a"
        (80 * second)
        (admit 2 (60 * second) 10 "a" (70 * second) used_up).1).0 in
    (70 * second + 4 * second ≤ 80 * second) × (next ≡ forwarded)
    ⊎ (80 * second + second ≤ 70 * second + 4 * second) × IsTooMany next
    ⊎ (80 * second < 70 * second + 4 * second) × (70 * second + 4 * second < 80 * second + second)
unfolding admit
admit-retry_after_example =
    admit-retry_after 2 (60 * second) 10 "a" (70 * second) 4 (80 * second) used_up refl
      (omega arith) (omega arith)

-- A limit of one request rejects the first one.
single : (admit 1 (60 * second) 10 "a" (10 * second) empty).0 ≡ too_many 60
unfolding admit
single = refl

by_key :
    get_rate_limit_key (record {
      is_http = true;
      path = "/v1/chat/completions";
      headers = ("authorization", "Bearer sk-1") ∷ [];
      query = [];
      client = none;
    })
    ≡ "sk-1"
unfolding get_rate_limit_key
by_key = refl
