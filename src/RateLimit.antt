-- ===== src/RateLimit.antt =====
-- `RateLimitMiddleware` and `_asgi_header` of core.py. Times are wall-clock microseconds, past the
-- first second of the epoch. The query string is given as the pairs that `parse_qsl` makes of it,
-- headers as pairs of texts.
pub mod Bound
pub mod RetryAfter
pub mod Tracked
pub mod Window
use Prim.Native.String.{slice, len}
use text.Mathlib.Text.{starts_with}
use openbotflow.Prelude.{
  ℕ, ◌+◌, ◌-◌, ◌*◌, ◌/◌, ◌%◌, String, Bool, true, false, ◌&&◌, Option, none, some, List, [], ◌∷◌,
  ◌++◌, leb, ltb, ◌==◌, nat_key, string_key, if◌then◌else◌, or_else, length, drop,
}
use openbotflow.Prelude.Assoc.{get, put, remove_all}
use openbotflow.Cooldown.{second}

-- The state of the middleware: a deque of times and the last access for each key.
pub record Limiter : Type 0 where
  pub requests : List (String × List ℕ)
  pub last_access : List (String × ℕ)
  pub request_count : ℕ

pub data Decision : Type 0 where
  forwarded : Decision
  too_many : (retry_after : ℕ) → Decision
  index_error : Decision

-- What an ASGI scope holds that the middleware reads.
pub record Scope : Type 0 where
  pub is_http : Bool
  pub path : String
  pub headers : List (String × String)
  pub query : List (String × String)
  pub client : Option String

-- The first header of that name, or the empty text.
unfoldable pub asgi_header : String → List (String × String) → String
unfolding get
asgi_header name headers = or_else (get name headers) ""

-- The last value of a duplicated query parameter.
unfoldable pub last_value : String → List (String × String) → String → String
last_value key [] found = found
last_value key ((k, v) ∷ pairs) found = last_value key pairs (if k == key then v else found)

unfoldable pub get_rate_limit_key : Scope → String
unfolding asgi_header last_value
get_rate_limit_key scope =
    let auth = asgi_header "authorization" scope.headers in
    let api_key = last_value "api_key" scope.query "" in
    if starts_with auth "Bearer "
    then slice auth 7 (len auth)
    else if api_key == ""
    then or_else scope.client "anonymous"
    else api_key

abbrev pub idle : ℕ
idle = 300 * second

-- The keys that were last used more than five minutes ago.
unfoldable pub stale_keys : ℕ → List (String × ℕ) → List String
stale_keys now [] = []
stale_keys now ((k, ts) ∷ m) =
    let rest = stale_keys now m in if ltb (ts + idle) now then k ∷ rest else rest

unfoldable pub cleanup_old_keys : ℕ → Limiter → Limiter
unfolding stale_keys remove_all
cleanup_old_keys now l =
    let stale = stale_keys now l.last_access in
    record l {
      requests = remove_all stale l.requests;
      last_access = remove_all stale l.last_access;
    }

-- deque(maxlen=n).append(x)
abbrev pub append : ℕ → List ℕ → ℕ → List ℕ
append n dq x = let longer = dq ++ x ∷ [] in drop (length longer - n) longer

-- The periodic cleanup, every thousand requests.
unfoldable pub count_request : (max_keys now : ℕ) → Limiter → Limiter
unfolding cleanup_old_keys
count_request max_keys now l =
    let counted = record l { request_count = l.request_count + 1 } in
    if counted.request_count % 1000 == 0 && ltb max_keys (length counted.requests)
    then cleanup_old_keys now counted
    else counted

-- deque([now-1], maxlen=max_requests)
abbrev pub first_deque : (max_requests now : ℕ) → List ℕ
first_deque max_requests now = append max_requests [] (now - second)

-- The decision on a key's deque.
unfoldable pub decide : (max_requests window : ℕ) → List ℕ → ℕ → Decision × List ℕ
decide max_requests window [] now = (index_error, [])
decide max_requests window (oldest ∷ dq) now =
    if leb now (oldest + window) && length (oldest ∷ dq) == max_requests
    then (too_many ((oldest + window - now) / second + 1), oldest ∷ dq)
    else (forwarded, append max_requests (oldest ∷ dq) now)

module _ (max_requests window max_keys : ℕ) where
  unfoldable pub admit : String → ℕ → Limiter → Decision × Limiter
  unfolding count_request decide get put
  admit key now l =
      let counted = count_request max_keys now l in
      let (decision, dq) =
        decide max_requests window
          (or_else (get key counted.requests) (first_deque max_requests now)) now in
      (
        decision,
        record counted {
          requests = put key dq counted.requests;
          last_access = put key now counted.last_access;
        },
      )

  -- The whole middleware, up to the call of the application.
  unfoldable pub rate_limit : Scope → ℕ → Limiter → Decision × Limiter
  unfolding admit get_rate_limit_key
  rate_limit scope now l =
      if scope.is_http
      then if scope.path == "/health"
        then (forwarded, l)
        else admit (get_rate_limit_key scope) now l
      else (forwarded, l)
