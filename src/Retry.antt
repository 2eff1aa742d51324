-- ===== src/Retry.antt =====
-- `is_retryable_error` and `exponential_backoff` of router.py. Texts are walked as code points; the
-- pattern HTTP\s+(\d{3})\b is read with ASCII digits, ASCII letters and the one-byte spaces, and a
-- code point above 127 counts as a word character.
pub mod Laws
use Prim.Native.Char.{code}
use Prim.Native.String
use openbotflow.Prelude.{
  ℕ, zero, suc, ◌+◌, ◌-◌, ◌*◌, ◌/◌, ◌^◌, min, String, Bool, true, false, not, ◌&&◌, ◌||◌, Option,
  none, some, List, [], ◌∷◌, leb, ltb, ◌==◌, nat_key, if◌then◌else◌, any,
}
use openbotflow.Cooldown.{second}
use openbotflow.Errors.{Error}

abbrev pub codes : String → List ℕ
codes String.[] = []
codes (String.◌∷◌ c s) = code c ∷ codes s

abbrev pub is_digit : ℕ → Bool
is_digit c = leb b'0' c && leb c b'9'

abbrev pub is_space : ℕ → Bool
is_space c = (leb 9 c && leb c 13) || (leb 28 c && leb c 32) || c == 0x85 || c == 0xa0

abbrev pub is_word : ℕ → Bool
is_word c =
    is_digit c || (leb b'a' c && leb c b'z') || (leb b'A' c && leb c b'Z') || c == b'_' || ltb 127 c

-- \b behind a digit: the text ends, or goes on with no word character.
abbrev pub at_boundary : List ℕ → Bool
at_boundary [] = true
at_boundary (c ∷ s) = not (is_word c)

-- (\d{3})\b
unfoldable pub three_digits : List ℕ → Option ℕ
three_digits (a ∷ b ∷ c ∷ s) =
    if is_digit a && is_digit b && is_digit c && at_boundary s
    then some ((a - b'0') * 100 + (b - b'0') * 10 + (c - b'0'))
    else none
three_digits _ = none

-- \s*(\d{3})\b
unfoldable pub spaces_digits : List ℕ → Option ℕ
unfolding three_digits
spaces_digits [] = none
spaces_digits (c ∷ s) =
    let more = spaces_digits s in if is_space c then more else three_digits (c ∷ s)

-- HTTP\s+(\d{3})\b at the start of the text
unfoldable pub match_http : List ℕ → Option ℕ
unfolding spaces_digits
match_http (h ∷ t ∷ u ∷ p ∷ c ∷ s) =
    if h == b'H' && t == b'T' && u == b'T' && p == b'P' && is_space c then spaces_digits s else none
match_http _ = none

-- re.search: the leftmost match
unfoldable pub search_http : List ℕ → Option ℕ
unfolding match_http
search_http [] = none
search_http (c ∷ s) =
    let later = search_http s in elim (match_http (c ∷ s)) [ some n ↦ some n | none ↦ later ]

abbrev pub to_lower : ℕ → ℕ
to_lower c = if leb b'A' c && leb c b'Z' then c + 32 else c

unfoldable pub has_prefix : List ℕ → List ℕ → Bool
has_prefix [] s = true
has_prefix (c ∷ p) [] = false
has_prefix (c ∷ p) (d ∷ s) = c == to_lower d && has_prefix p s

-- `p in s.lower()`
unfoldable pub contains_lower : List ℕ → List ℕ → Bool
unfolding has_prefix
contains_lower p [] = has_prefix p []
contains_lower p (c ∷ s) = has_prefix p (c ∷ s) || contains_lower p s

abbrev pub is_retryable_status : ℕ → Bool
is_retryable_status n = any (λ c. c == n) (429 ∷ 500 ∷ 502 ∷ 503 ∷ 504 ∷ [])

abbrev pub has_retryable : Option ℕ → Bool
has_retryable none = false
has_retryable (some n) = is_retryable_status n

unfoldable pub is_retryable_error : Error → Bool
unfolding search_http contains_lower
is_retryable_error e =
    let msg = codes e.message in
    has_retryable e.status_code
    || has_retryable (search_http msg)
    || (contains_lower (codes "timeout") msg || contains_lower (codes "timed out") msg)

-- The delay before the retry, without its jitter, in microseconds.
unfoldable pub backoff_delay : ℕ → ℕ
backoff_delay attempt = min (second * 2 ^ attempt) (30 * second)
