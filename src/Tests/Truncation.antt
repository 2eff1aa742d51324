-- ===== src/Tests/Truncation.antt =====
-- Truncation with a tokenizer that makes a token of each byte.
use Prim.Native.String.{len}
use openbotflow.Prelude.{
  ℕ, Bool, ◌==◌, nat_key, none, inl, inr, ◌≡◌, refl, String, some, List, [], ◌∷◌, arith,
}
use openbotflow.Json.{end}
use openbotflow.Models.{Message, text, ModelEndpoint}
use openbotflow.Context.{truncate_to_context_window, token_upper_bound}
use openbotflow.Context.Laws.{
  Fits, IsMost, Takes, truncate_to_context_window-Fits, truncate_to_context_window-IsMost,
}
use openbotflow.Context.Keeps.{Keeps, truncate_to_context_window-Keeps}
use openbotflow.Models.{GroupModelWithDetails, RouteResult}
use openbotflow.Errors.{Result, ok}
use openbotflow.Runtime.{Shared}
use openbotflow.Strategies.Select.{Request, round_robin}
use openbotflow.Strategies.Served.{IsServed, strategies-IsServed}
use openbotflow.Tests.Routing.{World, sim, start, detail, endpoint}

abbrev say : String → String → Message
say role words = record { role = some role; content = text words; rest = end }

abbrev talk : List Message
talk =
    say "user" "first question"
    ∷ say "system" "be brief"
    ∷ say "assistant" "an answer"
    ∷ say "user" "second"
    ∷ []

-- The window leaves 40 tokens: with the two last ones the system message takes more.
cut :
    truncate_to_context_window len talk 50 (some 10)
    ≡ say "system" "be brief" ∷ say "user" "second" ∷ []
unfolding truncate_to_context_window
cut = refl

truncate_to_context_window-IsMost_example :
    (n : ℕ) × IsMost len talk 40 n
    × Takes len talk n (truncate_to_context_window len talk 50 (some 10))
unfolding token_upper_bound
truncate_to_context_window-IsMost_example =
    truncate_to_context_window-IsMost len talk 50 (some 10) (omega arith) (omega arith)

truncate_to_context_window-Fits_example :
    Fits len talk 40 (truncate_to_context_window len talk 50 (some 10))
truncate_to_context_window-Fits_example =
    truncate_to_context_window-Fits len talk 50 (some 10) (λ s. omega arith) (omega arith)

truncate_to_context_window-Keeps_example :
    Keeps talk (truncate_to_context_window len talk 50 (some 10))
truncate_to_context_window-Keeps_example = truncate_to_context_window-Keeps len talk 50 (some 10)

abbrev small : ModelEndpoint
small = record { detail = record (detail 1) { context_window = 50 }; provider = 1 }

abbrev same : GroupModelWithDetails → GroupModelWithDetails → Bool
same a b = a.model_id == b.model_id

abbrev load : ℕ → Shared World → Result (List ModelEndpoint) × Shared World
load id s = (ok (small ∷ endpoint 2 ∷ []), s)

abbrev ask : Request
ask = record { messages = talk; temperature = none; max_tokens = some 10; kwargs = end }

abbrev cut_talk : List Message
cut_talk = say "system" "be brief" ∷ say "user" "second" ∷ []

abbrev answer : RouteResult
answer = record {
  endpoints = endpoint 2 ∷ small ∷ [];
  messages = cut_talk;
  temperature = none;
  max_tokens = some 10;
  extra_kwargs = end;
}

-- The second round of a group with a small and an unlimited endpoint.
second_round : (round_robin sim len load 1 ask ((1, 1) ∷ []) (start [])).0 ≡ ok answer
unfolding round_robin
second_round = refl

strategies-IsServed_example : IsServed len ask answer
strategies-IsServed_example =
    strategies-IsServed sim len load 1 ask same (λ s. omega arith) answer ((1, 1) ∷ []) (start [])
      (inr (inl second_round))
