-- ===== src/Context.antt =====
-- common/context.py and `truncate_messages` of pipeline/_shared.py. The tokenizer is a library: the
-- number of tokens of a text is the argument `encode`.
pub mod Search
pub mod Estimate
pub mod Laws
pub mod Keeps
pub mod Endpoints
use Prim.Native.String
use Prim.Native.String.{len}
use openbotflow.Prelude.{
  ℕ, zero, suc, ◌+◌, ◌-◌, ◌/◌, max, min, String, Bool, true, false, not, Option, none, some, List,
  [], ◌∷◌, ◌++◌, leb, ltb, ◌==◌, nat_key, string_key, if◌then◌else◌, or_else, keep, length, drop,
  is_empty,
}
use openbotflow.Models.{
  Message, Content, absent, text, parts, other, Part, text_block, other_block, ModelEndpoint,
}

-- The texts of a content list's text blocks.
unfoldable pub block_texts : List Part → List String
block_texts [] = []
block_texts (text_block t ∷ items) = or_else t "" ∷ block_texts items
block_texts (other_block fields ∷ items) = block_texts items

-- " ".join(...)
unfoldable pub join : List String → String
join [] = ""
join (s ∷ []) = s
join (s ∷ t ∷ rest) = String.◌++◌ s (String.◌++◌ " " (join (t ∷ rest)))

unfoldable pub extract_text : Content → String
unfolding block_texts join
extract_text absent = ""
extract_text (text s) = s
extract_text (parts items) = join (block_texts items)
extract_text (other s) = s

-- The sum over the messages of the measure of the role and of the text, and the overhead.
unfoldable pub total : (String → ℕ) → List Message → ℕ
unfolding extract_text
total measure [] = 0
total measure (m ∷ messages) =
    measure (or_else m.role "") + measure (extract_text m.content) + 1 + total measure messages

-- A text's UTF-8 bytes, and the overhead.
unfoldable pub token_upper_bound : List Message → ℕ
unfolding total
token_upper_bound messages = total len messages

unfoldable pub estimate_tokens : (encode : String → ℕ) → List Message → ℕ
unfolding total
estimate_tokens encode messages = total encode messages

abbrev pub is_system : Message → Bool
is_system m = elim m.role [ none ↦ false | some r ↦ r == "system" ]

-- The binary search, by the rounds left at most; `end` is the source's `high + 1`.
unfoldable pub search : (fits : ℕ → Bool) (fuel low end best : ℕ) → ℕ
search fits zero low end best = best
search fits (suc fuel) low end best =
    let mid = (low + end - 1) / 2 in
    if ltb low end
    then if fits mid then search fits fuel (mid + 1) end mid else search fits fuel low mid best
    else best

-- history[len(history) - n:]
abbrev pub last_n : {A : Type 0} → ℕ → List A → List A
last_n n xs = drop (length xs - n) xs

-- max(context_window - (max_tokens or 1024), 1)
abbrev pub token_limit : ℕ → Option ℕ → ℕ
token_limit context_window none = max (context_window - 1024) 1
token_limit context_window (some zero) = max (context_window - 1024) 1
token_limit context_window (some (suc n)) = max (context_window - suc n) 1

-- The context windows that are set.
unfoldable pub windows : List ModelEndpoint → List ℕ
windows [] = []
windows (ep ∷ eps) =
    let rest = windows eps in
    if ltb 0 ep.detail.context_window then ep.detail.context_window ∷ rest else rest

abbrev pub minimum : ℕ → List ℕ → ℕ
minimum n [] = n
minimum n (m ∷ ms) = minimum (min n m) ms

module _ (encode : String → ℕ) where
  -- Do the system messages and the last ones fit?
  unfoldable pub fits : ℕ → (system history : List Message) → ℕ → Bool
  unfolding estimate_tokens
  fits limit system history n = leb (estimate_tokens encode (system ++ last_n n history)) limit

  -- The messages that are kept when the search answers `best`.
  abbrev pub kept : (messages system history : List Message) → ℕ → List Message
  kept messages (m ∷ system) history zero = m ∷ system
  kept messages [] history zero = last_n 1 messages
  kept messages system history (suc n) = system ++ last_n (suc n) history

  unfoldable pub truncate_to_context_window :
      List Message → (context_window : ℕ) → Option ℕ → List Message
  unfolding token_upper_bound fits search
  truncate_to_context_window messages context_window max_tokens =
      let limit = token_limit context_window max_tokens in
      let system = keep is_system messages in
      let history = keep (λ m. not (is_system m)) messages in
      let rounds = length history + 1 in
      if context_window == 0
      then messages
      else if leb (token_upper_bound messages) limit
      then messages
      else kept messages system history (search (fits limit system history) rounds 0 rounds 0)

  -- By the smallest of the windows, if there is one.
  unfoldable pub truncate_to_smallest : List Message → Option ℕ → List ℕ → List Message
  unfolding truncate_to_context_window
  truncate_to_smallest messages max_tokens [] = messages
  truncate_to_smallest messages max_tokens (w ∷ ws) =
      truncate_to_context_window messages (minimum w ws) max_tokens

  unfoldable pub truncate_messages : List Message → List ModelEndpoint → Option ℕ → List Message
  unfolding truncate_to_smallest windows
  truncate_messages messages endpoints max_tokens =
      truncate_to_smallest messages max_tokens (windows endpoints)
