-- ===== src/Adapter/Chunks/Deltas.antt =====
-- What the events of a chunk carry, and which chunks have none.
use openbotflow.Prelude.{◌≡◌, refl, ap, ◌∙◌, String, true, Option, none, some, string_key}
use openbotflow.Json.{Json, null, arr, obj, Items, cons, Fields, end, get_field, get_value, truthy}
use openbotflow.Content.{get_or}
use openbotflow.Adapter.Chunks.{
  append, append_all, or_value, tool_events, finish_events, start_events, delta_events,
  choice_events, choices_events, internal_chunk_to_anthropic_sse,
}

module _ (hex : String) where
  append_all-none : (o : Option Items) → append_all o none ≡ none
  append_all-none none = refl
  append_all-none (some xs) = refl

  finish_events-null :
      (chunk : Fields) (reason : Json)
      → truthy reason ≡ true
      → get_field "usage" chunk ≡ some null
      → finish_events hex chunk reason ≡ none
  unfolding get_or
  finish_events-null chunk reason f u = rw (f, u) refl

  -- A chunk with a finish reason whose `usage` is there and null raises, whatever else it holds.
  pub internal_chunk_to_anthropic_sse-null :
      (chunk choice delta : Fields) (rest : Items)
      → get_value "choices" chunk ≡ arr (cons (obj choice) rest)
      → or_value (get_value "delta" choice) (obj end) ≡ obj delta
      → truthy (get_value "finish_reason" choice) ≡ true
      → get_field "usage" chunk ≡ some null
      → internal_chunk_to_anthropic_sse hex chunk ≡ none
  unfolding internal_chunk_to_anthropic_sse get_or
  internal_chunk_to_anthropic_sse-null chunk choice delta rest c d f u =
      ap (choices_events hex chunk) c
      ∙ ap (choice_events hex chunk choice) d
      ∙ ap
          (λ o.
            append_all
              (some (append (start_events hex chunk delta) (delta_events hex choice delta)))
              (append_all (tool_events hex (get_value "tool_calls" delta)) o))
          (finish_events-null chunk (get_value "finish_reason" choice) f u)
      ∙ ap
          (append_all
            (some (append (start_events hex chunk delta) (delta_events hex choice delta))))
          (append_all-none (tool_events hex (get_value "tool_calls" delta)))
