-- ===== src/Adapter.antt =====
-- protocol_adapter.py: requests of the OpenAI and Anthropic formats, and the events of Anthropic's
-- streams. A missing result is an exception, of a value that is not of the type that the code takes
-- it for.
pub mod Chunks
pub mod Unified
pub mod Finish
use openbotflow.Prelude.{
  ℕ, String, Bool, true, false, not, ◌&&◌, ◌||◌, Option, none, some, ◌==◌, string_key,
  if◌then◌else◌, or_else,
}
use openbotflow.Prelude.Int.{pos}
use openbotflow.Json.{
  Json, null, bool, num, str, arr, obj, Items, nil, cons, Fields, end, field, get_field, get_value,
  put_field, keep_fields, truthy,
}
use openbotflow.Content.{get_or}
use openbotflow.Content.Blocks.{anthropic_to_openai_content}

-- The internal parameters of a request.
pub record Internal : Type 0 where
  pub messages : Json
  pub model : Json
  pub temperature : Json
  pub max_tokens : Json
  pub stream : Json
  pub extra : Fields

abbrev pub is_parameter : String → Bool
is_parameter k =
    k == "messages" || k == "model" || k == "temperature" || k == "max_tokens" || k == "stream"

unfoldable pub openai_to_internal : (body : Fields) → Internal
unfolding get_or get_value keep_fields
openai_to_internal body = record {
  messages = get_or "messages" (arr nil) body;
  model = get_or "model" (str "") body;
  temperature = get_value "temperature" body;
  max_tokens = get_value "max_tokens" body;
  stream = get_or "stream" (bool false) body;
  extra = keep_fields (λ k. not (is_parameter k)) body;
}

-- What a loop runs over.
abbrev pub items_of : Json → Option Items
items_of (arr xs) = some xs
items_of (obj end) = some nil
items_of (str s) = if s == "" then some nil else none
items_of _ = none

abbrev pub system_message : Json → Json
system_message system = obj (field "role" (str "system") (field "content" system end))

-- [message] + messages
abbrev pub in_front : Json → Json → Option Items
in_front message (arr xs) = some (cons message xs)
in_front message _ = none

abbrev pub put_content : Fields → Option Json → Option Json
put_content msg none = none
put_content msg (some content) = some (obj (put_field "content" content msg))

module _ (str_of : Json → String) where
  abbrev pub converted_content : Json → Option Json
  converted_content (arr blocks) = anthropic_to_openai_content str_of (arr blocks)
  converted_content content = some content

  abbrev pub converted_message : Json → Option Json
  converted_message (obj msg) = put_content msg (converted_content (get_or "content" (str "") msg))
  converted_message _ = none

  abbrev pub both : Option Json → Option Items → Option Items
  both (some x) (some xs) = some (cons x xs)
  both _ _ = none

  abbrev pub converted_messages : Items → Option Items
  converted_messages nil = some nil
  converted_messages (cons m ms) = both (converted_message m) (converted_messages ms)

  abbrev pub converted : Option Items → Option Items
  converted none = none
  converted (some ms) = converted_messages ms

  abbrev pub internal_of : Fields → Option Items → Option Internal
  internal_of body none = none
  internal_of body (some messages) = some (record {
    messages = arr messages;
    model = get_or "model" (str "") body;
    temperature = get_value "temperature" body;
    max_tokens = get_or "max_tokens" (num (pos 4096)) body;
    stream = get_or "stream" (bool false) body;
    extra = keep_fields (λ k. not (is_parameter k || k == "system")) body;
  })

  unfoldable pub anthropic_to_internal : (body : Fields) → Option Internal
  unfolding get_or get_value keep_fields truthy put_field anthropic_to_openai_content
  anthropic_to_internal body =
      let messages = get_or "messages" (arr nil) body in
      let system = get_or "system" (str "") body in
      internal_of body (
        converted
          (if truthy system then in_front (system_message system) messages else items_of messages))
