-- ===== src/Adapter/Chunks.antt =====
-- `internal_chunk_to_anthropic_sse` of protocol_adapter.py. The random part of a missing id is an
-- argument.
pub mod Deltas
pub mod Texts
use Prim.Native.String
use openbotflow.Prelude.{
  ℕ, String, Bool, true, false, not, ◌&&◌, Option, none, some, ◌==◌, string_key, if◌then◌else◌,
  or_else,
}
use openbotflow.Prelude.Int.{pos}
use openbotflow.Json.{
  Json, null, bool, num, str, arr, obj, Items, nil, cons, Fields, end, field, get_field, get_value,
  truthy,
}
use openbotflow.Content.{get_or, is_text}

-- xs + ys
abbrev pub append : Items → Items → Items
append nil ys = ys
append (cons x xs) ys = cons x (append xs ys)

abbrev pub append_all : Option Items → Option Items → Option Items
append_all (some xs) (some ys) = some (append xs ys)
append_all _ _ = none

-- x is None
abbrev pub is_null : Json → Bool
is_null null = true
is_null _ = false

-- x or y
abbrev pub or_value : Json → Json → Json
or_value x y = if truthy x then x else y

abbrev pub zero_json : Json
zero_json = num (pos 0)

module _ (hex : String) where
  abbrev pub message_start : Fields → Json
  message_start chunk = obj (
      field "type" (str "message_start") (
        field "message"
          (obj (
            field "id" (get_or "id" (str (String.◌++◌ "msg_" hex)) chunk) (
              field "type" (str "message") (
                field "role" (str "assistant") (
                  field "content" (arr nil) (field "model" (get_or "model" (str "") chunk) end))))))
          end))

  abbrev pub block_delta : Json → Json → Json
  block_delta index delta =
      obj (field "type" (str "content_block_delta") (field "index" index (field "delta" delta end)))

  abbrev pub text_delta : Json → Json
  text_delta content = obj (field "type" (str "text_delta") (field "text" content end))

  abbrev pub thinking_delta : Json → Json
  thinking_delta reasoning =
      obj (field "type" (str "thinking_delta") (field "thinking" reasoning end))

  abbrev pub input_delta : Json → Json
  input_delta arguments =
      obj (field "type" (str "input_json_delta") (field "partial_json" arguments end))

  abbrev pub single : Bool → Json → Items
  single test event = if test then cons event nil else nil

  abbrev pub start_events : Fields → Fields → Items
  start_events chunk delta =
      single
        (is_text (get_value "role" delta) "assistant" && not (is_null (get_value "content" delta)))
        (message_start chunk)

  abbrev pub delta_events : Fields → Fields → Items
  delta_events choice delta =
      let index = get_or "index" zero_json choice in
      let reasoning = get_value "reasoning_content" delta in
      let content = or_value (get_value "content" delta) (str "") in
      append (single (truthy reasoning) (block_delta index (thinking_delta reasoning)))
        (single (truthy content) (block_delta index (text_delta content)))

  abbrev pub tool_start : Json → Json → Json → Json
  tool_start index id name = obj (
      field "type" (str "content_block_start") (
        field "index" index (
          field "content_block"
            (obj (field "type" (str "tool_use") (field "id" id (field "name" name end)))) end)))

  abbrev pub function_events : Fields → Json → Option Items
  function_events tc (obj function) =
      let index = get_or "index" zero_json tc in
      let name = get_value "name" function in
      let arguments = get_value "arguments" function in
      some (
        append
          (single (truthy name)
            (tool_start index (get_or "id" (str (String.◌++◌ "toolu_" hex)) tc) name))
          (single (truthy arguments) (block_delta index (input_delta arguments))))
  function_events tc _ = none

  abbrev pub call_events : Json → Option Items
  call_events (obj tc) = function_events tc (get_or "function" (obj end) tc)
  call_events _ = none

  abbrev pub calls_events : Items → Option Items
  calls_events nil = some nil
  calls_events (cons tc tcs) = append_all (call_events tc) (calls_events tcs)

  -- The tool calls that are there, of a value that is not empty.
  abbrev pub tool_events : Json → Option Items
  tool_events (arr tcs) = calls_events tcs
  tool_events tool_calls = if truthy tool_calls then none else some nil

  abbrev pub stop_reason : Json → String
  stop_reason reason =
      if is_text reason "stop"
      then "end_turn"
      else if is_text reason "length"
      then "max_tokens"
      else if is_text reason "content_filter"
      then "content_filter"
      else if is_text reason "tool_calls"
      then "tool_use"
      else "end_turn"

  abbrev pub message_delta : Json → Fields → Json
  message_delta reason usage = obj (
      field "type" (str "message_delta") (
        field "delta"
          (obj (field "stop_reason" (str (stop_reason reason)) (field "stop_sequence" null end)))
          (field "usage"
            (obj (
              field "input_tokens" (get_or "prompt_tokens" zero_json usage)
                (field "output_tokens" (get_or "completion_tokens" zero_json usage) end)))
            end)))

  abbrev pub finish_with : Json → Json → Option Items
  finish_with reason (obj usage) = some (cons (message_delta reason usage) nil)
  finish_with reason _ = none

  abbrev pub finish_events : Fields → Json → Option Items
  finish_events chunk reason =
      if truthy reason then finish_with reason (get_or "usage" (obj end) chunk) else some nil

  abbrev pub choice_events : Fields → Fields → Json → Option Items
  choice_events chunk choice (obj delta) =
      append_all (some (append (start_events chunk delta) (delta_events choice delta))) (
        append_all (tool_events (get_value "tool_calls" delta))
          (finish_events chunk (get_value "finish_reason" choice)))
  choice_events chunk choice _ = none

  -- The events of choices[0]
  abbrev pub first_events : Fields → Json → Option Items
  first_events chunk (obj choice) =
      choice_events chunk choice (or_value (get_value "delta" choice) (obj end))
  first_events chunk _ = some nil

  abbrev pub choices_events : Fields → Json → Option Items
  choices_events chunk (arr nil) = some nil
  choices_events chunk (arr (cons choice rest)) = first_events chunk choice
  choices_events chunk (str s) = some nil
  choices_events chunk choices = if truthy choices then none else some nil

  unfoldable pub internal_chunk_to_anthropic_sse : (chunk : Fields) → Option Items
  unfolding get_or get_value truthy
  internal_chunk_to_anthropic_sse chunk = choices_events chunk (get_value "choices" chunk)
