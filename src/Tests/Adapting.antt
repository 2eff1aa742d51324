-- ===== src/Tests/Adapting.antt =====
-- Requests and chunks in Anthropic's format.
use openbotflow.Prelude.{◌≡◌, refl, String, Option, none, some}
use openbotflow.Prelude.Int.{pos}
use openbotflow.Json.{
  Json, null, num, str, arr, obj, Items, nil, cons, Fields, end, field, put_field,
}
use openbotflow.Content.{text_block}
use openbotflow.Adapter.{Internal, anthropic_to_internal, system_message}
use openbotflow.Adapter.Chunks.{internal_chunk_to_anthropic_sse, block_delta, text_delta}
use openbotflow.Adapter.Chunks.Texts.{texts, internal_chunk_to_anthropic_sse-texts}
use openbotflow.Adapter.Unified.{chunk_to_unified}
use openbotflow.Adapter.Finish.{chunk_to_unified-Raises}

abbrev shown : Json → String
shown j = "?"

abbrev user : Json → Json
user content = obj (field "role" (str "user") (field "content" content end))

abbrev body : Fields
body = field "model" (str "m") (
    field "system" (str "be brief")
      (field "messages" (arr (cons (user (arr (cons (text_block (str "hi")) nil))) nil)) end))

abbrev messages_of : Option Internal → Json
messages_of none = null
messages_of (some i) = i.messages

request_test :
    messages_of (anthropic_to_internal shown body)
    ≡ arr (cons (system_message (str "be brief")) (cons (user (str "hi")) nil))
unfolding anthropic_to_internal
request_test = refl

abbrev choice_with : Json → Json → Fields
choice_with content reason =
    field "index" (num (pos 0))
      (field "delta" (obj (field "content" content end)) (field "finish_reason" reason end))

abbrev chunk_data : Json → Json → Fields
chunk_data content reason = field "choices" (arr (cons (obj (choice_with content reason)) nil)) end

abbrev events_of : Option Fields → Option Items
events_of none = none
events_of (some chunk) = internal_chunk_to_anthropic_sse "0" chunk

-- A chunk with a text, and the one with the finish reason.
chunk_tests :
    (events_of (some (chunk_data (str "hi") null))
      ≡ some (cons (block_delta "0" (num (pos 0)) (text_delta "0" (str "hi"))) nil))
    × (events_of (chunk_to_unified shown (chunk_data (str "") (str "stop")) "m") ≡ none)
unfolding internal_chunk_to_anthropic_sse chunk_to_unified
chunk_tests = (refl, refl)

abbrev last_chunk : Fields
last_chunk = field "id" (str "") (
    field "object" (str "chat.completion.chunk") (
      field "model" (str "m") (
        field "choices"
          (arr (
            cons
              (obj (
                field "index" (num (pos 0)) (
                  field "delta"
                    (obj (field "role" (str "assistant") (field "content" (str "") end)))
                    (field "finish_reason" (str "stop") end))))
              nil))
          (field "usage" null (field "provider" (str "openai") end)))))

chunk_to_unified-Raises_example :
    internal_chunk_to_anthropic_sse "0" (put_field "model" (str "gpt") last_chunk) ≡ none
unfolding chunk_to_unified
chunk_to_unified-Raises_example =
    chunk_to_unified-Raises shown "0" "gpt" (chunk_data (str "") (str "stop"))
      (choice_with (str "") (str "stop")) last_chunk "m" refl refl refl refl

internal_chunk_to_anthropic_sse-texts_example :
    texts (cons (block_delta "0" (num (pos 0)) (text_delta "0" (str "hi"))) nil) ≡ "hi"
unfolding internal_chunk_to_anthropic_sse
internal_chunk_to_anthropic_sse-texts_example =
    internal_chunk_to_anthropic_sse-texts "0" (chunk_data (str "hi") null)
      (choice_with (str "hi") null) (field "content" (str "hi") end) nil
      (cons (block_delta "0" (num (pos 0)) (text_delta "0" (str "hi"))) nil) "hi" refl refl refl
      refl
