-- ===== src/Adapter/Unified.antt =====
-- The chunks of an OpenAI-compatible provider: `_chunk_to_unified` and
-- `_extract_text_from_content` of providers/openai_compat.py. The text form of a value that is no
-- text is an argument.
use Prim.Native.String
use openbotflow.Prelude.{String, Option, none, some, if◌then◌else◌, or_else, string_key}
use openbotflow.Prelude.Int.{pos}
use openbotflow.Json.{
  Json, null, num, str, arr, obj, Items, nil, cons, Fields, end, field, get_value, truthy,
}
use openbotflow.Content.{get_or, is_text}

abbrev pub zero_json : Json
zero_json = num (pos 0)

-- x or {}, where it is a dict
abbrev pub dict_or_empty : Json → Option Fields
dict_or_empty (obj fields) = some fields
dict_or_empty value = if truthy value then none else some end

-- The texts of a list's text blocks; none where one is no text.
abbrev pub with_text : Json → Option (Option String) → Option (Option String)
with_text (str s) (some none) = some (some s)
with_text (str s) (some (some t)) = some (some (String.◌++◌ s (String.◌++◌ " " t)))
with_text _ _ = none

abbrev pub item_text : Json → Option (Option String) → Option (Option String)
item_text (obj item) rest =
    if is_text (get_value "type" item) "text"
    then with_text (get_or "text" (str "") item) rest
    else rest
item_text _ rest = rest

-- " ".join(parts), which is missing for no parts
abbrev pub joined_texts : Items → Option (Option String)
joined_texts nil = some none
joined_texts (cons item items) = item_text item (joined_texts items)

abbrev pub joined : Option (Option String) → Option String
joined none = none
joined (some o) = some (or_else o "")

module _ (str_of : Json → String) where
  unfoldable pub extract_text_from_content : Json → Option String
  unfolding get_value get_or truthy
  extract_text_from_content (str s) = some s
  extract_text_from_content (arr items) = joined (joined_texts items)
  extract_text_from_content content = some (if truthy content then str_of content else "")

  -- A field that is copied where it is not empty, in front of others.
  abbrev pub copied : String → Fields → Fields → Fields
  copied key from rest =
      if truthy (get_value key from) then field key (get_value key from) rest else rest

  abbrev pub delta_out : Fields → String → Json
  delta_out delta content =
      let role = get_value "role" delta in
      obj (
        field "role" (if truthy role then role else str "assistant") (
          field "content" (str content) (
            copied "reasoning_content" delta
              (copied "tool_calls" delta (copied "function_call" delta end)))))

  abbrev pub usage_out : Fields → Fields → Json
  usage_out usage details = obj (
      field "prompt_tokens" (get_or "prompt_tokens" zero_json usage) (
        field "completion_tokens" (get_or "completion_tokens" zero_json usage) (
          field "total_tokens" (get_or "total_tokens" zero_json usage)
            (field "cache_tokens" (get_or "cached_tokens" zero_json details) end))))

  abbrev pub with_details : Fields → Option Fields → Option Json
  with_details usage none = none
  with_details usage (some details) = some (usage_out usage details)

  -- The chunk's `usage`: null where the provider gave none.
  abbrev pub usage_of : Json → Option Json
  usage_of (obj (field k v m)) =
      with_details (field k v m)
        (dict_or_empty (get_or "prompt_tokens_details" (obj end) (field k v m)))
  usage_of usage = if truthy usage then none else some null

  abbrev pub chunk_with :
      Fields → (model : String) → Fields → Fields → Option String → Option Json → Option Fields
  chunk_with data_fields model choice delta (some content) (some usage) = some (
      field "id" (get_or "id" (str "") data_fields) (
        field "object" (str "chat.completion.chunk") (
          field "model" (str model) (
            field "choices"
              (arr (
                cons
                  (obj (
                    field "index" (get_or "index" zero_json choice) (
                      field "delta" (delta_out delta content)
                        (field "finish_reason" (get_value "finish_reason" choice) end))))
                  nil))
              (field "usage" usage (field "provider" (str "openai") end))))))
  chunk_with data_fields model choice delta _ _ = none

  abbrev pub chunk_of_delta : Fields → String → Fields → Option Fields → Option Fields
  chunk_of_delta data_fields model choice none = none
  chunk_of_delta data_fields model choice (some delta) =
      chunk_with data_fields model choice delta
        (extract_text_from_content (get_value "content" delta))
        (usage_of (get_value "usage" data_fields))

  abbrev pub chunk_of_choice : Fields → String → Option Fields → Option Fields
  chunk_of_choice data_fields model none = none
  chunk_of_choice data_fields model (some choice) =
      chunk_of_delta data_fields model choice (dict_or_empty (get_value "delta" choice))

  -- raw_choices[0] if raw_choices and raw_choices[0] is not None else {}
  abbrev pub first_choice : Json → Option Fields
  first_choice (arr (cons (obj choice) rest)) = some choice
  first_choice (arr (cons null rest)) = some end
  first_choice (arr nil) = some end
  first_choice (arr (cons _ rest)) = none
  first_choice choices = if truthy choices then none else some end

  unfoldable pub chunk_to_unified : (data_fields : Fields) → (model : String) → Option Fields
  unfolding get_value get_or truthy extract_text_from_content
  chunk_to_unified data_fields model =
      chunk_of_choice data_fields model (first_choice (get_value "choices" data_fields))
