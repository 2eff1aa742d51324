-- ===== src/Content/Blocks.antt =====
-- `anthropic_to_openai_content` and `openai_to_google_parts` of common/content_converters.py. The
-- text form of a value that is no text is an argument.
use Prim.Native.String
use openbotflow.Prelude.{
  String, Bool, false, not, ◌||◌, Option, none, some, string_key, if◌then◌else◌,
}
use openbotflow.Json.{Json, null, str, arr, obj, Items, nil, cons, Fields, end, field, truthy}
use openbotflow.Content.{
  get_or, is_text, Converted, block, skipped, raises, keep_block, text_block, tool_block,
  parse_data_uri,
}

-- The text of a value in an f-string.
abbrev pub shown : (Json → String) → Json → String
shown str_of (str s) = s
shown str_of j = str_of j

abbrev pub url_json : String → Json
url_json uri =
    obj (field "type" (str "image_url") (field "image_url" (obj (field "url" (str uri) end)) end))

abbrev pub data_uri : (media_type data_text : String) → String
data_uri media_type data_text =
    String.◌++◌ "data:" (String.◌++◌ media_type (String.◌++◌ ";base64," data_text))

module _ (str_of : Json → String) where
  -- The block of an image's source.
  abbrev pub source_url : Fields → Converted
  source_url source =
      if not (is_text (get_or "type" null source) "base64")
        || not (truthy (get_or "data" (str "") source))
      then skipped
      else block (
          url_json (
            data_uri (shown str_of (get_or "media_type" (str "image/png") source))
              (shown str_of (get_or "data" (str "") source))))

  abbrev pub source_json : Json → Converted
  source_json (obj source) = source_url source
  source_json _ = raises

  abbrev pub typed_to_openai : Json → Fields → Converted
  typed_to_openai type fields =
      if is_text type "text"
      then block (text_block (get_or "text" (str "") fields))
      else if is_text type "image"
      then source_json (get_or "source" (obj end) fields)
      else tool_block type fields

  abbrev pub to_openai : Json → Converted
  to_openai (obj fields) = typed_to_openai (get_or "type" (str "") fields) fields
  to_openai _ = raises

  abbrev pub all_to_openai : Items → Option Items
  all_to_openai nil = some nil
  all_to_openai (cons b bs) = keep_block (to_openai b) (all_to_openai bs)

  abbrev pub is_text_block : Json → Bool
  is_text_block (obj fields) = is_text (get_or "type" (str "") fields) "text"
  is_text_block _ = false

  -- Every block that the loop appends, but for the texts, sets `has_non_text`.
  abbrev pub has_non_text : Items → Bool
  has_non_text nil = false
  has_non_text (cons b bs) = not (is_text_block b) || has_non_text bs

  abbrev pub line_of : Json → Option String
  line_of (str s) = some s
  line_of _ = none

  abbrev pub text_of : Json → Option String
  text_of (obj fields) = line_of (get_or "text" null fields)
  text_of _ = none

  abbrev pub join_line : Option String → Option String → Option String
  join_line (some s) (some t) = some (String.◌++◌ s (String.◌++◌ "\n" t))
  join_line _ _ = none

  -- "\n".join(b["text"] for b in blocks), of at least one block
  abbrev pub join_texts : Json → Items → Option String
  join_texts b nil = text_of b
  join_texts b (cons c bs) = join_line (text_of b) (join_texts c bs)

  abbrev pub joined : Option String → Option Json
  joined none = none
  joined (some s) = some (str s)

  abbrev pub collected : Option Items → Option Json
  collected none = none
  collected (some nil) = some (str "")
  collected (some (cons b bs)) =
      if has_non_text (cons b bs) then some (arr (cons b bs)) else joined (join_texts b bs)

  unfoldable pub anthropic_to_openai_content : (content : Json) → Option Json
  unfolding get_or truthy
  anthropic_to_openai_content (str s) = some (str s)
  anthropic_to_openai_content (arr blocks) = collected (all_to_openai blocks)
  anthropic_to_openai_content (obj end) = some (str "")
  anthropic_to_openai_content _ = none

-- A part of a Gemini request.
abbrev pub text_part : Json → Json
text_part text = obj (field "text" text end)

abbrev pub uri_part : String → Option (String × String) → Json
uri_part url none = obj (field "file_data" (obj (field "file_uri" (str url) end)) end)
uri_part url (some (mime_type, b64)) =
    obj (
      field "inline_data" (obj (field "mime_type" (str mime_type) (field "data" (str b64) end)))
        end)

abbrev pub url_part : Json → Converted
url_part (str url) = block (uri_part url (parse_data_uri url))
url_part _ = raises

abbrev pub image_url_part : Json → Converted
image_url_part (obj image_url) = url_part (get_or "url" (str "") image_url)
image_url_part _ = raises

abbrev pub to_part : Json → Converted
to_part (obj fields) =
    let type = get_or "type" (str "") fields in
    if is_text type "text"
    then block (text_part (get_or "text" (str "") fields))
    else if is_text type "image_url"
    then image_url_part (get_or "image_url" (obj end) fields)
    else skipped
to_part _ = raises

abbrev pub all_parts : Items → Option Items
all_parts nil = some nil
all_parts (cons b bs) = keep_block (to_part b) (all_parts bs)

-- parts if parts else [{"text": ""}]
abbrev pub some_parts : Option Items → Option Items
some_parts none = none
some_parts (some nil) = some (cons (text_part (str "")) nil)
some_parts (some (cons p ps)) = some (cons p ps)

unfoldable pub openai_to_google_parts : (content : Json) → Option Items
unfolding get_or parse_data_uri
openai_to_google_parts (str s) = some (cons (text_part (str s)) nil)
openai_to_google_parts (arr blocks) = some_parts (all_parts blocks)
openai_to_google_parts (obj end) = some_parts (some nil)
openai_to_google_parts _ = none
