-- ===== src/Content.antt =====
-- common/content_converters.py: the content blocks of the OpenAI, Anthropic and Gemini formats. A
-- missing result is an exception, of a value that is not of the type that the code takes it for.
pub mod Blocks
pub mod RoundTrip
use Prim.Native.String
use text.Mathlib.Text.{starts_with}
use openbotflow.Prelude.{
  ℕ, String, Bool, true, false, not, ◌&&◌, ◌||◌, Option, none, some, ◌==◌, string_key,
  if◌then◌else◌, or_else,
}
use openbotflow.Json.{
  Json, null, bool, num, str, arr, obj, Items, nil, cons, Fields, end, field, get_field,
}
use openbotflow.Text.{cut}

-- d.get(k, v)
unfoldable pub get_or : String → Json → Fields → Json
unfolding get_field
get_or k v fields = or_else (get_field k fields) v

-- Whether a value is this text.
abbrev pub is_text : Json → String → Bool
is_text (str s) t = s == t
is_text _ t = false

-- What a block becomes.
pub data Converted : Type 0 where
  block : Json → Converted
  skipped : Converted
  raises : Converted

abbrev pub keep_block : Converted → Option Items → Option Items
keep_block raises rest = none
keep_block skipped rest = rest
keep_block (block b) none = none
keep_block (block b) (some bs) = some (cons b bs)

abbrev pub text_block : Json → Json
text_block text = obj (field "type" (str "text") (field "text" text end))

abbrev pub tool_result_block : Json → Json → Json
tool_result_block id content =
    obj (field "type" (str "tool_result") (field "tool_use_id" id (field "content" content end)))

abbrev pub tool_use_block : Json → Json → Json → Json
tool_use_block id name input =
    obj
      (field "type" (str "tool_use") (field "id" id (field "name" name (field "input" input end))))

-- The part behind the colon of a data URI's header.
abbrev pub mime_part : Option String → String
mime_part none = "text/plain"
mime_part (some part) = part

abbrev pub uri_parts : String × Option String → String × String
uri_parts (header, b64) = ((cut b';' (mime_part (cut b':' header).1)).0, or_else b64 "")

unfoldable pub parse_data_uri : (url : String) → Option (String × String)
unfolding cut
parse_data_uri url = if starts_with url "data:" then some (uri_parts (cut b',' url)) else none

abbrev pub source_of : String → String → Json
source_of media_type data_text = obj (
    field "type" (str "base64")
      (field "media_type" (str media_type) (field "data" (str data_text) end)))

abbrev pub image_block : Json → Json
image_block source = obj (field "type" (str "image") (field "source" source end))

abbrev pub source_block : Option (String × String) → Converted
source_block none = skipped
source_block (some (mime_type, b64)) =
    if starts_with mime_type "image/"
    then block (image_block (source_of mime_type b64))
    else skipped

-- A value of `image_url`'s `url`, as an image block of a base64 source.
abbrev pub url_block : Json → Converted
url_block (str url) = source_block (parse_data_uri url)
url_block _ = raises

abbrev pub image_url_block : Json → Converted
image_url_block (obj image_url) = url_block (get_or "url" (str "") image_url)
image_url_block _ = raises

-- The tool blocks, which both directions copy.
abbrev pub tool_block : Json → Fields → Converted
tool_block type fields =
    if is_text type "tool_result"
    then block (
        tool_result_block (get_or "tool_use_id" (str "") fields) (get_or "content" (str "") fields))
    else if is_text type "tool_use"
    then block (
        tool_use_block (get_or "id" (str "") fields) (get_or "name" (str "") fields)
          (get_or "input" (obj end) fields))
    else skipped

abbrev pub typed_to_anthropic : Json → Fields → Converted
typed_to_anthropic type fields =
    if is_text type "text"
    then block (text_block (get_or "text" (str "") fields))
    else if is_text type "image_url"
    then image_url_block (get_or "image_url" (obj end) fields)
    else if is_text type "image"
    then block (obj fields)
    else tool_block type fields

abbrev pub to_anthropic : Json → Converted
to_anthropic (obj fields) = typed_to_anthropic (get_or "type" (str "") fields) fields
to_anthropic _ = raises

abbrev pub all_to_anthropic : Items → Option Items
all_to_anthropic nil = some nil
all_to_anthropic (cons b bs) = keep_block (to_anthropic b) (all_to_anthropic bs)

unfoldable pub openai_to_anthropic_content : (content : Json) → Option Items
unfolding get_or parse_data_uri
openai_to_anthropic_content (str s) = some (cons (text_block (str s)) nil)
openai_to_anthropic_content (arr blocks) = all_to_anthropic blocks
openai_to_anthropic_content (obj end) = some nil
openai_to_anthropic_content _ = none
