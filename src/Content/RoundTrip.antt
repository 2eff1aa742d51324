-- ===== src/Content/RoundTrip.antt =====
-- Anthropic's content blocks through the OpenAI format and back.
use Prim.Native.String
use text.Mathlib.Text.{starts_with}
use text.Mathlib.TextLemmas.{append_assoc, nil-append, cons-append}
use text.Mathlib.TextPositions.{starts_with-append}
use openbotflow.Prelude.{
  ℕ, ◌≡◌, refl, sym, ap, ◌∙◌, String, Bool, true, false, not, some, List, [], ◌∷◌, ◌==◌, nat_key,
  string_key, any, All, arith,
}
use openbotflow.Json.{Json, str, arr, Items, nil, cons, get_field, truthy}
use openbotflow.Text.{cut, cut-append, Lacks}
use openbotflow.Content.{
  get_or, block, text_block, tool_use_block, tool_result_block, image_block, source_of,
  parse_data_uri, to_anthropic, all_to_anthropic, openai_to_anthropic_content,
}
use openbotflow.Content.Blocks.{
  url_json, data_uri, to_openai, all_to_openai, has_non_text, collected,
  anthropic_to_openai_content,
}

-- The blocks of Anthropic's format that the converters know, with exactly the keys that they write:
-- a text block, an image of base64 data, a tool use of an id, a name and an input, and a tool result
-- of an id and a content.
pub data ContentBlock : Type 0 where
  plain : String → ContentBlock
  image : (media_type data_text : String) → ContentBlock
  tool_use : (id name input : Json) → ContentBlock
  tool_result : (id content : Json) → ContentBlock

abbrev pub is_plain : ContentBlock → Bool
is_plain (plain s) = true
is_plain _ = false

-- An image with data, of an image type without parameters.
abbrev pub IsSendable : ContentBlock → Type 0
IsSendable (image media_type data_text) =
    (starts_with media_type "image/" ≡ true)
    × Lacks b',' media_type
    × Lacks b';' media_type
    × ((data_text == "") ≡ false)
IsSendable _ = Unit

abbrev pub anthropic_block : ContentBlock → Json
anthropic_block (plain s) = text_block (str s)
anthropic_block (image media_type data_text) = image_block (source_of media_type data_text)
anthropic_block (tool_use id name input) = tool_use_block id name input
anthropic_block (tool_result id content) = tool_result_block id content

abbrev openai_block : ContentBlock → Json
openai_block (plain s) = text_block (str s)
openai_block (image media_type data_text) = url_json (data_uri media_type data_text)
openai_block (tool_use id name input) = tool_use_block id name input
openai_block (tool_result id content) = tool_result_block id content

abbrev pub anthropic_blocks : List ContentBlock → Items
anthropic_blocks [] = nil
anthropic_blocks (b ∷ bs) = cons (anthropic_block b) (anthropic_blocks bs)

abbrev openai_blocks : List ContentBlock → Items
openai_blocks [] = nil
openai_blocks (b ∷ bs) = cons (openai_block b) (openai_blocks bs)

Lacks-append : (sep : ℕ) (s t : String) → Lacks sep s → Lacks sep t → Lacks sep (String.◌++◌ s t)
Lacks-append sep String.[] t h k = rw (nil-append t) k
Lacks-append sep (String.◌∷◌ c s) t (d, h) k = rw (cons-append c s t) (d, Lacks-append sep s t h k)

module _ (media_type data_text : String) where
  abbrev header : String
  header = String.◌++◌ "data:" (String.◌++◌ media_type ";base64")

  data_uri-header : data_uri media_type data_text ≡ String.◌++◌ header (String.◌++◌ "," data_text)
  data_uri-header =
      ap (λ (t : String). String.◌++◌ "data:" (String.◌++◌ media_type t))
        (append_assoc ";base64" "," data_text)
      ∙ ap (λ (t : String). String.◌++◌ "data:" t)
          (sym (append_assoc media_type ";base64" (String.◌++◌ "," data_text)))
      ∙ sym (append_assoc "data:" (String.◌++◌ media_type ";base64") (String.◌++◌ "," data_text))

  cut-data_uri :
      Lacks b',' media_type → cut b',' (data_uri media_type data_text) ≡ (header, some data_text)
  cut-data_uri h =
      ap (cut b',') data_uri-header
      ∙ cut-append b',' header "," data_text refl (
          Lacks-append b',' "data:" (String.◌++◌ media_type ";base64") (ground arith)
            (Lacks-append b',' media_type ";base64" h (ground arith)))

  cut-header : cut b':' header ≡ ("data", some (String.◌++◌ media_type ";base64"))
  cut-header =
      ap (cut b':') (append_assoc "data" ":" (String.◌++◌ media_type ";base64"))
      ∙ cut-append b':' "data" ":" (String.◌++◌ media_type ";base64") refl (ground arith)

  cut-media_type :
      Lacks b';' media_type
      → cut b';' (String.◌++◌ media_type ";base64") ≡ (media_type, some "base64")
  cut-media_type h = cut-append b';' media_type ";" "base64" refl h

  parse_data_uri-data_uri :
      Lacks b',' media_type
      → Lacks b';' media_type
      → parse_data_uri (data_uri media_type data_text) ≡ some (media_type, data_text)
  unfolding parse_data_uri
  parse_data_uri-data_uri h k =
      rw (starts_with-append "data:" (String.◌++◌ media_type (String.◌++◌ ";base64," data_text)))
        (rw (cut-data_uri h) (rw cut-header (rw (cut-media_type k) refl)))

to_anthropic-openai_block :
    (b : ContentBlock) → IsSendable b → to_anthropic (openai_block b) ≡ block (anthropic_block b)
unfolding get_or get_field
to_anthropic-openai_block (plain s) h = refl
to_anthropic-openai_block (image media_type data_text) (i, c, s, f) =
    rw (parse_data_uri-data_uri media_type data_text c s) (rw i refl)
to_anthropic-openai_block (tool_use id name input) h = refl
to_anthropic-openai_block (tool_result id content) h = refl

all_to_anthropic-openai_blocks :
    (bs : List ContentBlock)
    → All IsSendable bs
    → all_to_anthropic (openai_blocks bs) ≡ some (anthropic_blocks bs)
all_to_anthropic-openai_blocks [] h = refl
all_to_anthropic-openai_blocks (b ∷ bs) (h, hs) =
    rw (to_anthropic-openai_block b h, all_to_anthropic-openai_blocks bs hs) refl

module _ (str_of : Json → String) where
  to_openai-anthropic_block :
      (b : ContentBlock)
      → IsSendable b
      → to_openai str_of (anthropic_block b) ≡ block (openai_block b)
  unfolding get_or get_field truthy
  to_openai-anthropic_block (plain s) h = refl
  to_openai-anthropic_block (image media_type data_text) (i, c, s, f) = rw f refl
  to_openai-anthropic_block (tool_use id name input) h = refl
  to_openai-anthropic_block (tool_result id content) h = refl

  all_to_openai-anthropic_blocks :
      (bs : List ContentBlock)
      → All IsSendable bs
      → all_to_openai str_of (anthropic_blocks bs) ≡ some (openai_blocks bs)
  all_to_openai-anthropic_blocks [] h = refl
  all_to_openai-anthropic_blocks (b ∷ bs) (h, hs) =
      rw (to_openai-anthropic_block b h, all_to_openai-anthropic_blocks bs hs) refl

  has_non_text-openai_blocks :
      (bs : List ContentBlock)
      → has_non_text str_of (openai_blocks bs) ≡ any (λ b. not (is_plain b)) bs
  unfolding get_or get_field
  has_non_text-openai_blocks [] = refl
  has_non_text-openai_blocks (plain s ∷ bs) = has_non_text-openai_blocks bs
  has_non_text-openai_blocks (image media_type data_text ∷ bs) = refl
  has_non_text-openai_blocks (tool_use id name input ∷ bs) = refl
  has_non_text-openai_blocks (tool_result id content ∷ bs) = refl

  collected-openai_blocks :
      (bs : List ContentBlock)
      → any (λ b. not (is_plain b)) bs ≡ true
      → collected str_of (some (openai_blocks bs)) ≡ some (arr (openai_blocks bs))
  collected-openai_blocks [] h = cc
  collected-openai_blocks (b ∷ bs) h = rw (has_non_text-openai_blocks (b ∷ bs) ∙ h) refl

  -- A list of blocks comes back the same from the OpenAI format where each block has exactly the keys
  -- of its kind (a text's text, an image's base64 data and media type, a tool use's id, name and
  -- input, a tool result's id and content; none has is_error or cache_control), one at least is no
  -- text, and the images have data and an image type without parameters.
  pub openai_to_anthropic_content-anthropic_to_openai_content :
      (bs : List ContentBlock)
      → All IsSendable bs
      → any (λ b. not (is_plain b)) bs ≡ true
      → (content : Json) × (anthropic_to_openai_content str_of (arr (anthropic_blocks bs))
          ≡ some content)
        × (openai_to_anthropic_content content ≡ some (anthropic_blocks bs))
  unfolding openai_to_anthropic_content anthropic_to_openai_content
  openai_to_anthropic_content-anthropic_to_openai_content bs h k = (
    arr (openai_blocks bs),
    ap (collected str_of) (all_to_openai-anthropic_blocks bs h) ∙ collected-openai_blocks bs k,
    all_to_anthropic-openai_blocks bs h,
  )
