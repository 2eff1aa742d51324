-- ===== src/Tests/Converting.antt =====
-- A message with a picture, to the OpenAI format and back.
use openbotflow.Prelude.{◌≡◌, refl, String, List, [], ◌∷◌, some, arith}
use openbotflow.Json.{Json, str, arr, cons, nil}
use openbotflow.Content.{openai_to_anthropic_content, text_block}
use openbotflow.Content.Blocks.{
  anthropic_to_openai_content, openai_to_google_parts, url_json, uri_part,
}
use openbotflow.Content.RoundTrip.{
  ContentBlock, plain, image, anthropic_blocks,
  openai_to_anthropic_content-anthropic_to_openai_content,
}

abbrev message : List ContentBlock
message = plain "look" ∷ image "image/png" "iVBOR" ∷ []

abbrev no_text : Json → String
no_text j = "?"

to_openai_test :
    anthropic_to_openai_content no_text (arr (anthropic_blocks message))
    ≡ some
        (arr (cons (text_block (str "look")) (cons (url_json "data:image/png;base64,iVBOR") nil)))
unfolding anthropic_to_openai_content
to_openai_test = refl

-- The texts of a message with no picture become one text.
texts_test :
    anthropic_to_openai_content no_text (arr (anthropic_blocks (plain "a" ∷ plain "b" ∷ [])))
    ≡ some (str "a\nb")
unfolding anthropic_to_openai_content
texts_test = refl

-- A picture behind a URL is dropped for Anthropic, and passed on to Gemini.
url_test :
    (openai_to_anthropic_content (arr (cons (url_json "https://x/y.png") nil)) ≡ some nil)
    × (openai_to_google_parts (arr (cons (url_json "data:image/png;base64,iVBOR") nil))
        ≡ some (cons (uri_part "" (some ("image/png", "iVBOR"))) nil))
unfolding openai_to_anthropic_content openai_to_google_parts
url_test = (refl, refl)

openai_to_anthropic_content-anthropic_to_openai_content_example :
    (content : Json) × (anthropic_to_openai_content no_text (arr (anthropic_blocks message))
      ≡ some content)
    × (openai_to_anthropic_content content ≡ some (anthropic_blocks message))
openai_to_anthropic_content-anthropic_to_openai_content_example =
    openai_to_anthropic_content-anthropic_to_openai_content no_text message
      (tt, ((refl, ground arith, ground arith, refl), tt)) refl
