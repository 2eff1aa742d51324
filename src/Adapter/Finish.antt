-- ===== src/Adapter/Finish.antt =====
-- The last chunk of an OpenAI-compatible provider's stream, in Anthropic's format.
use openbotflow.Prelude.{◌≡◌, refl, subst, String, true, false, Option, none, some}
use openbotflow.Json.{
  Json, null, bool, num, str, arr, obj, Fields, end, field, get_field, get_value, put_field, truthy,
}
use openbotflow.Adapter.Chunks.{internal_chunk_to_anthropic_sse}
use openbotflow.Adapter.Chunks.Deltas.{internal_chunk_to_anthropic_sse-null}
use openbotflow.Adapter.Unified.{
  chunk_to_unified, chunk_of_delta, chunk_with, first_choice, usage_of, dict_or_empty,
  extract_text_from_content,
}

module _ (str_of : Json → String) (hex model_name : String) where
  -- The conversion raises for a chunk that has passed the driver, if there is one.
  abbrev Raises : Option Fields → Type 0
  Raises none = Unit
  Raises (some chunk) =
      internal_chunk_to_anthropic_sse hex (put_field "model" (str model_name) chunk) ≡ none

  usage_of-empty : (usage : Json) → truthy usage ≡ false → usage_of str_of usage ≡ some null
  unfolding truthy
  usage_of-empty null e = refl
  usage_of-empty (bool b) e = rw e refl
  usage_of-empty (num n) e = rw e refl
  usage_of-empty (str s) e = rw e refl
  usage_of-empty (arr xs) e = rw e refl
  usage_of-empty (obj end) e = refl
  usage_of-empty (obj (field k v m)) e = cc

  module _ (data_fields choice : Fields) (model : String)
      (finished : truthy (get_value "finish_reason" choice) ≡ true) where
    chunk_with-Raises :
        (delta : Fields) (content : Option String)
        → Raises (chunk_with str_of data_fields model choice delta content (some null))
    unfolding get_value get_field put_field truthy
    chunk_with-Raises delta none = tt
    chunk_with-Raises delta (some content) =
        internal_chunk_to_anthropic_sse-null hex _ _ _ _ refl refl finished refl

    chunk_of_delta-Raises :
        (delta : Option Fields)
        → usage_of str_of (get_value "usage" data_fields) ≡ some null
        → Raises (chunk_of_delta str_of data_fields model choice delta)
    chunk_of_delta-Raises none u = tt
    chunk_of_delta-Raises (some delta) u =
        rw u
          (chunk_with-Raises delta (extract_text_from_content str_of (get_value "content" delta)))

  -- Where the provider's chunk has a finish reason and no usage, `_chunk_to_unified` puts a null
  -- into its place, and the conversion of that chunk to Anthropic's events, once the driver has put
  -- the model's name into it, raises.
  pub chunk_to_unified-Raises :
      (data_fields choice chunk : Fields) (model : String)
      → first_choice str_of (get_value "choices" data_fields) ≡ some choice
      → truthy (get_value "finish_reason" choice) ≡ true
      → truthy (get_value "usage" data_fields) ≡ false
      → chunk_to_unified str_of data_fields model ≡ some chunk
      → internal_chunk_to_anthropic_sse hex (put_field "model" (str model_name) chunk) ≡ none
  unfolding chunk_to_unified
  chunk_to_unified-Raises data_fields choice chunk model c f u e = subst Raises e (
      rw c (
        chunk_of_delta-Raises data_fields choice model f (dict_or_empty (get_value "delta" choice))
          (usage_of-empty (get_value "usage" data_fields) u)))
