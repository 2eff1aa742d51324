-- ===== src/Adapter/Chunks/Texts.antt =====
-- The text that the events of a chunk carry to a client.
use Prim.Native.String
use text.Mathlib.TextLemmas.{nil-append, append-nil, append_assoc}
use openbotflow.Prelude.{
  ◌≡◌, refl, sym, ap, ◌∙◌, subst, String, Bool, true, false, Option, none, some, ◌==◌, string_key,
  if◌then◌else◌, Bool-cases, inl, inr,
}
use openbotflow.Json.{
  Json, null, bool, num, str, arr, obj, Items, nil, cons, Fields, end, get_field, get_value, truthy,
}
use openbotflow.Content.{get_or, is_text}
use openbotflow.Adapter.Chunks.{
  append, append_all, or_value, single, tool_events, calls_events, call_events, function_events,
  finish_events, finish_with, zero_json, start_events, delta_events, choice_events, choices_events,
  message_start, block_delta, text_delta, thinking_delta, internal_chunk_to_anthropic_sse,
}

-- The text of a value, where it is one.
abbrev pub plain_text : Json → String
plain_text (str s) = s
plain_text _ = ""

abbrev pub delta_text : Json → String
delta_text (obj delta) =
    if is_text (get_value "type" delta) "text_delta"
    then plain_text (get_value "text" delta)
    else ""
delta_text _ = ""

abbrev pub event_text : Json → String
event_text (obj event) = delta_text (get_value "delta" event)
event_text _ = ""

-- What a client reads out of the text deltas.
unfoldable pub texts : Items → String
unfolding get_value get_field
texts nil = ""
texts (cons e es) = String.◌++◌ (event_text e) (texts es)

texts-append : (xs ys : Items) → texts (append xs ys) ≡ String.◌++◌ (texts xs) (texts ys)
unfolding texts
texts-append nil ys = sym (nil-append (texts ys))
texts-append (cons x xs) ys =
    ap (String.◌++◌ (event_text x)) (texts-append xs ys)
    ∙ sym (append_assoc (event_text x) (texts xs) (texts ys))

texts-single :
    (hex : String) (test : Bool) (e : Json) → event_text e ≡ "" → texts (single hex test e) ≡ ""
unfolding texts
texts-single hex true e h = rw h (nil-append "")
texts-single hex false e h = refl

module _ (hex : String) where
  -- A result whose texts are these, if there is one.
  abbrev Carries : String → Option Items → Type 0
  Carries s none = Unit
  Carries s (some es) = texts es ≡ s

  Carries-append :
      (s t : String) (o p : Option Items)
      → Carries s o
      → Carries t p
      → Carries (String.◌++◌ s t) (append_all o p)
  Carries-append s t none p h k = tt
  Carries-append s t (some xs) none h k = tt
  Carries-append s t (some xs) (some ys) h k = texts-append xs ys ∙ rw (h, k) refl

  silent_pair :
      (a b : Bool) (e f : Json)
      → event_text e ≡ ""
      → event_text f ≡ ""
      → texts (append (single hex a e) (single hex b f)) ≡ ""
  silent_pair a b e f h k =
      texts-append (single hex a e) (single hex b f)
      ∙ rw (texts-single hex a e h, texts-single hex b f k) (nil-append "")

  Carries-function : (tc : Fields) (function : Json) → Carries "" (function_events hex tc function)
  unfolding get_value get_field
  Carries-function tc (obj function) = silent_pair _ _ _ _ refl refl
  Carries-function tc null = tt
  Carries-function tc (bool b) = tt
  Carries-function tc (num n) = tt
  Carries-function tc (str s) = tt
  Carries-function tc (arr xs) = tt

  Carries-call : (tc : Json) → Carries "" (call_events hex tc)
  Carries-call (obj tc) = Carries-function tc (get_or "function" (obj end) tc)
  Carries-call null = tt
  Carries-call (bool b) = tt
  Carries-call (num n) = tt
  Carries-call (str s) = tt
  Carries-call (arr xs) = tt

  Carries-calls : (tcs : Items) → Carries "" (calls_events hex tcs)
  unfolding texts
  Carries-calls nil = refl
  Carries-calls (cons tc tcs) =
      subst (λ (t : String). Carries t (append_all (call_events hex tc) (calls_events hex tcs)))
        (nil-append "")
        (Carries-append "" "" (call_events hex tc) (calls_events hex tcs) (Carries-call tc)
          (Carries-calls tcs))

  none_or_nil : (test : Bool) → Carries "" (if test then none else some nil)
  unfolding texts
  none_or_nil true = tt
  none_or_nil false = refl

  Carries-tools : (tool_calls : Json) → Carries "" (tool_events hex tool_calls)
  Carries-tools (arr tcs) = Carries-calls tcs
  Carries-tools null = none_or_nil (truthy null)
  Carries-tools (bool b) = none_or_nil (truthy (bool b))
  Carries-tools (num n) = none_or_nil (truthy (num n))
  Carries-tools (str s) = none_or_nil (truthy (str s))
  Carries-tools (obj m) = none_or_nil (truthy (obj m))

  Carries-finish_with : (reason usage : Json) → Carries "" (finish_with hex reason usage)
  unfolding texts get_value get_field
  Carries-finish_with reason (obj usage) = nil-append ""
  Carries-finish_with reason null = tt
  Carries-finish_with reason (bool b) = tt
  Carries-finish_with reason (num n) = tt
  Carries-finish_with reason (str s) = tt
  Carries-finish_with reason (arr xs) = tt

  Carries-finish : (chunk : Fields) (reason : Json) → Carries "" (finish_events hex chunk reason)
  unfolding texts
  Carries-finish chunk reason = elim (Bool-cases (truthy reason)) [
    | inl e ↦ rw e (Carries-finish_with reason (get_or "usage" (obj end) chunk))
    | inr e ↦ rw e refl
  ]

  texts-content :
      (index : Json) (s : String)
      → let content = or_value (str s) (str "") in
        texts (single hex (truthy content) (block_delta hex index (text_delta hex content))) ≡ s
  unfolding texts truthy get_value get_field
  texts-content index s = elim (Bool-cases (s == "")) [
    | inl e ↦ rw e (sym ((string_key.same_iff s "").0 e))
    | inr e ↦ rw e (rw e (append-nil s))
  ]

  texts-delta_events :
      (choice delta : Fields) (s : String)
      → get_value "content" delta ≡ str s
      → texts (delta_events hex choice delta) ≡ s
  unfolding get_value get_field
  texts-delta_events choice delta s e =
      let index = get_or "index" zero_json choice in
      let reasoning = get_value "reasoning_content" delta in
      let thinking : Items =
        single hex (truthy reasoning) (block_delta hex index (thinking_delta hex reasoning)) in
      let text_of : Json → Items = λ (c : Json).
        single hex (truthy (or_value c (str "")))
          (block_delta hex index (text_delta hex (or_value c (str "")))) in
      texts-append thinking (text_of (get_value "content" delta))
      ∙ ap (λ (t : String). String.◌++◌ t (texts (text_of (get_value "content" delta))))
          (texts-single hex (truthy reasoning)
            (block_delta hex index (thinking_delta hex reasoning)) refl)
      ∙ nil-append (texts (text_of (get_value "content" delta)))
      ∙ ap (λ (c : Json). texts (text_of c)) e
      ∙ texts-content index s

  texts-start_events : (chunk delta : Fields) → texts (start_events hex chunk delta) ≡ ""
  unfolding get_value get_field
  texts-start_events chunk delta = texts-single hex _ (message_start hex chunk) refl

  -- Where the conversion of a chunk with a choice, a delta and a text returns, the text deltas of
  -- its events carry the chunk's text, the whole of it and nothing else, whatever tool calls,
  -- reasoning and finish reason go with it.
  pub internal_chunk_to_anthropic_sse-texts :
      (chunk choice delta : Fields) (rest events : Items) (s : String)
      → get_value "choices" chunk ≡ arr (cons (obj choice) rest)
      → or_value (get_value "delta" choice) (obj end) ≡ obj delta
      → get_value "content" delta ≡ str s
      → internal_chunk_to_anthropic_sse hex chunk ≡ some events
      → texts events ≡ s
  unfolding internal_chunk_to_anthropic_sse
  internal_chunk_to_anthropic_sse-texts chunk choice delta rest events s c d t e =
      let returned =
        sym (ap (choices_events hex chunk) c ∙ ap (choice_events hex chunk choice) d) ∙ e in
      let first =
        texts-append (start_events hex chunk delta) (delta_events hex choice delta)
        ∙ rw (texts-start_events chunk delta, texts-delta_events choice delta s t) (nil-append s) in
      let tools = tool_events hex (get_value "tool_calls" delta) in
      let finish = finish_events hex chunk (get_value "finish_reason" choice) in
      subst (Carries (String.◌++◌ s (String.◌++◌ "" ""))) returned (
        Carries-append s (String.◌++◌ "" "")
          (some (append (start_events hex chunk delta) (delta_events hex choice delta)))
          (append_all tools finish) first
          (Carries-append "" "" tools finish (Carries-tools (get_value "tool_calls" delta))
            (Carries-finish chunk (get_value "finish_reason" choice))))
      ∙ ap (String.◌++◌ s) (nil-append "")
      ∙ append-nil s
