-- ===== src/Translate/Answers.antt =====
-- src/providers/translate.rs: the answers of providers with a protocol of their own. The clock's
-- seconds and the random part of an id are arguments.
use skyport.Prelude.{
  ℕ, ◌+◌, ◌%◌, ◌^◌, Bool, false, not, Option, none, some, List, [], ◌∷◌, ◌++◌, map, if◌then◌else◌,
  any, filter, Text, codes, text_eq,
}
use mathlib.Core.Option.{get_or}
use skyport.Json.{Json, null, uint, str, arr, obj, nil, cons, end, field, as_u64, as_str}
use skyport.Translate.{at_key, elements, as_bool, concat_texts, optional, unless_empty}

-- `value["type"] == name`
abbrev is_type : Text → Json → Bool
is_type name value = elim (as_str (at_key (codes "type") value)) [
  | none ↦ false
  | some t ↦ text_eq t name
]

abbrev texts_at : Text → List Json → List (Option Text)
texts_at key values = map (λ v. as_str (at_key key v)) values

abbrev more_lines : List (Option Text) → Text
more_lines [] = []
more_lines (none ∷ ts) = more_lines ts
more_lines (some t ∷ ts) = 10 ∷ t ++ more_lines ts

-- `filter_map` and `join("\n")`
abbrev join_lines : List (Option Text) → Text
join_lines [] = []
join_lines (none ∷ ts) = join_lines ts
join_lines (some t ∷ ts) = t ++ more_lines ts

abbrev pub tokens_at : Text → Json → ℕ
tokens_at key usage = get_or (as_u64 (at_key key usage)) 0

abbrev message_of : Text → Text → Json
message_of content reasoning = obj (
    field (codes "role") (str (codes "assistant")) (
      field (codes "content") (str content)
        (optional (codes "reasoning_content") (unless_empty str reasoning) end)))

abbrev pub usage_object : ℕ → ℕ → ℕ → Json
usage_object prompt completion total = obj (
    field (codes "prompt_tokens") (uint prompt) (
      field (codes "completion_tokens") (uint completion)
        (field (codes "total_tokens") (uint total) end)))

abbrev pub completion : Text → ℕ → Text → Json → Text → Json → Json
completion id created model message finish usage = obj (
    field (codes "id") (str id) (
      field (codes "object") (str (codes "chat.completion")) (
        field (codes "created") (uint created) (
          field (codes "model") (str model) (
            field (codes "choices")
              (arr (
                cons
                  (obj (
                    field (codes "index") (uint 0) (
                      field (codes "message") message
                        (field (codes "finish_reason") (str finish) end))))
                  nil))
              (field (codes "usage") usage end))))))

abbrev text_or : Text → Json → Text → Text
text_or key value default = get_or (as_str (at_key key value)) default

-- the match on the reason to stop: one or two reasons count as a limit
abbrev finish_of : List Text → Option Text → Text
finish_of limits none = codes "stop"
finish_of limits (some reason) =
    if any (text_eq reason) limits then codes "length" else codes "stop"

-- The sum of two `u64` wraps in a release build.
unfoldable pub from_anthropic : ℕ → Json → Json
from_anthropic now resp =
    let blocks = elements (at_key (codes "content") resp) in
    let usage = at_key (codes "usage") resp in
    let input = tokens_at (codes "input_tokens") usage in
    let output = tokens_at (codes "output_tokens") usage in
    completion (text_or (codes "id") resp (codes "chat_anthropic")) now
      (text_or (codes "model") resp (codes "anthropic"))
      (message_of (concat_texts (texts_at (codes "text") (filter (is_type (codes "text")) blocks)))
        (join_lines (texts_at (codes "thinking") (filter (is_type (codes "thinking")) blocks))))
      (finish_of (codes "max_tokens" ∷ []) (as_str (at_key (codes "stop_reason") resp)))
      (usage_object input output ((input + output) % 2 ^ 64))

-- `value[0]`
abbrev pub first_of : Json → Json
first_of (arr (cons v vs)) = v
first_of _ = null

abbrev pub is_thought : Json → Bool
is_thought part = get_or (as_bool (at_key (codes "thought") part)) false

unfoldable pub from_gemini : Text → ℕ → Json → Json
from_gemini uuid now resp =
    let candidate = first_of (at_key (codes "candidates") resp) in
    let parts = elements (at_key (codes "parts") (at_key (codes "content") candidate)) in
    let usage = at_key (codes "usageMetadata") resp in
    completion (codes "gemini-" ++ uuid) now (text_or (codes "modelVersion") resp (codes "gemini"))
      (message_of
        (concat_texts (texts_at (codes "text") (filter (λ part. not (is_thought part)) parts)))
        (concat_texts (texts_at (codes "text") (filter is_thought parts))))
      (finish_of (codes "MAX_TOKENS" ∷ codes "SAFETY" ∷ [])
        (as_str (at_key (codes "finishReason") candidate)))
      (usage_object (tokens_at (codes "promptTokenCount") usage)
        (tokens_at (codes "candidatesTokenCount") usage)
        (tokens_at (codes "totalTokenCount") usage))

-- `flat_map` over the parts of the items of one type
abbrev parts_of : Text → Text → List Json → List Json
parts_of name key [] = []
parts_of name key (item ∷ items) =
    let rest = parts_of name key items in
    if is_type name item then elements (at_key key item) ++ rest else rest

unfoldable pub from_responses : ℕ → Json → Json
from_responses now resp =
    let items = elements (at_key (codes "output") resp) in
    let usage = at_key (codes "usage") resp in
    let input = tokens_at (codes "input_tokens") usage in
    let output = tokens_at (codes "output_tokens") usage in
    completion (text_or (codes "id") resp (codes "resp_skyport"))
      (get_or (as_u64 (at_key (codes "created_at") resp)) now)
      (text_or (codes "model") resp (codes "responses"))
      (message_of
        (concat_texts (
          texts_at (codes "text") (
            filter (is_type (codes "output_text"))
              (parts_of (codes "message") (codes "content") items))))
        (join_lines
          (texts_at (codes "text") (parts_of (codes "reasoning") (codes "summary") items))))
      (finish_of (codes "incomplete" ∷ []) (as_str (at_key (codes "status") resp)))
      (usage_object input output ((input + output) % 2 ^ 64))

-- The answer in the protocol of the clients, by the format of the provider.
unfoldable pub translate_answer : Text → Text → ℕ → Json → Json
unfolding from_anthropic from_gemini from_responses
translate_answer format uuid now resp =
    if text_eq format (codes "anthropic")
    then from_anthropic now resp
    else if text_eq format (codes "gemini")
    then from_gemini uuid now resp
    else if text_eq format (codes "responses")
    then from_responses now resp
    else resp
