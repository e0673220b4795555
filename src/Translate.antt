-- ===== src/Translate.antt =====
-- src/providers/translate.rs: the bodies that go to providers with a protocol of their own. How serde
-- prints a value, and how it reads a number as a float (by its bits), are arguments.
pub mod Limits
pub mod Answers
pub mod Events
pub mod Usage
use skyport.Prelude.{
  ℕ, Bool, false, ◌||◌, Option, none, some, List, [], ◌∷◌, ◌++◌, map, if◌then◌else◌, Text, codes,
  text_eq,
}
use mathlib.Core.Option
use mathlib.Core.Option.{get_or}
use skyport.Json.{
  Json, Items, Fields, null, bool, uint, nint, float, str, arr, obj, nil, cons, end, field, get,
  as_u64, as_str,
}

abbrev pub list_of : Items → List Json
list_of nil = []
list_of (cons v vs) = v ∷ list_of vs

abbrev items_of : List Json → Items
items_of [] = nil
items_of (v ∷ vs) = cons v (items_of vs)

-- `value[key]` and `.as_array()`, with nothing for what is missing
abbrev pub at_key : Text → Json → Json
at_key key value = get_or (get key value) null

abbrev pub elements : Json → List Json
elements (arr vs) = list_of vs
elements _ = []

abbrev pub as_bool : Json → Option Bool
as_bool (bool b) = some b
as_bool _ = none

abbrev pub concat_texts : List (Option Text) → Text
concat_texts [] = []
concat_texts (none ∷ ts) = concat_texts ts
concat_texts (some t ∷ ts) = t ++ concat_texts ts

-- `join("\n\n")`
abbrev pub join_paragraphs : List Text → Text
join_paragraphs [] = []
join_paragraphs (t ∷ []) = t
join_paragraphs (t ∷ ts) = t ++ 10 ∷ 10 ∷ join_paragraphs ts

-- A key that is written if there is a value.
abbrev pub optional : Text → Option Json → Fields → Fields
optional key none fs = fs
optional key (some v) fs = field key v fs

abbrev pub unless_empty : {A : Type 0} → (List A → Json) → List A → Option Json
unless_empty f [] = none
unless_empty f (x ∷ xs) = some (f (x ∷ xs))

abbrev pub is_system : Text → Bool
is_system role = text_eq role (codes "system") || text_eq role (codes "developer")

abbrev pub role_of : Json → Text
role_of message = get_or (as_str (at_key (codes "role") message)) (codes "user")

module _ (as_f64 : Json → Option ℕ) (print : Json → Text) where
  unfoldable pub content_to_text : Json → Text
  content_to_text (str text) = text
  content_to_text (arr parts) =
      concat_texts (map (λ part. as_str (at_key (codes "text") part)) (list_of parts))
  content_to_text null = []
  content_to_text other = print other

  -- The messages of the conversation, with whether they are the assistant's.
  unfoldable pub turns : List Json → List (Bool × Text)
  unfolding content_to_text
  turns [] = []
  turns (message ∷ messages) =
      let rest = turns messages in
      if is_system (role_of message)
      then rest
      else (
        text_eq (role_of message) (codes "assistant"),
        content_to_text (at_key (codes "content") message),
      )
        ∷ rest

  unfoldable pub system_texts : List Json → List Text
  unfolding content_to_text
  system_texts [] = []
  system_texts (message ∷ messages) =
      let rest = system_texts messages in
      if is_system (role_of message)
      then content_to_text (at_key (codes "content") message) ∷ rest
      else rest

  abbrev pub messages_of : Json → List Json
  messages_of body = elements (at_key (codes "messages") body)

  abbrev pub number : Text → Json → Option Json
  number key body = Option.map float (as_f64 (at_key key body))

  abbrev pub max_tokens_of : Json → Option Json
  max_tokens_of body = Option.map uint (as_u64 (at_key (codes "max_tokens") body))

  -- `Some(effort) if effort != "minimal"`
  abbrev pub effort_of : Json → Option Text
  effort_of body = elim (as_str (at_key (codes "reasoning_effort") body)) [
    | none ↦ none
    | some effort ↦ if text_eq effort (codes "minimal") then none else some effort
  ]

  abbrev anthropic_message : Bool × Text → Json
  anthropic_message (is_assistant, text) = obj (
      field (codes "role") (str (if is_assistant then codes "assistant" else codes "user"))
        (field (codes "content") (str text) end))

  abbrev thinking : Json
  thinking =
      obj (
        field (codes "type") (str (codes "enabled"))
          (field (codes "budget_tokens") (uint 2048) end))

  unfoldable pub to_anthropic : Json → Json
  unfolding turns system_texts
  to_anthropic body = obj (
      field (codes "model") (at_key (codes "model") body) (
        field (codes "max_tokens") (get_or (max_tokens_of body) (uint 1024)) (
          field (codes "messages")
            (arr (items_of (map anthropic_message (turns (messages_of body)))))
            (optional (codes "system")
              (unless_empty (λ ts. str (join_paragraphs ts)) (system_texts (messages_of body)))
              (optional (codes "stream") (Option.map bool (as_bool (at_key (codes "stream") body)))
                (optional (codes "temperature") (number (codes "temperature") body) (
                  optional (codes "top_p") (number (codes "top_p") body) (
                    optional (codes "thinking") (Option.map (λ _. thinking) (effort_of body))
                      end))))))))

  abbrev text_part : Text → Json
  text_part text = obj (field (codes "text") (str text) end)

  abbrev gemini_content : Bool × Text → Json
  gemini_content (is_assistant, text) = obj (
      field (codes "role") (str (if is_assistant then codes "model" else codes "user"))
        (field (codes "parts") (arr (cons (text_part text) nil)) end))

  abbrev generation_config : Json → Json
  generation_config body = obj (
      optional (codes "temperature") (number (codes "temperature") body) (
        optional (codes "topP") (number (codes "top_p") body)
          (optional (codes "maxOutputTokens") (max_tokens_of body) end)))

  unfoldable pub to_gemini : Json → Json
  unfolding turns system_texts
  to_gemini body = obj (
      field (codes "contents") (arr (items_of (map gemini_content (turns (messages_of body))))) (
        field (codes "generationConfig") (generation_config body) (
          optional (codes "systemInstruction")
            (unless_empty
              (λ ts. obj (field (codes "parts") (arr (items_of (map text_part ts))) end))
              (system_texts (messages_of body)))
            end)))

  abbrev responses_item : Bool × Text → Json
  responses_item (is_assistant, text) = obj (
      field (codes "role") (str (if is_assistant then codes "assistant" else codes "user")) (
        field (codes "content")
          (arr (
            cons
              (obj (
                field (codes "type")
                  (str (if is_assistant then codes "output_text" else codes "input_text"))
                  (field (codes "text") (str text) end)))
              nil))
          end))

  abbrev pub effort_level : Text → Text
  effort_level effort =
      if text_eq effort (codes "low")
      then codes "low"
      else if text_eq effort (codes "high")
      then codes "high"
      else codes "medium"

  abbrev pub instructions_of : Json → Option Json
  instructions_of body =
      unless_empty (λ ts. str (join_paragraphs ts)) (system_texts (messages_of body))

  -- what follows the limit
  abbrev pub responses_tail : Json → Fields
  responses_tail body = optional (codes "temperature") (number (codes "temperature") body) (
      optional (codes "top_p") (number (codes "top_p") body) (
        optional (codes "reasoning")
          (Option.map (λ effort. obj (field (codes "effort") (str (effort_level effort)) end))
            (effort_of body))
          end))

  unfoldable pub to_responses : Json → Json
  unfolding turns system_texts
  to_responses body = obj (
      field (codes "model") (at_key (codes "model") body) (
        field (codes "input") (arr (items_of (map responses_item (turns (messages_of body))))) (
          field (codes "stream") (bool (get_or (as_bool (at_key (codes "stream") body)) false)) (
            optional (codes "instructions") (instructions_of body)
              (optional (codes "max_output_tokens") (max_tokens_of body) (responses_tail body))))))
