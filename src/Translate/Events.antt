-- ===== src/Translate/Events.antt =====
-- src/providers/translate.rs: the events of a stream, one at a time. `from_str` is serde's parser. Each
-- function answers the chunk for the client, if there is one, and whether it sets `done`.
use skyport.Prelude.{
  ℕ, Bool, true, false, ◌&&◌, Option, none, some, if◌then◌else◌, Text, codes, text_eq,
}
use mathlib.Core.Option
use mathlib.Core.Option.{get_or}
use skyport.Json.{
  Json, Fields, null, uint, str, arr, obj, nil, cons, end, field, get, as_u64, as_str,
}
use skyport.Translate.{at_key}
use skyport.Translate.Answers.{first_of, is_thought}

abbrev optional_text : Option Text → Json
optional_text none = null
optional_text (some t) = str t

abbrev chunk_of : Fields → Option Text → Fields → Json
chunk_of delta finish rest = obj (
    field (codes "object") (str (codes "chat.completion.chunk")) (
      field (codes "choices")
        (arr (
          cons
            (obj (
              field (codes "index") (uint 0) (
                field (codes "delta") (obj delta)
                  (field (codes "finish_reason") (optional_text finish) end))))
            nil))
        rest))

abbrev pub chunk : Text → Option Text → Json
chunk text finish = chunk_of (field (codes "content") (str text) end) finish end

abbrev pub reasoning_chunk : Text → Option Text → Json
reasoning_chunk text finish = chunk_of (field (codes "reasoning_content") (str text) end) finish end

abbrev token_usage : Option ℕ → Fields
token_usage none = end
token_usage (some tokens) =
    field (codes "usage") (obj (field (codes "completion_tokens") (uint tokens) end)) end

abbrev pub final_chunk : Option ℕ → Text → Json
final_chunk completion_tokens finish = chunk_of end (some finish) (token_usage completion_tokens)

abbrev nothing : Option Json × Bool
nothing = (none, false)

abbrev delta_chunk : Json → Option Json
delta_chunk delta = elim (as_str (at_key (codes "text") delta)) [
  | some text ↦ some (chunk text none)
  | none ↦
      Option.map (λ thinking. reasoning_chunk thinking none)
        (as_str (at_key (codes "thinking") delta))
]

abbrev stop_finish : Option Text → Text
stop_finish none = codes "stop"
stop_finish (some reason) =
    if text_eq reason (codes "max_tokens") then codes "length" else codes "stop"

abbrev anthropic_event : Json → Option Text → Option Json × Bool
anthropic_event event none = nothing
anthropic_event event (some kind) =
    if text_eq kind (codes "content_block_delta")
    then (delta_chunk (at_key (codes "delta") event), false)
    else if text_eq kind (codes "message_delta")
    then (
      some (
          final_chunk (as_u64 (at_key (codes "output_tokens") (at_key (codes "usage") event)))
            (stop_finish (as_str (at_key (codes "stop_reason") (at_key (codes "delta") event))))),
      false,
    )
    else if text_eq kind (codes "message_stop")
    then (none, true)
    else nothing

abbrev is_null : Json → Bool
is_null null = true
is_null _ = false

abbrev is_missing : Option Json → Bool
is_missing none = true
is_missing (some _) = false

abbrev part_chunk : Json → Option Text → Option Json
part_chunk part none = none
part_chunk part (some text) =
    some (if is_thought part then reasoning_chunk text none else chunk text none)

abbrev closing_chunk : Option ℕ → Option Json × Bool
closing_chunk none = (none, true)
closing_chunk (some tokens) = (some (final_chunk (some tokens) (codes "stop")), false)

abbrev gemini_event : Json → Option Json × Bool
gemini_event event =
    let part = first_of (
      at_key (codes "parts")
        (at_key (codes "content") (first_of (at_key (codes "candidates") event)))) in
    if is_missing (get (codes "candidates") event) && is_missing (get (codes "usageMetadata") event)
    then (none, true)
    else if is_null part
    then closing_chunk
        (as_u64 (at_key (codes "candidatesTokenCount") (at_key (codes "usageMetadata") event)))
    else (part_chunk part (as_str (at_key (codes "text") part)), false)

abbrev responses_event : Json → Option Text → Option Json × Bool
responses_event event none = nothing
responses_event event (some kind) =
    if text_eq kind (codes "response.output_text.delta")
    then (Option.map (λ t. chunk t none) (as_str (at_key (codes "delta") event)), false)
    else if text_eq kind (codes "response.reasoning_summary_text.delta")
    then (Option.map (λ t. reasoning_chunk t none) (as_str (at_key (codes "delta") event)), false)
    else if text_eq kind (codes "response.completed")
    then (
      some (
          final_chunk
            (as_u64 (
              at_key (codes "output_tokens")
                (at_key (codes "usage") (at_key (codes "response") event))))
            (codes "stop")),
      true,
    )
    else if text_eq kind (codes "response.incomplete")
    then (some (final_chunk none (codes "length")), true)
    else if text_eq kind (codes "response.failed")
    then (some (final_chunk none (codes "stop")), true)
    else nothing

module _ (from_str : Text → Option Json) where
  unfoldable pub anthropic_stream_event : Text → Option Json × Bool
  anthropic_stream_event payload = elim (from_str payload) [
    | none ↦ nothing
    | some event ↦ anthropic_event event (as_str (at_key (codes "type") event))
  ]

  unfoldable pub gemini_stream_event : Text → Option Json × Bool
  gemini_stream_event payload = elim (from_str payload) [
    | none ↦ nothing
    | some event ↦ gemini_event event
  ]

  unfoldable pub responses_stream_event : Text → Option Json × Bool
  responses_stream_event payload =
      if text_eq payload (codes "[DONE]") then nothing else elim (from_str payload) [
        | none ↦ nothing
        | some event ↦ responses_event event (as_str (at_key (codes "type") event))
      ]
