-- ===== src/Activity.antt =====
-- src/activity.rs: the title of a completion, and what of a request may be kept in the activity log.
-- `to_lowercase` is Unicode's lower case. `left` is how many of the eight levels of nesting are left.
pub mod Kept
use skyport.Prelude.{
  ℕ, zero, suc, ◌*◌, min, max, Bool, not, ◌&&◌, ◌||◌, Option, none, some, List, [], ◌∷◌, ◌++◌, map,
  leb, ◌==◌, if◌then◌else◌, length, take, filter, Text, codes, text_eq, is_empty, trim, is_control,
}
use skyport.Proxy.Upstream.{split_from}
use mathlib.Core.Option
use skyport.Json.{Json, str, arr, obj, Items, nil, cons, Fields, end, field}
use skyport.Skills.{contains}
use skyport.Tools.{truncate_chars, forward_slash}
use skyport.Tools.Redact.{redact_secrets, drop_while}

abbrev pub openai_name : Text → Text
openai_name lower_model =
    if contains (codes "gpt-4o-mini") lower_model
    then codes "GPT-4o mini"
    else if contains (codes "gpt-4o") lower_model
    then codes "GPT-4o"
    else if contains (codes "o1") lower_model
    then codes "o1"
    else if contains (codes "o3") lower_model
    then codes "o3"
    else codes "OpenAI"

abbrev pub anthropic_name : Text → Text
anthropic_name lower_model =
    if contains (codes "3-7") lower_model || contains (codes "3.7") lower_model
    then codes "Claude 3.7"
    else if contains (codes "3-5-sonnet") lower_model || contains (codes "3.5-sonnet") lower_model
    then codes "Claude 3.5 Sonnet"
    else if contains (codes "3-5-haiku") lower_model || contains (codes "3.5-haiku") lower_model
    then codes "Claude 3.5 Haiku"
    else codes "Claude"

abbrev pub gemini_name : Text → Text
gemini_name lower_model =
    if contains (codes "2.0-flash") lower_model || contains (codes "2-flash") lower_model
    then codes "Gemini 2.0 Flash"
    else if contains (codes "flash") lower_model
    then codes "Gemini Flash"
    else if contains (codes "pro") lower_model
    then codes "Gemini Pro"
    else codes "Gemini"

abbrev pub deepseek_name : Text → Text
deepseek_name lower_model =
    if contains (codes "r1") lower_model then codes "DeepSeek-R1" else codes "DeepSeek"

abbrev pub other_name : Text → Text → Text
other_name provider lower_provider =
    if text_eq lower_provider (codes "groq")
    then codes "Groq"
    else if text_eq lower_provider (codes "nvidia")
    then codes "NVIDIA"
    else if text_eq lower_provider (codes "openrouter")
    then codes "OpenRouter"
    else if text_eq lower_provider (codes "ollama")
    then codes "Ollama"
    else if text_eq lower_provider (codes "lmstudio")
    then codes "LM Studio"
    else provider

abbrev pub display_name : Text → Text → Text → Text
display_name provider lower_provider lower_model =
    if text_eq lower_provider (codes "kimi")
      || contains (codes "moonshot") lower_model
      || contains (codes "kimi") lower_model
    then codes "Kimi"
    else if text_eq lower_provider (codes "openai")
    then openai_name lower_model
    else if text_eq lower_provider (codes "anthropic") || contains (codes "claude") lower_model
    then anthropic_name lower_model
    else if text_eq lower_provider (codes "gemini") || contains (codes "gemini") lower_model
    then gemini_name lower_model
    else if text_eq lower_provider (codes "deepseek") || contains (codes "deepseek") lower_model
    then deepseek_name lower_model
    else other_name provider lower_provider

unfoldable pub format_llm_title : (Text → Text) → Text → Text → Text
format_llm_title to_lowercase provider model =
    codes "→ " ++ display_name provider (to_lowercase provider) (to_lowercase model)

abbrev pub max_actions_per_request : ℕ
max_actions_per_request = 32

abbrev pub max_metadata_value_chars : ℕ
max_metadata_value_chars = 1024

abbrev pub is_kept : ℕ → Bool
is_kept c = not (is_control c) || c == b'\n' || c == b'\r' || c == b'\t'

-- `usize::saturating_mul` on 64 bits
abbrev pub scan_limit : ℕ → ℕ
scan_limit max_chars = max (min (max_chars * 4) 18446744073709551615) max_chars

unfoldable pub sanitize_persisted_text : Text → ℕ → Text
unfolding redact_secrets truncate_chars
sanitize_persisted_text input max_chars =
    truncate_chars (redact_secrets (take (scan_limit max_chars) (filter is_kept input))) max_chars

abbrev is_quote : ℕ → Bool
is_quote c = c == b'"' || c == b'\''

abbrev parts_of : Text → List Text
parts_of path = let (first, others) = split_from b'/' path in first ∷ others

-- `trim_matches` at the end
unfoldable pub trim_end_quotes : Text → Text
trim_end_quotes [] = []
trim_end_quotes (c ∷ s) =
    let rest = trim_end_quotes s in if is_empty rest && is_quote c then [] else c ∷ rest

abbrev pub last_two : List Text → Text
last_two [] = []
last_two (a ∷ []) = a
last_two (a ∷ b ∷ []) = a ++ b'/' ∷ b
last_two (a ∷ b ∷ c ∷ parts) = last_two (b ∷ c ∷ parts)

abbrev pub simplified : Text → Text
simplified path =
    let normalized = map forward_slash (trim_end_quotes (drop_while is_quote (trim path))) in
    let parts = filter (λ part. not (is_empty part)) (parts_of normalized) in
    if leb (length parts) 3 then normalized else last_two parts

unfoldable pub simplify_path : Text → Text
unfolding trim trim_end_quotes sanitize_persisted_text
simplify_path path = sanitize_persisted_text (simplified path) 256

-- of an array, whose rest is dropped
unfoldable pub sanitize_values : (Json → Json) → ℕ → Items → Items
sanitize_values sanitize zero values = nil
sanitize_values sanitize (suc room) nil = nil
sanitize_values sanitize (suc room) (cons value values) =
    cons (sanitize value) (sanitize_values sanitize room values)

unfoldable pub sanitize_fields : (Json → Json) → Fields → Fields
sanitize_fields sanitize end = end
sanitize_fields sanitize (field key value values) =
    field key (sanitize value) (sanitize_fields sanitize values)

unfoldable pub sanitize_metadata_value : ℕ → Json → Json
unfolding sanitize_persisted_text sanitize_values sanitize_fields
sanitize_metadata_value zero value = str (codes "[truncated]")
sanitize_metadata_value (suc left) (str text) =
    str (sanitize_persisted_text text max_metadata_value_chars)
sanitize_metadata_value (suc left) (arr values) =
    arr (sanitize_values (sanitize_metadata_value left) max_actions_per_request values)
sanitize_metadata_value (suc left) (obj values) =
    obj (sanitize_fields (sanitize_metadata_value left) values)
sanitize_metadata_value (suc left) value = value

abbrev pub truncated : Text
truncated = codes "{\"truncated\":true}"

abbrev pub bounded_json : Text → Text
bounded_json serialized = if leb (length serialized) 4096 then serialized else truncated

-- `to_string` is serde's printing.
unfoldable pub sanitized_metadata_json : (Json → Option Text) → Option Json → Option Text
unfolding sanitize_metadata_value
sanitized_metadata_json to_string none = none
sanitized_metadata_json to_string (some value) =
    Option.map bounded_json (to_string (sanitize_metadata_value 8 value))
