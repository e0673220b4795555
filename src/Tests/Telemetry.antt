-- ===== src/Tests/Telemetry.antt =====
-- src/activity.rs on concrete inputs.
use skyport.Prelude.{◌≤◌, ◌≡◌, refl, ◌⊎◌, some, length, codes, text_eq, starts_with}
use skyport.Json.{Json, str, arr, nil, cons, as_str}
use skyport.Skills.{contains}
use skyport.Activity.{
  format_llm_title, sanitize_metadata_value, sanitized_metadata_json, simplify_path, truncated,
}
use skyport.Activity.Kept.{IsBounded, sanitized_metadata_json-IsBounded}

title_test :
    (format_llm_title (λ s. s) (codes "anthropic") (codes "claude-3-7-sonnet")
      ≡ codes "→ Claude 3.7")
    × (format_llm_title (λ s. s) (codes "Acme") (codes "x") ≡ codes "→ Acme")
unfolding format_llm_title contains text_eq skyport.Prelude.starts_with
title_test = (refl, refl)

path_test :
    (simplify_path (codes " \"c:\\work\\src\\api\\v1.rs\" ") ≡ codes "api/v1.rs")
    × (simplify_path (codes "src/main.rs") ≡ codes "src/main.rs")
unfolding simplify_path
path_test = (refl, refl)

depth_test :
    sanitize_metadata_value 1 (arr (cons (str (codes "a")) nil))
    ≡ arr (cons (str (codes "[truncated]")) nil)
unfolding sanitize_metadata_value
depth_test = refl

abbrev metadata : Json
metadata = str (codes "with sk-ant-123")

kept_test : sanitized_metadata_json as_str (some metadata) ≡ some (codes "with [REDACTED]")
unfolding sanitized_metadata_json as_str
kept_test = refl

sanitized_metadata_json-IsBounded_example :
    (length (codes "with [REDACTED]") ≤ 4096)
    × ((codes "with [REDACTED]" ≡ truncated)
        ⊎ ((value : Json) × (as_str value ≡ some (codes "with [REDACTED]")) × IsBounded 8 value))
sanitized_metadata_json-IsBounded_example =
    sanitized_metadata_json-IsBounded as_str (some metadata) (codes "with [REDACTED]") kept_test
