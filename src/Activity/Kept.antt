-- ===== src/Activity/Kept.antt =====
-- src/activity.rs: the bounds on what is kept of a request, and its freedom from credentials.
use skyport.Prelude.{
  ℕ, zero, suc, ◌≤◌, ◌≡◌, refl, sym, ◌⊎◌, inl, inr, Option, none, some, arith, leb, leb→le,
  Bool-cases, length, take, filter, Text, codes,
}
use mathlib.Core.Option
use skyport.Json.{
  Json, null, bool, uint, nint, float, str, arr, obj, Items, nil, cons, Fields, end, field,
}
use skyport.Tools.Redact.{redact_secrets}
use skyport.Tools.Clean.{Clean}
use skyport.Tools.Hidden.{Clean-is_clean, redact_secrets-Clean}
use skyport.Tools.Sanitized.{truncate_chars-Clean, length-truncate_chars-le}
use skyport.Activity.{
  is_kept, scan_limit, max_actions_per_request, max_metadata_value_chars, sanitize_persisted_text,
  bounded_json, simplified, sanitize_values, sanitize_fields, sanitize_metadata_value, truncated,
  sanitized_metadata_json, simplify_path,
}

-- no credential's prefix, and at most so many characters
abbrev pub Safe : ℕ → Text → Type 0
Safe max_chars text = Clean text × (length text ≤ max_chars)

-- What is kept of a text has at most the characters that were asked for, and nowhere in it does the
-- prefix of a credential begin, in upper or lower case.
pub sanitize_persisted_text-Safe :
    (input : Text) (max_chars : ℕ) → Safe max_chars (sanitize_persisted_text input max_chars)
unfolding sanitize_persisted_text
sanitize_persisted_text-Safe input max_chars =
    let hidden = redact_secrets (take (scan_limit max_chars) (filter is_kept input)) in
    (
      truncate_chars-Clean hidden max_chars
          (redact_secrets-Clean (take (scan_limit max_chars) (filter is_kept input))),
      length-truncate_chars-le hidden max_chars,
    )

-- at most so many values, each of which has the property
abbrev pub AllValues : (Json → Type 0) → ℕ → Items → Type 0
AllValues P room nil = Unit
AllValues P zero (cons value values) = ⊥
AllValues P (suc room) (cons value values) = P value × AllValues P room values

abbrev pub AllFields : (Json → Type 0) → Fields → Type 0
AllFields P end = Unit
AllFields P (field key value values) = P value × AllFields P values

-- nested no deeper than that, with bounded arrays and safe texts
abbrev pub IsBounded : ℕ → Json → Type 0
IsBounded left (str text) = Safe max_metadata_value_chars text
IsBounded zero (arr values) = ⊥
IsBounded (suc left) (arr values) = AllValues (IsBounded left) max_actions_per_request values
IsBounded zero (obj values) = ⊥
IsBounded (suc left) (obj values) = AllFields (IsBounded left) values
IsBounded left value = Unit

sanitize_values-AllValues :
    (P : Json → Type 0) (sanitize : Json → Json)
    → ((value : Json) → P (sanitize value))
    → (room : ℕ) (values : Items) → AllValues P room (sanitize_values sanitize room values)
unfolding sanitize_values
sanitize_values-AllValues P sanitize h zero values = tt
sanitize_values-AllValues P sanitize h (suc room) nil = tt
sanitize_values-AllValues P sanitize h (suc room) (cons value values) =
    (h value, sanitize_values-AllValues P sanitize h room values)

sanitize_fields-AllFields :
    (P : Json → Type 0) (sanitize : Json → Json)
    → ((value : Json) → P (sanitize value))
    → (values : Fields) → AllFields P (sanitize_fields sanitize values)
unfolding sanitize_fields
sanitize_fields-AllFields P sanitize h end = tt
sanitize_fields-AllFields P sanitize h (field key value values) =
    (h value, sanitize_fields-AllFields P sanitize h values)

-- The metadata that is kept, whatever it was, is nested at most as deep as `left`, its arrays have at
-- most 32 elements, and every text among its values has at most 1024 characters and no prefix of a
-- credential.
pub sanitize_metadata_value-IsBounded :
    (left : ℕ) (value : Json) → IsBounded left (sanitize_metadata_value left value)
unfolding sanitize_metadata_value
sanitize_metadata_value-IsBounded zero value =
    (Clean-is_clean (codes "[truncated]") refl, omega arith)
sanitize_metadata_value-IsBounded (suc left) (str text) =
    sanitize_persisted_text-Safe text max_metadata_value_chars
sanitize_metadata_value-IsBounded (suc left) (arr values) =
    sanitize_values-AllValues (IsBounded left) (sanitize_metadata_value left)
      (sanitize_metadata_value-IsBounded left) max_actions_per_request values
sanitize_metadata_value-IsBounded (suc left) (obj values) =
    sanitize_fields-AllFields (IsBounded left) (sanitize_metadata_value left)
      (sanitize_metadata_value-IsBounded left) values
sanitize_metadata_value-IsBounded (suc left) null = tt
sanitize_metadata_value-IsBounded (suc left) (bool b) = tt
sanitize_metadata_value-IsBounded (suc left) (uint n) = tt
sanitize_metadata_value-IsBounded (suc left) (nint n) = tt
sanitize_metadata_value-IsBounded (suc left) (float n) = tt

bounded_json-cases :
    (printed : Option Text) (kept : Text)
    → Option.map bounded_json printed ≡ some kept
    → (length kept ≤ 4096) × ((kept ≡ truncated) ⊎ (printed ≡ some kept))
bounded_json-cases none kept h = cc h
bounded_json-cases (some serialized) kept h = elim (Bool-cases (leb (length serialized) 4096)) [
  | inl e ↦
      let same : serialized ≡ kept = ground (arith, e, h) in
      (rw (sym same) (leb→le (length serialized) 4096 e), inr (rw same refl))
  | inr e ↦
      let same : truncated ≡ kept = ground (arith, e, h) in
      (rw (sym same) (omega arith), inl (sym same))
]

-- The metadata that is kept has at most 4096 characters and is the note that it was cut, or prints a
-- value that is nested at most eight deep, whose arrays have at most 32 elements and whose texts have
-- at most 1024 characters each and no prefix of a credential.
pub sanitized_metadata_json-IsBounded :
    (to_string : Json → Option Text) (metadata : Option Json) (kept : Text)
    → sanitized_metadata_json to_string metadata ≡ some kept
    → (length kept ≤ 4096)
      × ((kept ≡ truncated) ⊎ ((value : Json) × (to_string value ≡ some kept) × IsBounded 8 value))
unfolding sanitized_metadata_json
sanitized_metadata_json-IsBounded to_string none kept h = cc h
sanitized_metadata_json-IsBounded to_string (some value) kept h =
    let sanitized = sanitize_metadata_value 8 value in
    let (le, kept_as) = bounded_json-cases (to_string sanitized) kept h in
    (
      le,
      elim kept_as [
        | inl cut ↦ inl cut
        | inr printed ↦ inr (sanitized, printed, sanitize_metadata_value-IsBounded 8 value)
      ],
    )

-- A path is shown with at most 256 characters and no prefix of a credential.
pub simplify_path-Safe : (path : Text) → Safe 256 (simplify_path path)
unfolding simplify_path
simplify_path-Safe path = sanitize_persisted_text-Safe (simplified path) 256
