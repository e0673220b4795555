-- ===== src/Translate/Limits.antt =====
-- src/providers/translate.rs: the bound on the answer's tokens survives the translation.
use skyport.Prelude.{
  ℕ, ◌≡◌, refl, inl, inr, false, Option, none, some, arith, if◌then◌else◌, Option-cases, Text,
  codes, text_eq, text_eq_refl,
}
use skyport.Json.{Json, Fields, uint, end, get, get_field, as_u64}
use skyport.Proxy.{number_at}
use skyport.Translate.{
  number, instructions_of, responses_tail, at_key, optional, max_tokens_of, to_anthropic, to_gemini,
  to_responses,
}

-- Where a body of the format says how many tokens the answer may have.
abbrev pub token_limit : Text → Json → Option ℕ
token_limit format body =
    if text_eq format (codes "anthropic")
    then number_at (codes "max_tokens") body
    else if text_eq format (codes "gemini")
    then number_at (codes "maxOutputTokens") (at_key (codes "generationConfig") body)
    else if text_eq format (codes "responses")
    then number_at (codes "max_output_tokens") body
    else number_at (codes "max_tokens") body

abbrev limit_in : Text → Fields → Option ℕ
limit_in key fs = elim (get_field key fs) [ none ↦ none | some v ↦ as_u64 v ]

skip_optional :
    (key other : Text) (v : Option Json) (fs : Fields) (n : ℕ)
    → text_eq other key ≡ false
    → limit_in key fs ≡ some n
    → limit_in key (optional other v fs) ≡ some n
unfolding get_field
skip_optional key other none fs n ne h = h
skip_optional key other (some v) fs n ne h = ground (arith, ne, h)

read_optional :
    (key : Text) (v : Option Json) (fs : Fields) (n : ℕ)
    → v ≡ some (uint n)
    → limit_in key (optional key v fs) ≡ some n
unfolding get_field as_u64
read_optional key none fs n h = absurd (ground (arith, h))
read_optional key (some v) fs n h = ground (arith, h, text_eq_refl key)

module _ (as_f64 : Json → Option ℕ) (print : Json → Text) (body : Json) (n : ℕ)
    (bounded : number_at (codes "max_tokens") body ≡ some n) where
  max_tokens_of-bounded : max_tokens_of as_f64 print body ≡ some (uint n)
  max_tokens_of-bounded = elim (Option-cases (get (codes "max_tokens") body)) [
    | inl e ↦ absurd (ground (arith, e, bounded))
    | inr (v, e) ↦ let whole : as_u64 v ≡ some n = ground (arith, e, bounded) in rw (e, whole) refl
  ]

  pub to_anthropic-limit : number_at (codes "max_tokens") (to_anthropic as_f64 print body) ≡ some n
  unfolding to_anthropic get text_eq as_u64
  to_anthropic-limit = rw max_tokens_of-bounded refl

  pub to_gemini-limit :
      number_at
        (codes "maxOutputTokens")
        (at_key (codes "generationConfig") (to_gemini as_f64 print body))
      ≡ some n
  unfolding to_gemini get text_eq as_u64
  to_gemini-limit =
      let limit = optional (codes "maxOutputTokens") (max_tokens_of as_f64 print body) end in
      let top_p = number as_f64 print (codes "top_p") body in
      skip_optional (codes "maxOutputTokens") (codes "temperature")
        (number as_f64 print (codes "temperature") body) (optional (codes "topP") top_p limit) n
        refl
        (skip_optional (codes "maxOutputTokens") (codes "topP") top_p limit n refl (
          read_optional (codes "maxOutputTokens") (max_tokens_of as_f64 print body) end n
            max_tokens_of-bounded))

  pub to_responses-limit :
      number_at (codes "max_output_tokens") (to_responses as_f64 print body) ≡ some n
  unfolding to_responses get text_eq as_u64
  to_responses-limit =
      let limit = max_tokens_of as_f64 print body in
      let tail = responses_tail as_f64 print body in
      skip_optional (codes "max_output_tokens") (codes "instructions")
        (instructions_of as_f64 print body) (optional (codes "max_output_tokens") limit tail) n refl
        (read_optional (codes "max_output_tokens") limit tail n max_tokens_of-bounded)
