-- ===== src/Translate/Usage.antt =====
-- src/providers/translate.rs and src/api/v1.rs: the tokens that are charged are those of the answer.
use skyport.Prelude.{
  ℕ, ◌^◌, ◌<◌, ◌≡◌, refl, inl, inr, Bool, true, ◌||◌, arith, ltb, if◌then◌else◌, Bool-cases, Text,
  codes, text_eq, pos,
}
use skyport.Json.{Json, get}
use skyport.Translate.{at_key}
use skyport.Translate.Answers.{
  tokens_at, usage_object, completion, from_anthropic, from_gemini, from_responses,
  translate_answer,
}
use skyport.Proxy.Upstream.{usage_from_payload}

abbrev usage_of : Text → Text → Text → Json → ℕ × ℕ
usage_of usage prompt answer resp =
    (tokens_at prompt (at_key usage resp), tokens_at answer (at_key usage resp))

-- The tokens of the request and of the answer, as a provider of the format reports them.
abbrev pub reported : Text → Json → ℕ × ℕ
reported format resp =
    if text_eq format (codes "anthropic")
    then usage_of (codes "usage") (codes "input_tokens") (codes "output_tokens") resp
    else if text_eq format (codes "gemini")
    then usage_of (codes "usageMetadata") (codes "promptTokenCount") (codes "candidatesTokenCount")
        resp
    else usage_of (codes "usage") (codes "input_tokens") (codes "output_tokens") resp

abbrev pub is_translated : Text → Bool
is_translated format =
    text_eq format (codes "anthropic")
    || text_eq format (codes "gemini")
    || text_eq format (codes "responses")

usage_from_payload-completion :
    (id : Text) (created : ℕ) (model : Text) (message : Json) (finish : Text)
    (prompt answer total : ℕ)
    → prompt < 2 ^ 63
    → answer < 2 ^ 63
    → usage_from_payload
        (completion id created model message finish (usage_object prompt answer total))
      ≡ (pos prompt, pos answer)
unfolding usage_from_payload get text_eq
usage_from_payload-completion id created model message finish prompt answer total hp ha =
    let small_prompt : ltb prompt (2 ^ 63) ≡ true = ground (arith, hp) in
    let small_answer : ltb answer (2 ^ 63) ≡ true = ground (arith, ha) in
    rw (small_prompt, small_answer) refl

-- The usage that the proxy reads from a translated answer, and charges, is the one that the provider
-- reported, if it fits an `i64`.
pub usage_from_payload-translate_answer :
    (format uuid : Text) (now : ℕ) (resp : Json)
    → is_translated format ≡ true
    → (reported format resp).0 < 2 ^ 63
    → (reported format resp).1 < 2 ^ 63
    → usage_from_payload (translate_answer format uuid now resp)
      ≡ (pos (reported format resp).0, pos (reported format resp).1)
unfolding translate_answer from_anthropic from_gemini from_responses
usage_from_payload-translate_answer format uuid now resp known hp ha =
    elim (Bool-cases (text_eq format (codes "anthropic"))) [
      | inl e ↦ rw e (usage_from_payload-completion _ _ _ _ _ _ _ _ (rw e at hp) (rw e at ha))
      | inr e ↦ elim (Bool-cases (text_eq format (codes "gemini"))) [
        | inl e' ↦
            rw (e, e')
              (usage_from_payload-completion _ _ _ _ _ _ _ _ (rw (e, e') at hp) (rw (e, e') at ha))
        | inr e' ↦
            let e'' : text_eq format (codes "responses") ≡ true = ground (arith, e, e', known) in
            rw (e, e', e'')
              (usage_from_payload-completion _ _ _ _ _ _ _ _ (rw (e, e') at hp) (rw (e, e') at ha))
      ]
    ]
