-- ===== src/Proxy/Bounded.antt =====
-- src/api/v1.rs and src/providers/translate.rs: what a budgeted request may cost at most.
use skyport.Prelude.{
  ℕ, ◌≤◌, ◌≡◌, inl, inr, Bool, true, false, some, ◌++◌, arith, Bool-cases, Text, codes, text_eq,
  Result-cases, ok,
}
use skyport.Json.{Json}
use skyport.Router.{Router}
use skyport.Security.Url.{Url, valid_model_path_segment}
use skyport.Translate.{to_anthropic, to_gemini, to_responses}
use skyport.Translate.Limits.{token_limit, to_anthropic-limit, to_gemini-limit, to_responses-limit}
use skyport.Proxy.{Admitted, number_at, check_request}
use skyport.Proxy.Admission.{check_request-IsAdmitted}
use skyport.Proxy.Upstream.{Web, append_url_path, gemini_action, translate_request}

module _ (web : Web) (format actual_model : Text) (base : Url) (path : Text) (body : Json)
    (stream : Bool) (url : Url) (sent : Json) (bearer_auth : Bool) (n : ℕ) where
  -- A body that is translated keeps its limit.
  translate_request-limit :
      number_at (codes "max_tokens") body ≡ some n
      → translate_request web format actual_model base path body stream
        ≡ ok (url, (sent, bearer_auth))
      → token_limit format sent ≡ some n
  unfolding translate_request
  translate_request-limit bounded h = elim (Bool-cases (text_eq format (codes "anthropic"))) [
    | inl a ↦ elim (Result-cases (append_url_path web base (codes "v1/messages"))) [
      | inr (e, bad) ↦ absurd (ground (arith, a, bad, h))
      | inl (u, good) ↦
          let same : to_anthropic web.as_f64 web.print body ≡ sent = ground (arith, a, good, h) in
          rw (a, ← same) (to_anthropic-limit web.as_f64 web.print body n bounded)
    ]
    | inr a ↦ elim (Bool-cases (text_eq format (codes "gemini"))) [
      | inl g ↦ elim (Bool-cases (valid_model_path_segment actual_model)) [
        | inr bad ↦ absurd (ground (arith, a, g, bad, h))
        | inl fine ↦
            elim (Result-cases (
              append_url_path web base (
                codes "v1beta/models/" ++ actual_model ++ codes ":" ++ gemini_action web stream))) [
                  | inr (e, bad) ↦ absurd (ground (arith, a, g, fine, bad, h))
                  | inl (u, good) ↦
                      let same : to_gemini web.as_f64 web.print body ≡ sent =
                        ground (arith, a, g, fine, good, h) in
                      rw (a, g, ← same) (to_gemini-limit web.as_f64 web.print body n bounded)
                ]
      ]
      | inr g ↦ elim (Bool-cases (text_eq format (codes "responses"))) [
        | inl r ↦ elim (Result-cases (append_url_path web base (codes "responses"))) [
          | inr (e, bad) ↦ absurd (ground (arith, a, g, r, bad, h))
          | inl (u, good) ↦
              let same : to_responses web.as_f64 web.print body ≡ sent =
                ground (arith, a, g, r, good, h) in
              rw (a, g, r, ← same) (to_responses-limit web.as_f64 web.print body n bounded)
        ]
        | inr r ↦ elim (Result-cases (append_url_path web base path)) [
          | inr (e, bad) ↦ absurd (ground (arith, a, g, r, bad, h))
          | inl (u, good) ↦
              let same : body ≡ sent = ground (arith, a, g, r, good, h) in
              rw (a, g, r, ← same) bounded
        ]
      ]
    ]
  ]

-- A request that passes the checks while the budget gate is held, and that does not ask for
-- embeddings, reaches the provider, in whichever protocol, with a limit of at most 32768 tokens.
pub upstream_token_limit :
    (web : Web) (router : Router ℕ) (model path : Text) (body : Json) (stream : Bool) (a : Admitted)
    (format : Text) (base url : Url) (sent : Json) (bearer_auth : Bool)
    → check_request router model body path stream ≡ ok a
    → a.gated ≡ true
    → text_eq path (codes "embeddings") ≡ false
    → translate_request web format a.actual_model base path a.body stream
      ≡ ok (url, (sent, bearer_auth))
    → (n : ℕ) × (token_limit format sent ≡ some n) × (n ≤ 32_768)
upstream_token_limit web router model path body stream a format base url sent bearer_auth checked
      gated chat h =
    let (_, _, _, _, limited) = check_request-IsAdmitted router model path body stream a checked in
    elim limited [
      | inl free ↦ absurd (ground (arith, gated, free))
      | inr (_, bounded) ↦ elim bounded [
        | inl embeddings ↦ absurd (ground (arith, chat, embeddings))
        | inr (n, e, le) ↦ (
          n,
          translate_request-limit web format a.actual_model base path a.body stream url sent
              bearer_auth n e h,
          le,
        )
      ]
    ]
