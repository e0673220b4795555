-- ===== src/Proxy/Upstream.antt =====
-- src/api/v1.rs and src/security.rs: the request that the loop of `proxy` sends upstream, and what it
-- reads of the answer. The URL's parser, its percent-encoding of path segments and its query, the
-- resolver and the JSON functions are arguments.
use skyport.Prelude.{
  ℕ, ◌^◌, Bool, true, false, not, Option, none, some, List, [], ◌∷◌, ◌++◌, ltb, ◌==◌, if◌then◌else◌,
  ℤ, Dict, Text, codes, text_eq, is_empty, Result, ◌>>=◌, ◌>>◌, reject_if, ok_or, map_err, ok, pos,
  negsuc,
}
use mathlib.Core.Option.{get_or}
use skyport.Json.{Json, uint, nint, get}
use skyport.Router.{RouteDecision}
use skyport.Security.Address.{IpAddr}
use skyport.Security.Url.{
  Url, UrlError, validate_provider_url, validate_resolved_destination, valid_model_path_segment,
}
use skyport.Translate.{to_anthropic, to_gemini, to_responses}
use skyport.Subscriptions.{get_in, ◌or_else◌}
use skyport.Subscriptions.Account.{headers_from_extra}

pub record UpstreamRequest : Type 0 where
  pub url : Url
  pub body : Json
  pub headers : Dict Text

pub data NetworkError : Type 0 where
  timed_out cannot_connect failed : NetworkError

-- `Retry-After` as a number, where it is one, and the chunks of the body.
pub data Reply : Type 0 where
  answered :
      (status : ℕ) (retry_after : Option ℕ) (content_length : Option ℕ)
      (chunks : List (Option (List ℕ)))
      → Reply
  unreachable : NetworkError → Reply

pub data RequestError : Type 0 where
  unsafe_provider_url : UrlError → RequestError
  invalid_provider_url invalid_model : RequestError

-- `str::split` at a character, without the empty pieces
abbrev add_segment : Text → List Text → List Text
add_segment [] segments = segments
add_segment (c ∷ s) segments = (c ∷ s) ∷ segments

abbrev pub split_from : ℕ → Text → Text × List Text
split_from sep [] = ([], [])
split_from sep (c ∷ s) =
    let (first, others) = split_from sep s in
    if c == sep then ([], add_segment first others) else (c ∷ first, others)

abbrev segments_of : Text → List Text
segments_of path = let (first, others) = split_from b'/' path in add_segment first others

pub record Web : Type 0 where
  pub parse : Text → Option Url
  -- `path_segments_mut`, `pop_if_empty` and a `push` of each segment
  pub push_segments : Url → List Text → Option Url
  -- `query_pairs_mut().append_pair`
  pub append_pair : Url → Text → Text → Url
  pub lookup_host : Text → ℕ → Option (List IpAddr)
  -- serde's reading of a number as a float, and its printing of a value
  pub as_f64 : Json → Option ℕ
  pub print : Json → Text
  -- a random id, and the clock's seconds
  pub uuid : Text
  pub timestamp : ℕ
  -- `serde_json::to_vec(..).len()`, if it succeeds, and `from_slice`
  pub json_len : Json → Option ℕ
  pub from_slice : List ℕ → Option Json

module _ (web : Web) where
  unfoldable pub append_url_path : Url → Text → Result RequestError Url
  append_url_path base path = ok_or (web.push_segments base (segments_of path)) invalid_provider_url

  abbrev pub gemini_action : Bool → Text
  gemini_action stream = if stream then codes "streamGenerateContent" else codes "generateContent"

  -- the URL, the body, and whether the key goes as a bearer token
  unfoldable pub translate_request :
      Text → Text → Url → Text → Json → Bool → Result RequestError (Url × (Json × Bool))
  unfolding append_url_path to_anthropic to_gemini to_responses
  translate_request format actual_model base path body stream =
      if text_eq format (codes "anthropic")
      then (do
        url ← append_url_path base (codes "v1/messages")
        ok (url, (to_anthropic web.as_f64 web.print body, false)))
      else if text_eq format (codes "gemini")
      then (do
        reject_if (not (valid_model_path_segment actual_model)) invalid_model
        url ←
            append_url_path base
              (codes "v1beta/models/" ++ actual_model ++ codes ":" ++ gemini_action stream)
        ok (
          (if stream then web.append_pair url (codes "alt") (codes "sse") else url),
          (to_gemini web.as_f64 web.print body, false),
        ))
      else if text_eq format (codes "responses")
      then (do
        url ← append_url_path base (codes "responses")
        ok (url, (to_responses web.as_f64 web.print body, true)))
      else (do url ← append_url_path base path; ok (url, (body, true)))

  -- `bearer_auth`
  abbrev bearer : Text → Dict Text
  bearer key = (codes "authorization", codes "Bearer " ++ key) ∷ []

  abbrev anthropic_version : Dict Text
  anthropic_version = (codes "anthropic-version", codes "2023-06-01") ∷ []

  unfoldable pub auth_headers : RouteDecision → Bool → Dict Text → Dict Text
  auth_headers decision bearer_auth oauth_headers =
      if is_empty decision.api_key
      then []
      else if is_empty oauth_headers
      then (if text_eq decision.format (codes "anthropic")
          then (codes "x-api-key", decision.api_key) ∷ anthropic_version
          else if text_eq decision.format (codes "gemini")
          then (codes "x-goog-api-key", decision.api_key) ∷ []
          else if bearer_auth
          then bearer decision.api_key
          else [])
      else (if text_eq decision.format (codes "anthropic") then anthropic_version else [])
        ++ bearer decision.api_key
        ++ oauth_headers

  unfoldable pub upstream_request :
      Text → Text → Json → Text → Bool → RouteDecision → Result RequestError UpstreamRequest
  unfolding translate_request auth_headers headers_from_extra validate_provider_url
      validate_resolved_destination
  upstream_request provider actual_model body path stream decision = do
    base ← map_err unsafe_provider_url (
        validate_provider_url web.parse provider decision.base_url
          (not (is_empty decision.api_key)))
    map_err unsafe_provider_url (
        validate_resolved_destination web.lookup_host provider base
          (not (is_empty decision.api_key)))
    translated ← translate_request decision.format actual_model base path body stream
    ok (record {
      url = translated.0;
      body = translated.1.0;
      headers = auth_headers decision translated.1.1 (headers_from_extra decision.oauth_extra);
    })

-- `as_i64` of a value
unfoldable pub integer_of : Option Json → Option ℤ
integer_of (some (uint n)) = if ltb n (2 ^ 63) then some (pos n) else none
integer_of (some (nint n)) = if ltb n (2 ^ 63) then some (negsuc n) else none
integer_of _ = none

abbrev usage_object : Json → Json
usage_object payload =
    get_or
      (get (codes "usage") payload
        or_else get (codes "usageMetadata") payload
        or_else get_in (codes "usage") (get (codes "response") payload))
      payload

unfoldable pub usage_from_payload : Json → ℤ × ℤ
unfolding integer_of
usage_from_payload payload =
    let usage = usage_object payload in
    (
      get_or
          (integer_of (get (codes "prompt_tokens") usage)
            or_else integer_of (get (codes "input_tokens") usage)
            or_else integer_of (get (codes "promptTokenCount") usage))
          (pos 0),
      get_or
          (integer_of (get (codes "completion_tokens") usage)
            or_else integer_of (get (codes "output_tokens") usage)
            or_else integer_of (get (codes "candidatesTokenCount") usage))
          (pos 0),
    )

-- `n.max(0) as u64`
abbrev pub at_least_zero : ℤ → ℕ
at_least_zero (pos n) = n
at_least_zero (negsuc n) = 0
