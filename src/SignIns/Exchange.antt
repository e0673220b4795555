-- ===== src/SignIns/Exchange.antt =====
-- src/api/oauth.rs: the exchanges with a provider's endpoints. `post` is the HTTP client: the answer to
-- a body that is posted to a URL, if one comes. The headers of the requests are left out.
use mathlib.Core.Option.{get_or}
use skyport.Prelude.{
  ℕ, ◌||◌, Option, none, some, List, [], ◌∷◌, ◌++◌, ◌==◌, if◌then◌else◌, Dict, Text, codes, text_eq,
  Result, ok_or, err,
}
use skyport.Json.{Json, str, obj, end, field, null, get}
use skyport.Proxy.Loop.{is_success}
use skyport.Security.Guard.{digits}
use skyport.Subscriptions.{SubscriptionProvider, DeviceEndpoints, AuthTokens, parse_tokens, str_of}
use skyport.Subscriptions.Refresh.{HttpResponse, read_oauth_json}

pub record StatusResponse : Type 0 where
  pub status : ℕ
  pub content_length : Option ℕ
  pub chunks : List (Option (List ℕ))

pub data PostBody : Type 0 where
  json_body : Json → PostBody
  form_body : Dict Text → PostBody

pub data DeviceStep : Type 0 where
  still_pending : DeviceStep
  step_failed : Text → DeviceStep
  step_tokens : AuthTokens → DeviceStep

abbrev http_response : StatusResponse → HttpResponse
http_response response = record {
  is_success = is_success response.status;
  content_length = response.content_length;
  chunks = response.chunks;
}

-- `format!("{what} (HTTP {status})")`; a status has three digits
abbrev pub with_status : Text → ℕ → Text
with_status what status = what ++ codes " (HTTP " ++ digits 5 status ++ codes ")"

-- `value[key].as_str()`
abbrev pub text_of : Text → Json → Option Text
text_of key value = str_of (get key value)

abbrev pub tokens_step : Text → Option AuthTokens → DeviceStep
tokens_step message none = step_failed message
tokens_step message (some tokens) = step_tokens tokens

-- the answers that RFC 8628 gives while there is no token
unfoldable pub refusal_step : ℕ → Text → DeviceStep
unfolding digits
refusal_step status error =
    if text_eq error (codes "authorization_pending") || text_eq error (codes "slow_down")
    then still_pending
    else if text_eq error (codes "access_denied")
    then step_failed (codes "authorization was denied")
    else if text_eq error (codes "expired_token")
    then step_failed (codes "authorization window expired")
    else if text_eq error (codes "invalid_grant")
    then step_failed (codes "authorization failed")
    else step_failed (with_status (codes "device poll rejected") status)

module _ (from_slice : List ℕ → Option Json) where
  abbrev pub read_json : StatusResponse → Option Json
  read_json response = read_oauth_json from_slice (http_response response)

  abbrev exchange_step : Option Json → DeviceStep
  exchange_step none = step_failed (codes "token exchange response was invalid")
  exchange_step (some value) =
      tokens_step (codes "token exchange missing access_token") (parse_tokens value)

  abbrev exchange_answer : Option StatusResponse → DeviceStep
  exchange_answer none = step_failed (codes "token exchange request failed")
  exchange_answer (some response) =
      if is_success response.status
      then exchange_step (read_json response)
      else step_failed (with_status (codes "token exchange rejected") response.status)

  abbrev grant_step : Option Json → DeviceStep
  grant_step none = step_failed (codes "token response was invalid")
  grant_step (some value) =
      tokens_step (codes "token response missing access_token") (parse_tokens value)

  -- an unreadable body counts as `null`
  abbrev grant_answer : Option StatusResponse → DeviceStep
  grant_answer none = step_failed (codes "device poll request failed")
  grant_answer (some response) =
      if is_success response.status
      then grant_step (read_json response)
      else refusal_step response.status
          (get_or (text_of (codes "error") (get_or (read_json response) null)) [])

  module _ (post : Text → PostBody → Option StatusResponse) where
    abbrev exchange_code : SubscriptionProvider → DeviceEndpoints → Json → DeviceStep
    exchange_code provider device value = elim (text_of (codes "authorization_code") value) [
      | none ↦ step_failed (codes "poll response missing authorization_code")
      | some code ↦ exchange_answer (
          post device.token_url (
            form_body (
              (codes "grant_type", codes "authorization_code")
              ∷ (codes "client_id", provider.client_id)
              ∷ (codes "code", code)
              ∷ (codes "code_verifier", get_or (text_of (codes "code_verifier") value) [])
              ∷ (codes "redirect_uri", codes "https://auth.openai.com/deviceauth/callback")
              ∷ [])))
    ]

    abbrev chatgpt_step :
        SubscriptionProvider → DeviceEndpoints → Option StatusResponse → DeviceStep
    chatgpt_step provider device none = step_failed (codes "device poll request failed")
    chatgpt_step provider device (some response) =
        if response.status == 403 || response.status == 404
        then still_pending
        else if is_success response.status
        then elim (read_json response) [
          | none ↦ step_failed (codes "device poll response was invalid")
          | some value ↦ exchange_code provider device value
        ]
        else step_failed (with_status (codes "device poll rejected") response.status)

    abbrev device_step : SubscriptionProvider → Text → Text → DeviceEndpoints → DeviceStep
    device_step provider device_auth_id user_code device =
        if text_eq provider.id (codes "chatgpt")
        then chatgpt_step provider device (
            post (codes "https://auth.openai.com/api/accounts/deviceauth/token") (
              json_body (
                obj (
                  field (codes "device_auth_id") (str device_auth_id)
                    (field (codes "user_code") (str user_code) end)))))
        else grant_answer (
            post device.token_url (
              form_body (
                (codes "grant_type", codes "urn:ietf:params:oauth:grant-type:device_code")
                ∷ (codes "client_id", provider.client_id)
                ∷ (codes "device_code", device_auth_id)
                ∷ [])))

    -- `none` where the source panics: a provider without the endpoints of the device flow
    unfoldable pub poll_device_step : SubscriptionProvider → Text → Text → Option DeviceStep
    unfolding read_oauth_json parse_tokens refusal_step
    poll_device_step provider device_auth_id user_code = elim provider.device [
      | none ↦ none
      | some device ↦ some (device_step provider device_auth_id user_code device)
    ]

    abbrev exchanged : Option StatusResponse → Result Text AuthTokens
    exchanged none = err (codes "code exchange request failed")
    exchanged (some response) =
        if is_success response.status
        then elim (read_json response) [
          | none ↦ err (codes "code exchange response was invalid")
          | some value ↦ ok_or (parse_tokens value) (codes "code exchange missing access_token")
        ]
        else err (with_status (codes "code exchange rejected") response.status)

    -- `none` where the source panics: a provider without the endpoints of the browser flow
    unfoldable pub exchange_authorization_code :
        SubscriptionProvider → Text → Text → Option (Result Text AuthTokens)
    unfolding read_oauth_json parse_tokens digits
    exchange_authorization_code provider code verifier = elim provider.browser [
      | none ↦ none
      | some browser ↦ some (
          exchanged (
            post browser.token_url (
              form_body (
                (codes "grant_type", codes "authorization_code")
                ∷ (codes "client_id", provider.client_id)
                ∷ (codes "code", code)
                ∷ (codes "code_verifier", verifier)
                ∷ (codes "redirect_uri", browser.redirect_uri)
                ∷ []))))
    ]
