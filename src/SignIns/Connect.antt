-- ===== src/SignIns/Connect.antt =====
-- src/api/oauth.rs: `connect`, which starts a sign-in. The flow's id comes from the crate uuid, and the
-- verifier and its challenge from a random generator and SHA-256: they are arguments, as the HTTP
-- client is. `oldest` is as in Sessions. The dashboard's texts are left out of the answers.
pub mod Encoding
use mathlib.Core.Option.{get_or}
use skyport.Prelude.{
  ℕ, max, not, Option, none, some, List, [], ◌∷◌, ◌++◌, map, if◌then◌else◌, Dict, Text, codes,
  text_eq, is_empty,
}
use skyport.Json.{Json, Fields, uint, str, obj, end, field, get, as_u64}
use skyport.Proxy.Loop.{is_success}
use skyport.Sessions.{PendingSession, device, browser, insert_session}
use skyport.Subscriptions.{
  SubscriptionProvider, DeviceEndpoints, BrowserEndpoints, BodyFormat, AuthTokens, AuthFlow, json,
  form, device_flow, browser_flow, paste, unavailable, find_provider, ◌or_else◌,
}
use skyport.SignIns.{AppState}
use skyport.SignIns.Exchange.{
  StatusResponse, PostBody, json_body, form_body, with_status, text_of, read_json,
}
use skyport.SignIns.Connect.Encoding.{url_encode}

pub data ConnectAnswer : Type 0 where
  connect_refused : Text → ConnectAnswer
  paste_mode unavailable_mode : ConnectAnswer
  -- flow_id, verification_uri, user_code, interval, expires_in
  device_mode : Text → Text → Text → ℕ → ℕ → ConnectAnswer
  -- flow_id, authorize_url, redirect_uri
  browser_mode : Text → Text → Text → ConnectAnswer
  connect_panic : ConnectAnswer

-- `join("&")` of the parameters, each encoded
abbrev query : Dict Text → Text
query [] = []
query ((k, v) ∷ []) = url_encode k ++ b'=' ∷ url_encode v
query ((k, v) ∷ p ∷ params) = url_encode k ++ b'=' ∷ (url_encode v ++ b'&' ∷ query (p ∷ params))

abbrev number_of : Text → Json → Option ℕ
number_of key value = elim (get key value) [ none ↦ none | some v ↦ as_u64 v ]

abbrev pub device_body : SubscriptionProvider → DeviceEndpoints → PostBody
device_body provider endpoints = elim endpoints.format [
  | json ↦ json_body (
      obj (
        field (codes "client_id") (str provider.client_id)
          (field (codes "scope") (str endpoints.scope) end)))
  | form ↦
      form_body ((codes "client_id", provider.client_id) ∷ (codes "scope", endpoints.scope) ∷ [])
]

abbrev rejection : SubscriptionProvider → ℕ → Text
rejection provider status =
    let message = with_status (codes "device code request rejected") status in
    if text_eq provider.id (codes "chatgpt")
    then message ++ codes "; enable device code authentication for Codex in ChatGPT settings"
    else message

module _ {Money : Type 0} (oldest : Dict (PendingSession AuthTokens) → List Text) (flow_id : Text)
    (now_secs : ℕ) (state : AppState Money) where
  -- a poisoned lock leaves the map as it is
  abbrev pub begin_session : PendingSession AuthTokens → AppState Money
  begin_session session = record state {
    auth_sessions =
        if state.sessions_poisoned
        then state.auth_sessions
        else insert_session oldest state.auth_sessions flow_id session;
  }

  abbrev pub device_begun :
      SubscriptionProvider → DeviceEndpoints → Json → Text → Text → AppState Money × ConnectAnswer
  device_begun provider endpoints value user_code device_code =
      let interval = max (get_or (number_of (codes "interval") value) 5) 1 in
      let expires_in = get_or (number_of (codes "expires_in") value) 900 in
      if is_empty device_code
      then (state, connect_refused (codes "device code response missing device_code"))
      else (
        begin_session (record {
          provider = provider.id;
          started_secs = now_secs;
          kind = device device_code user_code interval expires_in;
        }),
        device_mode flow_id
            (get_or
              (text_of (codes "verification_uri_complete") value
                or_else text_of (codes "verification_uri") value)
              endpoints.verification_uri)
            user_code interval expires_in,
      )

  abbrev pub device_coded :
      SubscriptionProvider → DeviceEndpoints → Json → Option Text → AppState Money × ConnectAnswer
  device_coded provider endpoints value none =
      (state, connect_refused (codes "device code response missing user_code"))
  device_coded provider endpoints value (some user_code) =
      device_begun provider endpoints value user_code (
        get_or (text_of (codes "device_code") value or_else text_of (codes "device_auth_id") value)
          [])

  abbrev pub device_value :
      SubscriptionProvider → DeviceEndpoints → Option Json → AppState Money × ConnectAnswer
  device_value provider endpoints none =
      (state, connect_refused (codes "device code response was invalid"))
  device_value provider endpoints (some value) =
      device_coded provider endpoints value
        (text_of (codes "user_code") value or_else text_of (codes "usercode") value)

  abbrev pub device_answer :
      (List ℕ → Option Json)
      → SubscriptionProvider
      → DeviceEndpoints
      → Option StatusResponse
      → AppState Money × ConnectAnswer
  device_answer from_slice provider endpoints none =
      (state, connect_refused (codes "device code request failed"))
  device_answer from_slice provider endpoints (some response) =
      if is_success response.status
      then device_value provider endpoints (read_json from_slice response)
      else (state, connect_refused (rejection provider response.status))

  -- the source panics where a provider has not the endpoints of its flow
  abbrev pub device_connect :
      (List ℕ → Option Json)
      → (Text → PostBody → Option StatusResponse)
      → SubscriptionProvider
      → Option DeviceEndpoints
      → AppState Money × ConnectAnswer
  device_connect from_slice post provider none = (state, connect_panic)
  device_connect from_slice post provider (some endpoints) =
      device_answer from_slice provider endpoints
        (post endpoints.device_code_url (device_body provider endpoints))

  abbrev authorize_params : SubscriptionProvider → BrowserEndpoints → Text → Dict Text
  authorize_params provider endpoints challenge =
      (codes "response_type", codes "code")
      ∷ (codes "client_id", provider.client_id)
      ∷ (codes "redirect_uri", endpoints.redirect_uri)
      ∷ (codes "scope", endpoints.scope)
      ∷ (codes "state", flow_id)
      ∷ (codes "code_challenge", challenge)
      ∷ (codes "code_challenge_method", codes "S256")
      ∷ []

  abbrev pub browser_connect :
      Text → Text → SubscriptionProvider → Option BrowserEndpoints → AppState Money × ConnectAnswer
  browser_connect verifier challenge provider none = (state, connect_panic)
  browser_connect verifier challenge provider (some endpoints) = (
    begin_session (record {
      provider = provider.id;
      started_secs = now_secs;
      kind = browser (some verifier) none;
    }),
    browser_mode flow_id
        (endpoints.authorize_url ++ b'?' ∷ query (authorize_params provider endpoints challenge))
        endpoints.redirect_uri,
  )

  abbrev pub connect_by :
      (List ℕ → Option Json)
      → (Text → PostBody → Option StatusResponse)
      → Text
      → Text
      → SubscriptionProvider
      → AuthFlow
      → AppState Money × ConnectAnswer
  connect_by from_slice post verifier challenge provider paste = (state, paste_mode)
  connect_by from_slice post verifier challenge provider unavailable = (state, unavailable_mode)
  connect_by from_slice post verifier challenge provider device_flow =
      device_connect from_slice post provider provider.device
  connect_by from_slice post verifier challenge provider browser_flow =
      browser_connect verifier challenge provider provider.browser

  abbrev pub connect_found :
      (List ℕ → Option Json)
      → (Text → PostBody → Option StatusResponse)
      → Text
      → Text
      → Option SubscriptionProvider
      → AppState Money × ConnectAnswer
  connect_found from_slice post verifier challenge none =
      (state, connect_refused (codes "unknown subscription provider"))
  connect_found from_slice post verifier challenge (some provider) =
      connect_by from_slice post verifier challenge provider provider.flow

  unfoldable pub connect :
      (List ℕ → Option Json)
      → (Text → PostBody → Option StatusResponse)
      → Text
      → Text
      → Text
      → AppState Money × ConnectAnswer
  unfolding find_provider insert_session
  connect from_slice post verifier challenge id =
      connect_found from_slice post verifier challenge (find_provider id)
