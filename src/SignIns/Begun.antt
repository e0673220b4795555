-- ===== src/SignIns/Begun.antt =====
-- src/api/oauth.rs: what `connect` leaves for the poll, and that the table of providers is complete.
use skyport.Prelude.{
  ℕ, ◌≡◌, refl, subst, inl, inr, Bool, true, false, Option, none, some, List, [], ◌∷◌, arith,
  Bool-cases, is_some, find, All, Dict, lookup, lookup-insert, Text, text_eq, text_eq_refl,
  text_eq_iff, is_empty,
}
use skyport.SignIns.Connect.{
  ConnectAnswer, connect_refused, paste_mode, unavailable_mode, device_mode, browser_mode,
  connect_panic, begin_session, device_begun, device_value, device_answer, device_connect,
  browser_connect, connect_by, connect_found, connect, device_coded, device_body,
}
use skyport.SignIns.Exchange.{StatusResponse, PostBody}
use skyport.Proxy.Loop.{is_success}
use skyport.SignIns.{AppState}
use skyport.Json.{Json}
use skyport.Sessions.{PendingSession, insert_session, remove_all}
use skyport.Subscriptions.{
  SubscriptionProvider, device_flow, browser_flow, paste, unavailable, providers, find_provider,
  DeviceEndpoints, BrowserEndpoints, AuthTokens, AuthFlow,
}

find-All {ℓ κ} :
    {A : Type ℓ} (P : A → Type κ) (p : A → Bool) (xs : List A) (a : A)
    → All P xs
    → find p xs ≡ some a
    → P a × (p a ≡ true)
find-All P p [] a h f = absurd (ground arith)
find-All P p (x ∷ xs) a (q, h) f = elim (Bool-cases (p x)) [
  | inl t ↦ let same : x ≡ a = ground arith in (subst P same q, rw (← same) t)
  | inr e ↦ find-All P p xs a h (ground arith)
]

-- A provider has the endpoints of its flow.
abbrev HasEndpointsOf : AuthFlow → SubscriptionProvider → Type 0
HasEndpointsOf device_flow provider = is_some provider.device ≡ true
HasEndpointsOf browser_flow provider = is_some provider.browser ≡ true
HasEndpointsOf paste provider = Unit
HasEndpointsOf unavailable provider = Unit

abbrev HasEndpoints : SubscriptionProvider → Type 0
HasEndpoints provider = HasEndpointsOf provider.flow provider

find_provider-HasEndpoints :
    (id : Text) (provider : SubscriptionProvider)
    → find_provider id ≡ some provider
    → HasEndpoints provider × (provider.id ≡ id)
unfolding find_provider
find_provider-HasEndpoints id provider found =
    let (complete, same) =
      find-All HasEndpoints (λ p. text_eq p.id id) providers provider
        (refl, (refl, (refl, (tt, (tt, tt))))) found in
    (complete, (text_eq_iff provider.id id).0 same)

module _ {Money : Type 0} (oldest : Dict (PendingSession AuthTokens) → List Text) (flow_id : Text)
    (now_secs : ℕ) (state : AppState Money) (id : Text) where
  -- A sign-in to the provider waits under the flow's id, begun now.
  abbrev pub IsBegun : AppState Money → Type 0
  IsBegun s =
      (session : PendingSession AuthTokens) × (lookup flow_id s.auth_sessions ≡ some session)
      × (session.provider ≡ id)
      × (session.started_secs ≡ now_secs)

  abbrev pub Begins : AppState Money × ConnectAnswer → Type 0
  Begins (s, connect_refused message) = s ≡ state
  Begins (s, paste_mode) = s ≡ state
  Begins (s, unavailable_mode) = s ≡ state
  Begins (s, device_mode flow uri code interval expires) = (flow ≡ flow_id) × IsBegun s
  Begins (s, browser_mode flow url redirect) = (flow ≡ flow_id) × IsBegun s
  Begins (s, connect_panic) = ⊥

  begun :
      (session : PendingSession AuthTokens)
      → state.sessions_poisoned ≡ false
      → session.provider ≡ id
      → session.started_secs ≡ now_secs
      → IsBegun (begin_session oldest flow_id now_secs state session)
  unfolding insert_session
  begun session healthy mine new = (
    session,
    ground (
      arith,
      lookup-insert flow_id flow_id session state.auth_sessions,
      lookup-insert flow_id flow_id session
          (remove_all (oldest state.auth_sessions) state.auth_sessions),
      text_eq_refl flow_id,
    ),
    mine,
    new,
  )

  module _ (provider : SubscriptionProvider) (healthy : state.sessions_poisoned ≡ false)
      (mine : provider.id ≡ id) where
    device_begun-Begins :
        (endpoints : DeviceEndpoints) (value : Json) (user_code device_code : Text)
        → Begins (
            device_begun oldest flow_id now_secs state provider endpoints value user_code
              device_code)
    device_begun-Begins endpoints value user_code device_code =
        elim (Bool-cases (is_empty device_code)) [
          | inl e ↦ simp e refl
          | inr e ↦ simp e (refl, begun _ healthy mine refl)
        ]

    device_coded-Begins :
        (endpoints : DeviceEndpoints) (value : Json) (user_code : Option Text)
        → Begins (device_coded oldest flow_id now_secs state provider endpoints value user_code)
    device_coded-Begins endpoints value none = refl
    device_coded-Begins endpoints value (some code) = device_begun-Begins endpoints value code _

    device_value-Begins :
        (endpoints : DeviceEndpoints) (value : Option Json)
        → Begins (device_value oldest flow_id now_secs state provider endpoints value)
    device_value-Begins endpoints none = refl
    device_value-Begins endpoints (some value) = device_coded-Begins endpoints value _

    device_answer-Begins :
        (from_slice : List ℕ → Option Json) (endpoints : DeviceEndpoints)
        (answer : Option StatusResponse)
        → Begins (device_answer oldest flow_id now_secs state from_slice provider endpoints answer)
    device_answer-Begins from_slice endpoints none = refl
    device_answer-Begins from_slice endpoints (some response) =
        elim (Bool-cases (is_success response.status)) [
          | inl e ↦ simp e (device_value-Begins endpoints _)
          | inr e ↦ simp e refl
        ]

    device_connect-Begins :
        (from_slice : List ℕ → Option Json) (post : Text → PostBody → Option StatusResponse)
        (endpoints : Option DeviceEndpoints)
        → is_some endpoints ≡ true
        → Begins (device_connect oldest flow_id now_secs state from_slice post provider endpoints)
    device_connect-Begins from_slice post none missing = cc missing
    device_connect-Begins from_slice post (some endpoints) here =
        device_answer-Begins from_slice endpoints
          (post endpoints.device_code_url (device_body provider endpoints))

    browser_connect-Begins :
        (verifier challenge : Text) (endpoints : Option BrowserEndpoints)
        → is_some endpoints ≡ true
        → Begins
            (browser_connect oldest flow_id now_secs state verifier challenge provider endpoints)
    browser_connect-Begins verifier challenge none missing = cc missing
    browser_connect-Begins verifier challenge (some endpoints) here =
        (refl, begun _ healthy mine refl)

    connect_by-Begins :
        (from_slice : List ℕ → Option Json) (post : Text → PostBody → Option StatusResponse)
        (verifier challenge : Text) (flow : AuthFlow)
        → HasEndpointsOf flow provider
        → Begins (
            connect_by oldest flow_id now_secs state from_slice post verifier challenge provider
              flow)
    connect_by-Begins from_slice post verifier challenge paste complete = refl
    connect_by-Begins from_slice post verifier challenge unavailable complete = refl
    connect_by-Begins from_slice post verifier challenge device_flow complete =
        device_connect-Begins from_slice post provider.device complete
    connect_by-Begins from_slice post verifier challenge browser_flow complete =
        browser_connect-Begins verifier challenge provider.browser complete

  -- `connect` never panics for want of endpoints. Where it answers a flow, that flow's id leads to a
  -- sign-in to the provider, begun now, if the lock of the sign-ins is healthy; otherwise it changes
  -- nothing.
  pub connect-Begins :
      (from_slice : List ℕ → Option Json) (post : Text → PostBody → Option StatusResponse)
      (verifier challenge : Text)
      → state.sessions_poisoned ≡ false
      → Begins (connect oldest flow_id now_secs state from_slice post verifier challenge id)
  unfolding connect
  connect-Begins from_slice post verifier challenge healthy =
      found-Begins (find_provider id) (λ provider. find_provider-HasEndpoints id provider)
    where
      found-Begins :
          (found : Option SubscriptionProvider)
          → ((provider : SubscriptionProvider)
              → found ≡ some provider
              → HasEndpoints provider × (provider.id ≡ id))
          → Begins
              (connect_found oldest flow_id now_secs state from_slice post verifier challenge found)
      found-Begins none complete = refl
      found-Begins (some provider) complete =
          connect_by-Begins provider healthy (complete provider refl).1 from_slice post verifier
            challenge provider.flow (complete provider refl).0
