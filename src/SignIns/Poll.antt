-- ===== src/SignIns/Poll.antt =====
-- src/api/oauth.rs: `poll` and `callback_handler`, over the shared state. `now_secs` and `now` are the
-- clock's readings, in seconds and in nanoseconds; `saved` and `config_saved` are as in the parent.
use skyport.Prelude.{
  ℕ, ◌-◌, Bool, not, Option, none, some, List, ltb, if◌then◌else◌, ℤ, lookup, Text, codes, text_eq,
  Result, ok, err,
}
use skyport.Json.{Json}
use skyport.Router.{Router}
use skyport.Sessions.{
  PendingSession, PendingKind, BrowserOutcome, device, browser, arrived, failed, drop_session,
}
use skyport.Subscriptions.{SubscriptionProvider, AuthTokens, find_provider}
use skyport.SignIns.{AppState, LoginError, refused, expiry_panic, finish_login}
use skyport.SignIns.Exchange.{
  StatusResponse, PostBody, DeviceStep, still_pending, step_failed, step_tokens, poll_device_step,
}

pub data PollAnswer : Type 0 where
  -- status 400
  rejected : Text → PollAnswer
  -- status 200
  window_expired : PollAnswer
  pending : Option ℕ → PollAnswer
  login_failed : Text → PollAnswer
  login_done : Text → PollAnswer
  -- the handler panics
  poll_panic : PollAnswer

-- `-` is `saturating_sub`
abbrev pub is_alive : ℕ → PendingSession AuthTokens → Bool
is_alive now_secs session = elim session.kind [
  | device auth_id code interval expires ↦ ltb (now_secs - session.started_secs) expires
  | browser verifier outcome ↦ ltb (now_secs - session.started_secs) 900
]

abbrev login_answer : Result LoginError Text → PollAnswer
login_answer (ok label) = login_done label
login_answer (err (refused message)) = login_failed message
login_answer (err expiry_panic) = poll_panic

module _ {Money : Type 0} where
  -- a poisoned lock leaves the map as it is
  abbrev pub drop_flow : AppState Money → Text → AppState Money
  drop_flow state flow = record state {
    auth_sessions =
        if state.sessions_poisoned
        then state.auth_sessions
        else drop_session state.auth_sessions flow;
  }

  abbrev pub logged_in :
      AppState Money → Router Money × Result LoginError Text → AppState Money × PollAnswer
  logged_in state (r, answer) = (record state { router = r }, login_answer answer)

-- The result of an exchange that the callback makes.
module _ {Money : Type 0} (decode : Text → Option (List ℕ)) (from_slice : List ℕ → Option Json)
    (after : ℕ → ℤ → Option ℕ) (post : Text → PostBody → Option StatusResponse) where
  module _ (provider : SubscriptionProvider) (flow : Text) (now : ℕ) (saved config_saved : Bool)
      (state : AppState Money) where
    abbrev pub finish : AuthTokens → AppState Money × PollAnswer
    finish tokens =
        logged_in (drop_flow state flow)
          (finish_login decode from_slice after provider tokens now saved config_saved state.router)

    abbrev pub device_answer : ℕ → Option DeviceStep → AppState Money × PollAnswer
    device_answer interval none = (state, poll_panic)
    device_answer interval (some still_pending) = (state, pending (some interval))
    device_answer interval (some (step_failed message)) =
        (drop_flow state flow, login_failed message)
    device_answer interval (some (step_tokens tokens)) = finish tokens

    abbrev pub browser_answer : Option (BrowserOutcome AuthTokens) → AppState Money × PollAnswer
    browser_answer none = (state, pending none)
    browser_answer (some (failed message)) = (drop_flow state flow, login_failed message)
    browser_answer (some (arrived tokens)) = finish tokens

    abbrev pub poll_kind : PendingKind AuthTokens → AppState Money × PollAnswer
    poll_kind (device auth_id code interval expires) =
        device_answer interval (poll_device_step from_slice post provider auth_id code)
    poll_kind (browser verifier outcome) = browser_answer outcome

    abbrev pub poll_session :
        Text → ℕ → Option (PendingSession AuthTokens) → AppState Money × PollAnswer
    poll_session id now_secs none =
        (state, rejected (codes "auth flow expired — start a new sign-in"))
    poll_session id now_secs (some session) =
        if not (text_eq session.provider id)
        then (state, rejected (codes "flow/provider mismatch"))
        else if is_alive now_secs session
        then poll_kind session.kind
        else (drop_flow state flow, window_expired)

  abbrev pub poll_provider :
      Text
      → Text
      → ℕ
      → ℕ
      → Bool
      → Bool
      → AppState Money
      → Option SubscriptionProvider
      → AppState Money × PollAnswer
  poll_provider id flow now_secs now saved config_saved state none =
      (state, rejected (codes "unknown subscription provider"))
  poll_provider id flow now_secs now saved config_saved state (some provider) =
      if state.sessions_poisoned
      then (state, rejected (codes "auth session lock poisoned"))
      else poll_session provider flow now saved config_saved state id now_secs
          (lookup flow state.auth_sessions)

  unfoldable pub poll :
      Text → Text → ℕ → ℕ → Bool → Bool → AppState Money → AppState Money × PollAnswer
  unfolding find_provider finish_login poll_device_step drop_session
  poll id flow now_secs now saved config_saved state =
      poll_provider id flow now_secs now saved config_saved state (find_provider id)
