-- ===== src/SignIns/Callback.antt =====
-- src/api/oauth.rs: `callback_handler`, the target of a browser sign-in's redirect. `params` is the query
-- of the request.
use skyport.Prelude.{
  ℕ, Bool, false, Option, none, some, List, if◌then◌else◌, Dict, lookup, Text, codes, Result, ok,
  err,
}
use skyport.Json.{Json}
use skyport.Sessions.{
  PendingSession, BrowserOutcome, arrived, failed, take_browser_callback, store_browser_outcome,
}
use skyport.Subscriptions.{SubscriptionProvider, AuthTokens, find_provider}
use skyport.SignIns.{AppState}
use skyport.SignIns.Exchange.{StatusResponse, PostBody, exchange_authorization_code}

pub data CallbackAnswer : Type 0 where
  -- the page that says that the sign-in went well, or not
  callback_page : Bool → CallbackAnswer
  callback_panic : CallbackAnswer

module _ {Money : Type 0} where
  abbrev pub with_sessions : AppState Money → Dict (PendingSession AuthTokens) → AppState Money
  with_sessions state sessions = record state { auth_sessions = sessions }

  abbrev pub record_browser_outcome :
      AppState Money → Text → BrowserOutcome AuthTokens → AppState Money × Bool
  record_browser_outcome state flow outcome =
      if state.sessions_poisoned
      then (state, false)
      else let (sessions, stored) = store_browser_outcome state.auth_sessions flow outcome in
        (with_sessions state sessions, stored)

  -- the page says that it failed, whether or not the failure could be recorded
  abbrev pub record_failure : AppState Money → Text → Text → AppState Money × CallbackAnswer
  record_failure state flow message =
      ((record_browser_outcome state flow (failed message)).0, callback_page false)

  abbrev pub record_tokens : AppState Money × Bool → AppState Money × CallbackAnswer
  record_tokens (state, stored) = (state, callback_page stored)

  abbrev pub callback_exchanged :
      AppState Money → Text → Option (Result Text AuthTokens) → AppState Money × CallbackAnswer
  callback_exchanged state flow none = (state, callback_panic)
  callback_exchanged state flow (some (ok tokens)) =
      record_tokens (record_browser_outcome state flow (arrived tokens))
  callback_exchanged state flow (some (err message)) = record_failure state flow message

module _ {Money : Type 0} (from_slice : List ℕ → Option Json)
    (post : Text → PostBody → Option StatusResponse) where
  abbrev pub callback_provider :
      AppState Money
      → Text
      → Text
      → Text
      → Option SubscriptionProvider
      → AppState Money × CallbackAnswer
  callback_provider state flow code verifier none =
      record_failure state flow (codes "authorization provider was unavailable")
  callback_provider state flow code verifier (some provider) =
      callback_exchanged state flow
        (exchange_authorization_code from_slice post provider code verifier)

  abbrev pub callback_code :
      AppState Money → Text → Text → Text → Option Text → AppState Money × CallbackAnswer
  callback_code state flow provider_id verifier none =
      record_failure state flow (codes "authorization callback did not include a code")
  callback_code state flow provider_id verifier (some code) =
      callback_provider state flow code verifier (find_provider provider_id)

  abbrev pub callback_taken :
      AppState Money
      → Dict Text
      → Text
      → Dict (PendingSession AuthTokens) × Option (Text × Text)
      → AppState Money × CallbackAnswer
  callback_taken state params flow (sessions, none) =
      (with_sessions state sessions, callback_page false)
  callback_taken state params flow (sessions, some (provider_id, verifier)) =
      callback_code (with_sessions state sessions) flow provider_id verifier
        (lookup (codes "code") params)

  abbrev pub callback_flow :
      AppState Money → Dict Text → ℕ → Option Text → AppState Money × CallbackAnswer
  callback_flow state params now_secs none = (state, callback_page false)
  callback_flow state params now_secs (some flow) =
      if state.sessions_poisoned
      then (state, callback_page false)
      else callback_taken state params flow
          (take_browser_callback state.auth_sessions flow now_secs)

  unfoldable pub callback_handler : AppState Money → Dict Text → ℕ → AppState Money × CallbackAnswer
  unfolding find_provider exchange_authorization_code take_browser_callback store_browser_outcome
  callback_handler state params now_secs =
      callback_flow state params now_secs (lookup (codes "state") params)
