-- ===== src/SignIns/Ends.antt =====
-- src/api/oauth.rs: how a poll ends, on every branch.
use skyport.Prelude.{ℕ, ◌≡◌, Bool, true, Option, none, List, Memᴰ, is_some, ℤ, lookup, Text}
use skyport.Json.{Json}
use skyport.Vault.{VaultEntry}
use skyport.Router.{Router}
use skyport.Subscriptions.{SubscriptionProvider, AuthTokens}
use skyport.SignIns.{AppState, credential}
use skyport.SignIns.Linked.{IsLinked}
use skyport.SignIns.Exchange.{StatusResponse, PostBody}
use skyport.SignIns.Poll.{
  PollAnswer, rejected, window_expired, pending, login_failed, login_done, poll_panic,
}

module _ {Money : Type 0} (decode : Text → Option (List ℕ)) (from_slice : List ℕ → Option Json)
    (after : ℕ → ℤ → Option ℕ) (post : Text → PostBody → Option StatusResponse)
    (provider : SubscriptionProvider) (flow : Text) (now : ℕ) (saved config_saved : Bool)
    (state : AppState Money) where
  -- What an answer of `poll` says of the state.
  abbrev pub Ends : AppState Money × PollAnswer → Type 0
  Ends (after_poll, rejected message) = after_poll ≡ state
  Ends (after_poll, pending interval) = after_poll ≡ state
  Ends (after_poll, window_expired) =
      (lookup flow after_poll.auth_sessions ≡ none) × (after_poll.router ≡ state.router)
  Ends (after_poll, login_failed message) =
      (lookup flow after_poll.auth_sessions ≡ none) × (after_poll.router.vault ≡ state.router.vault)
  Ends (after_poll, login_done label) =
      (lookup flow after_poll.auth_sessions ≡ none)
      × (is_some (lookup provider.provider_id after_poll.router.config.providers) ≡ true)
      × ((tokens : AuthTokens) × (expires_at : Option ℕ) × (e : VaultEntry) × Memᴰ e
            after_poll.router.vault.entries
          × IsLinked (credential decode from_slice provider tokens expires_at) e)
  Ends (after_poll, poll_panic) = after_poll.router.vault ≡ state.router.vault
