-- ===== src/Subscriptions/Fresh.antt =====
-- src/api/v1.rs: no request leaves with a subscription token that has expired.
use skyport.Prelude.{
  ℕ, ◌≡◌, ◌⊎◌, Bool, true, Option, none, some, List, find, ℤ, Dict, Text, ok, err,
}
use mathlib.Core.Option
use skyport.Json.{Json}
use skyport.Vault.{VaultEntry, has_alias}
use skyport.Router.{RouteDecision, Router}
use skyport.Subscriptions.{SubscriptionProvider, AuthTokens}
use skyport.Subscriptions.Account.{oauth_extra}
use skyport.Subscriptions.Refresh.{
  HttpResponse, expiry_panic, token_expiry, Refreshing, refresh_access_token, is_fresh,
}

module _ (decode : Text → Option (List ℕ)) (from_slice : List ℕ → Option Json)
    (post : Text → Dict Text → Option HttpResponse) (after : ℕ → ℤ → Option ℕ) (r : Router ℕ)
    (decision : RouteDecision) (now later : ℕ) (saved : Bool) where
  -- The tokens are the provider's answer, and the vault has them.
  abbrev IsRefreshed : Router ℕ → RouteDecision → VaultEntry → Type 0
  IsRefreshed r' decision' entry =
      (saved ≡ true)
      × (decision'.api_key ≡ entry.api_key)
      × (decision'.oauth_extra ≡ entry.oauth_extra)
      × ((provider : SubscriptionProvider) × (refresh_token : Text) × (tokens : AuthTokens)
          × (refresh_access_token decode from_slice post after provider refresh_token ≡ some tokens)
          × (entry.api_key ≡ tokens.access_token)
          × (token_expiry after tokens later ≡ some entry.expires_at))

  -- What an answer says of the credentials that the request would carry.
  abbrev pub IsCurrent : Refreshing → Type 0
  IsCurrent ((r', decision'), ok _) =
      (decision.oauth_extra ≡ none)
      ⊎ ((entry : VaultEntry) × (find (has_alias decision.key_alias) r'.vault.entries ≡ some entry)
          × ((entry.refresh_token ≡ none)
              ⊎ ((is_fresh entry.expires_at now ≡ true) ⊎ IsRefreshed r' decision' entry)))
  IsCurrent ((r', decision'), err e) =
      (decision' ≡ decision) × ((r' ≡ r) ⊎ ((e ≡ expiry_panic) × (r'.vault_poisoned ≡ true)))
