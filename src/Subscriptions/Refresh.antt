-- ===== src/Subscriptions/Refresh.antt =====
-- src/auth/mod.rs and src/api/v1.rs: the refresh of a subscription's access token before a request.
-- `post` is the HTTP client: the answer to a form that is posted to a URL, if one comes. `saved` is
-- whether the vault's file could be written.
use skyport.Prelude.{
  ℕ, ◌+◌, Bool, true, false, not, Option, none, some, List, [], ◌∷◌, ltb, if◌then◌else◌, find, ℤ,
  as_i64, Dict, Text, codes, Result, ok, err,
}
use mathlib.Core.Option.{get_or}
use skyport.Json.{Json}
use skyport.Vault.{VaultEntry, Vault, has_alias, modify_first}
use skyport.Security.Body.{read_limited_body}
use skyport.Router.{RouteDecision, Router}
use skyport.Subscriptions.{
  SubscriptionProvider, AuthTokens, device_flow, browser_flow, paste, unavailable, find_provider,
  parse_tokens,
}
use skyport.Subscriptions.Account.{account_label, oauth_extra}

pub record HttpResponse : Type 0 where
  pub is_success : Bool
  pub content_length : Option ℕ
  pub chunks : List (Option (List ℕ))

pub data RefreshError : Type 0 where
  vault_unavailable credential_unavailable provider_unavailable refresh_failed not_persisted :
      RefreshError
  -- chrono's panic at an expiry out of range, with the vault's lock held
  expiry_panic : RefreshError

-- `none` for a provider without a refreshable credential, and for the panic of one without endpoints
unfoldable pub token_url_of : SubscriptionProvider → Option Text
token_url_of provider = elim provider.flow [
  | device_flow ↦ elim provider.device [ none ↦ none | some device ↦ some device.token_url ]
  | browser_flow ↦ elim provider.browser [ none ↦ none | some browser ↦ some browser.token_url ]
  | paste ↦ none
  | unavailable ↦ none
]

-- the writes to the entry up to its expiry
abbrev pub half_refreshed : AuthTokens → Text → VaultEntry → VaultEntry
half_refreshed tokens next_refresh_token e = record e {
  api_key = tokens.access_token;
  refresh_token = some next_refresh_token;
}

-- all writes to the entry
abbrev pub refreshed : AuthTokens → Text → Json → Option ℕ → VaultEntry → VaultEntry
refreshed tokens next_refresh_token extra expires_at e = record e {
  api_key = tokens.access_token;
  refresh_token = some next_refresh_token;
  expires_at = expires_at;
  oauth_extra = some extra;
}

abbrev pub Refreshing : Type 0
Refreshing = (Router ℕ × RouteDecision) × Result RefreshError (Unit {0})

-- `iter_mut().find(..)` and the writes to what it finds
abbrev pub change_entry : Vault → Text → (VaultEntry → VaultEntry) → Vault
change_entry v alias f = record {
  entries = get_or (modify_first (has_alias alias) f v.entries) v.entries;
}

-- `at > Utc::now() + Duration::minutes(2)`
abbrev pub is_fresh : Option ℕ → ℕ → Bool
is_fresh none now = false
is_fresh (some at) now = ltb (now + 120_000_000_000) at

-- `token_expiry`: `none` where chrono panics
unfoldable pub token_expiry : (ℕ → ℤ → Option ℕ) → AuthTokens → ℕ → Option (Option ℕ)
token_expiry after tokens now = elim tokens.expires_in [
  | none ↦ some none
  | some secs ↦ elim (after now (as_i64 secs)) [ none ↦ none | some at ↦ some (some at) ]
]

module _ (from_slice : List ℕ → Option Json) where
  -- the same loop as `read_limited_body`, with a limit of 64 KiB
  unfoldable pub read_oauth_json : HttpResponse → Option Json
  read_oauth_json response =
      elim (read_limited_body response.content_length response.chunks 65_536) [
        | ok body ↦ from_slice body
        | err e ↦ none
      ]

module _ (decode : Text → Option (List ℕ)) (from_slice : List ℕ → Option Json)
    (post : Text → Dict Text → Option HttpResponse) (after : ℕ → ℤ → Option ℕ) where
  unfoldable pub refresh_access_token : SubscriptionProvider → Text → Option AuthTokens
  unfolding read_oauth_json token_url_of
  refresh_access_token provider refresh_token = elim (token_url_of provider) [
    | none ↦ none
    | some url ↦
        elim (post url (
          (codes "grant_type", codes "refresh_token")
          ∷ (codes "client_id", provider.client_id)
          ∷ (codes "refresh_token", refresh_token)
          ∷ [])) [
            | none ↦ none
            | some response ↦
                if not response.is_success
                then none
                else elim (read_oauth_json from_slice response) [
                  | none ↦ none
                  | some value ↦ parse_tokens value
                ]
          ]
  ]

  -- the entry is found again under the write lock, and the old entries come back if they are not saved
  unfoldable pub store_tokens :
      Router ℕ → RouteDecision → ℕ → Bool → AuthTokens → Text → Json → Refreshing
  unfolding token_expiry
  store_tokens r decision later saved tokens next_refresh_token extra =
      if r.vault_poisoned
      then ((r, decision), err vault_unavailable)
      else elim (find (has_alias decision.key_alias) r.vault.entries) [
        | none ↦ ((r, decision), err credential_unavailable)
        | some entry ↦ elim (token_expiry after tokens later) [
          | none ↦ (
            (
              record r {
                vault =
                    change_entry r.vault decision.key_alias
                      (half_refreshed tokens next_refresh_token);
                vault_poisoned = true;
              },
              decision,
            ),
            err expiry_panic,
          )
          | some expires_at ↦ if not saved then ((r, decision), err not_persisted) else (
            (
              record r {
                vault =
                    change_entry r.vault decision.key_alias
                      (refreshed tokens next_refresh_token extra expires_at);
              },
              record decision { api_key = tokens.access_token; oauth_extra = some extra },
            ),
            ok tt,
          )
        ]
      ]

  abbrev pub store_answer :
      Router ℕ
      → RouteDecision
      → ℕ
      → Bool
      → SubscriptionProvider
      → Text
      → Option AuthTokens
      → Refreshing
  store_answer r decision later saved provider refresh_token none =
      ((r, decision), err refresh_failed)
  store_answer r decision later saved provider refresh_token (some tokens) =
      store_tokens r decision later saved tokens (get_or tokens.refresh_token refresh_token)
        (oauth_extra decode from_slice provider tokens (account_label decode from_slice tokens))

  abbrev pub refresh_at :
      Router ℕ → RouteDecision → ℕ → Bool → Text → Option SubscriptionProvider → Refreshing
  refresh_at r decision later saved refresh_token none = ((r, decision), err provider_unavailable)
  refresh_at r decision later saved refresh_token (some provider) =
      store_answer r decision later saved provider refresh_token
        (refresh_access_token provider refresh_token)

  abbrev pub refresh_entry :
      Router ℕ → RouteDecision → ℕ → ℕ → Bool → VaultEntry → Option Text → Refreshing
  refresh_entry r decision now later saved entry none = ((r, decision), ok tt)
  refresh_entry r decision now later saved entry (some refresh_token) =
      if is_fresh entry.expires_at now
      then ((r, decision), ok tt)
      else refresh_at r decision later saved refresh_token
          (find_provider (get_or entry.oauth_provider []))

  abbrev pub refresh_found :
      Router ℕ → RouteDecision → ℕ → ℕ → Bool → Option VaultEntry → Refreshing
  refresh_found r decision now later saved none = ((r, decision), err credential_unavailable)
  refresh_found r decision now later saved (some entry) =
      refresh_entry r decision now later saved entry entry.refresh_token

  abbrev pub refresh_extra : Router ℕ → RouteDecision → ℕ → ℕ → Bool → Option Json → Refreshing
  refresh_extra r decision now later saved none = ((r, decision), ok tt)
  refresh_extra r decision now later saved (some extra) =
      if r.vault_poisoned
      then ((r, decision), err vault_unavailable)
      else refresh_found r decision now later saved
          (find (has_alias decision.key_alias) r.vault.entries)

  unfoldable pub ensure_fresh_oauth : Router ℕ → RouteDecision → ℕ → ℕ → Bool → Refreshing
  unfolding refresh_access_token store_tokens find_provider
  ensure_fresh_oauth r decision now later saved =
      refresh_extra r decision now later saved decision.oauth_extra
