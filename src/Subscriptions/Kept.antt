-- ===== src/Subscriptions/Kept.antt =====
-- src/api/v1.rs: the refresh of a token changes no alias.
use skyport.Prelude.{
  ℕ, ◌≡◌, refl, inl, inr, Bool, Option, none, some, List, [], arith, Bool-cases, Option-cases, find,
  ℤ, Dict, Text,
}
use mathlib.Core.Option.{get_or}
use skyport.Json.{Json}
use skyport.Vault.{VaultEntry, Vault, has_alias, modify_first}
use skyport.Vault.Aliases.{aliases, aliases-modify_first}
use skyport.Router.{RouteDecision, Router}
use skyport.Subscriptions.{SubscriptionProvider, AuthTokens, find_provider}
use skyport.Subscriptions.Account.{account_label, oauth_extra}
use skyport.Subscriptions.Refresh.{
  HttpResponse, half_refreshed, refreshed, change_entry, token_expiry, Refreshing,
  refresh_access_token, store_tokens, is_fresh, store_answer, refresh_at, refresh_entry,
  refresh_found, refresh_extra, ensure_fresh_oauth,
}

change_entry-aliases :
    (v : Vault) (alias : Text) (f : VaultEntry → VaultEntry)
    → ((e : VaultEntry) → (f e).key_alias ≡ e.key_alias)
    → aliases (change_entry v alias f).entries ≡ aliases v.entries
change_entry-aliases v alias f keeps =
    elim (Option-cases (modify_first (has_alias alias) f v.entries)) [
      | inl e ↦ rw e refl
      | inr (es, e) ↦ ground (arith, e, aliases-modify_first (has_alias alias) f v.entries keeps)
    ]

module _ (decode : Text → Option (List ℕ)) (from_slice : List ℕ → Option Json)
    (post : Text → Dict Text → Option HttpResponse) (after : ℕ → ℤ → Option ℕ) (r : Router ℕ)
    (decision : RouteDecision) (now later : ℕ) (saved : Bool) where
  -- The vault has the same aliases, and the decision keeps its own.
  abbrev pub KeepsAliases : Refreshing → Type 0
  KeepsAliases ((r', decision'), answer) =
      (aliases r'.vault.entries ≡ aliases r.vault.entries)
      × (decision'.key_alias ≡ decision.key_alias)

  store_tokens-KeepsAliases :
      (next_refresh_token : Text) (tokens : AuthTokens) (extra : Json)
      → KeepsAliases (
          store_tokens decode from_slice post after r decision later saved tokens next_refresh_token
            extra)
  unfolding store_tokens
  store_tokens-KeepsAliases next_refresh_token tokens extra = elim (Bool-cases r.vault_poisoned) [
    | inl e ↦ simp e (refl, refl)
    | inr e ↦ elim (Option-cases (find (has_alias decision.key_alias) r.vault.entries)) [
      | inl missing ↦ simp (e, missing) (refl, refl)
      | inr (entry, found) ↦ elim (Option-cases (token_expiry after tokens later)) [
        | inl late ↦
            simp (e, found, late)
              (
                change_entry-aliases r.vault decision.key_alias
                    (half_refreshed tokens next_refresh_token) (λ _. refl),
                refl,
              )
        | inr (expires_at, expiry) ↦ elim (Bool-cases saved) [
          | inr lost ↦ simp (e, found, expiry, lost) (refl, refl)
          | inl kept ↦
              simp (e, found, expiry, kept)
                (
                  change_entry-aliases r.vault decision.key_alias
                      (refreshed tokens next_refresh_token extra expires_at) (λ _. refl),
                  refl,
                )
        ]
      ]
    ]
  ]

  store_answer-KeepsAliases :
      (provider : SubscriptionProvider) (refresh_token : Text) (answer : Option AuthTokens)
      → KeepsAliases (
          store_answer decode from_slice post after r decision later saved provider refresh_token
            answer)
  store_answer-KeepsAliases provider refresh_token none = (refl, refl)
  store_answer-KeepsAliases provider refresh_token (some tokens) =
      store_tokens-KeepsAliases (get_or tokens.refresh_token refresh_token) tokens
        (oauth_extra decode from_slice provider tokens (account_label decode from_slice tokens))

  refresh_at-KeepsAliases :
      (refresh_token : Text) (found : Option SubscriptionProvider)
      → KeepsAliases
          (refresh_at decode from_slice post after r decision later saved refresh_token found)
  refresh_at-KeepsAliases refresh_token none = (refl, refl)
  refresh_at-KeepsAliases refresh_token (some provider) =
      store_answer-KeepsAliases provider refresh_token
        (refresh_access_token decode from_slice post after provider refresh_token)

  refresh_entry-KeepsAliases :
      (entry : VaultEntry) (token : Option Text)
      → KeepsAliases
          (refresh_entry decode from_slice post after r decision now later saved entry token)
  refresh_entry-KeepsAliases entry none = (refl, refl)
  refresh_entry-KeepsAliases entry (some refresh_token) =
      elim (Bool-cases (is_fresh entry.expires_at now)) [
        | inl fresh ↦ simp fresh (refl, refl)
        | inr stale ↦
            simp stale (
              refresh_at-KeepsAliases refresh_token
                (find_provider (get_or entry.oauth_provider [])))
      ]

  refresh_found-KeepsAliases :
      (found : Option VaultEntry)
      → KeepsAliases (refresh_found decode from_slice post after r decision now later saved found)
  refresh_found-KeepsAliases none = (refl, refl)
  refresh_found-KeepsAliases (some entry) = refresh_entry-KeepsAliases entry entry.refresh_token

  refresh_extra-KeepsAliases :
      (extra : Option Json)
      → KeepsAliases (refresh_extra decode from_slice post after r decision now later saved extra)
  refresh_extra-KeepsAliases none = (refl, refl)
  refresh_extra-KeepsAliases (some extra) = elim (Bool-cases r.vault_poisoned) [
    | inl poisoned ↦ simp poisoned (refl, refl)
    | inr healthy ↦
        simp healthy
          (refresh_found-KeepsAliases (find (has_alias decision.key_alias) r.vault.entries))
  ]

  pub ensure_fresh_oauth-KeepsAliases :
      KeepsAliases (ensure_fresh_oauth decode from_slice post after r decision now later saved)
  unfolding ensure_fresh_oauth
  ensure_fresh_oauth-KeepsAliases = refresh_extra-KeepsAliases decision.oauth_extra
