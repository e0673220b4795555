-- ===== src/SignIns.antt =====
-- src/api/oauth.rs: how a subscription is linked to the gateway, and unlinked. The state is the part of
-- `AppState` that the handlers share: the vault, the configuration and the pending sign-ins, each
-- behind a lock. `saved` is whether a file could be written.
pub mod Linked
pub mod Exchange
pub mod Poll
pub mod Callback
pub mod Ends
pub mod Connect
pub mod Begun
pub mod Browser
pub mod Pasted
use skyport.Prelude.{
  ℕ, Bool, true, false, not, ◌&&◌, ◌||◌, Option, none, some, List, [], ◌∷◌, ◌++◌, map, ltb,
  if◌then◌else◌, is_some, filter, ℤ, Dict, lookup, insert, Text, codes, text_eq, byte_len, is_empty,
  trim, Result, ok, err,
}
use mathlib.Core.Option.{get_or}
use skyport.Json.{Json}
use skyport.Config.{ProviderConfig, RoutingConfig, SkyportConfig}
use skyport.Vault.{
  VaultEntry, OAuthCredential, Vault, has_alias, add_key, upsert_oauth_key, oauth_entry, AddError,
}
use skyport.Router.{Router}
use skyport.Sessions.{PendingSession}
use skyport.Subscriptions.{
  SubscriptionProvider, AuthTokens, providers, find_provider, subscription_alias, get_in, str_of,
}
use skyport.Subscriptions.Account.{account_label, oauth_extra}
use skyport.Subscriptions.Refresh.{token_expiry}

pub record AppState (Money : Type 0) : Type 0 where
  pub router : Router Money
  pub auth_sessions : Dict (PendingSession AuthTokens)
  pub sessions_poisoned : Bool

-- a message of the handler, or chrono's panic at an expiry out of range
pub data LoginError : Type 0 where
  refused : Text → LoginError
  expiry_panic : LoginError

abbrev pub provider_config : SubscriptionProvider → ProviderConfig
provider_config provider = record {
  name = provider.label;
  base_url = provider.base_url;
  enabled = true;
  round_robin = false;
  format = some provider.format;
}

-- `entry(key).or_insert_with(..)`
abbrev pub or_insert : Text → Text → Dict Text → Dict Text
or_insert key value m = elim (lookup key m) [ none ↦ insert key value m | some _ ↦ m ]

abbrev pub has_no_catalog : SubscriptionProvider → Bool
has_no_catalog provider =
    text_eq provider.id (codes "chatgpt") || text_eq provider.id (codes "grok")

abbrev pub advertise : SubscriptionProvider → RoutingConfig → RoutingConfig
advertise provider routing =
    if has_no_catalog provider
    then record routing {
      model_map =
          or_insert provider.model_hint (provider.provider_id ++ b'/' ∷ provider.model_hint)
            routing.model_map;
    }
    else routing

-- the entry's place: the provider, under the alias or of the same subscription
abbrev pub is_link : SubscriptionProvider → Text → VaultEntry → Bool
is_link provider alias e =
    text_eq e.provider provider.provider_id
    && (has_alias alias e
        || (elim e.oauth_provider [ none ↦ false | some id ↦ text_eq id provider.id ]))

abbrev pub unlinked : SubscriptionProvider → Text → Vault → Vault
unlinked provider alias v = record {
  entries = filter (λ e. not (is_link provider alias e)) v.entries;
}

pub record AuthStatus : Type 0 where
  pub id : Text
  pub linked : Bool
  pub account : Text
  pub expires_at : Option ℕ
  pub config_enabled : Bool

abbrev pub account_of : Option VaultEntry → Text
account_of none = []
account_of (some entry) = get_or (str_of (get_in (codes "account") entry.oauth_extra)) []

abbrev expiry_of : Option VaultEntry → Option ℕ
expiry_of none = none
expiry_of (some entry) = entry.expires_at

module _ {Money : Type 0} where
  abbrev pub with_provider : SubscriptionProvider → SkyportConfig Money → SkyportConfig Money
  with_provider provider config = record config {
    providers = insert provider.provider_id (provider_config provider) config.providers;
    routing = advertise provider config.routing;
  }

  -- the configuration's part of a login, and of a pasted credential
  abbrev pub link_known :
      SubscriptionProvider
      → Bool
      → Router Money
      → Option ProviderConfig
      → Router Money × Result LoginError (Unit {0})
  link_known provider saved r (some known) = (r, ok tt)
  link_known provider true r none = (record r { config = with_provider provider r.config }, ok tt)
  link_known provider false r none = (r, err (refused (codes "failed to save config")))

  abbrev pub link_config :
      SubscriptionProvider → Bool → Router Money → Router Money × Result LoginError (Unit {0})
  link_config provider saved r =
      if r.config_poisoned
      then (r, err (refused (codes "config lock poisoned")))
      else link_known provider saved r (lookup provider.provider_id r.config.providers)

  abbrev pub status_of : Router Money → SubscriptionProvider → AuthStatus
  status_of r provider =
      let linked = oauth_entry r.vault provider.provider_id in
      record {
        id = provider.id;
        linked = is_some linked;
        account = account_of linked;
        expires_at = expiry_of linked;
        config_enabled = elim (lookup provider.provider_id r.config.providers) [
          | none ↦ false
          | some p ↦ p.enabled
        ];
      }

  unfoldable pub get_auth_status : Router Money → Result Text (List AuthStatus)
  unfolding oauth_entry
  get_auth_status r =
      if r.vault_poisoned
      then err (codes "vault lock poisoned")
      else if r.config_poisoned
      then err (codes "config lock poisoned")
      else ok (map (status_of r) providers)

  abbrev pub disconnect_found :
      Bool → Router Money → Option SubscriptionProvider → Router Money × Result Text (Unit {0})
  disconnect_found saved r none = (r, err (codes "unknown subscription provider"))
  disconnect_found saved r (some provider) =
      if r.vault_poisoned
      then (r, err (codes "vault lock poisoned"))
      else if saved
      then (record r { vault = unlinked provider (subscription_alias provider.id) r.vault }, ok tt)
      else (r, err (codes "failed to save vault"))

  unfoldable pub disconnect : Text → Bool → Router Money → Router Money × Result Text (Unit {0})
  unfolding find_provider subscription_alias
  disconnect id saved r = disconnect_found saved r (find_provider id)

  abbrev pub pasted_config :
      Text → Router Money × Result LoginError (Unit {0}) → Router Money × Result LoginError Text
  pasted_config alias (r, ok _) = (r, ok alias)
  pasted_config alias (r, err e) = (r, err e)

  -- the vault is saved before the configuration's lock is taken
  abbrev pub paste_saved :
      SubscriptionProvider
      → Text
      → Bool
      → Bool
      → Router Money
      → Vault × Result AddError (Unit {0})
      → Router Money × Result LoginError Text
  paste_saved provider alias saved config_saved r (v, err e) =
      (record r { vault = v }, err (refused (codes "failed to store key")))
  paste_saved provider alias true config_saved r (v, ok _) =
      pasted_config alias (link_config provider config_saved (record r { vault = v }))
  paste_saved provider alias false config_saved r (v, ok _) =
      (r, err (refused (codes "failed to save vault")))

  unfoldable pub paste_at :
      SubscriptionProvider
      → Text
      → Text
      → Bool
      → Bool
      → Router Money
      → Router Money × Result LoginError Text
  unfolding add_key
  paste_at provider api_key alias saved config_saved r =
      if is_empty (trim api_key)
      then (r, err (refused (codes "API key cannot be empty")))
      else if r.vault_poisoned
      then (r, err (refused (codes "vault lock poisoned")))
      else if ltb 16_384 (byte_len api_key)
      then (r, err (refused (codes "credential is empty or too long")))
      else paste_saved provider alias saved config_saved r
          (add_key (unlinked provider alias r.vault) provider.provider_id alias (trim api_key) 0)

  abbrev pub paste_found :
      Text
      → Option Text
      → Bool
      → Bool
      → Router Money
      → Option SubscriptionProvider
      → Router Money × Result LoginError Text
  paste_found api_key alias saved config_saved r none =
      (r, err (refused (codes "unknown subscription provider")))
  paste_found api_key alias saved config_saved r (some provider) =
      paste_at provider api_key (get_or alias (subscription_alias provider.id)) saved config_saved r

  unfoldable pub paste_key :
      Text → Text → Option Text → Bool → Bool → Router Money → Router Money × Result LoginError Text
  unfolding find_provider paste_at subscription_alias
  paste_key id api_key alias saved config_saved r =
      paste_found api_key alias saved config_saved r (find_provider id)

module _ (decode : Text → Option (List ℕ)) (from_slice : List ℕ → Option Json) where
  abbrev pub credential : SubscriptionProvider → AuthTokens → Option ℕ → OAuthCredential
  credential provider tokens expires_at = record {
    provider = provider.provider_id;
    alias = subscription_alias provider.id;
    access_token = tokens.access_token;
    refresh_token = tokens.refresh_token;
    expires_at = expires_at;
    oauth_provider = provider.id;
    extra =
        some
          (oauth_extra decode from_slice provider tokens (account_label decode from_slice tokens));
  }

module _ {Money : Type 0} (decode : Text → Option (List ℕ)) (from_slice : List ℕ → Option Json)
    (after : ℕ → ℤ → Option ℕ) where
  -- The expiry is computed, and can panic, under the vault's lock and before the write.
  abbrev pub link_expiry :
      SubscriptionProvider
      → AuthTokens
      → Bool
      → Router Money
      → Option (Option ℕ)
      → Router Money × Result LoginError Text
  link_expiry provider tokens saved r none = (record r { vault_poisoned = true }, err expiry_panic)
  link_expiry provider tokens true r (some expires_at) = (
    record r {
      vault =
          (upsert_oauth_key r.vault (credential decode from_slice provider tokens expires_at)).0;
    },
    ok (account_label decode from_slice tokens),
  )
  link_expiry provider tokens false r (some expires_at) =
      (r, err (refused (codes "failed to save vault")))

  abbrev pub link_vault :
      SubscriptionProvider
      → AuthTokens
      → ℕ
      → Bool
      → Router Money
      → Router Money × Result LoginError Text
  link_vault provider tokens now saved r =
      if r.vault_poisoned
      then (r, err (refused (codes "vault lock poisoned")))
      else link_expiry provider tokens saved r (token_expiry after tokens now)

  abbrev pub finish_vault :
      SubscriptionProvider
      → AuthTokens
      → ℕ
      → Bool
      → Router Money × Result LoginError (Unit {0})
      → Router Money × Result LoginError Text
  finish_vault provider tokens now saved (r, ok _) = link_vault provider tokens now saved r
  finish_vault provider tokens now saved (r, err e) = (r, err e)

  unfoldable pub finish_login :
      SubscriptionProvider
      → AuthTokens
      → ℕ
      → Bool
      → Bool
      → Router Money
      → Router Money × Result LoginError Text
  unfolding token_expiry upsert_oauth_key subscription_alias
  finish_login provider tokens now saved config_saved r =
      finish_vault provider tokens now saved (link_config provider config_saved r)
