-- ===== src/Admin.antt =====
-- src/api/admin.rs: the handlers that change the configuration. `parse` is the URL parser of the crate
-- url, `to_lowercase` Unicode's lower case, `is_cap` whether an amount is finite and positive, `saved`
-- whether the file could be written.
pub mod Keys
pub mod Safe
pub mod Kept
use skyport.Prelude.{
  ℕ, Bool, true, false, not, ◌&&◌, ◌||◌, Option, none, some, [], ◌∷◌, map, ltb, leb, ◌==◌,
  if◌then◌else◌, all, any, Dict, insert, Text, codes, text_eq, byte_len, is_empty, trim,
  is_ascii_alphanumeric, Result, ◌>>=◌, ◌>>◌, reject_if, map_err, ok, err,
}
use mathlib.Core.Option
use skyport.Config.{ProviderConfig, ServerConfig, BudgetConfig, RateLimitConfig, SkyportConfig}
use skyport.Vault.{is_keyless_provider}
use skyport.Security.Url.{Url, UrlError, validate_provider_url}
use skyport.Router.{Router}

-- status and reason of an answer that is not `ok`
pub data AdminError : Type 0 where
  bad_request conflict not_found not_persisted lock_poisoned : AdminError
  invalid_provider : Text → AdminError
  invalid_url : UrlError → AdminError

unfoldable pub valid_identifier : Text → Bool
unfolding byte_len
valid_identifier value =
    not (is_empty value)
    && leb (byte_len value) 64
    && all (λ c. is_ascii_alphanumeric c || c == b'-' || c == b'_' || c == b'.') value

abbrev known_format : Option Text → Bool
known_format none = true
known_format (some f) =
    text_eq f (codes "openai")
    || text_eq f (codes "anthropic")
    || text_eq f (codes "gemini")
    || text_eq f (codes "responses")

unfoldable pub validate_provider_config : Text → ProviderConfig → Result AdminError (Unit {0})
unfolding valid_identifier trim byte_len
validate_provider_config id config = do
  reject_if (not (valid_identifier id)) (invalid_provider (codes "Invalid provider id"))
  reject_if (is_empty (trim config.name) || ltb 128 (byte_len config.name))
      (invalid_provider (codes "Provider name is empty or too long"))
  reject_if (not (known_format config.format))
      (invalid_provider (codes "Unsupported provider format"))

module _ (parse : Text → Option Url) where
  unfoldable pub check_provider : Text → ProviderConfig → Result AdminError (Unit {0})
  unfolding validate_provider_config validate_provider_url is_keyless_provider
  check_provider id config = do
    validate_provider_config id config
    url ←
        map_err invalid_url
          (validate_provider_url parse id config.base_url (not (is_keyless_provider id)))
    ok tt

  unfoldable pub check_providers : Dict ProviderConfig → Result AdminError (Unit {0})
  unfolding check_provider
  check_providers [] = ok tt
  check_providers ((id, config) ∷ providers) = do
    check_provider id config
    check_providers providers

abbrev trim_end_slashes : Text → Text
trim_end_slashes [] = []
trim_end_slashes (c ∷ s) =
    let rest = trim_end_slashes s in if c == b'/' && is_empty rest then [] else c ∷ rest

abbrev pub is_zero : Option ℕ → Bool
is_zero none = false
is_zero (some n) = n == 0

abbrev holds {ℓ} : {A : Type ℓ} → (A → Bool) → Option A → Bool
holds p none = true
holds p (some a) = p a

abbrev pub same_url : (Text → Text) → Text → ProviderConfig → Text × ProviderConfig → Bool
same_url to_lowercase id config (other, provider) =
    not (text_eq other id)
    && text_eq (to_lowercase (trim_end_slashes provider.base_url))
        (to_lowercase (trim_end_slashes config.base_url))

abbrev pub Handled : Type 0 → Type 0
Handled Money = Router Money × Result AdminError (Unit {0})

module _ {Money : Type 0} where
  -- the configuration once it is saved, or the one before
  abbrev pub save_or_restore : Router Money → SkyportConfig Money → Bool → Handled Money
  save_or_restore r config true = (record r { config = config }, ok tt)
  save_or_restore r config false = (r, err not_persisted)

  abbrev pub after_check :
      Router Money → SkyportConfig Money → Bool → Result AdminError (Unit {0}) → Handled Money
  after_check r config saved (ok _) = save_or_restore r config saved
  after_check r config saved (err e) = (r, err e)

  -- the tokens of the configuration that is replaced
  abbrev pub with_tokens_of : SkyportConfig Money → SkyportConfig Money → SkyportConfig Money
  with_tokens_of config new_config = record new_config {
    server = record new_config.server {
      admin_token_hash = config.server.admin_token_hash;
      inference_token_hash = config.server.inference_token_hash;
    };
  }

  unfoldable pub update_config :
      (Text → Option Url) → Router Money → SkyportConfig Money → Bool → Handled Money
  unfolding check_providers
  update_config parse r new_config saved =
      if r.config_poisoned
      then (r, err lock_poisoned)
      else if ltb new_config.server.port 1024
      then (r, err bad_request)
      else after_check r (with_tokens_of r.config new_config) saved
          (check_providers parse new_config.providers)

  abbrev pub insert_provider :
      (Text → Text) → Router Money → Text → ProviderConfig → Bool → Handled Money
  insert_provider to_lowercase r id config saved =
      if r.config_poisoned
      then (r, err lock_poisoned)
      else if any (same_url to_lowercase id config) r.config.providers
      then (r, err conflict)
      else save_or_restore r (record r.config { providers = insert id config r.config.providers })
          saved

  abbrev pub update_checked :
      (Text → Text)
      → Router Money
      → Text
      → ProviderConfig
      → Bool
      → Result AdminError (Unit {0})
      → Handled Money
  update_checked to_lowercase r id config saved (ok _) =
      insert_provider to_lowercase r id config saved
  update_checked to_lowercase r id config saved (err e) = (r, err e)

  unfoldable pub update_provider :
      (Text → Option Url)
      → (Text → Text)
      → Router Money
      → Text
      → ProviderConfig
      → Bool
      → Handled Money
  unfolding check_provider
  update_provider parse to_lowercase r id config saved =
      update_checked to_lowercase r id config saved (check_provider parse id config)

  abbrev pub valid_budget : (Money → Bool) → Text × BudgetConfig Money → Bool
  valid_budget is_cap (scope, budget) =
      not (is_empty scope)
      && leb (byte_len scope) 129
      && holds is_cap budget.monthly_cap_usd
      && holds is_cap budget.daily_cap_usd
      && not (is_zero budget.max_rpm)

  abbrev pub put_budgets :
      (Money → Bool) → Router Money → Option (Dict (BudgetConfig Money)) → Bool → Handled Money
  put_budgets is_cap r none saved = (r, err bad_request)
  put_budgets is_cap r (some budgets) saved =
      if all (valid_budget is_cap) budgets
      then save_or_restore r (record r.config { budgets = budgets }) saved
      else (r, err bad_request)

  -- `budgets` is what serde makes of the body, if it can
  unfoldable pub update_budgets :
      (Money → Bool) → Router Money → Option (Dict (BudgetConfig Money)) → Bool → Handled Money
  update_budgets is_cap r budgets saved =
      if r.config_poisoned then (r, err lock_poisoned) else put_budgets is_cap r budgets saved

  unfoldable pub update_rate_limit : Router Money → RateLimitConfig → Bool → Handled Money
  update_rate_limit r body saved =
      if is_zero body.max_rpm || is_zero body.max_rps
      then (r, err bad_request)
      else if r.config_poisoned
      then (r, err lock_poisoned)
      else save_or_restore r (record r.config { rate_limit = body }) saved

  -- the tokens are not shown
  unfoldable pub get_config : Router Money → Option (SkyportConfig Money)
  get_config r =
      if r.config_poisoned
      then none
      else some (record r.config {
        server = record r.config.server {
          admin_token_hash = Option.map (λ _. codes "********") r.config.server.admin_token_hash;
          inference_token_hash =
              Option.map (λ _. codes "********") r.config.server.inference_token_hash;
        };
      })
