-- ===== src/Subscriptions.antt =====
-- src/auth/mod.rs and src/api/oauth.rs: the providers that a subscription signs in to, the tokens they
-- give and the headers of a linked account. Of a provider's texts, those only the dashboard shows
-- (copy, help, verify_url) are left out.
pub mod Account
pub mod Refresh
pub mod Headers
pub mod Fresh
pub mod Kept
use skyport.Prelude.{
  ℕ, ◌/◌, Option, none, some, List, [], ◌∷◌, ◌++◌, map, find, Text, codes, text_eq,
}
use mathlib.Core.Option
use mathlib.Core.Option.{get_or}
use skyport.Json.{Json, Fields, uint, str, obj, end, field, null, get, as_u64, as_str}
use skyport.Security.Body.{read_limited_body}

pub data AuthFlow : Type 0 where
  device_flow browser_flow paste unavailable : AuthFlow

pub data BodyFormat : Type 0 where
  json form : BodyFormat

pub record DeviceEndpoints : Type 0 where
  pub device_code_url : Text
  pub token_url : Text
  pub scope : Text
  pub verification_uri : Text
  pub format : BodyFormat

pub record BrowserEndpoints : Type 0 where
  pub authorize_url : Text
  pub token_url : Text
  pub scope : Text
  pub redirect_uri : Text

pub record SubscriptionProvider : Type 0 where
  pub id : Text
  pub label : Text
  pub provider_id : Text
  pub base_url : Text
  pub format : Text
  pub client_id : Text
  pub flow : AuthFlow
  pub model_hint : Text
  pub device : Option DeviceEndpoints
  pub browser : Option BrowserEndpoints

abbrev chatgpt : SubscriptionProvider
chatgpt = record {
  id = codes "chatgpt";
  label = codes "ChatGPT (Plus / Pro)";
  provider_id = codes "chatgpt";
  base_url = codes "https://chatgpt.com/backend-api/codex";
  format = codes "responses";
  client_id = codes "app_EMoamEEZ73f0CkXaXp7hrann";
  flow = device_flow;
  model_hint = codes "gpt-5.4-codex-mini";
  device = some (record {
    device_code_url = codes "https://auth.openai.com/api/accounts/deviceauth/usercode";
    token_url = codes "https://auth.openai.com/oauth/token";
    scope = codes "openid profile email offline_access";
    verification_uri = codes "https://auth.openai.com/codex/device";
    format = json;
  });
  browser = none;
}

abbrev grok : SubscriptionProvider
grok = record {
  id = codes "grok";
  label = codes "Grok (SuperGrok)";
  provider_id = codes "grok";
  base_url = codes "https://cli-chat-proxy.grok.com/v1";
  format = codes "responses";
  client_id = codes "b1a00492-073a-47ea-816f-4c329264a828";
  flow = device_flow;
  model_hint = codes "grok-4.6";
  device = some (record {
    device_code_url = codes "https://auth.x.ai/oauth2/device/code";
    token_url = codes "https://auth.x.ai/oauth2/token";
    scope =
        codes
          "openid profile email offline_access grok-cli:access api:access conversations:read conversations:write";
    verification_uri = codes "https://auth.x.ai/device";
    format = form;
  });
  browser = none;
}

abbrev pub claude : SubscriptionProvider
claude = record {
  id = codes "claude";
  label = codes "Claude (Pro / Max)";
  provider_id = codes "claude";
  base_url = codes "https://api.anthropic.com";
  format = codes "anthropic";
  client_id = codes "0oa2vnIbwDqBov4HqV4g";
  flow = browser_flow;
  model_hint = codes "claude-sonnet-4-5";
  device = none;
  browser = some (record {
    authorize_url = codes "https://console.anthropic.com/oauth/authorize";
    token_url = codes "https://console.anthropic.com/oauth/token";
    scope = codes "claude.auth";
    redirect_uri = codes "http://localhost:8080/oauth/callback";
  });
}

abbrev openrouter : SubscriptionProvider
openrouter = record {
  id = codes "openrouter";
  label = codes "OpenRouter";
  provider_id = codes "openrouter";
  base_url = codes "https://openrouter.ai/api/v1";
  format = codes "openai";
  client_id = [];
  flow = paste;
  model_hint = codes "openai/gpt-5.1:free";
  device = none;
  browser = none;
}

abbrev gemini : SubscriptionProvider
gemini = record {
  id = codes "gemini";
  label = codes "Google Gemini";
  provider_id = codes "gemini";
  base_url = codes "https://generativelanguage.googleapis.com/v1beta/openai";
  format = codes "openai";
  client_id = [];
  flow = unavailable;
  model_hint = codes "gemini-2.5-flash";
  device = none;
  browser = none;
}

abbrev pub providers : List SubscriptionProvider
providers = chatgpt ∷ grok ∷ claude ∷ openrouter ∷ gemini ∷ []

unfoldable pub find_provider : Text → Option SubscriptionProvider
find_provider id = find (λ p. text_eq p.id id) providers

pub record AuthTokens : Type 0 where
  pub access_token : Text
  pub refresh_token : Option Text
  pub expires_in : Option ℕ
  pub id_token : Option Text
  pub account_id : Option Text
  pub chatgpt_account_id : Option Text
  pub user_id : Option Text

-- `or_else`
infixl 4 ◌or_else◌
abbrev pub ◌or_else◌ : {A : Type 0} → Option A → Option A → Option A
some a or_else b = some a
none or_else b = b

-- `value.get(key)` of a value that may be missing
abbrev pub get_in : Text → Option Json → Option Json
get_in key none = none
get_in key (some v) = get key v

abbrev pub str_of : Option Json → Option Text
str_of none = none
str_of (some v) = as_str v

abbrev text_at : Text → Json → Option Text
text_at key value = str_of (get key value)

unfoldable pub parse_tokens : Json → Option AuthTokens
parse_tokens value =
    Option.map
      (λ token. record {
        access_token = token;
        refresh_token = text_at (codes "refresh_token") value;
        expires_in = elim (get (codes "expires_in") value) [ none ↦ none | some v ↦ as_u64 v ];
        id_token = text_at (codes "id_token") value;
        account_id = text_at (codes "account_id") value;
        chatgpt_account_id = text_at (codes "chatgpt_account_id") value;
        user_id = text_at (codes "user_id") value;
      })
      (text_at (codes "access_token") value)

-- `subscription_alias`
unfoldable pub subscription_alias : Text → Text
subscription_alias id = codes "subscription-" ++ id
