-- ===== src/Config.antt =====
-- src/config.rs: the parts of the configuration that routing, budgets and limits read.
use skyport.Prelude.{ℕ, Bool, Option, none, some, if◌then◌else◌, Dict, Text, codes, text_eq}

pub record RateLimitConfig : Type 0 where
  pub max_rpm : Option ℕ
  pub max_rps : Option ℕ

pub record ProviderConfig : Type 0 where
  pub name : Text
  pub base_url : Text
  pub enabled : Bool
  pub round_robin : Bool
  pub format : Option Text

unfoldable pub wire_format : ProviderConfig → Text
wire_format p = elim p.format [
  | none ↦ codes "openai"
  | some f ↦
      if text_eq f (codes "anthropic")
      then codes "anthropic"
      else if text_eq f (codes "gemini")
      then codes "gemini"
      else if text_eq f (codes "responses")
      then codes "responses"
      else codes "openai"
]

pub record ServerConfig : Type 0 where
  pub port : ℕ
  pub admin_token_hash : Option Text
  pub inference_token_hash : Option Text

-- The caps are sums of money: `Money` is the type of the source's `f64` amounts.
pub record BudgetConfig (Money : Type 0) : Type 0 where
  pub monthly_cap_usd : Option Money
  pub daily_cap_usd : Option Money
  pub max_rpm : Option ℕ

pub record RoutingConfig : Type 0 where
  pub model_map : Dict Text
  pub default_provider : Option Text

pub record SkyportConfig (Money : Type 0) : Type 0 where
  pub server : ServerConfig
  pub providers : Dict ProviderConfig
  pub budgets : Dict (BudgetConfig Money)
  pub routing : RoutingConfig
  pub rate_limit : RateLimitConfig
