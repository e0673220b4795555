-- ===== src/Proxy.antt =====
-- src/api/v1.rs: the part of `proxy` before its loop, from the global rate limit to the body that
-- goes upstream. `permits` are the free upstream slots; an early return gives its permit back.
pub mod Admission
pub mod Upstream
pub mod Loop
pub mod Stream
pub mod Destinations
pub mod Bounded
use skyport.Prelude.{
  ℕ, ◌-◌, Bool, false, not, ◌&&◌, ◌||◌, Option, none, some, ◌++◌, ltb, ◌==◌, if◌then◌else◌, is_some,
  any, Dict, Text, codes, text_eq, starts_with, byte_len, is_empty, is_control, Result, ◌>>=◌, ◌>>◌,
  reject_if, ok_or, map_err, ok, err,
}
use skyport.Json.{Json, uint, str, get, as_u64, set_key}
use skyport.Config.{BudgetConfig, RateLimitConfig}
use skyport.RateLimiter.{RateLimiter, Exceeded, Status, check_global}
use skyport.Router.{Router, RouteError, resolve_model}
use skyport.Budget.{has_cap}

pub data AdmitError : Type 0 where
  rate_limit_exceeded : Exceeded → AdmitError
  concurrency_limit invalid_model token_limit_exceeded config_lock_poisoned
        budget_streaming_disabled :
      AdmitError
  model_not_found : RouteError → AdmitError
  -- the indexing of a body that is no object
  index_panic : AdmitError

-- What the loop starts with; `gated` is whether the budget gate is held.
pub record Admitted : Type 0 where
  pub provider : Text
  pub actual_model : Text
  pub body : Json
  pub gated : Bool

unfoldable pub is_invalid_model : Text → Bool
is_invalid_model model = is_empty model || ltb 512 (byte_len model) || any is_control model

-- `body.get(field).and_then(Value::as_u64)`
abbrev pub number_at : Text → Json → Option ℕ
number_at field body = elim (get field body) [ none ↦ none | some v ↦ as_u64 v ]

abbrev pub above_limit : Option ℕ → Bool
above_limit none = false
above_limit (some tokens) = ltb 32_768 tokens

unfoldable pub exceeds_token_limit : Json → Bool
exceeds_token_limit body =
    above_limit (number_at (codes "max_tokens") body)
    || above_limit (number_at (codes "max_output_tokens") body)

unfoldable pub has_usd_budget : Dict (BudgetConfig ℕ) → Text → Bool
has_usd_budget budgets provider =
    any (λ b. (text_eq b.0 provider || starts_with (provider ++ codes ":") b.0) && has_cap b.1)
      budgets

-- the default of `max_tokens` for a budgeted provider; `none` is the panic of the indexing
unfoldable pub limit_tokens : Bool → Text → Json → Option Json
limit_tokens budgeted path body =
    if budgeted
      && not (text_eq path (codes "embeddings"))
      && not (is_some (number_at (codes "max_tokens") body))
    then set_key (codes "max_tokens") (uint 4096) body
    else some body

abbrev pub as_admitted : Text → Text → Bool → Json → Admitted
as_admitted provider actual_model budgeted body = record {
  provider = provider;
  actual_model = actual_model;
  body = body;
  gated = budgeted;
}

-- the checks of the request itself, with a permit taken
unfoldable pub check_request : Router ℕ → Text → Json → Text → Bool → Result AdmitError Admitted
unfolding is_invalid_model exceeds_token_limit has_usd_budget limit_tokens
check_request router model body path stream = do
  reject_if (is_invalid_model model) invalid_model
  reject_if (exceeds_token_limit body) token_limit_exceeded
  resolved ← map_err model_not_found (resolve_model router model)
  reject_if router.config_poisoned config_lock_poisoned
  reject_if (has_usd_budget router.config.budgets resolved.0 && stream) budget_streaming_disabled
  limited ←
      ok_or (limit_tokens (has_usd_budget router.config.budgets resolved.0) path body) index_panic
  routed ← ok_or (set_key (codes "model") (str resolved.1) limited) index_panic
  ok (as_admitted resolved.0 resolved.1 (has_usd_budget router.config.budgets resolved.0) routed)

-- the permits once the checks have answered
abbrev pub keep_permit :
    RateLimiter → ℕ → Result AdmitError Admitted → (RateLimiter × ℕ) × Result AdmitError Admitted
keep_permit limiter permits (ok a) = ((limiter, permits - 1), ok a)
keep_permit limiter permits (err e) = ((limiter, permits), err e)

unfoldable pub after_limit :
    Router ℕ
    → ℕ
    → Text
    → Json
    → Text
    → Bool
    → RateLimiter × Result Exceeded Status
    → (RateLimiter × ℕ) × Result AdmitError Admitted
unfolding check_request
after_limit router permits model body path stream (limiter, err e) =
    ((limiter, permits), err (rate_limit_exceeded e))
after_limit router permits model body path stream (limiter, ok status) =
    if permits == 0
    then ((limiter, permits), err concurrency_limit)
    else keep_permit limiter permits (check_request router model body path stream)

-- A configuration that cannot be read means no global limit.
unfoldable pub admit :
    Router ℕ
    → RateLimiter
    → ℕ
    → ℕ
    → Text
    → Json
    → Text
    → Bool
    → (RateLimiter × ℕ) × Result AdmitError Admitted
unfolding after_limit
admit router limiter permits now model body path stream =
    let limits = router.config.rate_limit in
    after_limit router permits model body path stream (
      if router.config_poisoned
      then check_global limiter now none none
      else check_global limiter now limits.max_rpm limits.max_rps)
