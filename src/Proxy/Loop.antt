-- ===== src/Proxy/Loop.antt =====
-- src/api/v1.rs: the loop of `proxy`, which goes over to another key when one fails. A `Round` is what
-- one iteration meets: what the clock reads, whether the database can be used, whether the vault's file
-- can be written, and how the provider replies. No other request changes the state in between. The
-- activity log is left out.
pub mod Run
pub mod Progress
pub mod Ends
pub mod Local
use skyport.Prelude.{
  ℕ, Bool, true, false, not, ◌&&◌, ◌||◌, Option, none, some, List, ◌++◌, leb, ◌==◌, if◌then◌else◌,
  any, Dict, Text, codes, text_eq, Result, ok, err,
}
use mathlib.Core.Option.{get_or}
use skyport.Json.{Json, str, obj, field, end, get, as_u64}
use skyport.Config.{BudgetConfig}
use skyport.RateLimiter.{RateLimiter, Exceeded, check_scoped}
use skyport.Router.{
  Router, RouteDecision, RouteError, Outcome, done, panicked, select_key, mark_key_failed,
  mark_key_success,
}
use skyport.Budget.{
  UsageRow, BudgetVerdict, within, blocked, pricing_unknown, budget_for, has_cap, budget_verdict,
  charge,
}
use skyport.Subscriptions.{◌or_else◌}
use skyport.Subscriptions.Refresh.{HttpResponse, RefreshError, ensure_fresh_oauth}
use skyport.Security.Body.{BodyError, read_limited_body}
use skyport.Proxy.{Admitted}
use skyport.Proxy.Upstream.{
  UpstreamRequest, NetworkError, Reply, answered, unreachable, RequestError, Web, upstream_request,
  usage_from_payload, at_least_zero,
}

pub data Database : Type 0 where
  usable poisoned unreadable : Database

pub record Round : Type 0 where
  pub selected_at : ℕ
  pub checked_at : ℕ
  pub refreshed_at : ℕ
  pub stored_at : ℕ
  pub failed_at : ℕ
  pub month : Text
  pub day : Text
  pub database : Database
  pub saved : Bool
  pub post : Text → Dict Text → Option HttpResponse
  pub reply : UpstreamRequest → Reply

pub data LastError : Type 0 where
  no_eligible_key : LastError
  upstream_status : ℕ → LastError
  network : NetworkError → LastError

pub data LoopError : Type 0 where
  no_available_key : ℕ → RouteError → LoopError
  upstream_error : ℕ → LastError → LoopError
  config_lock_poisoned pricing_unknown_for_budget database_lock_poisoned budget_check_failed
        budget_exceeded :
      LoopError
  rate_limit_exceeded : Exceeded → LoopError
  oauth_refresh_failed : RefreshError → LoopError
  bad_request : RequestError → LoopError
  upstream_response_too_large : BodyError → LoopError
  connection_error : NetworkError → LoopError
  -- the panic of `mark_key_failed`
  handler_panicked : LoopError

pub data Answer : Type 0 where
  served : Json → Answer
  -- the body follows as it arrives
  streamed : Answer
  passed_on : (status : ℕ) → Answer
  refused : LoopError → Answer

pub record LoopState : Type 0 where
  pub router : Router ℕ
  pub limiter : RateLimiter
  pub rows : List UsageRow
  pub attempted : List Text
  pub last_status : ℕ
  pub last_error : LastError

pub data Step : Type 0 where
  stop : Answer → Step
  again : Step

abbrev pub contains : Text → List Text → Bool
contains a = any (λ b. text_eq b a)

abbrev pub is_local : Text → Bool
is_local alias = text_eq alias (codes "local")

-- `body.get("max_tokens").or_else(..)`
abbrev pub completion_bound : Json → ℕ
completion_bound body =
    elim (get (codes "max_tokens") body or_else get (codes "max_output_tokens") body) [
      | none ↦ 0
      | some v ↦ get_or (as_u64 v) 0
    ]

abbrev pub is_capped : Option (BudgetConfig ℕ × Bool) → Bool
is_capped none = false
is_capped (some (budget, key_scoped)) = has_cap budget

-- the caps, with a database that may not be usable
abbrev pub check_caps : BudgetVerdict → Bool → Database → Result LoopError (Unit {0})
check_caps pricing_unknown capped database = err pricing_unknown_for_budget
check_caps verdict false database = ok tt
check_caps verdict true poisoned = err database_lock_poisoned
check_caps verdict true unreadable = err budget_check_failed
check_caps within true usable = ok tt
check_caps blocked true usable = err budget_exceeded

abbrev pub scoped_limit : Text → Text → Option (BudgetConfig ℕ × Bool) → Text × Option ℕ
scoped_limit provider alias none = (provider, none)
scoped_limit provider alias (some (budget, key_scoped)) =
    ((if key_scoped then provider ++ codes ":" ++ alias else provider), budget.max_rpm)

abbrev pub is_retried : ℕ → Bool
is_retried status = status == 401 || status == 429 || leb 500 status && leb status 599

abbrev pub is_success : ℕ → Bool
is_success status = leb 200 status && leb status 299
