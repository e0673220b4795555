-- ===== src/Budget.antt =====
-- src/db.rs and src/providers/mod.rs: prices, what has been spent, and the caps; src/api/v1.rs: which
-- budget covers a key and what a request is charged. An amount of money is a whole number of units
-- of 1e-8 USD, so that a price per million tokens is a whole number of cents; the source computes
-- with `f64`. The two periods, `month` and `day`, are the texts that the clock gives.
pub mod Usage
pub mod Caps
use skyport.Prelude.{
  ℕ, ◌+◌, ◌*◌, Bool, true, false, not, ◌&&◌, ◌||◌, Option, none, some, List, [], ◌∷◌, ◌++◌, ltb,
  if◌then◌else◌, is_some, Dict, lookup, Text, codes, text_eq,
}
use skyport.Config.{BudgetConfig}
use mathlib.Core.Option.{get_or}

-- cents per million tokens
pub record PriceTable : Type 0 where
  pub input_per_m : ℕ
  pub output_per_m : ℕ

unfoldable pub estimate_cost : PriceTable → ℕ → ℕ → ℕ
estimate_cost prices prompt_tokens completion_tokens =
    prompt_tokens * prices.input_per_m + completion_tokens * prices.output_per_m

abbrev price : ℕ → ℕ → PriceTable
price input output = record { input_per_m = input; output_per_m = output }

unfoldable pub default_prices : Text → Option PriceTable
default_prices provider =
    if text_eq provider (codes "openai")
    then some (price 250 1000)
    else if text_eq provider (codes "gemini")
    then some (price 125 500)
    else if text_eq provider (codes "nvidia")
    then some (price 0 0)
    else if text_eq provider (codes "groq")
    then some (price 27 27)
    else if text_eq provider (codes "deepseek")
    then some (price 14 28)
    else if text_eq provider (codes "kimi")
    then some (price 100 300)
    else if text_eq provider (codes "openrouter")
    then some (price 200 600)
    else if text_eq provider (codes "ollama") || text_eq provider (codes "lmstudio")
    then some (price 0 0)
    else none

-- a row of the table budget_usage
pub record UsageRow : Type 0 where
  pub provider : Text
  pub key_alias : Text
  pub period : Text
  pub total_cost_usd : ℕ

-- `?3 IS NULL OR key_alias = ?3`
abbrev pub in_scope : Option Text → Text → Bool
in_scope none alias = true
in_scope (some wanted) alias = text_eq alias wanted

abbrev pub is_counted : Text → Option Text → Text → UsageRow → Bool
is_counted provider scope period row =
    text_eq row.provider provider && text_eq row.period period && in_scope scope row.key_alias

-- `SUM(total_cost_usd)` of the rows that the query selects
unfoldable pub get_scoped_budget_usage : List UsageRow → Text → Option Text → Text → ℕ
get_scoped_budget_usage [] provider scope period = 0
get_scoped_budget_usage (row ∷ rows) provider scope period =
    let rest = get_scoped_budget_usage rows provider scope period in
    if is_counted provider scope period row then row.total_cost_usd + rest else rest

unfoldable pub get_budget_usage : List UsageRow → Text → Text → ℕ
get_budget_usage [] provider period = 0
get_budget_usage (row ∷ rows) provider period =
    let rest = get_budget_usage rows provider period in
    if text_eq row.provider provider && text_eq row.period period
    then row.total_cost_usd + rest
    else rest

abbrev pub is_row : Text → Text → Text → UsageRow → Bool
is_row provider alias period row =
    text_eq row.provider provider && text_eq row.key_alias alias && text_eq row.period period

-- INSERT ... ON CONFLICT DO UPDATE
unfoldable pub update_budget_usage : List UsageRow → Text → Text → Text → ℕ → List UsageRow
update_budget_usage [] provider alias period cost =
    record { provider = provider; key_alias = alias; period = period; total_cost_usd = cost } ∷ []
update_budget_usage (row ∷ rows) provider alias period cost =
    let rest = update_budget_usage rows provider alias period cost in
    if is_row provider alias period row
    then record row { total_cost_usd = row.total_cost_usd + cost } ∷ rows
    else row ∷ rest

-- whether a cap holds the projected cost
unfoldable pub within_cap : Option ℕ → ℕ → ℕ → Bool
within_cap none usage projected_cost = true
within_cap (some cap) usage projected_cost = not (ltb cap (usage + projected_cost))

unfoldable pub check_budget :
    List UsageRow → Text → Text → Text → Option Text → BudgetConfig ℕ → ℕ → Bool
unfolding within_cap
check_budget rows month day provider scope budget projected_cost =
    within_cap budget.monthly_cap_usd (get_scoped_budget_usage rows provider scope month)
      projected_cost
    && within_cap budget.daily_cap_usd (get_scoped_budget_usage rows provider scope day)
        projected_cost

-- The budget of a key, with whether it is the key's own.
unfoldable pub budget_for : Dict (BudgetConfig ℕ) → Text → Text → Option (BudgetConfig ℕ × Bool)
budget_for budgets provider alias = elim (lookup (provider ++ codes ":" ++ alias) budgets) [
  | some budget ↦ some (budget, true)
  | none ↦ elim (lookup provider budgets) [ some budget ↦ some (budget, false) | none ↦ none ]
]

abbrev pub has_cap : BudgetConfig ℕ → Bool
has_cap budget = is_some budget.monthly_cap_usd || is_some budget.daily_cap_usd

pub data BudgetVerdict : Type 0 where
  within blocked pricing_unknown : BudgetVerdict

-- The caps' part of the loop of `proxy`, for a body of `prompt_bound` bytes and a limit of
-- `completion_bound` tokens, with a database that can be read.
unfoldable pub budget_verdict :
    Dict (BudgetConfig ℕ) → List UsageRow → Text → Text → Text → Text → ℕ → ℕ → BudgetVerdict
unfolding budget_for check_budget estimate_cost
budget_verdict budgets rows month day provider alias prompt_bound completion_bound =
    elim (budget_for budgets provider alias) [
      | none ↦ within
      | some (budget, key_scoped) ↦
          if not (has_cap budget) then within else elim (default_prices provider) [
            | none ↦ pricing_unknown
            | some prices ↦
                if check_budget rows month day provider (if key_scoped then some alias else none)
                  budget (estimate_cost prices prompt_bound completion_bound)
                then within
                else blocked
          ]
    ]

unfoldable pub cost_of : Text → ℕ → ℕ → ℕ
unfolding estimate_cost
cost_of provider prompt completion = elim (default_prices provider) [
  | none ↦ 0
  | some prices ↦ estimate_cost prices prompt completion
]

-- The two updates of `log_tokens`, in one transaction that is committed.
unfoldable pub charge : List UsageRow → Text → Text → Text → Text → ℕ → ℕ → List UsageRow
unfolding cost_of update_budget_usage
charge rows month day provider alias prompt completion =
    let cost = cost_of provider prompt completion in
    update_budget_usage (update_budget_usage rows provider alias month cost) provider alias day cost
