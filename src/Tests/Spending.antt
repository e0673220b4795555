-- ===== src/Tests/Spending.antt =====
-- src/db.rs and src/api/v1.rs on concrete budgets.
use skyport.Prelude.{
  ℕ, ◌≤◌, ◌≡◌, refl, inl, false, none, some, List, [], ◌∷◌, arith, Dict, lookup, codes, text_eq,
}
use skyport.Config.{BudgetConfig}
use skyport.Budget.{
  UsageRow, get_scoped_budget_usage, update_budget_usage, budget_for, default_prices,
}
use skyport.Budget.Caps.{Attempt, IsHonest, spend_all, spend_all-le_cap}

abbrev rows : List UsageRow
rows =
    record {
      provider = codes "openai";
      key_alias = codes "a";
      period = codes "2026-07";
      total_cost_usd = 5;
    }
    ∷ []

usage_test :
    get_scoped_budget_usage
      (update_budget_usage rows (codes "openai") (codes "b") (codes "2026-07") 7)
      (codes "openai")
      none
      (codes "2026-07")
    ≡ 12
unfolding get_scoped_budget_usage update_budget_usage text_eq
usage_test = refl

-- Half a cent a month for the provider.
abbrev budget : BudgetConfig ℕ
budget = record { monthly_cap_usd = some 500_000; daily_cap_usd = none; max_rpm = none }

abbrev budgets : Dict (BudgetConfig ℕ)
budgets = (codes "openai", budget) ∷ []

-- A request of at most 400 and 300 tokens that uses 300 and 200 of them.
abbrev attempt : Attempt
attempt = record {
  alias = codes "b";
  month = codes "2026-07";
  day = codes "2026-07-01";
  prompt_bound = 400;
  completion_bound = 300;
  prompt = 300;
  completion = 200;
}

-- The second is blocked: 275005 spent and 400000 projected are over the cap.
spend_test :
    get_scoped_budget_usage
      (spend_all budgets (codes "openai") rows (attempt ∷ attempt ∷ []))
      (codes "openai")
      none
      (codes "2026-07")
    ≡ 275_005
unfolding get_scoped_budget_usage spend_all default_prices text_eq lookup
spend_test = refl

attempt-IsHonest : IsHonest budgets (codes "openai") none (codes "2026-07") 500_000 attempt
unfolding budget_for text_eq lookup
attempt-IsHonest = (
  omega arith,
  omega arith,
  λ e. ground (arith, e),
  inl (budget, false, refl, refl, inl (refl, refl)),
)

spend_all-le_cap_example :
    get_scoped_budget_usage
      (spend_all budgets (codes "openai") rows (attempt ∷ attempt ∷ []))
      (codes "openai")
      none
      (codes "2026-07")
    ≤ 500_000
unfolding get_scoped_budget_usage text_eq
spend_all-le_cap_example =
    spend_all-le_cap budgets (codes "openai") rows (attempt ∷ attempt ∷ []) none (codes "2026-07")
      500_000 (attempt-IsHonest, (attempt-IsHonest, tt)) (omega arith)
