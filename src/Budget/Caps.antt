-- ===== src/Budget/Caps.antt =====
-- src/db.rs and src/api/v1.rs: spending under a cap.
use native.Mathlib.Nat.{mul-le-mul_right}
use skyport.Prelude.{
  ℕ, ◌+◌, ◌≤◌, ◌≡◌, ◌≢◌, ◌⊎◌, inl, inr, Bool, true, false, ◌&&◌, Option, none, some, List, [], ◌∷◌,
  arith, if◌then◌else◌, Bool-cases, Option-cases, All, Dict, Text, text_eq, text_eq_refl,
  text_eq_iff, text_eq_ne,
}
use skyport.Config.{BudgetConfig}
use skyport.Budget.{
  UsageRow, PriceTable, estimate_cost, default_prices, get_scoped_budget_usage, in_scope,
  within_cap, check_budget, budget_for, BudgetVerdict, within, blocked, pricing_unknown,
  budget_verdict, cost_of, charge, update_budget_usage,
}
use skyport.Budget.Usage.{get_scoped_budget_usage-update}

-- A request under the budget gate: its key, the periods it falls in, the bounds it is projected
-- with, and the usage that the upstream reports.
pub record Attempt : Type 0 where
  pub alias : Text
  pub month : Text
  pub day : Text
  pub prompt_bound : ℕ
  pub completion_bound : ℕ
  pub prompt : ℕ
  pub completion : ℕ

estimate_cost_mono :
    (prices : PriceTable) (p c p' c' : ℕ)
    → p ≤ p'
    → c ≤ c'
    → estimate_cost prices p c ≤ estimate_cost prices p' c'
unfolding estimate_cost
estimate_cost_mono prices p c p' c' hp hc =
    ground (arith, mul-le-mul_right prices.input_per_m hp, mul-le-mul_right prices.output_per_m hc)

is_within : BudgetVerdict → Bool
is_within within = true
is_within _ = false

module _ (budgets : Dict (BudgetConfig ℕ)) (provider : Text) where
  -- Check, send, charge: the gate is held over the three.
  unfoldable pub spend : List UsageRow → Attempt → List UsageRow
  unfolding budget_verdict charge
  spend rows a =
      elim (budget_verdict budgets rows a.month a.day provider a.alias a.prompt_bound
        a.completion_bound) [
          | within ↦ charge rows a.month a.day provider a.alias a.prompt a.completion
          | blocked ↦ rows
          | pricing_unknown ↦ rows
        ]

  unfoldable pub spend_all : List UsageRow → List Attempt → List UsageRow
  unfolding spend
  spend_all rows [] = rows
  spend_all rows (a ∷ rest) = spend_all (spend rows a) rest

  -- The budget that covers the attempt's key has this cap on this period, and counts this scope.
  abbrev pub IsCapped : Option Text → Text → ℕ → Attempt → Type 0
  IsCapped scope period cap a =
      (budget : BudgetConfig ℕ) × (key_scoped : Bool) × (budget_for budgets provider a.alias
        ≡ some (budget, key_scoped))
      × (scope ≡ (if key_scoped then some a.alias else none))
      × (((period ≡ a.month) × (budget.monthly_cap_usd ≡ some cap))
          ⊎ ((period ≡ a.day) × (budget.daily_cap_usd ≡ some cap)))

  -- Its usage stays within the projection, its two periods have different texts, and it is either
  -- under the cap or no part of what the cap counts.
  abbrev pub IsHonest : Option Text → Text → ℕ → Attempt → Type 0
  IsHonest scope period cap a =
      (a.prompt ≤ a.prompt_bound)
      × (a.completion ≤ a.completion_bound)
      × (a.month ≢ a.day)
      × (IsCapped scope period cap a
          ⊎ (in_scope scope a.alias ≡ false)
          ⊎ ((period ≢ a.month) × (period ≢ a.day)))

  -- What the check leaves room for.
  within-room :
      (rows : List UsageRow) (a : Attempt) (scope : Option Text) (period : Text) (cap : ℕ)
      → a.prompt ≤ a.prompt_bound
      → a.completion ≤ a.completion_bound
      → IsCapped scope period cap a
      → budget_verdict budgets rows a.month a.day provider a.alias a.prompt_bound a.completion_bound
        ≡ within
      → get_scoped_budget_usage rows provider scope period + cost_of provider a.prompt a.completion
        ≤ cap
  unfolding budget_verdict check_budget within_cap cost_of
  within-room rows a scope period cap hp hc (budget, key_scoped, eb, es, ec) h =
      elim (Option-cases (default_prices provider)) [
        | inl e ↦ (elim ec [
          | inl (ep, et) ↦ ground (arith, e, eb, et, h)
          | inr (ep, et) ↦ ground (arith, e, eb, et, h)
        ])
        | inr (prices, e) ↦ (elim ec [
          | inl (ep, et) ↦ ground (
            arith,
            e,
            eb,
            es,
            ep,
            et,
            h,
            estimate_cost_mono prices a.prompt a.completion a.prompt_bound a.completion_bound hp hc,
          )
          | inr (ep, et) ↦ ground (
            arith,
            e,
            eb,
            es,
            ep,
            et,
            h,
            estimate_cost_mono prices a.prompt a.completion a.prompt_bound a.completion_bound hp hc,
          )
        ])
      ]

  charge-usage :
      (rows : List UsageRow) (a : Attempt) (scope : Option Text) (period : Text)
      → get_scoped_budget_usage
          (charge rows a.month a.day provider a.alias a.prompt a.completion)
          provider
          scope
          period
        ≡ get_scoped_budget_usage rows provider scope period
          + (if text_eq a.month period && in_scope scope a.alias
              then cost_of provider a.prompt a.completion
              else 0)
          + (if text_eq a.day period && in_scope scope a.alias
              then cost_of provider a.prompt a.completion
              else 0)
  unfolding charge
  charge-usage rows a scope period = ground (
    arith,
    get_scoped_budget_usage-update rows provider a.alias a.month provider period scope
        (cost_of provider a.prompt a.completion),
    get_scoped_budget_usage-update
        (update_budget_usage rows provider a.alias a.month (cost_of provider a.prompt a.completion))
        provider a.alias a.day provider period scope (cost_of provider a.prompt a.completion),
    text_eq_refl provider,
  )

  spend-le_cap :
      (rows : List UsageRow) (a : Attempt) (scope : Option Text) (period : Text) (cap : ℕ)
      → IsHonest scope period cap a
      → get_scoped_budget_usage rows provider scope period ≤ cap
      → get_scoped_budget_usage (spend rows a) provider scope period ≤ cap
  unfolding spend is_within
  spend-le_cap rows a scope period cap honest le =
      elim (Bool-cases (
        is_within (
          budget_verdict budgets rows a.month a.day provider a.alias a.prompt_bound
            a.completion_bound))) [
              | inl e ↦
                  let (hp, hc, ne, covered) = honest in
                  let room : IsCapped scope period cap a
                      → get_scoped_budget_usage rows provider scope period
                          + cost_of provider a.prompt a.completion
                        ≤ cap =
                    (λ c. within-room rows a scope period cap hp hc c (ground (arith, e))) in
                  let ne_text : text_eq a.month a.day ≡ false = text_eq_ne a.month a.day ne in
                  elim covered [
                    | inl capped ↦ ground (
                      arith,
                      e,
                      le,
                      room capped,
                      charge-usage rows a scope period,
                      text_eq_iff a.month period,
                      text_eq_iff a.day period,
                      ne,
                    )
                    | inr (inl other) ↦
                        ground (arith, e, le, other, charge-usage rows a scope period)
                    | inr (inr (m, d)) ↦ ground (
                      arith,
                      e,
                      le,
                      charge-usage rows a scope period,
                      text_eq_iff a.month period,
                      text_eq_iff a.day period,
                      m,
                      d,
                    )
                  ]
              | inr e ↦ ground (arith, e, le)
            ]

  -- Usage that is within a cap stays within it, whatever the attempts: each is charged at most what
  -- it was projected to cost, and is either under that cap or no part of what it counts.
  pub spend_all-le_cap :
      (rows : List UsageRow) (attempts : List Attempt) (scope : Option Text) (period : Text)
      (cap : ℕ)
      → All (IsHonest scope period cap) attempts
      → get_scoped_budget_usage rows provider scope period ≤ cap
      → get_scoped_budget_usage (spend_all rows attempts) provider scope period ≤ cap
  unfolding spend_all
  spend_all-le_cap rows [] scope period cap honest le = le
  spend_all-le_cap rows (a ∷ rest) scope period cap (h, honest) le =
      spend_all-le_cap (spend rows a) rest scope period cap honest
        (spend-le_cap rows a scope period cap h le)
