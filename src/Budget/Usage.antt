-- ===== src/Budget/Usage.antt =====
-- src/db.rs: what an update adds to a period's usage.
use skyport.Prelude.{
  ℕ, ◌+◌, ◌≤◌, ◌≡◌, refl, ◌&&◌, Option, none, some, List, [], ◌∷◌, arith, if◌then◌else◌, Text,
  text_eq, text_eq_iff,
}
use skyport.Budget.{
  get_budget_usage, UsageRow, get_scoped_budget_usage, update_budget_usage, in_scope,
}

-- An update adds its cost to every sum that counts its provider, alias and period, and changes no
-- other sum.
pub get_scoped_budget_usage-update :
    (rows : List UsageRow) (provider alias period wanted period' : Text) (scope : Option Text)
    (cost : ℕ)
    → get_scoped_budget_usage
        (update_budget_usage rows provider alias period cost)
        wanted
        scope
        period'
      ≡ get_scoped_budget_usage rows wanted scope period'
        + (if text_eq provider wanted && text_eq period period' && in_scope scope alias
            then cost
            else 0)
unfolding get_scoped_budget_usage update_budget_usage
get_scoped_budget_usage-update [] provider alias period wanted period' scope cost = ground arith
get_scoped_budget_usage-update (row ∷ rows) provider alias period wanted period' scope cost =
    ground (
      arith,
      get_scoped_budget_usage-update rows provider alias period wanted period' scope cost,
      text_eq_iff row.provider provider,
      text_eq_iff row.key_alias alias,
      text_eq_iff row.period period,
    )

-- The usage of a provider is the usage of all its keys, and is at least that of any one of them.
pub get_budget_usage-scoped :
    (rows : List UsageRow) (provider alias period : Text)
    → (get_budget_usage rows provider period ≡ get_scoped_budget_usage rows provider none period)
      × (get_scoped_budget_usage rows provider (some alias) period
          ≤ get_budget_usage rows provider period)
unfolding get_budget_usage get_scoped_budget_usage
get_budget_usage-scoped [] provider alias period = (refl, ground arith)
get_budget_usage-scoped (row ∷ rows) provider alias period =
    ground (arith, get_budget_usage-scoped rows provider alias period)
