-- ===== src/Proxy/Loop/Local.antt =====
-- src/api/v1.rs: the loop of `proxy` with a local provider that answers with errors.
use skyport.Prelude.{
  ℕ, ◌≡◌, refl, sym, ap, subst, inl, inr, Bool, true, false, Option, none, some, List, [], ◌∷◌,
  Bool-cases, any, All, ℤ, Dict, lookup, Text, codes, text_eq, ok, pos,
}
use skyport.Vault.Aliases.{modify_first-is_relink}
use skyport.Config.{ProviderConfig, BudgetConfig}
use skyport.Vault.{is_keyless_provider, get_keys_for_provider, set_cooldown, Vault, has_alias}
use skyport.RateLimiter.{check_scoped}
use skyport.Router.{Router, done, choose, select_key, mark_key_failed, local_decision}
use skyport.Budget.{budget_for, budget_verdict, UsageRow, within}
use skyport.Subscriptions.Refresh.{ensure_fresh_oauth}
use skyport.Proxy.{Admitted}
use skyport.Proxy.Upstream.{UpstreamRequest, answered, Web, upstream_request}
use skyport.Proxy.Loop.{Round, Answer, LoopState, Step, stop, again, contains}
use skyport.Proxy.Loop.Run.{follow, receive, try_key, with_key, iterate, run}

-- The loop goes on, with the router as it was.
abbrev Loops : Router ℕ → LoopState × Step → Type 0
Loops r (s, stop answer) = ⊥
Loops r (s, again) = s.router ≡ r

-- What the router has for a local provider: a configuration, and neither keys nor a budget. Nor has
-- another provider a key under the alias of the local decision.
pub record IsBare (provider : Text) (p : ProviderConfig) (r : Router ℕ) : Type 0 where
  pub vault_lock : r.vault_poisoned ≡ false
  pub config_lock : r.config_poisoned ≡ false
  pub no_keys : get_keys_for_provider r.vault provider ≡ []
  pub no_local : any (has_alias (codes "local")) r.vault.entries ≡ false
  pub no_budget : budget_for r.config.budgets provider (codes "local") ≡ none
  pub configured : lookup provider r.config.providers ≡ some p
  pub enabled : p.enabled ≡ true

-- A round in which the request is answered with 503, and ten seconds after which there is a date.
abbrev pub IsDown : (ℕ → ℤ → Option ℕ) → UpstreamRequest → Round → Type 0
IsDown after request round =
    ((retry_after : Option ℕ) × (content_length : Option ℕ) × (chunks : List (Option (List ℕ)))
      × (round.reply request ≡ answered 503 retry_after content_length chunks))
    × ((until : ℕ) × (after round.failed_at (pos 10) ≡ some until))

budget_verdict-within :
    (budgets : Dict (BudgetConfig ℕ)) (rows : List UsageRow) (month day provider alias : Text)
    (prompt completion : ℕ)
    → budget_for budgets provider alias ≡ none
    → budget_verdict budgets rows month day provider alias prompt completion ≡ within
unfolding budget_verdict
budget_verdict-within budgets rows month day provider alias prompt completion h =
    simp (budget_verdict, h) refl

cool_down-absent :
    (v : Vault) (until : ℕ)
    → any (has_alias (codes "local")) v.entries ≡ false
    → (set_cooldown v (codes "local") until).0 ≡ v
unfolding set_cooldown
cool_down-absent v until h =
    let absent =
      (modify_first-is_relink (has_alias (codes "local"))
          (λ e. record e { cooldown_until = some until }) v.entries).0
        h in
    simp absent refl

module _ (web : Web) (decode : Text → Option (List ℕ)) (after : ℕ → ℤ → Option ℕ) (a : Admitted)
    (path : Text) (stream : Bool) (round : Round) (p : ProviderConfig) (request : UpstreamRequest)
    (retry_after content_length : Option ℕ) (chunks : List (Option (List ℕ))) (until : ℕ)
    (request_ok : upstream_request web a.provider a.actual_model a.body path stream
        (local_decision a.provider p)
      ≡ ok request)
    (unavailable : round.reply request ≡ answered 503 retry_after content_length chunks)
    (cooled : after round.failed_at (pos 10) ≡ some until) where
  mark_key_failed-local :
      (r : Router ℕ)
      → IsBare a.provider p r
      → mark_key_failed after r round.failed_at (codes "local") 503 retry_after ≡ (r, done)
  unfolding mark_key_failed
  mark_key_failed-local r bare =
      simp (bare.vault_lock, cooled, cool_down-absent r.vault until bare.no_local)
        (ap (λ b. (record r { vault_poisoned = b }, done)) (sym bare.vault_lock))

  receive-Loops :
      (s : LoopState)
      → IsBare a.provider p s.router
      → Loops s.router (
          receive web decode after a path stream round s
            (local_decision a.provider p)
            (answered 503 retry_after content_length chunks))
  unfolding receive
  receive-Loops s bare = simp (mark_key_failed-local s.router bare) refl

  try_key-Loops :
      (s : LoopState)
      → IsBare a.provider p s.router
      → Loops s.router
          (try_key web decode after a path stream round s (local_decision a.provider p))
  unfolding try_key check_scoped ensure_fresh_oauth
  try_key-Loops s bare =
      simp (budget_verdict-within, bare.no_budget, bare.config_lock, request_ok, unavailable)
        (receive-Loops s bare)

  select_key-local :
      (r : Router ℕ)
      → is_keyless_provider a.provider ≡ true
      → IsBare a.provider p r
      → select_key r round.selected_at a.provider ≡ (r, ok (local_decision a.provider p))
  unfolding select_key choose
  select_key-local r keyless bare =
      simp (bare.vault_lock, bare.config_lock, bare.no_keys, bare.configured, bare.enabled, keyless)
        refl

  with_key-Loops :
      (s : LoopState)
      → IsBare a.provider p s.router
      → Loops s.router (
          with_key web decode after a path stream round s
            (s.router, ok (local_decision a.provider p)))
  unfolding text_eq
  with_key-Loops s bare = elim (Bool-cases (contains (codes "local") s.attempted)) [
    | inl e ↦ simp e (try_key-Loops s bare)
    | inr e ↦ simp e (try_key-Loops (record s { attempted = codes "local" ∷ s.attempted }) bare)
  ]

  iterate-Loops :
      (s : LoopState)
      → is_keyless_provider a.provider ≡ true
      → IsBare a.provider p s.router
      → Loops s.router (iterate web decode after a path stream round s)
  unfolding iterate
  iterate-Loops s keyless bare =
      subst (λ selected. Loops s.router (with_key web decode after a path stream round s selected))
        (sym (select_key-local s.router keyless bare)) (with_key-Loops s bare)

follow-Loops :
    (r : Router ℕ) (next : LoopState → LoopState × Option Answer) (step : LoopState × Step)
    → Loops r step
    → ((s : LoopState) → s.router ≡ r → (next s).1 ≡ none)
    → (follow next step).1 ≡ none
follow-Loops r next (s, stop answer) h k = absurd h
follow-Loops r next (s, again) h k = k s h

module _ (web : Web) (decode : Text → Option (List ℕ)) (after : ℕ → ℤ → Option ℕ) (a : Admitted)
    (path : Text) (stream : Bool) (p : ProviderConfig) (request : UpstreamRequest)
    (request_ok : upstream_request web a.provider a.actual_model a.body path stream
        (local_decision a.provider p)
      ≡ ok request) where
  -- Where a configured local provider, without a key or a budget and with no key of another provider
  -- under the alias local, answers every request with 503, it is asked again and again, if the locks are
  -- healthy and the request can be built: the loop has no answer after any number of rounds, whatever
  -- the clocks, the database and the rest of each round are.
  pub run-loops :
      (rounds : List Round) (s : LoopState)
      → is_keyless_provider a.provider ≡ true
      → IsBare a.provider p s.router
      → All (IsDown after request) rounds
      → (run web decode after a path stream rounds s).1 ≡ none
  unfolding run
  run-loops [] s keyless bare down = refl
  run-loops (round ∷ rounds) s keyless bare
        (((retry_after, content_length, chunks, answer), (until, cooled)), down) =
      follow-Loops s.router (run web decode after a path stream rounds)
        (iterate web decode after a path stream round s)
        (iterate-Loops web decode after a path stream round p request retry_after content_length
          chunks until request_ok answer cooled s keyless bare)
        (λ s' same. run-loops rounds s' keyless (subst (IsBare a.provider p) (sym same) bare) down)
