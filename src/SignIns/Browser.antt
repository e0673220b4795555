-- ===== src/SignIns/Browser.antt =====
-- src/api/oauth.rs: a browser sign-in from its callback to the poll that ends it.
use skyport.Prelude.{
  ℕ, ◌-◌, ◌<◌, ◌≡◌, refl, ap, ◌∙◌, true, false, Option, none, some, List, arith, lt→ltb, ℤ, Dict,
  lookup, insert, lookup-insert, Text, codes, text_eq_refl, ok,
}
use skyport.Json.{Json}
use skyport.Config.{ProviderConfig}
use skyport.Router.{Router}
use skyport.Sessions.{
  PendingSession, browser, arrived, take_verifier, take_browser_callback, put_outcome,
  store_browser_outcome,
}
use skyport.Subscriptions.{SubscriptionProvider, AuthTokens, find_provider}
use skyport.Subscriptions.Account.{account_label}
use skyport.Subscriptions.Refresh.{token_expiry}
use skyport.SignIns.{AppState, link_known, finish_login, finish_vault}
use skyport.SignIns.Exchange.{StatusResponse, PostBody, exchange_authorization_code}
use skyport.SignIns.Poll.{login_done, poll_provider, poll}
use skyport.SignIns.Callback.{
  callback_page, with_sessions, callback_exchanged, callback_taken, callback_flow, callback_code,
  callback_provider, callback_handler,
}

-- The session once its callback has brought tokens.
abbrev pub answered : PendingSession AuthTokens → AuthTokens → PendingSession AuthTokens
answered session tokens = record session { kind = browser none (some (arrived tokens)) }

module _ (session : PendingSession AuthTokens) (flow verifier : Text)
    (sessions : Dict (PendingSession AuthTokens)) (now_secs : ℕ) where
  abbrev taken : PendingSession AuthTokens
  taken = record session { kind = browser none none }

  take_browser_callback-some :
      lookup flow sessions ≡ some session
      → session.kind ≡ browser (some verifier) none
      → (now_secs - session.started_secs) < 900
      → take_browser_callback sessions flow now_secs
        ≡ (insert flow taken sessions, some (session.provider, verifier))
  unfolding take_browser_callback take_verifier
  take_browser_callback-some here waits soon = ground (arith, here, waits, soon)

  -- Tokens go into the session whose verifier was taken.
  store_browser_outcome-taken :
      (tokens : AuthTokens)
      → let stored = store_browser_outcome (insert flow taken sessions) flow (arrived tokens) in
        (stored.1 ≡ true) × (lookup flow stored.0 ≡ some (answered session tokens))
  unfolding store_browser_outcome put_outcome
  store_browser_outcome-taken tokens =
      let here : lookup flow (insert flow taken sessions) ≡ some taken =
        ground (arith, lookup-insert flow flow taken sessions, text_eq_refl flow) in
      let set = lookup-insert flow flow (answered session tokens) (insert flow taken sessions) in
      (ground (arith, here), ground (arith, here, set, text_eq_refl flow))

module _ {Money : Type 0} (decode : Text → Option (List ℕ)) (from_slice : List ℕ → Option Json)
    (after : ℕ → ℤ → Option ℕ) (provider : SubscriptionProvider) (tokens : AuthTokens)
    (expires_at : Option ℕ) where
  finish_vault-ok :
      (now : ℕ) (r : Router Money) (found : Option ProviderConfig)
      → r.vault_poisoned ≡ false
      → token_expiry after tokens now ≡ some expires_at
      → (finish_vault decode from_slice after provider tokens now true
          (link_known provider true r found)).1
        ≡ ok (account_label decode from_slice tokens)
  finish_vault-ok now r none healthy expiry = simp (healthy, expiry) refl
  finish_vault-ok now r (some known) healthy expiry = simp (healthy, expiry) refl

  -- With healthy locks, working files and an expiry that chrono can represent, a login succeeds.
  finish_login-ok :
      (now : ℕ) (r : Router Money)
      → r.vault_poisoned ≡ false
      → r.config_poisoned ≡ false
      → token_expiry after tokens now ≡ some expires_at
      → (finish_login decode from_slice after provider tokens now true true r).1
        ≡ ok (account_label decode from_slice tokens)
  unfolding finish_login
  finish_login-ok now r healthy readable expiry =
      simp readable
        (finish_vault-ok now r (lookup provider.provider_id r.config.providers) healthy expiry)

module _ {Money : Type 0} (decode : Text → Option (List ℕ)) (from_slice : List ℕ → Option Json)
    (after : ℕ → ℤ → Option ℕ) (post : Text → PostBody → Option StatusResponse)
    (provider : SubscriptionProvider) (state : AppState Money) (session : PendingSession AuthTokens)
    (flow : Text) (tokens : AuthTokens) where
  poll-answered :
      (later now : ℕ) (s : AppState Money) (expires_at : Option ℕ)
      → find_provider session.provider ≡ some provider
      → s.sessions_poisoned ≡ false
      → s.router.vault_poisoned ≡ false
      → s.router.config_poisoned ≡ false
      → lookup flow s.auth_sessions ≡ some (answered session tokens)
      → (later - session.started_secs) < 900
      → token_expiry after tokens now ≡ some expires_at
      → (poll decode from_slice after post session.provider flow later now true true s).1
        ≡ login_done (account_label decode from_slice tokens)
  unfolding poll
  poll-answered later now s expires_at known healthy vault_free config_free here soon expiry =
      ap
        (λ f.
          (poll_provider decode from_slice after post session.provider flow later now true true s
            f).1)
        known
      ∙ simp
          (
            healthy,
            here,
            text_eq_refl session.provider,
            lt→ltb (later - session.started_secs) 900 soon,
            finish_login-ok decode from_slice after provider tokens expires_at now s.router
                vault_free config_free expiry,
          )
          refl

  callback_recorded :
      (sessions : Dict (PendingSession AuthTokens))
      → state.sessions_poisoned ≡ false
      → callback_exchanged (with_sessions state sessions) flow (some (ok tokens)) ≡ (
        with_sessions state (store_browser_outcome sessions flow (arrived tokens)).0,
        callback_page (store_browser_outcome sessions flow (arrived tokens)).1,
      )
  callback_recorded sessions healthy = simp healthy refl

  callback_handler-page :
      (code verifier : Text) (params : Dict Text) (now_secs : ℕ)
      → find_provider session.provider ≡ some provider
      → state.sessions_poisoned ≡ false
      → lookup flow state.auth_sessions ≡ some session
      → session.kind ≡ browser (some verifier) none
      → (now_secs - session.started_secs) < 900
      → lookup (codes "state") params ≡ some flow
      → lookup (codes "code") params ≡ some code
      → exchange_authorization_code from_slice post provider code verifier ≡ some (ok tokens)
      → let stored =
          store_browser_outcome
            (insert flow
              (taken session flow verifier state.auth_sessions now_secs)
              state.auth_sessions)
            flow
            (arrived tokens) in
        callback_handler from_slice post state params now_secs
        ≡ (with_sessions state stored.0, callback_page stored.1)
  unfolding callback_handler
  callback_handler-page code verifier params now_secs known healthy here waits soon to_flow
        with_code exchange =
      let rest =
        insert flow (taken session flow verifier state.auth_sessions now_secs)
          state.auth_sessions in
      let taken_state = with_sessions state rest in
      ap (λ f. callback_flow from_slice post state params now_secs f) to_flow
      ∙ simp healthy refl
      ∙ ap (λ t. callback_taken from_slice post state params flow t)
          (take_browser_callback-some session flow verifier state.auth_sessions now_secs here waits
            soon)
      ∙ ap (λ c. callback_code from_slice post taken_state flow session.provider verifier c)
          with_code
      ∙ ap (λ p. callback_provider from_slice post taken_state flow code verifier p) known
      ∙ ap (λ a. callback_exchanged taken_state flow a) exchange
      ∙ callback_recorded rest healthy

  -- A callback with a code, for a sign-in that waits for it and within its fifteen minutes, whose
  -- exchange brings tokens, shows the page of success; and a poll of the flow within the fifteen
  -- minutes then ends the sign-in as done under the account's label, if the locks are healthy, the
  -- files can be written and chrono can represent the expiry.
  pub poll-callback_handler :
      (code verifier : Text) (params : Dict Text) (now_secs later now : ℕ) (expires_at : Option ℕ)
      → find_provider session.provider ≡ some provider
      → state.sessions_poisoned ≡ false
      → state.router.vault_poisoned ≡ false
      → state.router.config_poisoned ≡ false
      → lookup flow state.auth_sessions ≡ some session
      → session.kind ≡ browser (some verifier) none
      → (now_secs - session.started_secs) < 900
      → (later - session.started_secs) < 900
      → lookup (codes "state") params ≡ some flow
      → lookup (codes "code") params ≡ some code
      → exchange_authorization_code from_slice post provider code verifier ≡ some (ok tokens)
      → token_expiry after tokens now ≡ some expires_at
      → let (s, page) = callback_handler from_slice post state params now_secs in
        (page ≡ callback_page true)
        × ((poll decode from_slice after post session.provider flow later now true true s).1
            ≡ login_done (account_label decode from_slice tokens))
  poll-callback_handler code verifier params now_secs later now expires_at known healthy vault_free
        config_free here waits soon in_time to_flow with_code exchange expiry =
      let ended =
        callback_handler-page code verifier params now_secs known healthy here waits soon to_flow
          with_code exchange in
      let (stored, found) =
        store_browser_outcome-taken session flow verifier state.auth_sessions now_secs tokens in
      (
        ap (λ p. p.1) ended ∙ ap callback_page stored,
        poll-answered later now (callback_handler from_slice post state params now_secs).0
            expires_at known (ap (λ p. p.0.sessions_poisoned) ended ∙ healthy)
            (ap (λ p. p.0.router.vault_poisoned) ended ∙ vault_free)
            (ap (λ p. p.0.router.config_poisoned) ended ∙ config_free)
            (ap (λ p. lookup flow p.0.auth_sessions) ended ∙ found) in_time expiry,
      )
