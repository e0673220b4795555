-- ===== src/Proxy/Loop/Progress.antt =====
-- src/api/v1.rs: an iteration that goes on has tried one more alias.
use skyport.Prelude.{
  ℕ, ◌≡◌, refl, ◌∙◌, ◌⊎◌, inl, inr, Bool, true, false, Option, none, List, Bool-cases, ℤ, Text,
  Result, ◌>>◌, reject_if, ok, err, pos,
}
use skyport.Vault.Aliases.{aliases}
use skyport.RateLimiter.{RateLimiter, Exceeded, Status, check_scoped}
use skyport.Router.{
  Router, RouteDecision, Outcome, done, panicked, mark_key_failed, mark_key_success,
}
use skyport.Router.Aliases.{mark_key_failed-aliases}
use skyport.Budget.{budget_for}
use skyport.Subscriptions.Refresh.{Refreshing, ensure_fresh_oauth}
use skyport.Subscriptions.Kept.{ensure_fresh_oauth-KeepsAliases}
use skyport.Security.Body.{BodyError, read_limited_body}
use skyport.Proxy.{Admitted}
use skyport.Proxy.Upstream.{
  UpstreamRequest, NetworkError, Reply, answered, unreachable, RequestError, Web, upstream_request,
}
use skyport.Proxy.Loop.{
  Round, Database, usable, poisoned, unreadable, LastError, upstream_status, network, LoopError,
  config_lock_poisoned, LoopState, Step, stop, again, is_local, scoped_limit, is_retried,
  is_success,
}
use skyport.Proxy.Loop.Run.{
  go_on, stop_if_local, log_tokens, read_answer, report_failure, receive, send, with_token,
  within_limit, within_caps, verdict_on, try_key,
}

-- Where the loop goes on, these are the aliases of the vault and those that were attempted.
abbrev pub Keeps : List Text → List Text → LoopState × Step → Type 0
Keeps names attempted (s, stop answer) = Unit {0}
Keeps names attempted (s, again) =
    (aliases s.router.vault.entries ≡ names) × (s.attempted ≡ attempted)

read_answer-Keeps :
    (names attempted : List Text) (web : Web) (decode : Text → Option (List ℕ))
    (after : ℕ → ℤ → Option ℕ) (a : Admitted) (path : Text) (stream : Bool) (round : Round)
    (s : LoopState) (d : RouteDecision) (body : Result BodyError (List ℕ))
    → Keeps names attempted (read_answer web decode after a path stream round s d body)
read_answer-Keeps names attempted web decode after a path stream round s d (err e) = tt
read_answer-Keeps names attempted web decode after a path stream round s d (ok bytes) = tt

module _ (names attempted : List Text) where
  go_on-Keeps :
      (r : Router ℕ) (outcome : Outcome) (s : LoopState) (status : ℕ) (error : LastError)
      → aliases r.vault.entries ≡ names
      → s.attempted ≡ attempted
      → Keeps names attempted (go_on (r, outcome) s status error)
  go_on-Keeps r panicked s status error hr ha = tt
  go_on-Keeps r done s status error hr ha = (hr, ha)

  stop_if_local-Keeps :
      (local : Bool) (e : NetworkError) (r : LoopState × Step)
      → Keeps names attempted r
      → Keeps names attempted (stop_if_local local e r)
  stop_if_local-Keeps true e (s, again) h = tt
  stop_if_local-Keeps true e (s, stop answer) h = tt
  stop_if_local-Keeps false e r h = h

  module _ (web : Web) (decode : Text → Option (List ℕ)) (after : ℕ → ℤ → Option ℕ) (a : Admitted)
      (path : Text) (stream : Bool) (round : Round) where
    Database-cases : (d : Database) → (d ≡ usable) ⊎ ((d ≡ poisoned) ⊎ (d ≡ unreadable))
    Database-cases usable = inl refl
    Database-cases poisoned = inr (inl refl)
    Database-cases unreadable = inr (inr refl)

    attempted-log_tokens :
        (s : LoopState) (alias : Text) (usage : ℤ × ℤ)
        → (log_tokens web decode after a path stream round s alias usage).attempted ≡ s.attempted
    unfolding log_tokens
    attempted-log_tokens s alias (prompt, completion) = elim (Database-cases round.database) [
      | inl e ↦ rw e refl
      | inr (inl e) ↦ rw e refl
      | inr (inr e) ↦ rw e refl
    ]

    report_failure-Keeps :
        (s : LoopState) (d : RouteDecision) (status : ℕ) (retry_after : Option ℕ)
        (error : LastError)
        → aliases s.router.vault.entries ≡ names
        → s.attempted ≡ attempted
        → Keeps names attempted
            (report_failure web decode after a path stream round s d status retry_after error)
    report_failure-Keeps s d status retry_after error hr ha =
        let (r, outcome) =
          mark_key_failed after s.router round.failed_at d.key_alias status retry_after in
        go_on-Keeps r outcome
          (log_tokens web decode after a path stream round s d.key_alias (pos 0, pos 0)) status
          error
          (mark_key_failed-aliases s.router after round.failed_at d.key_alias status retry_after
            ∙ hr)
          (attempted-log_tokens s d.key_alias (pos 0, pos 0) ∙ ha)

    receive-Keeps :
        (s : LoopState) (d : RouteDecision) (reply : Reply)
        → aliases s.router.vault.entries ≡ names
        → s.attempted ≡ attempted
        → Keeps names attempted (receive web decode after a path stream round s d reply)
    unfolding receive
    receive-Keeps s d (unreachable e) hr ha =
        stop_if_local-Keeps (is_local d.key_alias) e
          (report_failure web decode after a path stream round s d 502 none (network e))
          (report_failure-Keeps s d 502 none (network e) hr ha)
    receive-Keeps s d (answered status retry_after content_length chunks) hr ha =
        elim (Bool-cases (is_success status)) [
          | inl good ↦ elim (Bool-cases stream) [
            | inl e ↦ simp (good, e) tt
            | inr e ↦
                simp (good, e)
                  (read_answer-Keeps names attempted web decode after a path false round
                    (record s { router = mark_key_success s.router d.key_alias }) d
                    (read_limited_body content_length chunks 8_388_608))
          ]
          | inr bad ↦ elim (Bool-cases (is_retried status)) [
            | inl e ↦
                simp (bad, e)
                  (report_failure-Keeps s d status retry_after (upstream_status status) hr ha)
            | inr e ↦ simp (bad, e) tt
          ]
        ]

    send-Keeps :
        (s : LoopState) (d : RouteDecision) (request : Result RequestError UpstreamRequest)
        → aliases s.router.vault.entries ≡ names
        → s.attempted ≡ attempted
        → Keeps names attempted (send web decode after a path stream round s d request)
    send-Keeps s d (err e) hr ha = tt
    send-Keeps s d (ok request) hr ha = receive-Keeps s d (round.reply request) hr ha

    with_token-Keeps :
        (s : LoopState) (refreshing : Refreshing)
        → aliases refreshing.0.0.vault.entries ≡ names
        → s.attempted ≡ attempted
        → Keeps names attempted (with_token web decode after a path stream round s refreshing)
    with_token-Keeps s ((r, d), err e) hr ha = tt
    with_token-Keeps s ((r, d), ok _) hr ha =
        send-Keeps (record s { router = r }) d
          (upstream_request web a.provider a.actual_model a.body path stream d) hr ha

    within_limit-Keeps :
        (s : LoopState) (d : RouteDecision) (limited : RateLimiter × Result Exceeded Status)
        → aliases s.router.vault.entries ≡ names
        → s.attempted ≡ attempted
        → Keeps names attempted (within_limit web decode after a path stream round s d limited)
    within_limit-Keeps s d (limiter, err e) hr ha = tt
    within_limit-Keeps s d (limiter, ok _) hr ha =
        with_token-Keeps (record s { limiter = limiter })
          (ensure_fresh_oauth decode web.from_slice round.post after s.router d round.refreshed_at
            round.stored_at round.saved)
          ((ensure_fresh_oauth-KeepsAliases decode web.from_slice round.post after s.router d
              round.refreshed_at round.stored_at round.saved).0
            ∙ hr)
          ha

    within_caps-Keeps :
        (s : LoopState) (d : RouteDecision) (limit : Text × Option ℕ)
        (capped : Result LoopError (Unit {0}))
        → aliases s.router.vault.entries ≡ names
        → s.attempted ≡ attempted
        → Keeps names attempted (within_caps web decode after a path stream round s d limit capped)
    within_caps-Keeps s d limit (err e) hr ha = tt
    within_caps-Keeps s d limit (ok _) hr ha =
        within_limit-Keeps s d (check_scoped s.limiter round.checked_at limit.0 limit.1) hr ha

    pub try_key-Keeps :
        (s : LoopState) (d : RouteDecision)
        → aliases s.router.vault.entries ≡ names
        → s.attempted ≡ attempted
        → Keeps names attempted (try_key web decode after a path stream round s d)
    unfolding try_key
    try_key-Keeps s d hr ha =
        within_caps-Keeps s d
          (scoped_limit a.provider d.key_alias
            (budget_for s.router.config.budgets a.provider d.key_alias))
          (reject_if s.router.config_poisoned config_lock_poisoned
            >> verdict_on web decode after a path stream round s d)
          hr ha
