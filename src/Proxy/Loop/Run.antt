-- ===== src/Proxy/Loop/Run.antt =====
-- src/api/v1.rs: one iteration of the loop of `proxy`, and the loop over the rounds that it meets.
use skyport.Prelude.{
  ℕ, ◌-◌, ◌^◌, Bool, true, false, not, ◌&&◌, Option, none, some, List, [], ◌∷◌, if◌then◌else◌, ℤ,
  Text, codes, Result, ◌>>◌, reject_if, ok, err, pos,
}
use mathlib.Core.Option.{get_or}
use skyport.Json.{Json, str, obj, field, end}
use skyport.RateLimiter.{RateLimiter, Exceeded, Status, check_scoped}
use skyport.Router.{
  Router, RouteDecision, RouteError, Outcome, done, panicked, select_key, mark_key_failed,
  mark_key_success,
}
use skyport.Budget.{budget_for, budget_verdict, charge}
use skyport.Subscriptions.Refresh.{Refreshing, ensure_fresh_oauth}
use skyport.Security.Body.{BodyError, read_limited_body}
use skyport.Translate.Answers.{translate_answer}
use skyport.Proxy.{Admitted}
use skyport.Proxy.Upstream.{
  UpstreamRequest, NetworkError, Reply, answered, unreachable, RequestError, Web, upstream_request,
  usage_from_payload, at_least_zero,
}
use skyport.Proxy.Loop.{
  Round, usable, poisoned, unreadable, LastError, upstream_status, network, LoopError,
  no_available_key, upstream_error, config_lock_poisoned, rate_limit_exceeded, oauth_refresh_failed,
  bad_request, upstream_response_too_large, connection_error, handler_panicked, Answer, served,
  streamed, passed_on, refused, LoopState, Step, stop, again, contains, is_local, completion_bound,
  is_capped, check_caps, scoped_limit, is_retried, is_success,
}

-- After the report of a failure the loop goes on, unless the report panicked.
abbrev pub go_on : Router ℕ × Outcome → LoopState → ℕ → LastError → LoopState × Step
go_on (r, panicked) s status error = (record s { router = r }, stop (refused handler_panicked))
go_on (r, done) s status error =
    (record s { router = r; last_status = status; last_error = error }, again)

-- A local provider that cannot be reached is not tried again.
abbrev pub stop_if_local : Bool → NetworkError → LoopState × Step → LoopState × Step
stop_if_local true e (s, again) = (s, stop (refused (connection_error e)))
stop_if_local true e (s, stop answer) = (s, stop answer)
stop_if_local false e step = step

abbrev pub follow :
    (LoopState → LoopState × Option Answer) → LoopState × Step → LoopState × Option Answer
follow next (s, stop answer) = (s, some answer)
follow next (s, again) = next s

-- `attempted.insert(..)`
abbrev pub insert_alias : Text → List Text → List Text
insert_alias alias attempted = if contains alias attempted then attempted else alias ∷ attempted

-- `HashSet::insert` answers whether the alias is new
abbrev pub is_exhausted : Text → List Text → Bool
is_exhausted alias attempted = contains alias attempted && not (is_local alias)

abbrev pub invalid_json : Json
invalid_json = obj (
    field (codes "error")
      (obj (
        field (codes "message") (str (codes "Upstream returned invalid JSON"))
          (field (codes "type") (str (codes "api_error")) end)))
      end)

module _ (web : Web) (decode : Text → Option (List ℕ)) (after : ℕ → ℤ → Option ℕ) (a : Admitted)
    (path : Text) (stream : Bool) (round : Round) where
  -- `log_response` and `log_tokens`: the charge, if the database can be used
  unfoldable pub log_tokens : LoopState → Text → ℤ × ℤ → LoopState
  log_tokens s alias (prompt, completion) = elim round.database [
    | usable ↦ record s {
      rows =
          charge s.rows round.month round.day a.provider alias (at_least_zero prompt)
            (at_least_zero completion);
    }
    | poisoned ↦ s
    | unreadable ↦ s
  ]

  abbrev pub read_answer : LoopState → RouteDecision → Result BodyError (List ℕ) → LoopState × Step
  read_answer s d (err e) = (s, stop (refused (upstream_response_too_large e)))
  read_answer s d (ok bytes) =
      let payload =
        translate_answer d.format web.uuid web.timestamp
          (get_or (web.from_slice bytes) invalid_json) in
      (log_tokens s d.key_alias (usage_from_payload payload), stop (served payload))

  abbrev pub report_failure :
      LoopState → RouteDecision → ℕ → Option ℕ → LastError → LoopState × Step
  report_failure s d status retry_after error =
      go_on (mark_key_failed after s.router round.failed_at d.key_alias status retry_after)
        (log_tokens s d.key_alias (pos 0, pos 0)) status error

  unfoldable pub receive : LoopState → RouteDecision → Reply → LoopState × Step
  unfolding log_tokens
  receive s d (unreachable e) =
      stop_if_local (is_local d.key_alias) e (report_failure s d 502 none (network e))
  receive s d (answered status retry_after content_length chunks) =
      if is_success status
      then (if stream
          then (record s { router = mark_key_success s.router d.key_alias }, stop streamed)
          else read_answer (record s { router = mark_key_success s.router d.key_alias }) d
              (read_limited_body content_length chunks 8_388_608))
      else if is_retried status
      then report_failure s d status retry_after (upstream_status status)
      else (log_tokens s d.key_alias (pos 0, pos 0), stop (passed_on status))

  abbrev pub send :
      LoopState → RouteDecision → Result RequestError UpstreamRequest → LoopState × Step
  send s d (err e) = (s, stop (refused (bad_request e)))
  send s d (ok request) = receive s d (round.reply request)

  abbrev pub with_token : LoopState → Refreshing → LoopState × Step
  with_token s ((r, d), err e) = (record s { router = r }, stop (refused (oauth_refresh_failed e)))
  with_token s ((r, d), ok _) =
      send (record s { router = r }) d
        (upstream_request web a.provider a.actual_model a.body path stream d)

  abbrev pub within_limit :
      LoopState → RouteDecision → RateLimiter × Result Exceeded Status → LoopState × Step
  within_limit s d (limiter, err e) =
      (record s { limiter = limiter }, stop (refused (rate_limit_exceeded e)))
  within_limit s d (limiter, ok _) =
      with_token (record s { limiter = limiter })
        (ensure_fresh_oauth decode web.from_slice round.post after s.router d round.refreshed_at
          round.stored_at round.saved)

  abbrev pub within_caps :
      LoopState → RouteDecision → Text × Option ℕ → Result LoopError (Unit {0}) → LoopState × Step
  within_caps s d limit (err e) = (s, stop (refused e))
  within_caps s d limit (ok _) =
      within_limit s d (check_scoped s.limiter round.checked_at limit.0 limit.1)

  abbrev pub verdict_on : LoopState → RouteDecision → Result LoopError (Unit {0})
  verdict_on s d =
      let budgets = s.router.config.budgets in
      check_caps
        (budget_verdict budgets s.rows round.month round.day a.provider d.key_alias
          (get_or (web.json_len a.body) (2 ^ 64 - 1)) (completion_bound a.body))
        (is_capped (budget_for budgets a.provider d.key_alias)) round.database

  unfoldable pub try_key : LoopState → RouteDecision → LoopState × Step
  unfolding budget_for
  try_key s d =
      within_caps s d
        (scoped_limit a.provider d.key_alias
          (budget_for s.router.config.budgets a.provider d.key_alias))
        (do reject_if s.router.config_poisoned config_lock_poisoned; verdict_on s d)

  abbrev pub with_key : LoopState → Router ℕ × Result RouteError RouteDecision → LoopState × Step
  with_key s (r, err e) =
      (record s { router = r }, stop (refused (no_available_key s.last_status e)))
  with_key s (r, ok d) =
      if is_exhausted d.key_alias s.attempted
      then (record s { router = r }, stop (refused (upstream_error s.last_status s.last_error)))
      else try_key (record s { router = r; attempted = insert_alias d.key_alias s.attempted }) d

  unfoldable pub iterate : LoopState → LoopState × Step
  unfolding select_key try_key
  iterate s = with_key s (select_key s.router round.selected_at a.provider)

module _ (web : Web) (decode : Text → Option (List ℕ)) (after : ℕ → ℤ → Option ℕ) (a : Admitted)
    (path : Text) (stream : Bool) where
  -- the loop, as long as there are rounds
  unfoldable pub run : List Round → LoopState → LoopState × Option Answer
  unfolding iterate
  run [] s = (s, none)
  run (round ∷ rounds) s = follow (run rounds) (iterate web decode after a path stream round s)
