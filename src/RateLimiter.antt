-- ===== src/RateLimiter.antt =====
-- src/rate_limiter.rs. An `Instant` is the number of nanoseconds since the clock's origin; a
-- `VecDeque` is a list, its front first; `as u32` is written out as `% 2 ^ 32`.
mod Window
pub mod Sliding
pub mod Retry
pub mod Bounds
use mathlib.Core.List.{reverse, get_last?}
use mathlib.Core.Option.{get_or}
use skyport.Prelude.{
  ℕ, ◌-◌, ◌/◌, ◌%◌, ◌^◌, max, Bool, true, false, Option, none, some, List, [], ◌∷◌, ◌++◌, ltb, leb,
  if◌then◌else◌, length, take_while, Dict, lookup, insert, Text, Result, ok, err,
}

abbrev pub second : ℕ
second = 1_000_000_000

abbrev pub minute : ℕ
minute = 60_000_000_000

pub record Status : Type 0 where
  pub limit_rpm : Option ℕ
  pub remaining_rpm : Option ℕ
  pub reset_secs : ℕ

pub record Exceeded : Type 0 where
  pub limit_rpm : Option ℕ
  pub limit_rps : Option ℕ
  pub retry_after_secs : ℕ
  pub is_burst : Bool

pub record SlidingWindow : Type 0 where
  pub requests : List ℕ

abbrev pub new_window : SlidingWindow
new_window = record { requests = [] }

-- `now.checked_sub(d).unwrap_or(now)`: an instant before the clock's origin cannot be represented.
abbrev pub ago : ℕ → ℕ → ℕ
ago now d = if leb d now then now - d else now

-- the `while let` loop that pops the front
unfoldable pub prune : ℕ → List ℕ → List ℕ
prune cut [] = []
prune cut (first ∷ rest) =
    let popped = prune cut rest in if ltb first cut then popped else first ∷ rest

-- `requests.iter().rev().take_while(|t| t >= one_sec_ago)`
unfoldable pub last_second : ℕ → List ℕ → List ℕ
last_second now requests = take_while (λ t. leb (ago now second) t) (reverse requests)

-- `n.saturating_sub(now.duration_since(t).as_secs()).max(1)`
abbrev pub wait_secs : ℕ → ℕ → ℕ → ℕ
wait_secs n now t = max (n - (now - t) / second) 1

-- the RPS check: `some` is the early return
unfoldable pub check_rps : List ℕ → ℕ → Option ℕ → Option ℕ → Option Exceeded
unfolding last_second
check_rps requests now max_rpm none = none
check_rps requests now max_rpm (some rps_limit) =
    let recent = last_second now requests in
    if leb rps_limit (length recent % 2 ^ 32)
    then some (record {
      limit_rpm = max_rpm;
      limit_rps = some rps_limit;
      retry_after_secs = wait_secs 1 now (get_or (get_last? recent) now);
      is_burst = true;
    })
    else none

abbrev pub front : List ℕ → Option ℕ
front [] = none
front (t ∷ ts) = some t

-- the RPM check
unfoldable pub check_rpm : List ℕ → ℕ → Option ℕ → Option ℕ → Option Exceeded
check_rpm requests now none max_rps = none
check_rpm requests now (some rpm_limit) max_rps =
    if leb rpm_limit (length requests % 2 ^ 32)
    then some (record {
      limit_rpm = some rpm_limit;
      limit_rps = max_rps;
      retry_after_secs = wait_secs 60 now (get_or (front requests) now);
      is_burst = false;
    })
    else none

-- the end of `check_and_record`, on the requests with `now` pushed
unfoldable pub status : List ℕ → ℕ → Option ℕ → Status
status requests now max_rpm = record {
  limit_rpm = max_rpm;
  remaining_rpm = elim max_rpm [
    | none ↦ none
    | some limit ↦ some (limit - length requests % 2 ^ 32)
  ];
  reset_secs = elim (front requests) [ none ↦ 60 | some oldest ↦ wait_secs 60 now oldest ];
}

unfoldable pub check_and_record :
    SlidingWindow → ℕ → Option ℕ → Option ℕ → SlidingWindow × Result Exceeded Status
unfolding prune check_rps check_rpm status
check_and_record w now max_rpm max_rps =
    let kept = prune (ago now minute) w.requests in
    elim (check_rps kept now max_rpm max_rps) [
      | some burst ↦ (record { requests = kept }, err burst)
      | none ↦ elim (check_rpm kept now max_rpm max_rps) [
        | some over ↦ (record { requests = kept }, err over)
        | none ↦
            let recorded = kept ++ now ∷ [] in
            (record { requests = recorded }, ok (status recorded now max_rpm))
      ]
    ]

-- The engine. The mutex of a window is held for the whole of a call, so a call is one step; `now`
-- is the instant that the call reads.
pub record RateLimiter : Type 0 where
  pub global : SlidingWindow
  pub scoped : Dict SlidingWindow

abbrev pub new : RateLimiter
new = record { global = new_window; scoped = [] }

-- the answer where no limit is configured
abbrev pub unlimited : Status
unlimited = record { limit_rpm = none; remaining_rpm = none; reset_secs = 0 }

unfoldable pub check_global :
    RateLimiter → ℕ → Option ℕ → Option ℕ → RateLimiter × Result Exceeded Status
check_global limiter now none none = (limiter, ok unlimited)
check_global limiter now max_rpm max_rps =
    let (window, answer) = check_and_record limiter.global now max_rpm max_rps in
    (record limiter { global = window }, answer)

-- `entry(scope).or_insert_with(SlidingWindow::new)`
abbrev pub window_of : RateLimiter → Text → SlidingWindow
window_of limiter scope = get_or (lookup scope limiter.scoped) new_window

unfoldable pub check_scoped :
    RateLimiter → ℕ → Text → Option ℕ → RateLimiter × Result Exceeded Status
check_scoped limiter now scope none = (limiter, ok unlimited)
check_scoped limiter now scope (some rpm_limit) =
    let (window, answer) = check_and_record (window_of limiter scope) now (some rpm_limit) none in
    (record limiter { scoped = insert scope window limiter.scoped }, answer)
