-- ===== src/RateLimiter/Retry.antt =====
-- src/rate_limiter.rs: a caller that waits longer than its answer says is let through; a call on
-- one scope leaves the others alone; a clock that began less than a minute ago.
use skyport.Prelude.{
  ℕ, ◌+◌, ◌-◌, ◌*◌, ◌^◌, ◌≤◌, ◌<◌, ◌≡◌, refl, sym, ap, ◌∙◌, inl, inr, true, Option, none, some,
  List, [], ◌∷◌, arith, leb, if◌then◌else◌, leb→le, tests, List-cases, length, filter,
  length-filter-le, All, All-filter, All-filter_self, lookup-insert, Text, text_eq, is_ok, err,
}
use skyport.RateLimiter.{
  SlidingWindow, RateLimiter, Exceeded, second, minute, ago, wait_secs, prune, check_and_record,
  check_scoped, window_of,
}
use skyport.RateLimiter.Window.{
  IsSorted, IsSorted-filter, prune-eq-filter, requests-check_and_record,
}
use skyport.RateLimiter.Bounds.{is_ok-check_and_record}

-- What an RPM refusal says of the requests that it leaves.
blocked :
    (w : SlidingWindow) (now limit : ℕ) (e : Exceeded)
    → 0 < limit
    → (check_and_record w now (some limit) none).1 ≡ err e
    → (t : ℕ) × (ts : List ℕ) × ((check_and_record w now (some limit) none).0.requests ≡ t ∷ ts)
      × (prune (ago now minute) w.requests ≡ t ∷ ts)
      × (e.retry_after_secs ≡ wait_secs 60 now t)
unfolding check_and_record
blocked w now limit e pos h = elim (List-cases (prune (ago now minute) w.requests)) [
  | inl n ↦ absurd (ground arith)
  | inr (t, ts, p) ↦ (t, ts, ground arith, p, ground arith)
]

-- Once the wait is over, the oldest request has left the window.
waited :
    (now now' t : ℕ)
    → t ≤ now
    → now ≤ t + minute
    → now + wait_secs 60 now t * second < now'
    → t < now' - minute
waited now now' t past kept over = omega arith

-- A window with no more requests than the limit, none of them after `now`, that turned a request
-- away for the RPM limit: a request made later than `retry_after_secs` seconds after that, the
-- next on this window, is let through.
pub retry-is_ok :
    (w : SlidingWindow) (now now' limit : ℕ) (e : Exceeded)
    → IsSorted w.requests
    → All (λ t. t ≤ now) w.requests
    → length w.requests ≤ limit
    → 0 < limit
    → limit < 2 ^ 32
    → minute ≤ now
    → (check_and_record w now (some limit) none).1 ≡ err e
    → now + e.retry_after_secs * second < now'
    → is_ok (check_and_record (check_and_record w now (some limit) none).0 now' (some limit) none).1
      ≡ true
retry-is_ok w now now' limit e s past few pos fits late h over =
    let (t, ts, left, kept, wait) = blocked w now limit e pos h in
    let m : ago now minute ≡ now - minute = ground arith in
    let ks : filter (λ u. leb (now - minute) u) w.requests ≡ t ∷ ts =
      sym (prune-eq-filter _ w.requests s) ∙ (rw m at kept) in
    let sorted : IsSorted (t ∷ ts) =
      rw ks at (IsSorted-filter (λ u. leb (now - minute) u) w.requests s) in
    let tp : All (λ u. u ≤ now) (t ∷ ts) =
      rw ks at (All-filter _ (λ u. leb (now - minute) u) w.requests past) in
    let inside : All (λ u. leb (now - minute) u ≡ true) (t ∷ ts) =
      rw ks at (All-filter_self (λ u. leb (now - minute) u) w.requests) in
    let tk : now ≤ t + minute = omega (tests, leb→le _ _ inside.0) in
    let n : length (t ∷ ts) ≤ limit =
      omega (arith, ap length ks, length-filter-le (λ u. leb (now - minute) u) w.requests) in
    let gone : t < now' - minute = waited now now' t tp.0 tk (rw wait at over) in
    is_ok-check_and_record (check_and_record w now (some limit) none).0 now' (some limit) none
      (rw left sorted) (rw left (omega arith)) (omega arith)
    ∙ rw left (ground (arith, gone, length-filter-le (λ u. leb (now' - minute) u) ts))

-- A call on one scope answers from, and changes, the window of that scope alone: it is the window
-- that the call left, and every other scope and the global window are as they were.
pub check_scoped-window_of :
    (r : RateLimiter) (now limit : ℕ) (scope other : Text)
    → let (r', answer) = check_scoped r now scope (some limit) in
      let (w', expected) = check_and_record (window_of r scope) now (some limit) none in
      (answer ≡ expected)
      × (window_of r' other ≡ (if text_eq scope other then w' else window_of r other))
      × (r'.global ≡ r.global)
unfolding check_scoped
check_scoped-window_of r now limit scope other = (refl, rw lookup-insert (ground arith), refl)

prune-All : (cut : ℕ) (ts : List ℕ) → All (λ t. t < cut) ts → prune cut ts ≡ []
unfolding prune
prune-All cut [] h = refl
prune-All cut (t ∷ ts) (p, h) = ground (arith, prune-All cut ts h)

-- A clock less than a minute past its origin: the cut falls back to `now`, and every request made
-- earlier is forgotten.
pub prune_early :
    (w : SlidingWindow) (now : ℕ) (rpm rps : Option ℕ)
    → now < minute
    → All (λ t. t < now) w.requests
    → (check_and_record w now rpm rps).0.requests
      ≡ (if is_ok (check_and_record w now rpm rps).1 then now ∷ [] else [])
prune_early w now rpm rps early past =
    let m : ago now minute ≡ now = ground arith in
    requests-check_and_record w now rpm rps ∙ rw (m, prune-All now w.requests past) (ground arith)
