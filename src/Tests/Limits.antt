-- ===== src/Tests/Limits.antt =====
-- src/rate_limiter.rs on concrete requests.
use skyport.Prelude.{
  ℕ, ◌+◌, ◌*◌, ◌≤◌, ◌≡◌, refl, false, ◌&&◌, Option, none, some, List, [], ◌∷◌, arith, length,
  filter, is_ok, err,
}
use skyport.RateLimiter.{SlidingWindow, Exceeded, second, minute, new_window, check_and_record}
use skyport.RateLimiter.Sliding.{run, within, run-le-limit}
use skyport.RateLimiter.Bounds.{since, under, is_ok-check_and_record}

-- Three requests in a minute, and one after it.
abbrev calls : List (ℕ × Option ℕ)
calls =
    (minute, none)
    ∷ (minute + 2 * second, none)
    ∷ (minute + 3 * second, none)
    ∷ (2 * minute + second, none)
    ∷ []

run_test : (run 2 new_window calls).1 ≡ minute ∷ (minute + 2 * second) ∷ (2 * minute + second) ∷ []
unfolding check_and_record run
run_test = refl

run-le-limit_example : length (filter (within (minute + second)) (run 2 new_window calls).1) ≤ 2
run-le-limit_example =
    run-le-limit 2 calls (minute + second) (omega arith)
      (omega arith, (omega arith, (omega arith, (omega arith, tt))))

-- A window with two requests.
abbrev two : SlidingWindow
two = record { requests = minute ∷ (minute + 2 * second) ∷ [] }

is_ok-check_and_record_example :
    is_ok (check_and_record two (minute + 5 * second) (some 2) (some 1)).1 ≡ (
      under (since (5 * second) two.requests) (some 2)
      && under (since (minute + 4 * second) two.requests) (some 1))
is_ok-check_and_record_example =
    is_ok-check_and_record two (minute + 5 * second) (some 2) (some 1) ((omega arith, tt), (tt, tt))
      (omega arith) (omega arith)

-- The refusal of a third request five seconds after the first.
abbrev refusal : Exceeded
refusal = record { limit_rpm = some 2; limit_rps = none; retry_after_secs = 55; is_burst = false }

refused : (check_and_record two (minute + 5 * second) (some 2) none).1 ≡ err refusal
unfolding check_and_record
refused = refl

-- Two requests in the first two seconds of the clock.
abbrev early : SlidingWindow
early = record { requests = second ∷ (2 * second) ∷ [] }
