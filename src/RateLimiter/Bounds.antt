-- ===== src/RateLimiter/Bounds.antt =====
-- src/rate_limiter.rs: what every answer says, when a caller that was turned away may come back,
-- and which windows a call touches.
use mathlib.Core.List.{reverse, reverse-cons}
use mathlib.Core.Option
use skyport.Prelude.{
  ℕ, ◌+◌, ◌-◌, ◌%◌, ◌^◌, ◌≤◌, ◌<◌, ◌≡◌, refl, ap, ◌∙◌, ◌⊎◌, Bool, true, false, ◌&&◌, Option, none,
  some, List, [], ◌∷◌, ◌++◌, arith, ltb, leb, if◌then◌else◌, tests, length, all, filter, take_while,
  length-append, length-filter-le, All, All-imp, Result, is_ok, ok, err,
}
use skyport.RateLimiter.{
  SlidingWindow, Status, Exceeded, second, minute, ago, prune, last_second, check_and_record,
}
use skyport.RateLimiter.Window.{IsSorted, IsSorted-filter, prune-eq-filter, filter-filter-le}

-- What an answer promises, given the window that the call left.
abbrev pub Truthful : Option ℕ → Option ℕ → SlidingWindow → Result Exceeded Status → Type 0
Truthful rpm rps w (err e) =
    (0 < e.retry_after_secs)
    × (e.retry_after_secs ≤ 60)
    × (e.limit_rpm ≡ rpm)
    × ((e.is_burst ≡ false) ⊎ (e.retry_after_secs ≡ 1))
Truthful rpm rps w (ok s) =
    (0 < s.reset_secs)
    × (s.reset_secs ≤ 60)
    × (s.limit_rpm ≡ rpm)
    × (s.remaining_rpm ≡ Option.map (λ limit. limit - length w.requests % 2 ^ 32) rpm)

-- Every answer names the RPM limit it was asked with. A refusal asks for a wait of one to sixty
-- seconds, of one second when it is for a burst; a pass resets in one to sixty seconds and leaves
-- the limit less the requests now in the window, counted modulo 2^32.
pub check_and_record-Truthful :
    (w : SlidingWindow) (now : ℕ) (rpm rps : Option ℕ)
    → let (w', answer) = check_and_record w now rpm rps in Truthful rpm rps w' answer
unfolding check_and_record
check_and_record-Truthful w now none none = ground arith
check_and_record-Truthful w now none (some n) = ground arith
check_and_record-Truthful w now (some m) none = ground arith
check_and_record-Truthful w now (some m) (some n) = ground arith

-- how many requests are at least as late as `cut`
abbrev pub since : ℕ → List ℕ → ℕ
since cut ts = length (filter (λ t. leb cut t) ts)

-- whether a count is below a limit, if there is one
abbrev pub under : ℕ → Option ℕ → Bool
under n none = true
under n (some limit) = ltb n limit

length-take_while-concat :
    (p : ℕ → Bool) (ts : List ℕ) (u : ℕ)
    → length (take_while p (ts ++ u ∷ []))
      ≡ (if all p ts then length ts + (if p u then 1 else 0) else length (take_while p ts))
length-take_while-concat p [] u = ground arith
length-take_while-concat p (t ∷ ts) u = ground (arith, length-take_while-concat p ts u)

all-append : (p : ℕ → Bool) (ts us : List ℕ) → all p (ts ++ us) ≡ (all p ts && all p us)
all-append p [] us = refl
all-append p (t ∷ ts) us = ground (arith, all-append p ts us)

all-reverse : (p : ℕ → Bool) (ts : List ℕ) → all p (reverse ts) ≡ all p ts
all-reverse p [] = refl
all-reverse p (t ∷ ts) = rw (reverse-cons, all-append, all-reverse p ts) (ground arith)

length-reverse : (ts : List ℕ) → length (reverse ts) ≡ length ts
length-reverse [] = refl
length-reverse (t ∷ ts) = rw (reverse-cons, length-append) (omega (arith, length-reverse ts))

all_late : (cut : ℕ) (ts : List ℕ) → All (λ u. cut ≤ u) ts → all (λ t. leb cut t) ts ≡ true
all_late cut [] h = refl
all_late cut (t ∷ ts) (p, h) = ground (arith, all_late cut ts h)

since-all : (cut : ℕ) (ts : List ℕ) → all (λ t. leb cut t) ts ≡ true → since cut ts ≡ length ts
since-all cut [] h = refl
since-all cut (t ∷ ts) h = ground (arith, since-all cut ts)

-- On sorted requests the backward scan counts every request of the last second.
length-last_second :
    (now : ℕ) (ts : List ℕ) → IsSorted ts → length (last_second now ts) ≡ since (ago now second) ts
unfolding last_second
length-last_second now [] s = refl
length-last_second now (t ∷ ts) (lo, s) =
    let cut = ago now second in
    let late : leb cut t ≡ true → all (λ u. leb cut u) ts ≡ true =
      λ e. all_late cut ts (All-imp _ _ ts (λ u p. omega tests) lo) in
    rw (reverse-cons, length-take_while-concat _ (reverse ts) t, all-reverse, length-reverse)
      (ground (arith, length-last_second now ts s, late, since-all cut ts))

length-prune :
    (now : ℕ) (ts : List ℕ)
    → IsSorted ts
    → minute ≤ now
    → (length (prune (ago now minute) ts) ≡ since (now - minute) ts)
      × (length (last_second now (prune (ago now minute) ts)) ≡ since (now - second) ts)
length-prune now ts s late =
    let m : ago now minute ≡ now - minute = ground arith in
    let n : ago now second ≡ now - second = ground arith in
    rw (m, prune-eq-filter (now - minute) ts s)
      (
        refl,
        length-last_second now _ (IsSorted-filter _ ts s)
            ∙ rw n (ap length (filter-filter-le (now - minute) (now - second) ts (omega arith))),
      )

small : (n : ℕ) → n < 2 ^ 32 → n % 2 ^ 32 ≡ n
small n h = omega arith

verdict :
    (w : SlidingWindow) (now : ℕ) (rpm rps : Option ℕ)
    → let kept = prune (ago now minute) w.requests in
      is_ok (check_and_record w now rpm rps).1
      ≡ (under (length kept % 2 ^ 32) rpm && under (length (last_second now kept) % 2 ^ 32) rps)
unfolding check_and_record
verdict w now none none = ground arith
verdict w now none (some n) = ground arith
verdict w now (some m) none = ground arith
verdict w now (some m) (some n) = ground arith

-- On sorted requests, fewer of them than 2^32, and a clock at least sixty seconds past its origin,
-- a call is let through exactly when the requests of the last sixty seconds are below the RPM
-- limit and those of the last second below the RPS limit, where these are set.
pub is_ok-check_and_record :
    (w : SlidingWindow) (now : ℕ) (rpm rps : Option ℕ)
    → IsSorted w.requests
    → length w.requests < 2 ^ 32
    → minute ≤ now
    → is_ok (check_and_record w now rpm rps).1
      ≡ (under (since (now - minute) w.requests) rpm && under (since (now - second) w.requests) rps)
is_ok-check_and_record w now rpm rps s fits late =
    let (a, b) = length-prune now w.requests s late in
    let la = length-filter-le (λ t. leb (now - minute) t) w.requests in
    let lb = length-filter-le (λ t. leb (now - second) t) w.requests in
    verdict w now rpm rps
    ∙ rw (
      a,
      b,
      small (since (now - minute) w.requests) (omega arith),
      small (since (now - second) w.requests) (omega arith),
    )
