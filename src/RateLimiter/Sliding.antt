-- ===== src/RateLimiter/Sliding.antt =====
-- src/rate_limiter.rs: the requests that a run of calls lets through, and how many of them any
-- interval of sixty seconds can hold.
use mathlib.Core.List.{append-nil, append_assoc}
use skyport.Prelude.{
  ℕ, ◌+◌, ◌-◌, ◌%◌, ◌^◌, ◌≤◌, ◌<◌, ◌≡◌, refl, ap, ◌∙◌, inl, inr, Bool, true, ◌&&◌, Option, some,
  List, [], ◌∷◌, ◌++◌, arith, leb, if◌then◌else◌, Bool-cases, length, filter, length-append,
  filter-append, All, All-concat, length-filter_mono, filter_congr, All-imp, is_ok,
}
use skyport.RateLimiter.{SlidingWindow, new_window, minute, ago, prune, check_and_record}
use skyport.RateLimiter.Window.{
  IsSorted, IsSorted-concat, IsSorted-filter, prune-eq-filter, filter-filter-le,
  requests-check_and_record, check_and_record-lt,
}

-- A call is the instant at which it is made and the burst limit that it is made with.
abbrev pub Call : Type 0
Call = ℕ × Option ℕ

-- the window after a run of calls, and the instants of those that were answered `Ok`
unfoldable pub run : ℕ → SlidingWindow → List Call → SlidingWindow × List ℕ
run limit w [] = (w, [])
run limit w ((now, rps) ∷ calls) =
    let (w', r) = check_and_record w now (some limit) rps in
    let (w'', later) = run limit w' calls in (w'', if is_ok r then now ∷ later else later)

-- The clock does not run backwards.
abbrev pub Ascending : ℕ → List Call → Type 0
Ascending from [] = Unit
Ascending from ((now, rps) ∷ calls) = (from ≤ now) × Ascending now calls

-- the interval of sixty seconds that begins at `from`, both ends included
abbrev pub within : ℕ → ℕ → Bool
within from t = leb from t && leb t (from + minute)

-- What a run has let through so far, against the window that it left.
record Tracks (limit cut last : ℕ) (w : SlidingWindow) (accepted : List ℕ) : Type 0 where
  sorted : IsSorted accepted
  past : All (λ t. t ≤ last) accepted
  window : w.requests ≡ filter (λ t. leb cut t) accepted
  reach : cut + minute ≤ last
  bounded : (from : ℕ) → length (filter (within from) accepted) ≤ limit

module _ {limit cut last : ℕ} {w : SlidingWindow} {accepted : List ℕ}
    (h : Tracks limit cut last w accepted) (now : ℕ) (later : last ≤ now) where
  pruned : prune (ago now minute) w.requests ≡ filter (λ t. leb (now - minute) t) accepted
  pruned =
      let e : ago now minute ≡ now - minute = ground (arith, h.reach) in
      rw (e, h.window, prune-eq-filter _ _ (IsSorted-filter _ accepted h.sorted))
        (filter-filter-le cut (now - minute) accepted (omega (arith, h.reach)))

  past_now : All (λ t. t ≤ now) accepted
  past_now = All-imp _ _ accepted (λ t p. omega arith) h.past

  -- What the window holds lies within the sixty seconds before `now`.
  few : length (filter (λ t. leb (now - minute) t) accepted) ≤ limit
  few =
      let same : filter (λ t. leb (now - minute) t) accepted
          ≡ filter (within (now - minute)) accepted =
        filter_congr _ _ accepted
          (All-imp _ _ accepted (λ t p. ground (arith, h.reach)) past_now) in
      rw same (h.bounded (now - minute))

  Tracks-blocked :
      (w' : SlidingWindow)
      → w'.requests ≡ prune (ago now minute) w.requests
      → Tracks limit (now - minute) now w' accepted
  Tracks-blocked w' e = record {
    sorted = h.sorted;
    past = past_now;
    window = e ∙ pruned;
    reach = omega (arith, h.reach);
    bounded = h.bounded;
  }

  bounded_push :
      length (filter (λ t. leb (now - minute) t) accepted) < limit
      → (from : ℕ) → length (filter (within from) (accepted ++ now ∷ [])) ≤ limit
  bounded_push lt from = elim (Bool-cases (within from now)) [
    | inl e ↦
        rw (filter-append, length-append, e)
          (omega (
            arith,
            length-filter_mono (within from) (λ t. leb (now - minute) t) accepted
                (λ t p. ground arith),
          ))
    | inr e ↦ rw (filter-append, length-append, e) (omega (arith, h.bounded from))
  ]

  Tracks-accepted :
      (w' : SlidingWindow)
      → w'.requests ≡ prune (ago now minute) w.requests ++ now ∷ []
      → length (prune (ago now minute) w.requests) % 2 ^ 32 < limit
      → limit < 2 ^ 32
      → Tracks limit (now - minute) now w' (accepted ++ now ∷ [])
  Tracks-accepted w' e lt fits = record {
    sorted = IsSorted-concat accepted now h.sorted past_now;
    past = All-concat _ accepted past_now (omega arith);
    window =
        let keep : leb (now - minute) now ≡ true = ground arith in
        rw (e, pruned, filter-append, keep);
    reach = omega (arith, h.reach);
    bounded = bounded_push (omega (arith, few, ap length pruned));
  }

-- Whatever the window has let through stays bounded, with what the calls add to it.
run-Tracks :
    (calls : List Call) (limit : ℕ) {cut last : ℕ} {w : SlidingWindow} {accepted : List ℕ}
    → limit < 2 ^ 32
    → Tracks limit cut last w accepted
    → Ascending last calls
    → (from : ℕ) → length (filter (within from) (accepted ++ (run limit w calls).1)) ≤ limit
unfolding run
run-Tracks [] limit {accepted} fits h up from = rw append-nil (h.bounded from)
run-Tracks ((now, rps) ∷ calls) limit {w} {accepted} fits h (later, up) from =
    let (w', r) = check_and_record w now (some limit) rps in
    elim (Bool-cases (is_ok r)) [
      | inl e ↦
          let t =
            Tracks-accepted h now later w' (requests-check_and_record w now (some limit) rps ∙ rw e)
              (check_and_record-lt w now limit rps e) fits in
          rw e (rw append_assoc at (run-Tracks calls limit fits t up from))
      | inr e ↦
          let t =
            Tracks-blocked h now later w'
              (requests-check_and_record w now (some limit) rps ∙ rw e) in
          rw e (run-Tracks calls limit fits t up from)
    ]

-- A new window that is asked at instants that do not decrease, the first at least sixty seconds
-- after the clock's origin, each time with the same limit below 2^32 and any burst limit: however
-- long the run, no interval of sixty seconds holds more than `limit` of the requests let through.
pub run-le-limit :
    (limit : ℕ) (calls : List Call) (from : ℕ)
    → limit < 2 ^ 32
    → Ascending minute calls
    → length (filter (within from) (run limit new_window calls).1) ≤ limit
run-le-limit limit calls from fits up =
    run-Tracks calls limit {cut = 0} {last = minute} {w = new_window} {accepted = []} fits
      (record {
        sorted = tt;
        past = tt;
        window = refl;
        reach = omega arith;
        bounded = λ x. omega arith;
      })
      up from
