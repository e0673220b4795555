-- ===== src/RateLimiter/Window.antt =====
-- src/rate_limiter.rs: on sorted requests the loop that pops the front is a filter, and what the
-- window holds after one call.
use skyport.Prelude.{
  ℕ, ◌%◌, ◌^◌, ◌≤◌, ◌<◌, ◌≡◌, refl, Bool, true, Option, some, List, [], ◌∷◌, ◌++◌, is_ok, arith,
  leb, length, filter, All, All-concat, All-filter, All-imp, Bool-cases, inl, inr, if◌then◌else◌,
}
use skyport.RateLimiter.{SlidingWindow, minute, ago, prune, check_and_record}

abbrev pub IsSorted : List ℕ → Type 0
IsSorted [] = Unit
IsSorted (t ∷ ts) = All (λ u. t ≤ u) ts × IsSorted ts

pub IsSorted-concat :
    (ts : List ℕ) (u : ℕ) → IsSorted ts → All (λ t. t ≤ u) ts → IsSorted (ts ++ u ∷ [])
IsSorted-concat [] u s h = (tt, tt)
IsSorted-concat (t ∷ ts) u (lo, s) (p, h) = (All-concat _ ts lo p, IsSorted-concat ts u s h)

-- nothing is dropped where every request is late enough
filter-All : (cut : ℕ) (ts : List ℕ) → All (λ u. cut ≤ u) ts → filter (λ t. leb cut t) ts ≡ ts
filter-All cut [] h = refl
filter-All cut (t ∷ ts) (p, h) = ground (arith, filter-All cut ts h)

pub prune-eq-filter :
    (cut : ℕ) (ts : List ℕ) → IsSorted ts → prune cut ts ≡ filter (λ t. leb cut t) ts
unfolding prune
prune-eq-filter cut [] s = refl
prune-eq-filter cut (t ∷ ts) (lo, s) = ground (
  arith,
  prune-eq-filter cut ts s,
  λ (h : cut ≤ t). filter-All cut ts (All-imp _ _ ts (λ u p. omega arith) lo),
)

-- Filtering by a later cut forgets an earlier one.
pub filter-filter-le :
    (a b : ℕ) (ts : List ℕ)
    → a ≤ b
    → filter (λ t. leb b t) (filter (λ t. leb a t) ts) ≡ filter (λ t. leb b t) ts
filter-filter-le a b [] h = refl
filter-filter-le a b (t ∷ ts) h = ground (arith, filter-filter-le a b ts h)

pub IsSorted-filter : (p : ℕ → Bool) (ts : List ℕ) → IsSorted ts → IsSorted (filter p ts)
IsSorted-filter p [] s = tt
IsSorted-filter p (t ∷ ts) (lo, s) = elim (Bool-cases (p t)) [
  | inl e ↦ rw e (All-filter _ p ts lo, IsSorted-filter p ts s)
  | inr e ↦ rw e (IsSorted-filter p ts s)
]

module _ (w : SlidingWindow) (now : ℕ) (rpm rps : Option ℕ) where
  -- A call prunes, and pushes `now` exactly when it answers `Ok`.
  pub requests-check_and_record : (check_and_record w now rpm rps).0.requests ≡ (
      if is_ok (check_and_record w now rpm rps).1
      then prune (ago now minute) w.requests ++ now ∷ []
      else prune (ago now minute) w.requests)
  unfolding check_and_record
  requests-check_and_record = ground arith

-- A call that answers `Ok` found the window below the limit.
pub check_and_record-lt :
    (w : SlidingWindow) (now limit : ℕ) (rps : Option ℕ)
    → is_ok (check_and_record w now (some limit) rps).1 ≡ true
    → length (prune (ago now minute) w.requests) % 2 ^ 32 < limit
unfolding check_and_record
check_and_record-lt w now limit rps h = ground arith
