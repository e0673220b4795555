-- ===== src/Prelude/Lists.antt =====
-- Lists measured by native numbers, and the list operations of the source, under library names.
use Prim.Native.Nat.{ℕ, zero, suc, ◌+◌, ◌≤◌}
use mathlib.Core.Path.{◌≡◌, refl}
use mathlib.Core.Logic.{inl, inr}
use mathlib.Core.Bool.{Bool, true, false, ◌&&◌, ◌||◌}
use mathlib.Core.List.{List, [], ◌∷◌, ◌++◌, Memᴰ}
use mathlib.Core.Option.{Option, none, some}
use native.Mathlib.Omega.{arith}
use skyport.Prelude.Tests.{Bool-cases, if◌then◌else◌}

module _ {ℓ} {A : Type ℓ} where
  abbrev pub length : List A → ℕ
  length [] = 0
  length (x ∷ xs) = suc (length xs)

  abbrev pub take : ℕ → List A → List A
  take zero xs = []
  take (suc n) [] = []
  take (suc n) (x ∷ xs) = x ∷ take n xs

  abbrev pub get_elem? : List A → ℕ → Option A
  get_elem? [] i = none
  get_elem? (x ∷ xs) zero = some x
  get_elem? (x ∷ xs) (suc i) = get_elem? xs i

  abbrev pub all : (A → Bool) → List A → Bool
  all p [] = true
  all p (x ∷ xs) = p x && all p xs

  abbrev pub any : (A → Bool) → List A → Bool
  any p [] = false
  any p (x ∷ xs) = p x || any p xs

  -- `Iterator::filter`, `Vec::retain`
  abbrev pub filter : (A → Bool) → List A → List A
  filter p [] = []
  filter p (x ∷ xs) = let rest = filter p xs in if p x then x ∷ rest else rest

  -- `Iterator::find`
  abbrev pub find : (A → Bool) → List A → Option A
  find p [] = none
  find p (x ∷ xs) = let rest = find p xs in if p x then some x else rest

  -- `Iterator::take_while`
  abbrev pub take_while : (A → Bool) → List A → List A
  take_while p [] = []
  take_while p (x ∷ xs) = let rest = take_while p xs in if p x then x ∷ rest else []

  pub length-append : (xs ys : List A) → length (xs ++ ys) ≡ length xs + length ys
  length-append [] ys = omega arith
  length-append (x ∷ xs) ys = omega (arith, length-append xs ys)

  pub length-filter-le : (p : A → Bool) (xs : List A) → length (filter p xs) ≤ length xs
  length-filter-le p [] = omega arith
  length-filter-le p (x ∷ xs) = ground (arith, length-filter-le p xs)

  pub filter-append :
      (p : A → Bool) (xs ys : List A) → filter p (xs ++ ys) ≡ filter p xs ++ filter p ys
  filter-append p [] ys = refl
  filter-append p (x ∷ xs) ys = ground (arith, filter-append p xs ys)

module _ {ℓ κ} {A : Type ℓ} (P : A → Type κ) where
  abbrev pub All : List A → Type κ
  All [] = Unit
  All (x ∷ xs) = P x × All xs

  pub All-concat : (xs : List A) {x : A} → All xs → P x → All (xs ++ x ∷ [])
  All-concat [] h p = (p, tt)
  All-concat (y ∷ xs) (q, h) p = (q, All-concat xs h p)

  pub All-last : (xs : List A) {x : A} → All (xs ++ x ∷ []) → P x
  All-last [] (p, h) = p
  All-last (y ∷ xs) (q, h) = All-last xs h

  pub All-filter : (p : A → Bool) (xs : List A) → All xs → All (filter p xs)
  All-filter p [] h = tt
  All-filter p (x ∷ xs) (q, h) = elim (Bool-cases (p x)) [
    | inl e ↦ rw e (q, All-filter p xs h)
    | inr e ↦ rw e (All-filter p xs h)
  ]

module _ {ℓ} {A : Type ℓ} where
  pub length-filter_mono :
      (p q : A → Bool) (xs : List A)
      → ((a : A) → p a ≡ true → q a ≡ true)
      → length (filter p xs) ≤ length (filter q xs)
  length-filter_mono p q [] h = omega arith
  length-filter_mono p q (x ∷ xs) h = ground (arith, h x, length-filter_mono p q xs h)

  pub All-filter_self : (p : A → Bool) (xs : List A) → All (λ a. p a ≡ true) (filter p xs)
  All-filter_self p [] = tt
  All-filter_self p (x ∷ xs) = elim (Bool-cases (p x)) [
    | inl e ↦ rw e (e, All-filter_self p xs)
    | inr e ↦ rw e (All-filter_self p xs)
  ]

  pub filter-filter :
      (p q : A → Bool) (xs : List A) → filter q (filter p xs) ≡ filter (λ a. p a && q a) xs
  filter-filter p q [] = refl
  filter-filter p q (x ∷ xs) = ground (arith, filter-filter p q xs)

  -- Two tests that agree on the members filter alike.
  pub filter_congr :
      (p q : A → Bool) (xs : List A) → All (λ a. p a ≡ q a) xs → filter p xs ≡ filter q xs
  filter_congr p q [] h = refl
  filter_congr p q (x ∷ xs) (e, h) = ground (arith, filter_congr p q xs h)

module _ {ℓ κ μ} {A : Type ℓ} (P : A → Type κ) (Q : A → Type μ) where
  pub All-imp : (xs : List A) → ((a : A) → P a → Q a) → All P xs → All Q xs
  All-imp [] f h = tt
  All-imp (x ∷ xs) f (p, h) = (f x p, All-imp xs f h)

module _ {ℓ} {A : Type ℓ} where
  pub Memᴰ-All {κ} : (P : A → Type κ) (xs : List A) {a : A} → All P xs → Memᴰ a xs → P a
  Memᴰ-All P [] h m = elim m [ ]
  Memᴰ-All P (x ∷ xs) (p, h) (Memᴰ.head e) = rw e p
  Memᴰ-All P (x ∷ xs) (p, h) (Memᴰ.tail m) = Memᴰ-All P xs h m

  widen :
      (p : A → Bool) (x a : A) (xs : List A)
      → (Memᴰ a (filter p xs) → Memᴰ a xs × (p a ≡ true))
      → p x ≡ true
      → Memᴰ a (x ∷ filter p xs)
      → Memᴰ a (x ∷ xs) × (p a ≡ true)
  widen p x a xs ih t (Memᴰ.head e) = (Memᴰ.head e, rw e t)
  widen p x a xs ih t (Memᴰ.tail m) = let (n, h) = ih m in (Memᴰ.tail n, h)

  -- What a filter keeps is a member that passes the test.
  pub Memᴰ-filter :
      (p : A → Bool) (xs : List A) (a : A) → Memᴰ a (filter p xs) → Memᴰ a xs × (p a ≡ true)
  Memᴰ-filter p [] a m = elim m [ ]
  Memᴰ-filter p (x ∷ xs) a m = elim (Bool-cases (p x)) [
    | inl t ↦ widen p x a xs (Memᴰ-filter p xs a) t (rw t at m)
    | inr f ↦ let (n, h) = Memᴰ-filter p xs a (rw f at m) in (Memᴰ.tail n, h)
  ]

  pub filter-Memᴰ :
      (p : A → Bool) (xs : List A) {a : A} → Memᴰ a xs → p a ≡ true → Memᴰ a (filter p xs)
  filter-Memᴰ p [] m h = elim m [ ]
  filter-Memᴰ p (x ∷ xs) (Memᴰ.head e) h = let t : p x ≡ true = rw (← e) h in rw t (Memᴰ.head e)
  filter-Memᴰ p (x ∷ xs) (Memᴰ.tail m) h = elim (Bool-cases (p x)) [
    | inl t ↦ rw t (Memᴰ.tail (filter-Memᴰ p xs m h))
    | inr f ↦ rw f (filter-Memᴰ p xs m h)
  ]
