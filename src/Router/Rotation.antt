-- ===== src/Router/Rotation.antt =====
-- src/router.rs: round-robin selection, over calls for one provider.
use mathlib.Core.Option.{get_or}
use native.Mathlib.Nat.{mod-lt, mod-add-mod, mod-eq_of_lt, add-mod_right}
use skyport.Prelude.{
  ℕ, zero, suc, ◌+◌, ◌-◌, ◌%◌, ◌^◌, ◌≤◌, ◌<◌, ◌≡◌, sym, ap, ◌∙◌, inl, inr, true, false, some, List,
  [], ◌∷◌, map, arith, leb, lt_of_leb, tests, Bool-cases, length, get_elem?, lookup, insert,
  lookup-insert, Text, text_eq_refl, Result, ok,
}
use skyport.Config.{ProviderConfig}
use skyport.Vault.{VaultEntry}
use skyport.Router.{Router, RouteDecision, RouteError, eligible, decision_of, select_key}

-- (c + i) mod n = j has a solution below n.
slot : (c n j : ℕ) → j < n → (i : ℕ) × (i < n) × ((c + i) % n ≡ j)
slot c n j h =
    let q = mod-lt c {m = n} (omega arith) in
    elim (Bool-cases (leb (c % n) j)) [
      | inl t ↦
          let e : c % n + (j - c % n) ≡ j = omega tests in
          (
            j - c % n,
            omega tests,
            sym (mod-add-mod c n (j - c % n)) ∙ ap (λ (x : ℕ). x % n) e ∙ mod-eq_of_lt h,
          )
      | inr f ↦
          let less = lt_of_leb _ _ f in
          let e : c % n + (j + n - c % n) ≡ j + n = omega arith in
          (
            j + n - c % n,
            omega arith,
            sym (mod-add-mod c n (j + n - c % n))
                ∙ ap (λ (x : ℕ). x % n) e
                ∙ add-mod_right j n
                ∙ mod-eq_of_lt h,
          )
    ]

-- the key at the counter's place
abbrev pub nth : VaultEntry → List VaultEntry → ℕ → VaultEntry
nth first others c = get_or (get_elem? (first ∷ others) (c % length (first ∷ others))) first

abbrev handed_key : Text → ProviderConfig → VaultEntry → Result RouteError RouteDecision
handed_key provider p e = ok (decision_of provider p e)

abbrev handed :
    Text → ProviderConfig → VaultEntry → List VaultEntry → ℕ → Result RouteError RouteDecision
handed provider p first others c = handed_key provider p (nth first others c)

-- a call of `select_key`: its instant, and the router that it finds
abbrev pub Call : Type 0 → Type 0
Call Money = ℕ × Router Money

module _ {Money : Type 0} (provider : Text) where
  abbrev pub counter : Router Money → ℕ
  counter r = get_or (lookup provider r.round_robin_counters) 0

  abbrev pub answer_of : Call Money → Result RouteError RouteDecision
  answer_of (now, r) = (select_key r now provider).1

  module _ (p : ProviderConfig) (first : VaultEntry) (others : List VaultEntry) where
    -- What a call finds while the rotation goes through `first ∷ others`.
    pub record IsRotating (now : ℕ) (r : Router Money) : Type 0 where
      pub vault_lock : r.vault_poisoned ≡ false
      pub config_lock : r.config_poisoned ≡ false
      pub counters_lock : r.counters_poisoned ≡ false
      pub configured : lookup provider r.config.providers ≡ some p
      pub enabled : p.enabled ≡ true
      pub rotating : p.round_robin ≡ true
      pub keys : eligible r now provider ≡ first ∷ others

    -- Each call finds the counter as the one before has left it.
    abbrev pub Consecutive : ℕ → List (Call Money) → Type 0
    Consecutive c [] = Unit
    Consecutive c ((now, r) ∷ calls) =
        IsRotating now r
        × (counter r ≡ c)
        × Consecutive (counter (select_key r now provider).0) calls

    -- One call hands out the key at the counter's place and advances the counter.
    select_key-step :
        (now : ℕ) (r : Router Money)
        → IsRotating now r
        → select_key r now provider ≡ (
          record r {
            round_robin_counters =
                insert provider ((counter r + 1) % 2 ^ 64) r.round_robin_counters;
          },
          ok (decision_of provider p (nth first others (counter r))),
        )
    unfolding select_key
    select_key-step now r h = ground arith

    counter-select_key :
        (now : ℕ) (r : Router Money)
        → IsRotating now r
        → counter r + 1 < 2 ^ 64
        → counter (select_key r now provider).0 ≡ counter r + 1
    counter-select_key now r h fits =
        rw (select_key-step now r h, lookup-insert, text_eq_refl) (omega arith)

    -- As long as the counter does not wrap, call number i takes the key i places on.
    select_key-nth :
        (c i : ℕ) (calls : List (Call Money))
        → Consecutive c calls
        → i < length calls
        → c + i < 2 ^ 64
        → get_elem? (map answer_of calls) i ≡ some (handed provider p first others (c + i))
    select_key-nth c i [] h within fits = absurd (omega arith)
    select_key-nth c zero ((now, r) ∷ calls) (h, same, later) within fits =
        ap (λ (x : Router Money × Result RouteError RouteDecision). some (x.1))
          (select_key-step now r h)
        ∙ ap (λ n. some (handed provider p first others n)) (omega (arith, same))
    select_key-nth c (suc i) ((now, r) ∷ calls) (h, same, later) within fits =
        let e = counter-select_key now r h (omega (arith, same)) in
        select_key-nth (counter (select_key r now provider).0) i calls later (omega arith)
          (omega (arith, e, same))
        ∙ ap (λ n. some (handed provider p first others n)) (omega (arith, e, same))

    -- In round-robin mode as many calls for a provider as it has eligible keys hand out each of them, at
    -- any instants and whatever happens in between, if each call finds the same eligible keys and
    -- provider configuration, healthy locks, and the counter that the call before has left, which does
    -- not wrap.
    pub rotation_fair :
        (c j : ℕ) (calls : List (Call Money))
        → Consecutive c calls
        → length calls ≡ length (first ∷ others)
        → j < length (first ∷ others)
        → c + length (first ∷ others) ≤ 2 ^ 64
        → (i : ℕ) × (get_elem? (map answer_of calls) i
            ≡ some (ok (decision_of provider p (get_or (get_elem? (first ∷ others) j) first))))
    rotation_fair c j calls h as_many within fits =
        let (i, below, place) = slot c (length (first ∷ others)) j within in
        (
          i,
          select_key-nth c i calls h (omega (arith, as_many)) (omega arith)
              ∙ ap
                  (λ (k : ℕ).
                    some (handed_key provider p (get_or (get_elem? (first ∷ others) k) first)))
                  place,
        )
