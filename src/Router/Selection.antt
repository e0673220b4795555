-- ===== src/Router/Selection.antt =====
-- src/router.rs: which key `select_key` hands out.
use mathlib.Core.Option.{get_or}
use skyport.Prelude.{
  ℕ, zero, suc, ◌%◌, ◌≤◌, ◌≡◌, refl, ◌≢◌, ◌⊎◌, inl, inr, true, false, some, List, [], ◌∷◌, Memᴰ,
  arith, Bool-cases, Option-cases, List-cases, length, get_elem?, filter, Memᴰ-filter, filter-Memᴰ,
  lookup, Text, text_eq, text_eq_iff, ok,
}
use skyport.Config.{ProviderConfig}
use skyport.Vault.{VaultEntry, is_keyless_provider, sort_by_priority, get_keys_for_provider}
use skyport.Vault.Priority.{IsSorted, sort-IsSorted, Memᴰ-sort, sort-Memᴰ, IsSorted-filter, head-le}
use skyport.Router.{
  Router, RouteDecision, is_available, eligible, decision_of, local_decision, choose, select_key,
}

nth-Memᴰ :
    (d : VaultEntry) (es : List VaultEntry) (i : ℕ) → Memᴰ (get_or (get_elem? es i) d) (d ∷ es)
nth-Memᴰ d [] i = Memᴰ.head refl
nth-Memᴰ d (e ∷ es) zero = Memᴰ.tail (Memᴰ.head refl)
nth-Memᴰ d (e ∷ es) (suc i) = skip (nth-Memᴰ d es i)
  where
    skip : {x : VaultEntry} → Memᴰ x (d ∷ es) → Memᴰ x (d ∷ e ∷ es)
    skip (Memᴰ.head q) = Memᴰ.head q
    skip (Memᴰ.tail m) = Memᴰ.tail (Memᴰ.tail m)

drop_first :
    (d : VaultEntry) (es : List VaultEntry) {x : VaultEntry} → Memᴰ x (d ∷ d ∷ es) → Memᴰ x (d ∷ es)
drop_first d es (Memᴰ.head q) = Memᴰ.head q
drop_first d es (Memᴰ.tail m) = m

no_member : {e : VaultEntry} → Memᴰ e [] → ⊥
no_member m = elim m [ ]

-- An eligible key is an entry of the vault, of the provider, enabled and not cooling down.
abbrev pub IsEligible : List VaultEntry → ℕ → Text → VaultEntry → Type 0
IsEligible entries now provider e =
    Memᴰ e entries × (e.provider ≡ provider) × (is_available now e ≡ true)

module _ {Money : Type 0} (r : Router Money) (now : ℕ) (provider : Text) where
  eligible-IsEligible :
      (e : VaultEntry)
      → Memᴰ e (eligible r now provider)
      → IsEligible r.vault.entries now provider e
  unfolding get_keys_for_provider
  eligible-IsEligible e m =
      let own = λ (x : VaultEntry). text_eq x.provider provider in
      let (sorted, free) =
        Memᴰ-filter (is_available now) (sort_by_priority (filter own r.vault.entries)) e m in
      let (within, mine) =
        Memᴰ-filter own r.vault.entries e (Memᴰ-sort (filter own r.vault.entries) sorted) in
      (within, (text_eq_iff e.provider provider).0 mine, free)

  IsEligible-eligible :
      (e : VaultEntry)
      → IsEligible r.vault.entries now provider e
      → Memᴰ e (eligible r now provider)
  unfolding get_keys_for_provider
  IsEligible-eligible e (within, mine, free) =
      let own = λ (x : VaultEntry). text_eq x.provider provider in
      filter-Memᴰ (is_available now) (sort_by_priority (filter own r.vault.entries))
        (sort-Memᴰ (filter own r.vault.entries)
          (filter-Memᴰ own r.vault.entries within ((text_eq_iff e.provider provider).1 mine)))
        free

  -- What `choose` hands out comes from the list that it is given.
  choose-Memᴰ :
      (p : ProviderConfig) (es : List VaultEntry) (d : RouteDecision)
      → (choose r provider p es).1 ≡ ok d
      → ((e : VaultEntry) × Memᴰ e es × (d ≡ decision_of provider p e))
        ⊎ ((es ≡ []) × (is_keyless_provider provider ≡ true) × (d ≡ local_decision provider p))
  unfolding choose
  choose-Memᴰ p [] d h = inr (refl, ground arith, ground arith)
  choose-Memᴰ p (first ∷ others) d h = elim (Bool-cases p.round_robin) [
    | inl t ↦
        let i = get_or (lookup provider r.round_robin_counters) 0 % length (first ∷ others) in
        inl (
          get_or (get_elem? (first ∷ others) i) first,
          drop_first first others (nth-Memᴰ first (first ∷ others) i),
          ground arith,
        )
    | inr f ↦ inl (first, Memᴰ.head refl, ground arith)
  ]

  -- `select_key` gets as far as the choice only past healthy locks, for a provider that is
  -- configured and enabled.
  select_key-choose :
      (d : RouteDecision)
      → (select_key r now provider).1 ≡ ok d
      → (p : ProviderConfig) × (lookup provider r.config.providers ≡ some p)
        × (p.enabled ≡ true)
        × ((choose r provider p (eligible r now provider)).1 ≡ ok d)
  unfolding select_key
  select_key-choose d h = elim (Option-cases (lookup provider r.config.providers)) [
    | inl n ↦ absurd (ground arith)
    | inr (p, found) ↦ (p, found, ground arith, ground arith)
  ]

  -- Whatever `select_key` hands out belongs to a provider that is configured and enabled. It is an
  -- entry of the vault for that provider that is enabled and not cooling down, or, for a keyless
  -- provider with no such entry, the local decision, which carries no key.
  pub select_key-IsEligible :
      (d : RouteDecision)
      → (select_key r now provider).1 ≡ ok d
      → (p : ProviderConfig) × (lookup provider r.config.providers ≡ some p)
        × (p.enabled ≡ true)
        × (((e : VaultEntry) × IsEligible r.vault.entries now provider e
              × (d ≡ decision_of provider p e))
            ⊎ (((e : VaultEntry) → ¬ IsEligible r.vault.entries now provider e)
                × (is_keyless_provider provider ≡ true)
                × (d ≡ local_decision provider p)))
  select_key-IsEligible d h =
      let (p, found, on, chosen) = select_key-choose d h in
      (
        p,
        found,
        on,
        elim (choose-Memᴰ p (eligible r now provider) d chosen) [
          | inl (e, m, same) ↦ inl (e, eligible-IsEligible e m, same)
          | inr (none_left, keyless, same) ↦
              inr
                (λ e free. no_member (rw none_left at (IsEligible-eligible e free)), keyless, same)
        ],
      )

  eligible-IsSorted : IsSorted (eligible r now provider)
  unfolding get_keys_for_provider
  eligible-IsSorted =
      let own = filter (λ (e : VaultEntry). text_eq e.provider provider) r.vault.entries in
      IsSorted-filter (is_available now) (sort_by_priority own) (sort-IsSorted own)

  choose-first :
      (p : ProviderConfig) (first : VaultEntry) (others : List VaultEntry) (d : RouteDecision)
      → p.round_robin ≡ false
      → (choose r provider p (first ∷ others)).1 ≡ ok d
      → d ≡ decision_of provider p first
  unfolding choose
  choose-first p first others d once h = ground arith

  choose-total :
      (p : ProviderConfig) (es : List VaultEntry)
      → r.counters_poisoned ≡ false
      → (es ≢ []) ⊎ (is_keyless_provider provider ≡ true)
      → (d : RouteDecision) × ((choose r provider p es).1 ≡ ok d)
  unfolding choose
  choose-total p [] c (inl some_left) = absurd (some_left refl)
  choose-total p [] c (inr keyless) = (local_decision provider p, ground arith)
  choose-total p (first ∷ others) c h = elim (Bool-cases p.round_robin) [
    | inl t ↦
        let i = get_or (lookup provider r.round_robin_counters) 0 % length (first ∷ others) in
        (decision_of provider p (get_or (get_elem? (first ∷ others) i) first), ground arith)
    | inr f ↦ (decision_of provider p first, ground arith)
  ]

  -- Without rotation the key handed out has the least priority of all eligible keys.
  pub select_key-le :
      (d : RouteDecision) (p : ProviderConfig) (other : VaultEntry)
      → (select_key r now provider).1 ≡ ok d
      → lookup provider r.config.providers ≡ some p
      → p.round_robin ≡ false
      → IsEligible r.vault.entries now provider other
      → (e : VaultEntry) × IsEligible r.vault.entries now provider e
        × (d ≡ decision_of provider p e)
        × (e.priority ≤ other.priority)
  select_key-le d p other h found once free =
      let (p', found', on, chosen) = select_key-choose d h in
      let same : p' ≡ p = ground arith in
      let m = IsEligible-eligible other free in
      elim (List-cases (eligible r now provider)) [
        | inl e ↦ absurd (no_member (rw e at m))
        | inr (first, others, e) ↦
            let here : Memᴰ first (eligible r now provider) = rw e (Memᴰ.head refl) in
            let s : IsSorted (first ∷ others) = rw e at eligible-IsSorted in
            (
              first,
              eligible-IsEligible first here,
              choose-first p first others d once (rw (same, e) at chosen),
              head-le first others other s (rw e at m),
            )
      ]

  -- With healthy locks and an enabled provider, `select_key` fails only for want of a key: as soon
  -- as one entry of the provider is eligible, or the provider is keyless, it hands out a decision.
  pub select_key-total :
      (p : ProviderConfig) (e : VaultEntry)
      → r.vault_poisoned ≡ false
      → r.config_poisoned ≡ false
      → r.counters_poisoned ≡ false
      → lookup provider r.config.providers ≡ some p
      → p.enabled ≡ true
      → IsEligible r.vault.entries now provider e ⊎ (is_keyless_provider provider ≡ true)
      → (d : RouteDecision) × ((select_key r now provider).1 ≡ ok d)
  unfolding select_key
  select_key-total p e a b c found on free =
      let some_left : (eligible r now provider ≢ []) ⊎ (is_keyless_provider provider ≡ true) =
        elim free [
          | inl q ↦ inl (λ n. no_member (rw n at (IsEligible-eligible e q)))
          | inr k ↦ inr k
        ] in
      let (d, chosen) = choose-total p (eligible r now provider) c some_left in (d, ground arith)
