-- ===== src/Admin/Safe.antt =====
-- src/api/admin.rs: what no call of the handlers that change the configuration can bring about.
use skyport.Prelude.{
  ◌≡◌, refl, ◌⊎◌, inl, inr, Bool, true, false, ◌||◌, Option, none, some, List, [], ◌∷◌, arith, ltb,
  Bool-cases, all, any, All, Dict, insert, Text, codes, text_eq, Result, Result-cases, ok, err,
}
use skyport.Config.{ProviderConfig, BudgetConfig, RateLimitConfig, SkyportConfig}
use skyport.Vault.{is_keyless_provider}
use skyport.Security.Url.{Host, Url, host_is_loopback, is_reserved_domain, validate_provider_url}
use skyport.Security.Url.Destinations.{provider_url-safe}
use skyport.Router.{Router}
use skyport.Admin.{
  AdminError, Handled, valid_identifier, validate_provider_config, check_provider, check_providers,
  save_or_restore, after_check, with_tokens_of, update_config, update_checked, update_provider,
  put_budgets, update_budgets, update_rate_limit, same_url, is_zero, valid_budget,
}

module _ (parse : Text → Option Url) where
  -- The base URL is HTTPS, to a host that is neither loopback nor reserved.
  abbrev pub IsSecure : Text → Type 0
  IsSecure base_url =
      (url : Url) × (parse base_url ≡ some url)
      × (text_eq url.scheme (codes "https") ≡ true)
      × ((host : Host) × (url.host ≡ some host)
          × (host_is_loopback host ≡ false)
          × (is_reserved_domain host ≡ false))

  abbrev pub IsSound : Text × ProviderConfig → Type 0
  IsSound (id, config) =
      (valid_identifier id ≡ true) × ((is_keyless_provider id ≡ true) ⊎ IsSecure config.base_url)

  check_provider-IsSound :
      (id : Text) (config : ProviderConfig)
      → check_provider parse id config ≡ ok tt
      → IsSound (id, config)
  unfolding check_provider validate_provider_config
  check_provider-IsSound id config h = (
    ground (arith, h),
    elim (Bool-cases (is_keyless_provider id)) [
      | inl keyless ↦ inl keyless
      | inr keyed ↦ elim (Result-cases (validate_provider_url parse id config.base_url true)) [
        | inl (url, e) ↦
            let (parsed, https, host, _, _, _, _) =
              provider_url-safe parse id config.base_url url e in
            inr (url, parsed, https, host)
        | inr (why, e) ↦ absurd (ground (arith, h, keyed, e))
      ]
    ],
  )

  check_providers-IsSound :
      (providers : Dict ProviderConfig)
      → check_providers parse providers ≡ ok tt
      → All IsSound providers
  unfolding check_providers
  check_providers-IsSound [] h = tt
  check_providers-IsSound ((id, config) ∷ providers) h = (
    check_provider-IsSound id config (ground (arith, h)),
    check_providers-IsSound providers (ground (arith, h)),
  )

insert-All {ℓ κ} :
    {V : Type ℓ} (P : Text × V → Type κ) (k : Text) (v : V) (m : Dict V)
    → P (k, v)
    → All P m
    → All P (insert k v m)
unfolding insert
insert-All P k v [] p h = (p, tt)
insert-All P k v ((j, w) ∷ m) p (q, h) = elim (Bool-cases (text_eq j k)) [
  | inl e ↦ simp e (p, h)
  | inr e ↦ simp e (q, insert-All P k v m p h)
]

-- What the handlers of the configuration are sent, with whether the file can be written.
pub data ConfigChange (Money : Type 0) : Type 0 where
  put_config : SkyportConfig Money → Bool → ConfigChange Money
  put_provider : Text → ProviderConfig → Bool → ConfigChange Money
  put_caps : Option (Dict (BudgetConfig Money)) → Bool → ConfigChange Money
  put_limits : RateLimitConfig → Bool → ConfigChange Money

module _ {Money : Type 0} (parse : Text → Option Url) (to_lowercase : Text → Text)
    (is_cap : Money → Bool) where
  unfoldable pub change : Router Money → ConfigChange Money → Handled Money
  unfolding update_config update_provider update_budgets update_rate_limit
  change r (put_config config saved) = update_config parse r config saved
  change r (put_provider id config saved) = update_provider parse to_lowercase r id config saved
  change r (put_caps budgets saved) = update_budgets is_cap r budgets saved
  change r (put_limits limits saved) = update_rate_limit r limits saved

  unfoldable pub change_all : Router Money → List (ConfigChange Money) → Router Money
  unfolding change
  change_all r [] = r
  change_all r (c ∷ cs) = change_all (change r c).0 cs

  -- Every provider is sound, and the tokens and the vault are those of `start`.
  abbrev pub IsGuarded : Router Money → Router Money → Type 0
  IsGuarded start r =
      All (IsSound parse) r.config.providers
      × (r.config.server.admin_token_hash ≡ start.config.server.admin_token_hash)
      × (r.config.server.inference_token_hash ≡ start.config.server.inference_token_hash)
      × (r.vault ≡ start.vault)

  module _ (start r : Router Money) (guarded : IsGuarded start r) where
    abbrev Guards : Handled Money → Type 0
    Guards h = IsGuarded start h.0

    save-Guards :
        (config : SkyportConfig Money) (saved : Bool)
        → IsGuarded start (record r { config = config })
        → Guards (save_or_restore r config saved)
    save-Guards config true h = h
    save-Guards config false h = guarded

    put_config-Guards :
        (config : SkyportConfig Money) (saved : Bool) (checked : Result AdminError (Unit {0}))
        → (checked ≡ ok tt → All (IsSound parse) config.providers)
        → Guards (after_check r (with_tokens_of r.config config) saved checked)
    put_config-Guards config saved (err e) sound = guarded
    put_config-Guards config saved (ok tt) sound =
        save-Guards (with_tokens_of r.config config) saved
          (sound refl, guarded.1, guarded.2, guarded.3)

    put_provider-Guards :
        (id : Text) (config : ProviderConfig) (saved : Bool)
        (checked : Result AdminError (Unit {0}))
        → (checked ≡ ok tt → IsSound parse (id, config))
        → Guards (update_checked to_lowercase r id config saved checked)
    put_provider-Guards id config saved (err e) sound = guarded
    put_provider-Guards id config saved (ok tt) sound = elim (Bool-cases r.config_poisoned) [
      | inl e ↦ simp e guarded
      | inr e ↦ elim (Bool-cases (any (same_url to_lowercase id config) r.config.providers)) [
        | inl twice ↦ simp (e, twice) guarded
        | inr new ↦
            simp (e, new)
              (save-Guards _ saved (
                insert-All (IsSound parse) id config r.config.providers (sound refl) guarded.0,
                guarded.1,
                guarded.2,
                guarded.3,
              ))
      ]
    ]

    put_caps-Guards :
        (budgets : Option (Dict (BudgetConfig Money))) (saved : Bool)
        → Guards (put_budgets is_cap r budgets saved)
    put_caps-Guards none saved = guarded
    put_caps-Guards (some budgets) saved = elim (Bool-cases (all (valid_budget is_cap) budgets)) [
      | inl e ↦ simp e (save-Guards _ saved guarded)
      | inr e ↦ simp e guarded
    ]

    change-Guards : (c : ConfigChange Money) → Guards (change r c)
    unfolding change update_config update_provider update_budgets update_rate_limit
    change-Guards (put_config config saved) = elim (Bool-cases r.config_poisoned) [
      | inl e ↦ simp e guarded
      | inr e ↦ elim (Bool-cases (ltb config.server.port 1024)) [
        | inl low ↦ simp (e, low) guarded
        | inr fine ↦
            simp (e, fine)
              (put_config-Guards config saved (check_providers parse config.providers)
                (check_providers-IsSound parse config.providers))
      ]
    ]
    change-Guards (put_provider id config saved) =
        put_provider-Guards id config saved (check_provider parse id config)
          (check_provider-IsSound parse id config)
    change-Guards (put_caps budgets saved) = elim (Bool-cases r.config_poisoned) [
      | inl e ↦ simp e guarded
      | inr e ↦ simp e (put_caps-Guards budgets saved)
    ]
    change-Guards (put_limits limits saved) =
        elim (Bool-cases (is_zero limits.max_rpm || is_zero limits.max_rps)) [
          | inl zeros ↦ simp zeros guarded
          | inr fine ↦ elim (Bool-cases r.config_poisoned) [
            | inl e ↦ simp (fine, e) guarded
            | inr e ↦ simp (fine, e) (save-Guards _ saved guarded)
          ]
        ]

  run-IsGuarded :
      (start r : Router Money) (cs : List (ConfigChange Money))
      → IsGuarded start r
      → IsGuarded start (change_all r cs)
  unfolding change_all
  run-IsGuarded start r [] h = h
  run-IsGuarded start r (c ∷ cs) h =
      run-IsGuarded start (change r c).0 cs (change-Guards start r h c)

  -- From a configuration in which every provider has a valid identifier and, unless it is keyless, an
  -- HTTPS base URL to a host that is neither loopback nor reserved, no sequence of calls of the four
  -- handlers, saved or not, leads out of those configurations, and none changes a token or the vault.
  pub change_all-IsGuarded :
      (r : Router Money) (cs : List (ConfigChange Money))
      → All (IsSound parse) r.config.providers
      → IsGuarded r (change_all r cs)
  change_all-IsGuarded r cs h = run-IsGuarded r r cs (h, refl, refl, refl)
