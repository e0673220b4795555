-- ===== src/SignIns/Linked.antt =====
-- src/api/oauth.rs: what a login leaves behind, on every branch, and that the linked account serves.
use skyport.Prelude.{
  ℕ, ◌≡◌, refl, sym, ap, subst, ◌∙◌, ◌≢◌, inl, inr, Bool, true, false, Option, none, some, List, [],
  ◌∷◌, ◌++◌, Memᴰ, arith, Bool-cases, Option-cases, is_some, ℤ, lookup, lookup-insert, Text,
  text_eq_refl, text_eq_iff, Result, ok, err,
}
use skyport.Json.{Json}
use skyport.Config.{ProviderConfig}
use skyport.Vault.{
  VaultEntry, OAuthCredential, Vault, modify_first, same_link, relink, linked, upsert_oauth_key,
}
use skyport.Router.{Router, RouteDecision, select_key, is_available}
use skyport.Router.Selection.{select_key-total}
use skyport.Subscriptions.{SubscriptionProvider, AuthTokens}
use skyport.Subscriptions.Account.{account_label}
use skyport.Subscriptions.Refresh.{token_expiry}
use skyport.SignIns.{
  LoginError, refused, expiry_panic, provider_config, link_known, link_config, credential,
  link_expiry, finish_vault, finish_login,
}

Memᴰ-last {ℓ} : {A : Type ℓ} (xs : List A) (a : A) → Memᴰ a (xs ++ a ∷ [])
Memᴰ-last [] a = Memᴰ.head refl
Memᴰ-last (x ∷ xs) a = Memᴰ.tail (Memᴰ-last xs a)

-- What is modified stands in the list.
modify_first-Memᴰ :
    (p : VaultEntry → Bool) (f : VaultEntry → VaultEntry) (es out : List VaultEntry)
    → modify_first p f es ≡ some out
    → (e : VaultEntry) × (p e ≡ true) × Memᴰ (f e) out
unfolding modify_first
modify_first-Memᴰ p f [] out h = absurd (ground arith)
modify_first-Memᴰ p f (e ∷ es) out h = elim (Bool-cases (p e)) [
  | inl here ↦ let same : out ≡ f e ∷ es = ground arith in (e, here, rw same (Memᴰ.head refl))
  | inr other ↦ elim (Option-cases (modify_first p f es)) [
    | inl n ↦ absurd (ground arith)
    | inr (later, found) ↦
        let (d, pd, m) = modify_first-Memᴰ p f es later found in
        let same : out ≡ e ∷ later = ground arith in (d, pd, rw same (Memᴰ.tail m))
  ]
]

-- The entry that a sign-in writes.
pub record IsLinked (c : OAuthCredential) (e : VaultEntry) : Type 0 where
  pub alias_is : e.key_alias ≡ c.alias
  pub provider_is : e.provider ≡ c.provider
  pub key_is : e.api_key ≡ c.access_token
  pub subscription_is : e.oauth_provider ≡ some c.oauth_provider
  pub extra_is : e.oauth_extra ≡ c.extra
  pub is_on : (e.enabled ≡ true) × (e.cooldown_until ≡ none)

is_available-on :
    (now : ℕ) (e : VaultEntry)
    → (e.enabled ≡ true) × (e.cooldown_until ≡ none)
    → is_available now e ≡ true
is_available-on now e h = ground arith

pub upsert-IsLinked :
    (v : Vault) (c : OAuthCredential)
    → (e : VaultEntry) × Memᴰ e (upsert_oauth_key v c).0.entries × IsLinked c e
unfolding upsert_oauth_key
upsert-IsLinked v c = elim (Option-cases (modify_first (same_link c) (relink c) v.entries)) [
  | inl n ↦ (
    linked c,
    rw (n, upsert_oauth_key) (Memᴰ-last v.entries (linked c)),
    record {
      alias_is = refl;
      provider_is = refl;
      key_is = refl;
      subscription_is = refl;
      extra_is = refl;
      is_on = (refl, refl);
    },
  )
  | inr (es, found) ↦
      let (e, here, m) = modify_first-Memᴰ (same_link c) (relink c) v.entries es found in
      (
        relink c e,
        rw (found, upsert_oauth_key) m,
        record {
          alias_is = (text_eq_iff e.key_alias c.alias).0 (ground arith);
          provider_is = (text_eq_iff e.provider c.provider).0 (ground arith);
          key_is = refl;
          subscription_is = refl;
          extra_is = refl;
          is_on = (refl, refl);
        },
      )
]

module _ {Money : Type 0} (provider : SubscriptionProvider) where
  -- Only the configuration may differ, and it has the provider.
  abbrev pub Configures : Router Money → Router Money × Result LoginError (Unit {0}) → Type 0
  Configures r (r', ok _) =
      (r'.vault ≡ r.vault)
      × (r'.vault_poisoned ≡ r.vault_poisoned)
      × (r'.config_poisoned ≡ false)
      × (r'.counters_poisoned ≡ r.counters_poisoned)
      × (is_some (lookup provider.provider_id r'.config.providers) ≡ true)
  Configures r (r', err e) = (r' ≡ r) × (e ≢ expiry_panic)

  link_known-Configures :
      (saved : Bool) (r : Router Money) (found : Option ProviderConfig)
      → r.config_poisoned ≡ false
      → lookup provider.provider_id r.config.providers ≡ found
      → Configures r (link_known provider saved r found)
  link_known-Configures saved r (some known) healthy e = (refl, refl, healthy, refl, ap is_some e)
  link_known-Configures false r none healthy e = (refl, λ h. cc h)
  link_known-Configures true r none healthy e = (
    refl,
    refl,
    healthy,
    refl,
    ground (
      arith,
      lookup-insert provider.provider_id provider.provider_id (provider_config provider)
          r.config.providers,
      text_eq_refl provider.provider_id,
    ),
  )

  pub link_config-Configures :
      (saved : Bool) (r : Router Money) → Configures r (link_config provider saved r)
  link_config-Configures saved r = elim (Bool-cases r.config_poisoned) [
    | inl e ↦ simp e (refl, λ h. cc h)
    | inr e ↦ simp e (link_known-Configures saved r _ e refl)
  ]

module _ {Money : Type 0} (decode : Text → Option (List ℕ)) (from_slice : List ℕ → Option Json)
    (after : ℕ → ℤ → Option ℕ) (provider : SubscriptionProvider) (tokens : AuthTokens) where
  -- How a login may end: with the entry in the vault and the provider in the configuration, refused
  -- with the vault as it was, or by a panic that poisons the vault's lock.
  abbrev pub Finishes : Router Money → Router Money × Result LoginError Text → Type 0
  Finishes r (r', ok label) =
      (label ≡ account_label decode from_slice tokens)
      × (r'.vault_poisoned ≡ false)
      × (r'.config_poisoned ≡ false)
      × (r'.counters_poisoned ≡ r.counters_poisoned)
      × (is_some (lookup provider.provider_id r'.config.providers) ≡ true)
      × ((expires_at : Option ℕ) × (e : VaultEntry) × Memᴰ e r'.vault.entries
          × IsLinked (credential decode from_slice provider tokens expires_at) e)
  Finishes r (r', err (refused _)) = (r'.vault ≡ r.vault) × (r'.vault_poisoned ≡ r.vault_poisoned)
  Finishes r (r', err expiry_panic) = (r'.vault ≡ r.vault) × (r'.vault_poisoned ≡ true)

  link_expiry-Finishes :
      (saved : Bool) (r r' : Router Money) (expiry : Option (Option ℕ))
      → r'.vault_poisoned ≡ false
      → Configures provider r (r', ok tt)
      → Finishes r (link_expiry decode from_slice after provider tokens saved r' expiry)
  link_expiry-Finishes saved r r' none healthy (v, _, _, _, _) = (v, refl)
  link_expiry-Finishes false r r' (some expires_at) healthy (v, p, _, _, _) = (v, p)
  link_expiry-Finishes true r r' (some expires_at) healthy (v, p, c, k, h) =
      let (e, m, link) =
        upsert-IsLinked r'.vault (credential decode from_slice provider tokens expires_at) in
      (refl, healthy, c, k, h, (expires_at, e, m, link))

  finish_vault-Finishes :
      (now : ℕ) (saved : Bool) (r : Router Money)
      (configured : Router Money × Result LoginError (Unit {0}))
      → Configures provider r configured
      → Finishes r (finish_vault decode from_slice after provider tokens now saved configured)
  finish_vault-Finishes now saved r (r', err (refused m)) (same, ne) =
      (ap (λ q. q.vault) same, ap (λ q. q.vault_poisoned) same)
  finish_vault-Finishes now saved r (r', err expiry_panic) (same, ne) = absurd (ne refl)
  finish_vault-Finishes now saved r (r', ok done) h = elim (Bool-cases r'.vault_poisoned) [
    | inl e ↦ simp e (h.0, sym e ∙ h.1)
    | inr e ↦ simp e (link_expiry-Finishes saved r r' (token_expiry after tokens now) e h)
  ]

  pub finish_login-Finishes :
      (now : ℕ) (saved config_saved : Bool) (r : Router Money)
      → Finishes r (finish_login decode from_slice after provider tokens now saved config_saved r)
  unfolding finish_login
  finish_login-Finishes now saved config_saved r =
      finish_vault-Finishes now saved r (link_config provider config_saved r)
        (link_config-Configures provider config_saved r)

  -- After a login that succeeds, the router hands out a key for the provider at any time, if the
  -- provider is enabled in the configuration and the lock of the counters is healthy.
  pub select_key-finish_login :
      (now later : ℕ) (saved config_saved : Bool) (r r' : Router Money) (label : Text)
      (p : ProviderConfig)
      → finish_login decode from_slice after provider tokens now saved config_saved r
        ≡ (r', ok label)
      → r.counters_poisoned ≡ false
      → lookup provider.provider_id r'.config.providers ≡ some p
      → p.enabled ≡ true
      → (d : RouteDecision) × ((select_key r' later provider.provider_id).1 ≡ ok d)
  select_key-finish_login now later saved config_saved r r' label p h counters found on =
      let (_, v, c, k, _, (expires_at, e, m, link)) =
        subst (Finishes r) h (finish_login-Finishes now saved config_saved r) in
      select_key-total r' later provider.provider_id p e v c (k ∙ counters) found on
        (inl (m, link.provider_is, is_available-on later e link.is_on))
