-- ===== src/SignIns/Pasted.antt =====
-- src/api/oauth.rs: pasted credentials, and the end of a link.
use skyport.Prelude.{
  ◌≤◌, ◌≡◌, refl, sym, ap, subst, ◌∙◌, inl, inr, Bool, true, false, not, some, Memᴰ, arith,
  ltb-eq-false, Bool-cases, any, All, All-filter_self, All-imp, filter-Memᴰ, Text, codes, byte_len,
  is_empty, trim, Result, ok, err,
}
use skyport.Vault.{VaultEntry, Vault, has_alias, add_key}
use skyport.Router.{Router}
use skyport.Subscriptions.{SubscriptionProvider, find_provider, subscription_alias}
use skyport.SignIns.{
  refused, is_link, unlinked, paste_at, paste_found, paste_key, disconnect_found, disconnect,
}

-- No entry is left of the subscription, or under its alias.
abbrev pub IsUnlinked : SubscriptionProvider → Text → Vault → Type 0
IsUnlinked provider alias v = All (λ e. is_link provider alias e ≡ false) v.entries

not-false : (b : Bool) → not b ≡ true → b ≡ false
not-false b h = ground arith

unlinked-IsUnlinked :
    (provider : SubscriptionProvider) (alias : Text) (v : Vault)
    → IsUnlinked provider alias (unlinked provider alias v)
unlinked-IsUnlinked provider alias v =
    All-imp _ _ (unlinked provider alias v).entries (λ e. not-false (is_link provider alias e))
      (All-filter_self (λ e. not (is_link provider alias e)) v.entries)

module _ {Money : Type 0} where
  -- How `disconnect` may end.
  abbrev pub Disconnects :
      SubscriptionProvider → Router Money → Router Money × Result Text (Unit {0}) → Type 0
  Disconnects provider r (r', ok _) =
      IsUnlinked provider (subscription_alias provider.id) r'.vault
      × ((e : VaultEntry)
          → is_link provider (subscription_alias provider.id) e ≡ false
          → Memᴰ e r.vault.entries
          → Memᴰ e r'.vault.entries)
  Disconnects provider r (r', err e) = r' ≡ r

  disconnect_found-Disconnects :
      (provider : SubscriptionProvider) (saved : Bool) (r : Router Money)
      → Disconnects provider r (disconnect_found saved r (some provider))
  disconnect_found-Disconnects provider saved r = elim (Bool-cases r.vault_poisoned) [
    | inl e ↦ simp e refl
    | inr e ↦ elim (Bool-cases saved) [
      | inr lost ↦ simp (e, lost) refl
      | inl kept ↦
          simp (e, kept)
            (
              unlinked-IsUnlinked provider (subscription_alias provider.id) r.vault,
              λ e n m. filter-Memᴰ _ r.vault.entries m (ground arith),
            )
    ]
  ]

  -- A disconnection that succeeds leaves no entry of the subscription nor one of its provider under
  -- its alias, and every other entry; one that fails changes nothing.
  pub disconnect-Disconnects :
      (id : Text) (provider : SubscriptionProvider) (saved : Bool) (r : Router Money)
      → find_provider id ≡ some provider
      → Disconnects provider r (disconnect id saved r)
  unfolding disconnect
  disconnect-Disconnects id provider saved r found =
      subst (λ f. Disconnects provider r (disconnect_found saved r f)) (sym found)
        (disconnect_found-Disconnects provider saved r)

  paste_at-taken :
      (provider : SubscriptionProvider) (api_key alias : Text) (saved config_saved : Bool)
      (r : Router Money)
      → is_empty (trim api_key) ≡ false
      → byte_len api_key ≤ 16_384
      → r.vault_poisoned ≡ false
      → any (has_alias (trim alias)) (unlinked provider alias r.vault).entries ≡ true
      → paste_at provider api_key alias saved config_saved r ≡ (
        record r { vault = unlinked provider alias r.vault },
        err (refused (codes "failed to store key")),
      )
  unfolding paste_at add_key
  paste_at-taken provider api_key alias saved config_saved r filled short healthy taken =
      elim (Bool-cases (is_empty (trim alias))) [
        | inl e ↦ simp (filled, healthy, ltb-eq-false 16_384 (byte_len api_key) short, e) refl
        | inr e ↦
            simp (filled, healthy, ltb-eq-false 16_384 (byte_len api_key) short, e, taken) refl
      ]

  -- A credential pasted under an alias that an entry outside the subscription has is refused, and
  -- yet the vault in memory has lost the subscription's entry.
  pub paste_key-IsUnlinked :
      (id api_key alias : Text) (provider : SubscriptionProvider) (saved config_saved : Bool)
      (r : Router Money)
      → find_provider id ≡ some provider
      → is_empty (trim api_key) ≡ false
      → byte_len api_key ≤ 16_384
      → r.vault_poisoned ≡ false
      → any (has_alias (trim alias)) (unlinked provider alias r.vault).entries ≡ true
      → let (r', answer) = paste_key id api_key (some alias) saved config_saved r in
        (answer ≡ err (refused (codes "failed to store key"))) × IsUnlinked provider alias r'.vault
  unfolding paste_key
  paste_key-IsUnlinked id api_key alias provider saved config_saved r found filled short healthy
        taken =
      let ended : paste_key id api_key (some alias) saved config_saved r ≡ (
        record r { vault = unlinked provider alias r.vault },
        err (refused (codes "failed to store key")),
      ) =
        ap (λ f. paste_found api_key (some alias) saved config_saved r f) found
        ∙ paste_at-taken provider api_key alias saved config_saved r filled short healthy taken in
      (
        ap (λ a. a.1) ended,
        subst (λ a. IsUnlinked provider alias a.0.vault) (sym ended)
            (unlinked-IsUnlinked provider alias r.vault),
      )
