-- ===== src/Router/Aliases.antt =====
-- src/router.rs: no operation of the router changes which aliases the vault has.
use skyport.Prelude.{
  ℕ, ◌≡◌, refl, ap, inl, inr, false, Option, none, some, List, [], ◌∷◌, Memᴰ, arith, Option-cases,
  ℤ, as_i64, lookup, Text, ok, pos,
}
use mathlib.Core.Option.{get_or}
use skyport.Config.{ProviderConfig}
use skyport.Vault.{VaultEntry, is_keyless_provider}
use skyport.Vault.Aliases.{aliases, set_cooldown-aliases, disable_key-aliases}
use skyport.Router.{Router, RouteDecision, cool_down, eligible, choose, select_key, mark_key_failed}
use skyport.Router.Selection.{select_key-IsEligible}

-- The alias of an entry is among the aliases.
Memᴰ-aliases : (es : List VaultEntry) (e : VaultEntry) → Memᴰ e es → Memᴰ e.key_alias (aliases es)
Memᴰ-aliases [] e m = elim m [ ]
Memᴰ-aliases (d ∷ es) e (Memᴰ.head q) = Memᴰ.head (ap (λ (x : VaultEntry). x.key_alias) q)
Memᴰ-aliases (d ∷ es) e (Memᴰ.tail m) = Memᴰ.tail (Memᴰ-aliases es e m)

module _ {Money : Type 0} (r : Router Money) where
  choose-vault :
      (provider : Text) (p : ProviderConfig) (es : List VaultEntry)
      → (choose r provider p es).0.vault ≡ r.vault
  unfolding choose
  choose-vault provider p [] = refl
  choose-vault provider p (first ∷ others) = ground arith

  pub select_key-vault : (now : ℕ) (provider : Text) → (select_key r now provider).0.vault ≡ r.vault
  unfolding select_key
  select_key-vault now provider = elim (Option-cases (lookup provider r.config.providers)) [
    | inl n ↦ ground (arith, n)
    | inr (p, e) ↦ ground (arith, e, choose-vault provider p (eligible r now provider))
  ]

  -- Without keyless providers a decision has the alias of an entry.
  pub select_key-alias :
      (now : ℕ) (provider : Text) (d : RouteDecision)
      → is_keyless_provider provider ≡ false
      → (select_key r now provider).1 ≡ ok d
      → Memᴰ d.key_alias (aliases r.vault.entries)
  select_key-alias now provider d keyed h =
      let (p, _, _, chosen) = select_key-IsEligible r now provider d h in
      elim chosen [
        | inl (e, (m, _, _), same) ↦ rw same (Memᴰ-aliases r.vault.entries e m)
        | inr (_, keyless, _) ↦ absurd (ground (arith, keyed, keyless))
      ]

  module _ (after : ℕ → ℤ → Option ℕ) where
    cool_down-aliases :
        (alias : Text) (until : Option ℕ)
        → aliases (cool_down after r alias until).0.vault.entries ≡ aliases r.vault.entries
    unfolding cool_down
    cool_down-aliases alias none = refl
    cool_down-aliases alias (some until) = set_cooldown-aliases r.vault alias until

    pub mark_key_failed-aliases :
        (now : ℕ) (alias : Text) (status : ℕ) (retry_after : Option ℕ)
        → aliases (mark_key_failed after r now alias status retry_after).0.vault.entries
          ≡ aliases r.vault.entries
    unfolding mark_key_failed
    mark_key_failed-aliases now alias status retry_after = ground (
      arith,
      cool_down-aliases alias (after now (as_i64 (get_or retry_after 60))),
      cool_down-aliases alias (after now (pos 10)),
      disable_key-aliases r.vault alias,
    )
