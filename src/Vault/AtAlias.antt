-- ===== src/Vault/AtAlias.antt =====
-- src/vault.rs: where aliases are unique, a write by alias reaches every entry with the alias.
use mathlib.Core.Option
use skyport.Prelude.{
  ℕ, ◌≡◌, refl, sym, ◌≢◌, ◌⊎◌, inl, inr, false, Option, none, some, List, [], ◌∷◌, Bool-cases, All,
  Text, text_eq_iff,
}
use skyport.Vault.{VaultEntry, Vault, has_alias, modify_first, modified, set_cooldown, disable_key}
use skyport.Vault.Entries.{entries_or}
use skyport.Vault.Aliases.{aliases, Unique, IsUnique}

entries_or-map :
    (e : VaultEntry) (es : List VaultEntry) (o : Option (List VaultEntry))
    → entries_or (e ∷ es) (Option.map (λ r. e ∷ r) o) ≡ e ∷ entries_or es o
entries_or-map e es none = refl
entries_or-map e es (some r) = refl

module _ (Q : VaultEntry → Type 0) (alias : Text) where
  -- every entry with the alias has the property
  abbrev pub AtAlias : List VaultEntry → Type 0
  AtAlias = All (λ e. (e.key_alias ≢ alias) ⊎ Q e)

  AtAlias-absent : (es : List VaultEntry) → All (λ a. alias ≢ a) (aliases es) → AtAlias es
  AtAlias-absent [] h = tt
  AtAlias-absent (e ∷ es) (n, h) = (inl (λ p. n (sym p)), AtAlias-absent es h)

  -- Where aliases are unique, a write to the first entry with one is a write to all of them.
  AtAlias-modify_first :
      (f : VaultEntry → VaultEntry) (es : List VaultEntry)
      → ((e : VaultEntry) → Q (f e))
      → Unique (aliases es)
      → AtAlias (entries_or es (modify_first (has_alias alias) f es))
  unfolding modify_first
  AtAlias-modify_first f [] q u = tt
  AtAlias-modify_first f (e ∷ es) q (lo, u) = elim (Bool-cases (has_alias alias e)) [
    | inl here ↦
        let same = (text_eq_iff e.key_alias alias).0 here in
        rw here (inr (q e), AtAlias-absent es (rw same at lo))
    | inr other ↦
        rw (other, entries_or-map e es (modify_first (has_alias alias) f es))
          (
            inl (λ p. cc ((text_eq_iff e.key_alias alias).1 p, other)),
            AtAlias-modify_first f es q u,
          )
  ]

modified-entries :
    (v : Vault) (o : Option (List VaultEntry)) → (modified v o).0.entries ≡ entries_or v.entries o
modified-entries v none = refl
modified-entries v (some es) = refl

pub set_cooldown-AtAlias :
    (v : Vault) (alias : Text) (until : ℕ)
    → IsUnique v
    → AtAlias (λ e. e.cooldown_until ≡ some until) alias (set_cooldown v alias until).0.entries
unfolding set_cooldown
set_cooldown-AtAlias v alias until u =
    rw (modified-entries v) (AtAlias-modify_first _ alias _ v.entries (λ e. refl) u)

pub disable_key-AtAlias :
    (v : Vault) (alias : Text)
    → IsUnique v
    → AtAlias (λ e. e.enabled ≡ false) alias (disable_key v alias).0.entries
unfolding disable_key
disable_key-AtAlias v alias u =
    rw (modified-entries v) (AtAlias-modify_first _ alias _ v.entries (λ e. refl) u)
