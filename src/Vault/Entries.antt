-- ===== src/Vault/Entries.antt =====
-- src/vault.rs: the operations that write to the first entry with an alias, seen through what a
-- lookup by alias finds afterwards.
use mathlib.Core.Option
use skyport.Prelude.{
  ℕ, ◌≡◌, refl, Bool, true, false, not, Option, none, some, List, [], ◌∷◌, arith, ◌==◌,
  if◌then◌else◌, is_some, length, filter, find, length-filter-le, Text, text_eq, text_eq_iff,
}
use skyport.Vault.{
  VaultEntry, Vault, has_alias, modify_first, modified, disable_key, enable_key, set_cooldown,
  remove_key,
}

-- `iter().find(|e| e.key_alias == alias)`
unfoldable pub entry : Vault → Text → Option VaultEntry
entry v alias = find (has_alias alias) v.entries

abbrev pub entries_or : List VaultEntry → Option (List VaultEntry) → List VaultEntry
entries_or es none = es
entries_or es (some es') = es'

module _ (alias : Text) (f : VaultEntry → VaultEntry)
    (keeps : (e : VaultEntry) → (f e).key_alias ≡ e.key_alias) where
  modify_first-IsSome :
      (es : List VaultEntry)
      → is_some (modify_first (has_alias alias) f es) ≡ is_some (find (has_alias alias) es)
  unfolding modify_first
  modify_first-IsSome [] = refl
  modify_first-IsSome (e ∷ es) = ground (arith, modify_first-IsSome es)

  find-modify_first :
      (other : Text) (es : List VaultEntry)
      → find (has_alias other) (entries_or es (modify_first (has_alias alias) f es)) ≡ (
          if text_eq alias other
          then Option.map f (find (has_alias alias) es)
          else find (has_alias other) es)
  unfolding modify_first
  find-modify_first other [] = ground arith
  find-modify_first other (e ∷ es) = ground (
    arith,
    keeps e,
    text_eq_iff e.key_alias alias,
    text_eq_iff e.key_alias other,
    text_eq_iff alias other,
    find-modify_first other es,
  )

-- What a write to the first entry with an alias means: the answer tells whether there is one, that
-- entry is changed, and a lookup by any other alias finds what it found before.
abbrev pub Updates : Text → (VaultEntry → VaultEntry) → Vault → Vault × Bool → Type 0
Updates alias f v (v', found) =
    (found ≡ is_some (entry v alias))
    × ((other : Text)
        → entry v' other
          ≡ (if text_eq alias other then Option.map f (entry v alias) else entry v other))

modified-Updates :
    (v : Vault) (alias : Text) (f : VaultEntry → VaultEntry)
    → ((e : VaultEntry) → (f e).key_alias ≡ e.key_alias)
    → Updates alias f v (modified v (modify_first (has_alias alias) f v.entries))
unfolding entry
modified-Updates v alias f keeps = (
  ground (arith, modify_first-IsSome alias f keeps v.entries),
  λ other. ground (arith, find-modify_first alias f keeps other v.entries),
)

-- Disabling, enabling and cooling down a key change that field of the first entry with the alias,
-- answer whether there is one, and leave what other aliases find as it was.
pub key_switches-Updates :
    (v : Vault) (alias : Text) (until : ℕ)
    → Updates alias (λ e. record e { enabled = false }) v (disable_key v alias)
      × Updates alias (λ e. record e { enabled = true }) v (enable_key v alias)
      × Updates alias (λ e. record e { cooldown_until = some until }) v (set_cooldown v alias until)
unfolding disable_key enable_key set_cooldown
key_switches-Updates v alias until = (
  modified-Updates v alias _ (λ e. refl),
  modified-Updates v alias _ (λ e. refl),
  modified-Updates v alias _ (λ e. refl),
)

find-filter-not :
    (alias other : Text) (es : List VaultEntry)
    → find (has_alias other) (filter (λ e. not (has_alias alias e)) es)
      ≡ (if text_eq alias other then none else find (has_alias other) es)
find-filter-not alias other [] = ground arith
find-filter-not alias other (e ∷ es) = ground (
  arith,
  text_eq_iff e.key_alias alias,
  text_eq_iff e.key_alias other,
  text_eq_iff alias other,
  find-filter-not alias other es,
)

length-filter-not :
    (alias : Text) (es : List VaultEntry)
    → (length (filter (λ e. not (has_alias alias e)) es) == length es)
      ≡ not (is_some (find (has_alias alias) es))
length-filter-not alias [] = refl
length-filter-not alias (e ∷ es) =
    ground (arith, length-filter-not alias es, length-filter-le (λ x. not (has_alias alias x)) es)

-- Removing an alias answers whether an entry had it, leaves none that has it, and leaves what the
-- other aliases find as it was.
pub remove_key-entry :
    (v : Vault) (alias : Text)
    → let (v', removed) = remove_key v alias in
      (removed ≡ is_some (entry v alias))
      × ((other : Text) → entry v' other ≡ (if text_eq alias other then none else entry v other))
unfolding remove_key entry
remove_key-entry v alias = (
  ground (arith, length-filter-not alias v.entries),
  λ other. find-filter-not alias other v.entries,
)
