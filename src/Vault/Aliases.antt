-- ===== src/Vault/Aliases.antt =====
-- src/vault.rs: aliases are unique, under which operations, and where an OAuth sign-in breaks that.
use skyport.Prelude.{
  ℕ, ◌≡◌, refl, ap, ◌≢◌, ◌↔◌, inl, inr, Bool, true, false, not, ◌||◌, none, some, List, [], ◌∷◌,
  ◌++◌, arith, Bool-cases, any, filter, All, All-concat, All-last, Text, text_eq, text_eq_refl,
  text_eq_iff, is_empty, trim,
}
use skyport.Vault.Entries.{entries_or}
use skyport.Vault.{
  same_link, VaultEntry, OAuthCredential, Vault, has_alias, modify_first, modified, add_key,
  disable_key, enable_key, set_cooldown, remove_key, replace_key, upsert_oauth_key, linked, relink,
  same_link,
}

abbrev pub aliases : List VaultEntry → List Text
aliases [] = []
aliases (e ∷ es) = e.key_alias ∷ aliases es

abbrev pub Unique : List Text → Type 0
Unique [] = Unit
Unique (a ∷ as') = All (λ b. a ≢ b) as' × Unique as'

abbrev pub IsUnique : Vault → Type 0
IsUnique v = Unique (aliases v.entries)

Unique-concat :
    (as' : List Text) (b : Text) → Unique as' → All (λ a. a ≢ b) as' → Unique (as' ++ b ∷ [])
Unique-concat [] b u h = (tt, tt)
Unique-concat (a ∷ as') b (lo, u) (n, h) = (All-concat _ as' lo n, Unique-concat as' b u h)

aliases-append :
    (es : List VaultEntry) (e : VaultEntry)
    → aliases (es ++ e ∷ []) ≡ aliases es ++ e.key_alias ∷ []
aliases-append [] e = refl
aliases-append (d ∷ es) e = ap (λ r. d.key_alias ∷ r) (aliases-append es e)

absent :
    (alias : Text) (es : List VaultEntry)
    → any (has_alias alias) es ≡ false
    → All (λ a. a ≢ alias) (aliases es)
absent alias [] h = tt
absent alias (e ∷ es) h =
    let first : text_eq e.key_alias alias ≡ false = ground arith in
    (
      λ p. cc (ap (λ (a : Text). text_eq a alias) p, text_eq_refl alias, first),
      absent alias es (ground arith),
    )

pub aliases-modify_first :
    (p : VaultEntry → Bool) (f : VaultEntry → VaultEntry) (es : List VaultEntry)
    → ((e : VaultEntry) → (f e).key_alias ≡ e.key_alias)
    → aliases (entries_or es (modify_first p f es)) ≡ aliases es
unfolding modify_first
aliases-modify_first p f [] keeps = refl
aliases-modify_first p f (e ∷ es) keeps = ground (arith, keeps e, aliases-modify_first p f es keeps)

modified-aliases :
    (v : Vault) (p : VaultEntry → Bool) (f : VaultEntry → VaultEntry)
    → ((e : VaultEntry) → (f e).key_alias ≡ e.key_alias)
    → aliases (modified v (modify_first p f v.entries)).0.entries ≡ aliases v.entries
modified-aliases v p f keeps =
    let same : (modified v (modify_first p f v.entries)).0.entries
        ≡ entries_or v.entries (modify_first p f v.entries) =
      ground arith in
    rw (same, aliases-modify_first p f v.entries keeps) refl

pub set_cooldown-aliases :
    (v : Vault) (alias : Text) (until : ℕ)
    → aliases (set_cooldown v alias until).0.entries ≡ aliases v.entries
unfolding set_cooldown
set_cooldown-aliases v alias until =
    modified-aliases v (has_alias alias) (λ e. record e { cooldown_until = some until }) (λ _. refl)

pub disable_key-aliases :
    (v : Vault) (alias : Text) → aliases (disable_key v alias).0.entries ≡ aliases v.entries
unfolding disable_key
disable_key-aliases v alias =
    modified-aliases v (has_alias alias) (λ e. record e { enabled = false }) (λ _. refl)

modified-IsUnique :
    (v : Vault) (p : VaultEntry → Bool) (f : VaultEntry → VaultEntry)
    → ((e : VaultEntry) → (f e).key_alias ≡ e.key_alias)
    → IsUnique v
    → IsUnique (modified v (modify_first p f v.entries)).0
modified-IsUnique v p f keeps u = rw (modified-aliases v p f keeps) u

aliases-filter-All :
    (P : Text → Type 0) (p : VaultEntry → Bool) (es : List VaultEntry)
    → All P (aliases es)
    → All P (aliases (filter p es))
aliases-filter-All P p [] h = tt
aliases-filter-All P p (e ∷ es) (q, h) = elim (Bool-cases (p e)) [
  | inl t ↦ rw t (q, aliases-filter-All P p es h)
  | inr t ↦ rw t (aliases-filter-All P p es h)
]

Unique-filter :
    (p : VaultEntry → Bool) (es : List VaultEntry)
    → Unique (aliases es)
    → Unique (aliases (filter p es))
Unique-filter p [] u = tt
Unique-filter p (e ∷ es) (lo, u) = elim (Bool-cases (p e)) [
  | inl t ↦ rw t (aliases-filter-All _ p es lo, Unique-filter p es u)
  | inr t ↦ rw t (Unique-filter p es u)
]

push-IsUnique :
    (v : Vault) (e : VaultEntry)
    → any (has_alias e.key_alias) v.entries ≡ false
    → IsUnique v
    → IsUnique (record { entries = v.entries ++ e ∷ [] })
push-IsUnique v e new u =
    rw aliases-append (Unique-concat _ e.key_alias u (absent e.key_alias v.entries new))

add_key-IsUnique :
    (v : Vault) (provider alias api_key : Text) (priority : ℕ)
    → IsUnique v
    → IsUnique (add_key v provider alias api_key priority).0
unfolding add_key
add_key-IsUnique v provider alias api_key priority u = elim (Bool-cases (is_empty (trim alias))) [
  | inl e ↦ rw e u
  | inr e ↦ elim (Bool-cases (any (has_alias (trim alias)) v.entries)) [
    | inl taken ↦ rw (e, taken) u
    | inr new ↦ rw (e, new) (push-IsUnique v _ new u)
  ]
]

-- Adding a key keeps aliases unique, and so does every operation that writes to an entry or
-- removes one.
pub mutators-IsUnique :
    (v : Vault) (provider alias api_key : Text) (priority until : ℕ)
    → IsUnique v
    → IsUnique (add_key v provider alias api_key priority).0
      × IsUnique (replace_key v alias api_key).0
      × IsUnique (remove_key v alias).0
      × IsUnique (disable_key v alias).0
      × IsUnique (enable_key v alias).0
      × IsUnique (set_cooldown v alias until).0
unfolding replace_key remove_key disable_key enable_key set_cooldown
mutators-IsUnique v provider alias api_key priority until u = (
  add_key-IsUnique v provider alias api_key priority u,
  modified-IsUnique v _ _ (λ e. refl) u,
  Unique-filter _ v.entries u,
  modified-IsUnique v _ _ (λ e. refl) u,
  modified-IsUnique v _ _ (λ e. refl) u,
  modified-IsUnique v _ _ (λ e. refl) u,
)

-- whether an entry has the alias of the credential and its provider
abbrev pub is_relink : OAuthCredential → Vault → Bool
is_relink c v = any (same_link c) v.entries

-- the update finds an entry exactly when there is one to replace
pub modify_first-is_relink :
    (p : VaultEntry → Bool) (f : VaultEntry → VaultEntry) (es : List VaultEntry)
    → (any p es ≡ false) ↔ (modify_first p f es ≡ none)
unfolding modify_first
modify_first-is_relink p f [] = (λ _. refl, λ _. refl)
modify_first-is_relink p f (e ∷ es) = ground (arith, modify_first-is_relink p f es)

not-Unique-concat :
    (alias : Text) (es : List VaultEntry)
    → any (has_alias alias) es ≡ true
    → ¬ Unique (aliases es ++ alias ∷ [])
not-Unique-concat alias [] h u = cc
not-Unique-concat alias (e ∷ es) h (lo, u) = elim (Bool-cases (has_alias alias e)) [
  | inl same ↦ All-last _ (aliases es) lo ((text_eq_iff e.key_alias alias).0 same)
  | inr other ↦ not-Unique-concat alias es (ground arith) u
]

upsert_replaces :
    (v : Vault) (c : OAuthCredential)
    → is_relink c v ≡ true
    → aliases (upsert_oauth_key v c).0.entries ≡ aliases v.entries
unfolding upsert_oauth_key
upsert_replaces v c h = ground (
  arith,
  modify_first-is_relink (same_link c) (relink c) v.entries,
  aliases-modify_first (same_link c) (relink c) v.entries (λ e. refl),
)

upsert_adds :
    (v : Vault) (c : OAuthCredential)
    → is_relink c v ≡ false
    → (upsert_oauth_key v c).0.entries ≡ v.entries ++ linked c ∷ []
unfolding upsert_oauth_key
upsert_adds v c h = ground (arith, modify_first-is_relink (same_link c) (relink c) v.entries)

-- In a vault with unique aliases an OAuth sign-in leaves them unique exactly when an entry has
-- both the credential's alias and its provider, or no entry has its alias: where the alias is
-- taken by entries of other providers only, the sign-in adds a second entry with that alias.
pub upsert_oauth_key-IsUnique :
    (v : Vault) (c : OAuthCredential)
    → IsUnique v
    → ((is_relink c v || not (any (has_alias c.alias) v.entries)) ≡ true)
      ↔ IsUnique (upsert_oauth_key v c).0
upsert_oauth_key-IsUnique v c u = elim (Bool-cases (is_relink c v)) [
  | inl r ↦ rw (r, upsert_replaces v c r) (λ _. u, λ _. refl)
  | inr r ↦ elim (Bool-cases (any (has_alias c.alias) v.entries)) [
    | inl taken ↦
        rw (r, taken, upsert_adds v c r, aliases-append)
          (λ e. cc, λ q. absurd (not-Unique-concat c.alias v.entries taken q))
    | inr new ↦ rw (r, new, upsert_adds v c r) (λ _. push-IsUnique v (linked c) new u, λ _. refl)
  ]
]
