-- ===== src/Vault.antt =====
-- src/vault.rs: the entries of the vault and the operations on them. A `DateTime<Utc>` is a number
-- of nanoseconds since the epoch. What `zeroize` overwrites is overwritten again at once, so only
-- the new value shows; a method that returns `bool` returns the vault beside it.
use skyport.Prelude.{
  ℕ, Bool, true, false, not, ◌&&◌, ◌||◌, Option, none, some, List, [], ◌∷◌, ◌++◌, map, ltb, leb,
  ◌==◌, if◌then◌else◌, length, take, any, filter, find, Text, codes, text_eq, is_empty, trim,
  Result, ok, err,
}
pub mod Entries
pub mod Aliases
pub mod AtAlias
pub mod Priority
pub mod Envelope
pub mod Storage
pub mod Disk
use mathlib.Core.List.{reverse}
use mathlib.Core.Option
use skyport.Json.{Json}

pub record VaultEntry : Type 0 where
  pub key_alias : Text
  pub provider : Text
  pub api_key : Text
  pub priority : ℕ
  pub enabled : Bool
  pub cooldown_until : Option ℕ
  pub refresh_token : Option Text
  pub expires_at : Option ℕ
  pub oauth_provider : Option Text
  pub oauth_extra : Option Json

pub record OAuthCredential : Type 0 where
  pub provider : Text
  pub alias : Text
  pub access_token : Text
  pub refresh_token : Option Text
  pub expires_at : Option ℕ
  pub oauth_provider : Text
  pub extra : Option Json

pub record VaultEntrySummary : Type 0 where
  pub key_alias : Text
  pub provider : Text
  pub masked_key : Text
  pub priority : ℕ
  pub enabled : Bool
  pub cooldown_until : Option ℕ
  pub expires_at : Option ℕ
  pub oauth_provider : Option Text

pub record Vault : Type 0 where
  pub entries : List VaultEntry

abbrev pub has_alias : Text → VaultEntry → Bool
has_alias alias e = text_eq e.key_alias alias

pub data AddError : Type 0 where
  empty_alias duplicate_alias : AddError

unfoldable pub add_key : Vault → Text → Text → Text → ℕ → Vault × Result AddError (Unit {0})
add_key v provider alias api_key priority =
    let alias' = trim alias in
    if is_empty alias'
    then (v, err empty_alias)
    else if any (has_alias alias') v.entries
    then (v, err duplicate_alias)
    else (
      record {
        entries =
            v.entries
            ++ (record {
              key_alias = alias';
              provider = provider;
              api_key = api_key;
              priority = priority;
              enabled = true;
              cooldown_until = none;
              refresh_token = none;
              expires_at = none;
              oauth_provider = none;
              oauth_extra = none;
            })
              ∷ [];
      },
      ok tt,
    )

-- `iter_mut().find(p)` and the writes to what it finds: `none` if nothing is found
unfoldable pub modify_first :
    (VaultEntry → Bool) → (VaultEntry → VaultEntry) → List VaultEntry → Option (List VaultEntry)
modify_first p f [] = none
modify_first p f (e ∷ es) =
    let rest = modify_first p f es in if p e then some (f e ∷ es) else Option.map (λ r. e ∷ r) rest

abbrev modified : Vault → Option (List VaultEntry) → Vault × Bool
modified v none = (v, false)
modified v (some es) = (record { entries = es }, true)

abbrev pub is_none {ℓ} : {A : Type ℓ} → Option A → Bool
is_none none = true
is_none (some a) = false

unfoldable pub replace_key : Vault → Text → Text → Vault × Bool
unfolding modify_first
replace_key v alias api_key = modified v (
    modify_first (λ e. has_alias alias e && is_none e.oauth_provider)
      (λ e. record e { api_key = api_key; enabled = true; cooldown_until = none }) v.entries)

-- the writes to the entry that is replaced
abbrev pub relink : OAuthCredential → VaultEntry → VaultEntry
relink c e = record e {
  api_key = c.access_token;
  refresh_token = c.refresh_token;
  expires_at = c.expires_at;
  oauth_provider = some c.oauth_provider;
  oauth_extra = c.extra;
  enabled = true;
  cooldown_until = none;
}

abbrev pub linked : OAuthCredential → VaultEntry
linked c = record {
  key_alias = c.alias;
  provider = c.provider;
  api_key = c.access_token;
  priority = 0;
  enabled = true;
  cooldown_until = none;
  refresh_token = c.refresh_token;
  expires_at = c.expires_at;
  oauth_provider = some c.oauth_provider;
  oauth_extra = c.extra;
}

abbrev pub same_link : OAuthCredential → VaultEntry → Bool
same_link c e = has_alias c.alias e && text_eq e.provider c.provider

unfoldable pub upsert_oauth_key : Vault → OAuthCredential → Vault × Bool
unfolding modify_first
upsert_oauth_key v c = elim (modify_first (same_link c) (relink c) v.entries) [
  | some es ↦ (record { entries = es }, true)
  | none ↦ (record { entries = v.entries ++ linked c ∷ [] }, false)
]

unfoldable pub remove_key : Vault → Text → Vault × Bool
remove_key v alias =
    let kept = filter (λ e. not (has_alias alias e)) v.entries in
    (record { entries = kept }, not (length kept == length v.entries))

unfoldable pub disable_key : Vault → Text → Vault × Bool
unfolding modify_first
disable_key v alias =
    modified v (modify_first (has_alias alias) (λ e. record e { enabled = false }) v.entries)

unfoldable pub enable_key : Vault → Text → Vault × Bool
unfolding modify_first
enable_key v alias =
    modified v (modify_first (has_alias alias) (λ e. record e { enabled = true }) v.entries)

unfoldable pub set_cooldown : Vault → Text → ℕ → Vault × Bool
unfolding modify_first
set_cooldown v alias until =
    modified v
      (modify_first (has_alias alias) (λ e. record e { cooldown_until = some until }) v.entries)

unfoldable pub oauth_entry : Vault → Text → Option VaultEntry
oauth_entry v provider =
    find (λ e. text_eq e.provider provider && not (is_none e.oauth_provider)) v.entries

-- The stable sort by priority. A stable sort has one result, so how it is computed does not show.
unfoldable pub insert_by_priority : VaultEntry → List VaultEntry → List VaultEntry
insert_by_priority e [] = e ∷ []
insert_by_priority e (f ∷ fs) =
    let rest = insert_by_priority e fs in if leb e.priority f.priority then e ∷ f ∷ fs else f ∷ rest

unfoldable pub sort_by_priority : List VaultEntry → List VaultEntry
unfolding insert_by_priority
sort_by_priority [] = []
sort_by_priority (e ∷ es) = insert_by_priority e (sort_by_priority es)

unfoldable pub get_keys_for_provider : Vault → Text → List VaultEntry
unfolding sort_by_priority
get_keys_for_provider v provider =
    sort_by_priority (filter (λ e. text_eq e.provider provider) v.entries)

unfoldable pub is_keyless_provider : Text → Bool
is_keyless_provider provider =
    text_eq provider (codes "ollama") || text_eq provider (codes "lmstudio")

-- `mask_key`: at most the last four characters
unfoldable pub mask_key : Text → Text
mask_key key =
    let suffix = take 4 (reverse key) in
    if ltb (length suffix) 4 || leb (length key) 4
    then codes "****"
    else codes "****" ++ reverse suffix

unfoldable pub list_keys : Vault → List VaultEntrySummary
unfolding mask_key
list_keys v =
    map
      (λ e. record {
        key_alias = e.key_alias;
        provider = e.provider;
        masked_key = mask_key e.api_key;
        priority = e.priority;
        enabled = e.enabled;
        cooldown_until = e.cooldown_until;
        expires_at = e.expires_at;
        oauth_provider = e.oauth_provider;
      })
      v.entries
