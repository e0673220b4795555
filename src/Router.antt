-- ===== src/Router.antt =====
-- src/router.rs. The locks are three flags: a lock is poisoned once a thread has panicked while it
-- held it for writing, and a poisoned lock cannot be taken. A call reads the clock once, as `now`.
pub mod Models
pub mod Aliases
pub mod Failures
pub mod Rotation
pub mod Selection
use mathlib.Core.Option.{get_or}
use skyport.Prelude.{
  ℕ, ◌+◌, ◌%◌, ◌^◌, Bool, true, not, ◌&&◌, Option, none, some, List, [], ◌∷◌, ltb, leb, ◌==◌,
  if◌then◌else◌, length, get_elem?, filter, ℤ, as_i64, Dict, lookup, insert, Text, codes,
  split_once, Result, ◌>>=◌, ◌>>◌, ok, err, pos,
}
use skyport.Json.{Json}
use skyport.Config.{SkyportConfig, ProviderConfig, wire_format}
use skyport.Vault.{
  VaultEntry, Vault, has_alias, modify_first, get_keys_for_provider, is_keyless_provider,
  set_cooldown, disable_key,
}

pub record RouteDecision : Type 0 where
  pub provider : Text
  pub base_url : Text
  pub api_key : Text
  pub key_alias : Text
  pub format : Text
  pub oauth_extra : Option Json

pub record Router (Money : Type 0) : Type 0 where
  pub vault : Vault
  pub config : SkyportConfig Money
  pub round_robin_counters : Dict ℕ
  pub vault_poisoned : Bool
  pub config_poisoned : Bool
  pub counters_poisoned : Bool

pub data RouteError : Type 0 where
  vault_lock config_lock counters_lock : RouteError
  cannot_resolve unknown_provider disabled_provider no_key : Text → RouteError

-- the filter of `select_key`: enabled, and not cooling down
abbrev pub is_available : ℕ → VaultEntry → Bool
is_available now e = e.enabled && (elim e.cooldown_until [ some cd ↦ ltb cd now | none ↦ true ])

abbrev pub decision_of : Text → ProviderConfig → VaultEntry → RouteDecision
decision_of provider p e = record {
  provider = provider;
  base_url = p.base_url;
  api_key = e.api_key;
  key_alias = e.key_alias;
  format = wire_format p;
  oauth_extra = e.oauth_extra;
}

abbrev pub local_decision : Text → ProviderConfig → RouteDecision
local_decision provider p = record {
  provider = provider;
  base_url = p.base_url;
  api_key = [];
  key_alias = codes "local";
  format = wire_format p;
  oauth_extra = none;
}

module _ {Money : Type 0} where
  -- the body of `resolve_model`, once the configuration is read
  unfoldable pub resolve : SkyportConfig Money → Text → Result RouteError (Text × Text)
  resolve cfg model_name = elim (lookup model_name cfg.routing.model_map) [
    | some mapped ↦ elim (split_once b'/' mapped) [
      | some (provider, model) ↦ ok (provider, model)
      | none ↦ ok (mapped, model_name)
    ]
    | none ↦ elim (split_once b'/' model_name) [
      | some (provider, model) ↦ ok (provider, model)
      | none ↦ elim cfg.routing.default_provider [
        | some default ↦ ok (default, model_name)
        | none ↦ err (cannot_resolve model_name)
      ]
    ]
  ]

  unfoldable pub resolve_model : Router Money → Text → Result RouteError (Text × Text)
  unfolding resolve
  resolve_model r model_name =
      if r.config_poisoned then err config_lock else resolve r.config model_name

  abbrev pub eligible : Router Money → ℕ → Text → List VaultEntry
  eligible r now provider = filter (is_available now) (get_keys_for_provider r.vault provider)

  -- the rotation: the counter is a `usize`
  unfoldable pub rotate :
      Router Money
      → Text
      → VaultEntry
      → List VaultEntry
      → Router Money × Result RouteError VaultEntry
  rotate r provider first others =
      if r.counters_poisoned
      then (r, err counters_lock)
      else let counter = get_or (lookup provider r.round_robin_counters) 0 in
        let idx = counter % length (first ∷ others) in
        (
          record r {
            round_robin_counters = insert provider ((counter + 1) % 2 ^ 64) r.round_robin_counters;
          },
          ok (get_or (get_elem? (first ∷ others) idx) first),
        )

  abbrev rotated :
      Text
      → ProviderConfig
      → Router Money × Result RouteError VaultEntry
      → Router Money × Result RouteError RouteDecision
  rotated provider p (r, selected) = (r, do e ← selected; ok (decision_of provider p e))

  -- the choice among the eligible keys
  unfoldable pub choose :
      Router Money
      → Text
      → ProviderConfig
      → List VaultEntry
      → Router Money × Result RouteError RouteDecision
  unfolding rotate
  choose r provider p [] = (
    r,
    if is_keyless_provider provider then ok (local_decision provider p) else err (no_key provider),
  )
  choose r provider p (first ∷ others) =
      if p.round_robin
      then (rotated provider p (rotate r provider first others))
      else (r, ok (decision_of provider p first))

  unfoldable pub select_key :
      Router Money → ℕ → Text → Router Money × Result RouteError RouteDecision
  unfolding choose
  select_key r now provider =
      if r.vault_poisoned
      then (r, err vault_lock)
      else if r.config_poisoned
      then (r, err config_lock)
      else elim (lookup provider r.config.providers) [
        | none ↦ (r, err (unknown_provider provider))
        | some p ↦
            if not p.enabled
            then (r, err (disabled_provider provider))
            else choose r provider p (eligible r now provider)
      ]

-- Whether a handler came to its end, or panicked.
pub data Outcome : Type 0 where
  done panicked : Outcome

-- `after now s` is `Utc::now() + Duration::seconds(s)` of the crate chrono: `none` where the
-- duration or the sum is out of range, for which that code panics.
module _ {Money : Type 0} (after : ℕ → ℤ → Option ℕ) where
  -- a panic here unwinds with the vault's write guard held
  cool_down : Router Money → Text → Option ℕ → Router Money × Outcome
  cool_down r alias none = (record r { vault_poisoned = true }, panicked)
  cool_down r alias (some until) = (record r { vault = (set_cooldown r.vault alias until).0 }, done)

  -- The `save` at the end writes the vault's file and no field of the router; its failure is logged.
  unfoldable pub mark_key_failed : Router Money → ℕ → Text → ℕ → Option ℕ → Router Money × Outcome
  unfolding cool_down
  mark_key_failed r now alias status retry_after =
      if r.vault_poisoned
      then (r, done)
      else if status == 429
      then cool_down r alias (after now (as_i64 (get_or retry_after 60)))
      else if status == 401
      then (record r { vault = (disable_key r.vault alias).0 }, done)
      else if leb 500 status && leb status 599
      then cool_down r alias (after now (pos 10))
      else (r, done)

module _ {Money : Type 0} where
  unfoldable pub mark_key_success : Router Money → Text → Router Money
  mark_key_success r alias =
      if r.vault_poisoned
      then r
      else elim (modify_first (has_alias alias) (λ e. record e { cooldown_until = none })
          r.vault.entries) [ none ↦ r | some es ↦ record r { vault = record { entries = es } } ]
