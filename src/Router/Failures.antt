-- ===== src/Router/Failures.antt =====
-- src/router.rs: what the report of a failed request does to the keys that `select_key` sees.
use mathlib.Core.Option.{get_or}
use skyport.Prelude.{
  ℕ, ◌/◌, ◌^◌, ◌≤◌, ◌<◌, ◌≡◌, ◌⊎◌, inl, inr, false, Option, none, some, List, arith, All-imp, ℤ,
  as_i64, Text, err, pos,
}
use skyport.Vault.{VaultEntry, set_cooldown, disable_key}
use skyport.Vault.Aliases.{IsUnique}
use skyport.Vault.AtAlias.{AtAlias, set_cooldown-AtAlias, disable_key-AtAlias}
use skyport.Router.{Router, panicked, vault_lock, is_available, mark_key_failed, select_key}

-- No entry with the alias is available.
abbrev pub IsShunned : Text → ℕ → List VaultEntry → Type 0
IsShunned alias now = AtAlias (λ e. is_available now e ≡ false) alias

module _ {Money : Type 0} (after : ℕ → ℤ → Option ℕ) (r : Router Money) (now : ℕ) (alias : Text)
    (u : IsUnique r.vault) (healthy : r.vault_poisoned ≡ false) where
  -- After a 401 no entry with the alias is available at any time.
  pub mark_key_failed-401 :
      (retry_after : Option ℕ) (later : ℕ)
      → IsShunned alias later (mark_key_failed after r now alias 401 retry_after).0.vault.entries
  unfolding mark_key_failed
  mark_key_failed-401 retry_after later = rw healthy (
      All-imp _ _ (disable_key r.vault alias).0.entries
        (λ e q. elim q [ inl ne ↦ inl ne | inr eq ↦ inr (rw eq) ])
        (disable_key-AtAlias r.vault alias u))

  set_cooldown-IsShunned :
      (until later : ℕ)
      → later ≤ until
      → IsShunned alias later (set_cooldown r.vault alias until).0.entries
  set_cooldown-IsShunned until later early =
      All-imp _ _ (set_cooldown r.vault alias until).0.entries
        (λ e q. elim q [ inl ne ↦ inl ne | inr eq ↦ inr (rw eq (ground arith)) ])
        (set_cooldown-AtAlias r.vault alias until u)

  cool_down-vault :
      (status until : ℕ) (retry_after : Option ℕ)
      → (status ≡ 429) × (after now (as_i64 (get_or retry_after 60)) ≡ some until)
        ⊎ (500 ≤ status) × (status ≤ 599) × (after now (pos 10) ≡ some until)
      → (mark_key_failed after r now alias status retry_after).0.vault
        ≡ (set_cooldown r.vault alias until).0
  unfolding mark_key_failed
  cool_down-vault status until retry_after why = ground arith

  -- After a 429 or a 5xx no entry with the alias is available as long as the time that chrono
  -- computes for the end of the wait has not passed.
  pub mark_key_failed-IsShunned :
      (status : ℕ) (retry_after : Option ℕ) (until later : ℕ)
      → (status ≡ 429) × (after now (as_i64 (get_or retry_after 60)) ≡ some until)
        ⊎ (500 ≤ status) × (status ≤ 599) × (after now (pos 10) ≡ some until)
      → later ≤ until
      → IsShunned alias later (mark_key_failed after r now alias status retry_after).0.vault.entries
  mark_key_failed-IsShunned status retry_after until later why early =
      rw (cool_down-vault status until retry_after why) (set_cooldown-IsShunned until later early)

-- A failure answer whose wait is too long for chrono: the handler panics while it holds the vault's
-- lock, and from then on `select_key` fails for every provider.
pub mark_key_failed-panics :
    {Money : Type 0} (after : ℕ → ℤ → Option ℕ)
    → ((now secs : ℕ) → 2 ^ 63 / 1000 < secs → after now (pos secs) ≡ none)
    → (r : Router Money) (now : ℕ) (alias : Text) (retry_after later : ℕ) (provider : Text)
    → r.vault_poisoned ≡ false
    → 2 ^ 63 / 1000 < retry_after
    → retry_after < 2 ^ 63
    → let (r', outcome) = mark_key_failed after r now alias 429 (some retry_after) in
      (outcome ≡ panicked) × ((select_key r' later provider).1 ≡ err vault_lock)
unfolding mark_key_failed select_key
mark_key_failed-panics after bound r now alias retry_after later provider healthy long fits =
    let none_left = bound now retry_after long in
    let signed : as_i64 retry_after ≡ pos retry_after = ground arith in
    (rw (healthy, signed, none_left), rw (healthy, signed, none_left))
