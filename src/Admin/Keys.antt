-- ===== src/Admin/Keys.antt =====
-- src/api/admin.rs: the handlers that change the vault. `saved` is whether its file could be written.
use skyport.Prelude.{
  Bool, true, false, not, ◌||◌, ltb, if◌then◌else◌, is_some, ℤ, lookup, Text, byte_len, is_empty,
  trim, Result, ok, err,
}
use skyport.Vault.{Vault, AddError, add_key, remove_key, disable_key, enable_key}
use skyport.Proxy.Upstream.{at_least_zero}
use skyport.Router.{Router}
use skyport.Admin.{
  bad_request, conflict, not_found, not_persisted, lock_poisoned, Handled, valid_identifier,
}

pub record AddKeyRequest : Type 0 where
  pub provider : Text
  pub alias : Text
  pub api_key : Text
  pub priority : ℤ

module _ {Money : Type 0} where
  -- the entries once they are saved, or those before
  abbrev pub save_vault : Router Money → Vault → Bool → Handled Money
  save_vault r v true = (record r { vault = v }, ok tt)
  save_vault r v false = (r, err not_persisted)

  abbrev pub store_key : Router Money → Bool → Vault × Result AddError (Unit {0}) → Handled Money
  store_key r saved (v, ok _) = save_vault r v saved
  store_key r saved (v, err e) = (r, err conflict)

  abbrev pub store_change : Router Money → Bool → Vault × Bool → Handled Money
  store_change r saved (v, true) = save_vault r v saved
  store_change r saved (v, false) = (r, err not_found)

  unfoldable pub add_key_handler : Router Money → AddKeyRequest → Bool → Handled Money
  unfolding add_key valid_identifier
  add_key_handler r body saved =
      if r.config_poisoned || not (is_some (lookup body.provider r.config.providers))
      then (r, err bad_request)
      else if is_empty (trim body.api_key) || ltb 16_384 (byte_len body.api_key)
      then (r, err bad_request)
      else if not (valid_identifier (trim body.alias))
      then (r, err bad_request)
      else if r.vault_poisoned
      then (r, err lock_poisoned)
      else store_key r saved (
          add_key r.vault body.provider (trim body.alias) body.api_key
            (at_least_zero body.priority))

  unfoldable pub remove_key_handler : Router Money → Text → Bool → Handled Money
  unfolding remove_key
  remove_key_handler r alias saved =
      if r.vault_poisoned
      then (r, err lock_poisoned)
      else store_change r saved (remove_key r.vault alias)

  unfoldable pub disable_key_handler : Router Money → Text → Bool → Handled Money
  unfolding disable_key
  disable_key_handler r alias saved =
      if r.vault_poisoned
      then (r, err lock_poisoned)
      else store_change r saved (disable_key r.vault alias)

  unfoldable pub enable_key_handler : Router Money → Text → Bool → Handled Money
  unfolding enable_key
  enable_key_handler r alias saved =
      if r.vault_poisoned
      then (r, err lock_poisoned)
      else store_change r saved (enable_key r.vault alias)
