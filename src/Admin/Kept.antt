-- ===== src/Admin/Kept.antt =====
-- src/api/admin.rs: what the handlers of the keys keep.
use skyport.Prelude.{
  ◌≡◌, refl, inl, inr, Bool, true, false, not, ◌||◌, [], ltb, if◌then◌else◌, Bool-cases, is_some,
  lookup, Text, byte_len, is_empty, trim, Result, ok, err,
}
use skyport.Vault.{Vault, AddError, add_key, remove_key, disable_key, enable_key}
use skyport.Vault.Aliases.{IsUnique, mutators-IsUnique}
use skyport.Proxy.Upstream.{at_least_zero}
use skyport.Router.{Router}
use skyport.Admin.{Handled, valid_identifier, lock_poisoned}
use skyport.Admin.Keys.{
  AddKeyRequest, save_vault, store_key, store_change, add_key_handler, remove_key_handler,
  disable_key_handler, enable_key_handler,
}

module _ {Money : Type 0} (r : Router Money) where
  -- An answer that is `ok` leaves the aliases unique and changes the vault only; any other leaves all as
  -- it was.
  abbrev pub Keeps : Handled Money → Type 0
  Keeps (r', ok _) = IsUnique r'.vault × (r'.config ≡ r.config)
  Keeps (r', err e) = r' ≡ r

  save_vault-Keeps : (v : Vault) (saved : Bool) → IsUnique v → Keeps (save_vault r v saved)
  save_vault-Keeps v true u = (u, refl)
  save_vault-Keeps v false u = refl

  store_key-Keeps :
      (saved : Bool) (added : Vault × Result AddError (Unit {0}))
      → IsUnique added.0
      → Keeps (store_key r saved added)
  store_key-Keeps saved (v, ok _) u = save_vault-Keeps v saved u
  store_key-Keeps saved (v, err e) u = refl

  store_change-Keeps :
      (saved : Bool) (changed : Vault × Bool)
      → IsUnique changed.0
      → Keeps (if r.vault_poisoned then (r, err lock_poisoned) else store_change r saved changed)
  store_change-Keeps saved (v, changed) u = elim (Bool-cases r.vault_poisoned) [
    | inl e ↦ simp e refl
    | inr e ↦ elim (Bool-cases changed) [
      | inl t ↦ simp (e, t) (save_vault-Keeps v saved u)
      | inr f ↦ simp (e, f) refl
    ]
  ]

  add_key_handler-Keeps :
      (body : AddKeyRequest) (saved : Bool)
      → IsUnique
          (add_key r.vault body.provider
            (trim body.alias)
            body.api_key
            (at_least_zero body.priority)).0
      → Keeps (add_key_handler r body saved)
  unfolding add_key_handler
  add_key_handler-Keeps body saved u =
      elim (Bool-cases
        (r.config_poisoned || not (is_some (lookup body.provider r.config.providers)))) [
          | inl a ↦ simp a refl
          | inr a ↦
              elim (Bool-cases
                (is_empty (trim body.api_key) || ltb 16_384 (byte_len body.api_key))) [
                  | inl b ↦ simp (a, b) refl
                  | inr b ↦ elim (Bool-cases (valid_identifier (trim body.alias))) [
                    | inr c ↦ simp (a, b, c) refl
                    | inl c ↦ elim (Bool-cases r.vault_poisoned) [
                      | inl d ↦ simp (a, b, c, d) refl
                      | inr d ↦ simp (a, b, c, d) (store_key-Keeps saved _ u)
                    ]
                  ]
                ]
        ]

  -- Where aliases are unique, each handler that adds, removes, disables or enables a key either says ok,
  -- with unique aliases and the configuration as it was, or changes nothing at all.
  pub key_handlers-Keeps :
      (body : AddKeyRequest) (alias : Text) (saved : Bool)
      → IsUnique r.vault
      → Keeps (add_key_handler r body saved)
        × Keeps (remove_key_handler r alias saved)
        × Keeps (disable_key_handler r alias saved)
        × Keeps (enable_key_handler r alias saved)
  unfolding remove_key_handler disable_key_handler enable_key_handler
  key_handlers-Keeps body alias saved u =
      let (added, _, _, _, _, _) =
        mutators-IsUnique r.vault body.provider (trim body.alias) body.api_key
          (at_least_zero body.priority) 0 u in
      let (_, _, removed, disabled, enabled, _) = mutators-IsUnique r.vault [] alias [] 0 0 u in
      (
        add_key_handler-Keeps body saved added,
        store_change-Keeps saved (remove_key r.vault alias) removed,
        store_change-Keeps saved (disable_key r.vault alias) disabled,
        store_change-Keeps saved (enable_key r.vault alias) enabled,
      )
