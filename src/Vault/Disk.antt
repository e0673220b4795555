-- ===== src/Vault/Disk.antt =====
-- src/vault.rs: loading, saving and the rotation of the master key, under the vault's lock. The
-- random generator's nonces and keys are arguments.
pub mod Recovery
pub mod Reopening
pub mod Rotation
pub mod Saving
pub mod Loading
use skyport.Prelude.{not, Option, none, some, List, [], text_eq, Result, reject_if, ok_or, ok, err}
use skyport.Vault.{VaultEntry}
use skyport.Vault.Envelope.{
  Bytes, EncryptedVault, Primitives, DiskError, encrypt_entries, decrypt_entries, undecryptable,
  invalid_master_key, invalid_json, vault_missing, vault_changed, key_changed,
}
use skyport.Vault.Storage.{
  Account, Storage, Machine, Disk, StoredKey, current, previous, missing, invalid, present,
  as_bytes, stored_key, ◌>>=◌, ◌>>◌, continue, return, lift, read, read_stored_key, set_stored_key,
  delete_stored_key, atomic_write,
}

pub record OpenVault : Type 0 where
  pub entries : List VaultEntry
  pub master_key : Bytes
  pub envelope_fingerprint : Bytes

pub record LoadedEncryptedVault : Type 0 where
  pub encrypted : EncryptedVault
  pub fingerprint : Bytes

pub data KeySelection : Type 0 where
  selected_current selected_previous : KeySelection

module _ (p : Primitives) where
  -- Whether a key, if there is one, opens the envelope.
  abbrev pub try_key : EncryptedVault → Option Bytes → Option (List VaultEntry)
  try_key encrypted none = none
  try_key encrypted (some key) = elim (decrypt_entries p encrypted key) [
    | ok entries ↦ some entries
    | err e ↦ none
  ]

  unfoldable pub decrypt_with_key_selection :
      EncryptedVault → Option Bytes → Option Bytes → Option (List VaultEntry × KeySelection)
  decrypt_with_key_selection encrypted current_key previous_key =
      elim (try_key encrypted current_key) [
        | some entries ↦ some (entries, selected_current)
        | none ↦ elim (try_key encrypted previous_key) [
          | some entries ↦ some (entries, selected_previous)
          | none ↦ none
        ]
      ]

  -- the second half of `decrypt_existing_vault`: the previous key is made current again
  unfoldable pub recover_key :
      StoredKey → Option (List VaultEntry × KeySelection) → Disk (List VaultEntry × Bytes)
  recover_key (present key) (some (entries, selection)) = do
    set_stored_key p current key
    delete_stored_key p previous
    return (entries, key)
  recover_key stored none = lift (err undecryptable)
  recover_key missing (some found) = lift (err undecryptable)
  recover_key invalid (some found) = lift (err undecryptable)

  unfoldable pub with_previous : EncryptedVault → Disk (List VaultEntry × Bytes)
  unfolding recover_key
  with_previous encrypted = do
    stored ← read_stored_key p previous
    recover_key stored (decrypt_with_key_selection encrypted none (as_bytes stored))

  unfoldable pub with_current :
      EncryptedVault → Option Bytes → Option (List VaultEntry) → Disk (List VaultEntry × Bytes)
  unfolding with_previous
  with_current encrypted (some key) (some entries) = do
    delete_stored_key p previous
    return (entries, key)
  with_current encrypted none opened = with_previous encrypted
  with_current encrypted (some key) none = with_previous encrypted

  unfoldable pub decrypt_existing_vault : EncryptedVault → Disk (List VaultEntry × Bytes)
  unfolding with_current
  decrypt_existing_vault encrypted = do
    stored ← read_stored_key p current
    with_current encrypted (as_bytes stored) (try_key encrypted (as_bytes stored))

  abbrev parsed_as : Option EncryptedVault → Bytes → Result DiskError LoadedEncryptedVault
  parsed_as none fingerprint = err invalid_json
  parsed_as (some encrypted) fingerprint =
      ok (record { encrypted = encrypted; fingerprint = fingerprint })

  abbrev parsed : Bytes → Result DiskError LoadedEncryptedVault
  parsed raw = parsed_as (p.vault_from_json raw) (p.sha256 raw)

  -- The file is read if it is there; `error` is the answer if it is not.
  unfoldable pub read_encrypted_vault : DiskError → Disk LoadedEncryptedVault
  read_encrypted_vault error = do
    file ← read (λ s. s.file)
    raw ← lift (ok_or file error)
    lift (parsed raw)

  unfoldable pub persist_entries : Bytes → List VaultEntry → Bytes → Disk Bytes
  persist_entries nonce entries key = do
    encrypted ← lift (encrypt_entries p nonce entries key)
    atomic_write (p.vault_to_json encrypted)
    return (p.sha256 (p.vault_to_json encrypted))

  abbrev open_vault : List VaultEntry → Bytes → Bytes → OpenVault
  open_vault entries key fingerprint = record {
    entries = entries;
    master_key = key;
    envelope_fingerprint = fingerprint;
  }

  -- `post_load_fingerprint`, after a legacy envelope has been written anew
  unfoldable pub migrate : Bytes → LoadedEncryptedVault → List VaultEntry × Bytes → Disk OpenVault
  unfolding persist_entries
  migrate nonce loaded (entries, key) = elim loaded.encrypted.version [
    | some version ↦ return (open_vault entries key loaded.fingerprint)
    | none ↦ (do
      fingerprint ← persist_entries nonce entries key
      return (open_vault entries key fingerprint))
  ]

  unfoldable pub get_or_create_master_key : Bytes → StoredKey → Disk Bytes
  get_or_create_master_key generated (present key) = return key
  get_or_create_master_key generated missing = do
    set_stored_key p current generated
    return generated
  get_or_create_master_key generated invalid = lift (err invalid_master_key)

  unfoldable pub create : Bytes → Bytes → Disk OpenVault
  unfolding persist_entries get_or_create_master_key
  create nonce generated = do
    stored ← read_stored_key p current
    key ← get_or_create_master_key generated stored
    fingerprint ← persist_entries nonce [] key
    delete_stored_key p previous
    return (open_vault [] key fingerprint)

  unfoldable pub load : Bytes → Disk OpenVault
  unfolding read_encrypted_vault decrypt_existing_vault migrate
  load nonce = do
    loaded ← read_encrypted_vault vault_missing
    opened ← decrypt_existing_vault loaded.encrypted
    migrate nonce loaded opened

  unfoldable pub load_or_create : Bytes → Bytes → Disk OpenVault
  unfolding load create
  load_or_create nonce generated = do
    file ← read (λ s. s.file)
    elim file [ none ↦ create nonce generated | some raw ↦ load nonce ]

  -- What `save` and `rotate_master_key` check before they write: that neither the file nor the key
  -- has changed since the vault was loaded. It gives the active key.
  unfoldable pub check_unchanged : OpenVault → Disk Bytes
  unfolding read_encrypted_vault decrypt_existing_vault
  check_unchanged v = do
    loaded ← read_encrypted_vault vault_missing
    lift (reject_if (not (text_eq v.envelope_fingerprint loaded.fingerprint)) vault_changed)
    opened ← decrypt_existing_vault loaded.encrypted
    lift (reject_if (not (text_eq opened.1 v.master_key)) key_changed)
    return opened.1

  unfoldable pub save : Bytes → OpenVault → Disk OpenVault
  unfolding check_unchanged persist_entries
  save nonce v = do
    active ← check_unchanged v
    fingerprint ← persist_entries nonce v.entries v.master_key
    return (record v { envelope_fingerprint = fingerprint })

  -- `rotate_master_key` up to the change of the vault in memory
  unfoldable pub replace_master_key : Bytes → Bytes → OpenVault → Disk OpenVault
  unfolding check_unchanged
  replace_master_key nonce new_key v = do
    active ← check_unchanged v
    replacement ← lift (encrypt_entries p nonce v.entries new_key)
    set_stored_key p previous active
    set_stored_key p current new_key
    atomic_write (p.vault_to_json replacement)
    return (open_vault v.entries new_key (p.sha256 (p.vault_to_json replacement)))

  -- The vault in memory stands beside the answer: it has the new key also when the deletion of the
  -- previous one fails.
  abbrev finish_rotation :
      OpenVault
      → Machine × Result DiskError OpenVault
      → Machine × (OpenVault × Result DiskError (Unit {0}))
  finish_rotation v (m, err e) = (m, (v, err e))
  finish_rotation v (m, ok rotated) =
      let (m', answer) = delete_stored_key p previous m in (m', (rotated, answer))

  unfoldable pub rotate_master_key :
      Bytes → Bytes → OpenVault → Machine → Machine × (OpenVault × Result DiskError (Unit {0}))
  unfolding replace_master_key
  rotate_master_key nonce new_key v m = finish_rotation v (replace_master_key nonce new_key v m)
