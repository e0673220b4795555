-- ===== src/Tests/Disk.antt =====
-- src/vault.rs: a vault on a disk, and runs of saving, rotating and loading.
pub mod Samples
use skyport.Prelude.{◌≡◌, refl, not, Option, none, some, List, text_eq, ok, err}
use skyport.Vault.{VaultEntry}
use skyport.Vault.Envelope.{
  DiskError, encrypt_entries, decrypt_entries, Bytes, Primitives, interrupted, vault_changed,
}
use skyport.Vault.Storage.{
  Machine, read_stored_key, set_stored_key, delete_stored_key, atomic_write, Storage,
}
use skyport.Vault.Disk.{
  OpenVault, try_key, rotate_master_key, save, load, decrypt_with_key_selection,
}
use skyport.Vault.Disk.Recovery.{Ensures, recoverable}
use skyport.Vault.Disk.Saving.{Holds, IsOpened, save-Ensures, Survives}
use skyport.Vault.Disk.Reopening.{load_reopens}
use skyport.Vault.Disk.Rotation.{Rotates, rotate_master_key-Rotates}
use skyport.Tests.Disk.Samples.{
  primitives, nonce, new_key, old_key, stored, stored_entries, contents, disk, half_rotated,
  in_memory, named,
}

-- the entries of a storage's file, if the key opens it
abbrev try_file : Primitives → Storage → Bytes → Option (List VaultEntry)
try_file p s key = elim s.file [
  | none ↦ none
  | some raw ↦ elim (p.vault_from_json raw) [
    | none ↦ none
    | some encrypted ↦ try_key p encrypted (some key)
  ]
]

disk-Holds : recoverable primitives disk ≡ some stored_entries
unfolding recoverable decrypt_entries
disk-Holds = refl

half_rotated-Holds : recoverable primitives half_rotated ≡ some stored_entries
unfolding recoverable decrypt_entries
half_rotated-Holds = refl

shut : try_key primitives stored (some new_key) ≡ none
unfolding decrypt_entries
shut = refl

rotate_master_key-Rotates_example :
    Rotates primitives stored_entries new_key in_memory
      (rotate_master_key primitives nonce new_key in_memory (disk, 6))
rotate_master_key-Rotates_example =
    rotate_master_key-Rotates primitives contents stored stored_entries nonce new_key in_memory disk
      6 refl refl refl (refl, refl, disk-Holds) shut

-- After five steps the keys are changed and the file is not.
interrupted_rotation :
    (rotate_master_key primitives nonce new_key in_memory (disk, 5)).0.0 ≡ half_rotated
unfolding rotate_master_key text_eq read_stored_key decrypt_entries delete_stored_key
    encrypt_entries set_stored_key atomic_write
interrupted_rotation = refl

-- Where only the sync of the directory fails, the new key opens the file, and the vault in memory has
-- the old one.
unsynced_rotation :
    (try_file primitives
        (rotate_master_key primitives nonce new_key in_memory (disk, 6)).0.0
        new_key
      ≡ some in_memory.entries)
    × ((rotate_master_key primitives nonce new_key in_memory (disk, 6)).1
        ≡ (in_memory, err interrupted))
unfolding rotate_master_key text_eq read_stored_key decrypt_entries delete_stored_key
    encrypt_entries set_stored_key atomic_write
unsynced_rotation = (refl, refl)

-- The vault in memory is then refused by its own file.
save_after_unsynced :
    (save primitives nonce in_memory
      ((rotate_master_key primitives nonce new_key in_memory (disk, 6)).0.0, 9)).1
    ≡ err vault_changed
unfolding save rotate_master_key text_eq read_stored_key decrypt_entries delete_stored_key
    encrypt_entries set_stored_key atomic_write
save_after_unsynced = refl

save-Ensures_example :
    Ensures
      (Survives primitives stored_entries in_memory.entries in_memory.master_key)
      (λ saved t.
        IsOpened primitives in_memory.entries in_memory.master_key t
        × (saved.entries ≡ in_memory.entries))
      (save primitives nonce in_memory (disk, 3))
save-Ensures_example =
    save-Ensures primitives nonce in_memory disk 3 stored_entries refl refl disk-Holds

load_reopens_example :
    (v : OpenVault) × (m : Machine) × (load primitives nonce (half_rotated, 3) ≡ (m, ok v))
    × ((v.entries ≡ stored_entries) × IsOpened primitives stored_entries v.master_key m.0)
load_reopens_example =
    load_reopens primitives nonce half_rotated 0 contents stored stored_entries refl refl refl refl
      refl half_rotated-Holds
