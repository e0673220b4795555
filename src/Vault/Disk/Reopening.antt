-- ===== src/Vault/Disk/Reopening.antt =====
-- src/vault.rs: a vault loads again after an interruption.
use skyport.Prelude.{
  ℕ, suc, ◌≡◌, refl, sym, subst, inl, inr, true, Option, none, some, List, arith, Option-cases,
  is_some, length, Result, ok_or, is_ok, ok, err,
}
use skyport.Vault.{VaultEntry}
use skyport.Vault.Envelope.{IsReadable, Bytes, EncryptedVault, Primitives, DiskError, vault_missing}
use skyport.Vault.Storage.{
  Storage, Machine, Disk, StoredKey, missing, invalid, present, as_bytes, stored_key, ◌>>=◌,
  continue, lift, write, read_stored_key, set_stored_key, delete_stored_key, durable_write,
}
use skyport.Vault.Disk.{
  OpenVault, KeySelection, LoadedEncryptedVault, parsed, parsed_as, try_key,
  decrypt_with_key_selection, recover_key, with_previous, with_current, decrypt_existing_vault,
  read_encrypted_vault, migrate, load,
}
use skyport.Vault.Disk.Recovery.{Ensures, key_at, entries_of, opened, recoverable}
use skyport.Vault.Disk.Saving.{Holds, IsOpened}
use skyport.Vault.Disk.Loading.{load-Ensures}

module _ (p : Primitives) where
  module _ (s : Storage) (n : ℕ) (encrypted : EncryptedVault) (es : List VaultEntry) where
    recover_present :
        (key : Bytes) (found : Option (List VaultEntry × KeySelection))
        → entries_of p found ≡ some es
        → is_ok (recover_key p (present key) found (s, suc (suc (suc n)))).1 ≡ true
    unfolding recover_key set_stored_key delete_stored_key write durable_write
    recover_present key none h = absurd (ground (arith, h))
    recover_present key (some (entries, selection)) h = refl

    recover_key-is_ok :
        (stored : StoredKey)
        → entries_of p (decrypt_with_key_selection p encrypted none (as_bytes stored)) ≡ some es
        → is_ok
            (recover_key p stored
              (decrypt_with_key_selection p encrypted none (as_bytes stored))
              (s, suc (suc (suc n)))).1
          ≡ true
    unfolding decrypt_with_key_selection
    recover_key-is_ok missing h = absurd (ground (arith, h))
    recover_key-is_ok invalid h = absurd (ground (arith, h))
    recover_key-is_ok (present key) h =
        recover_present key (decrypt_with_key_selection p encrypted none (some key)) h

    current_present :
        (key : Bytes) (entries : Option (List VaultEntry))
        → (entries ≡ none
            → entries_of p
                (decrypt_with_key_selection p encrypted none (key_at p s.previous_password))
              ≡ some es)
        → is_ok (with_current p encrypted (some key) entries (s, suc (suc (suc n)))).1 ≡ true
    unfolding with_current with_previous read_stored_key delete_stored_key write
    current_present key none h = recover_key-is_ok (stored_key p s.previous_password) (h refl)
    current_present key (some entries) h = refl

    with_current-is_ok :
        (stored : StoredKey)
        → entries_of p (
            decrypt_with_key_selection p encrypted (as_bytes stored) (key_at p s.previous_password))
          ≡ some es
        → is_ok
            (with_current p encrypted
              (as_bytes stored)
              (try_key p encrypted (as_bytes stored))
              (s, suc (suc (suc n)))).1
          ≡ true
    unfolding with_current with_previous decrypt_with_key_selection read_stored_key
    with_current-is_ok missing h = recover_key-is_ok (stored_key p s.previous_password) h
    with_current-is_ok invalid h = recover_key-is_ok (stored_key p s.previous_password) h
    with_current-is_ok (present key) h =
        current_present key (try_key p encrypted (some key)) (λ e. ground (arith, e, h))

    decrypt_existing_vault-is_ok :
        opened p (some encrypted) (key_at p s.current_password) (key_at p s.previous_password)
          ≡ some es
        → is_ok (decrypt_existing_vault p encrypted (s, suc (suc (suc n)))).1 ≡ true
    unfolding decrypt_existing_vault read_stored_key
    decrypt_existing_vault-is_ok = with_current-is_ok (stored_key p s.current_password)

  migrate-is_ok :
      (nonce : Bytes) (loaded : LoadedEncryptedVault)
      (r : Machine × Result DiskError (List VaultEntry × Bytes))
      → is_some loaded.encrypted.version ≡ true
      → is_ok r.1 ≡ true
      → is_ok (continue r (migrate p nonce loaded)).1 ≡ true
  unfolding migrate
  migrate-is_ok nonce loaded (m, err e) h ok_r = absurd (ground (arith, ok_r))
  migrate-is_ok nonce loaded (m, ok a) h ok_r = elim (Option-cases loaded.encrypted.version) [
    | inl e ↦ absurd (ground (arith, e, h))
    | inr (version, e) ↦ ground (arith, e)
  ]

  load-is_ok :
      (nonce : Bytes) (s : Storage) (n : ℕ) (raw : Bytes) (encrypted : EncryptedVault)
      (es : List VaultEntry)
      → s.file ≡ some raw
      → p.vault_from_json raw ≡ some encrypted
      → Holds p es s
      → is_some encrypted.version ≡ true
      → is_ok (load p nonce (s, suc (suc (suc n)))).1 ≡ true
  unfolding load read_encrypted_vault recoverable
  load-is_ok nonce s n raw encrypted es hf hp h versioned =
      let next : LoadedEncryptedVault → Disk OpenVault =
        λ loaded. decrypt_existing_vault p loaded.encrypted >>= migrate p nonce loaded in
      subst
        (λ file.
          is_ok
            (continue
              (continue ((s, suc (suc (suc n))), ok_or file vault_missing)
                (λ found. lift (parsed p found)))
              next).1
          ≡ true)
        (sym hf)
        (subst
          (λ v.
            is_ok (continue ((s, suc (suc (suc n))), parsed_as p v (p.sha256 raw)) next).1 ≡ true)
          (sym hp)
          (migrate-is_ok nonce (record { encrypted = encrypted; fingerprint = p.sha256 raw })
            (decrypt_existing_vault p encrypted (s, suc (suc (suc n)))) versioned
            (decrypt_existing_vault-is_ok s n encrypted es (ground (arith, hf, hp, h)))))

  answered :
      {A : Type 0} (P : Storage → Type 0) (Q : A → Storage → Type 0)
      (r : Machine × Result DiskError A)
      → is_ok r.1 ≡ true
      → Ensures P Q r
      → (a : A) × (m : Machine) × (r ≡ (m, ok a)) × Q a m.0
  answered P Q ((s, n), ok a) _ h = (a, (s, n), refl, h)
  answered P Q ((s, n), err e) bad h = absurd (ground (arith, bad))

  -- A vault of the current envelope version whose file opens with one of the two keys loads, when at
  -- least three steps are not interrupted, with its entries; the key it gives is then the current one
  -- and opens the file. This is if the entries' JSON reads back as the entries.
  pub load_reopens :
      (nonce : Bytes) (s : Storage) (n : ℕ) (raw : Bytes) (encrypted : EncryptedVault)
      (es : List VaultEntry)
      → length nonce ≡ 12
      → IsReadable p es
      → s.file ≡ some raw
      → p.vault_from_json raw ≡ some encrypted
      → is_some encrypted.version ≡ true
      → recoverable p s ≡ some es
      → (v : OpenVault) × (m : Machine) × (load p nonce (s, suc (suc (suc n))) ≡ (m, ok v))
        × ((v.entries ≡ es) × IsOpened p es v.master_key m.0)
  load_reopens nonce s n raw encrypted es hn readable hf hp versioned h =
      answered (Holds p es) (λ v t. (v.entries ≡ es) × IsOpened p es v.master_key t)
        (load p nonce (s, suc (suc (suc n))))
        (load-is_ok nonce s n raw encrypted es hf hp h versioned)
        (load-Ensures p nonce s (suc (suc (suc n))) es hn readable h)
