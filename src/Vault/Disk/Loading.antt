-- ===== src/Vault/Disk/Loading.antt =====
-- src/vault.rs: loading, interrupted anywhere.
use skyport.Prelude.{ℕ, ◌≡◌, sym, subst, inl, inr, List, Option-cases, length}
use skyport.Vault.{VaultEntry}
use skyport.Vault.Envelope.{Bytes, Primitives, IsReadable, vault_missing}
use skyport.Vault.Storage.{Storage, ◌>>=◌, return}
use skyport.Vault.Disk.{
  LoadedEncryptedVault, open_vault, decrypt_existing_vault, read_encrypted_vault, persist_entries,
  migrate, load,
}
use skyport.Vault.Disk.Recovery.{
  Ensures, continue-Ensures, IsOpen, Opens, decrypt_existing_vault-Ensures, Ensures-imp,
  IsOpen-recoverable,
}
use skyport.Vault.Disk.Saving.{
  Holds, IsOpened, HoldsIn, recoverable-file, persist_entries-Ensures, read_encrypted_vault-Ensures,
  Survives,
}

module _ (p : Primitives) where
  -- The same entries are on the disk, whichever file it is.
  written-Holds :
      (es entries : List VaultEntry) (key : Bytes)
      → entries ≡ es
      → (s : Storage) → Survives p es entries key s
      → Holds p es s
  written-Holds es entries key same s (inl h) = h
  written-Holds es entries key same s (inr (raw, encrypted, o)) =
      subst (λ found. Holds p found s) same (IsOpen-recoverable p s raw encrypted key entries o)

  migrate-Ensures :
      (nonce : Bytes) (loaded : LoadedEncryptedVault) (a : List VaultEntry × Bytes) (s : Storage)
      (n : ℕ) (es : List VaultEntry)
      → length nonce ≡ 12
      → IsReadable p es
      → a.0 ≡ es
      → IsOpened p es a.1 s
      → Ensures
          (Holds p es)
          (λ v t. (v.entries ≡ es) × IsOpened p es v.master_key t)
          (migrate p nonce loaded a (s, n))
  unfolding migrate
  migrate-Ensures nonce loaded (entries, key) s n es hn readable same o =
      elim (Option-cases loaded.encrypted.version) [
        | inr (version, e) ↦ rw e (same, o)
        | inl e ↦ rw e (
            continue-Ensures (Holds p es) (λ _ t. IsOpened p entries key t)
              (λ v t. (v.entries ≡ es) × IsOpened p es v.master_key t)
              (λ fingerprint. return (open_vault p entries key fingerprint))
              (persist_entries p nonce entries key (s, n))
              (Ensures-imp (Survives p es entries key) (Holds p es)
                (λ _ t. IsOpened p entries key t) (persist_entries p nonce entries key (s, n))
                (written-Holds es entries key same)
                (persist_entries-Ensures p nonce entries es key s n hn
                  (subst (IsReadable p) (sym same) readable) o))
              (λ _ t n' o'. (same, subst (λ found. IsOpened p found key t) same o')))
      ]

  pub load-Ensures :
      (nonce : Bytes) (s : Storage) (n : ℕ) (es : List VaultEntry)
      → length nonce ≡ 12
      → IsReadable p es
      → Holds p es s
      → Ensures
          (Holds p es)
          (λ loaded t. (loaded.entries ≡ es) × IsOpened p es loaded.master_key t)
          (load p nonce (s, n))
  unfolding load
  load-Ensures nonce s n es hn readable h =
      let (raw, encrypted, hf, hp) = recoverable-file p s es h in
      continue-Ensures (Holds p es)
        (λ loaded t. HoldsIn p raw encrypted es t × (loaded.encrypted ≡ encrypted))
        (λ loaded t. (loaded.entries ≡ es) × IsOpened p es loaded.master_key t)
        (λ loaded.
          decrypt_existing_vault p loaded.encrypted >>= λ opened. migrate p nonce loaded opened)
        (read_encrypted_vault p vault_missing (s, n))
        (read_encrypted_vault-Ensures p raw encrypted es vault_missing s n (hf, hp, h))
        (λ loaded t n' ((hf', hp', h'), same).
          continue-Ensures (Holds p es) (λ a t'. (a.0 ≡ es) × IsOpen p t' raw encrypted a.1 es)
            (λ v t'. (v.entries ≡ es) × IsOpened p es v.master_key t')
            (λ opened. migrate p nonce loaded opened)
            (decrypt_existing_vault p loaded.encrypted (t, n'))
            (subst (λ e. Opens p raw encrypted es (decrypt_existing_vault p e (t, n'))) (sym same)
              (decrypt_existing_vault-Ensures p t n' raw encrypted es hf' hp' h'))
            (λ a t' n'' (found, o).
              migrate-Ensures nonce loaded a t' n'' es hn readable found (raw, encrypted, o)))
