-- ===== src/Vault/Disk/Saving.antt =====
-- src/vault.rs: saving, interrupted anywhere.
use skyport.Prelude.{
  ℕ, ◌≡◌, refl, sym, ap, subst, ◌∙◌, ◌⊎◌, inl, inr, not, some, List, arith, Option-cases, length,
  text_eq, text_eq_iff, reject_if, ok_or, ok,
}
use skyport.Vault.{VaultEntry}
use skyport.Vault.Envelope.{
  IsReadable, Bytes, EncryptedVault, Primitives, DiskError, encrypt_entries,
  decrypt_entries-encrypt, vault_missing, vault_changed, key_changed,
}
use skyport.Vault.Storage.{Storage, ◌>>=◌, ◌>>◌, continue, return, lift, read, atomic_write}
use skyport.Vault.Disk.{
  OpenVault, LoadedEncryptedVault, parsed, decrypt_existing_vault, read_encrypted_vault,
  persist_entries, check_unchanged, save,
}
use skyport.Vault.Disk.Recovery.{
  Ensures, continue-Ensures, lift-Ensures, key_at, recoverable, IsOpen, IsOpen-recoverable, Opens,
  decrypt_existing_vault-Ensures, durable_write-Ensures, Ensures-imp,
}

module _ (p : Primitives) where
  -- A storage that can be recovered holds a file that parses.
  pub recoverable-file :
      (s : Storage) (es : List VaultEntry)
      → recoverable p s ≡ some es
      → (raw : Bytes) × (encrypted : EncryptedVault) × (s.file ≡ some raw)
        × (p.vault_from_json raw ≡ some encrypted)
  unfolding recoverable
  recoverable-file s es h = elim (Option-cases s.file) [
    | inl e ↦ absurd (ground (arith, e, h))
    | inr (raw, e) ↦ elim (Option-cases (p.vault_from_json raw)) [
      | inl bad ↦ absurd (ground (arith, e, bad, h))
      | inr (encrypted, good) ↦ (raw, encrypted, e, good)
    ]
  ]

  abbrev pub Holds : List VaultEntry → Storage → Type 0
  Holds es s = recoverable p s ≡ some es

  -- The vault as the file and the current key give it.
  abbrev pub IsOpened : List VaultEntry → Bytes → Storage → Type 0
  IsOpened es key s = (raw : Bytes) × (encrypted : EncryptedVault) × IsOpen p s raw encrypted key es

  -- The entries that were on the disk are there, or these in a file that this key opens.
  abbrev pub Survives : List VaultEntry → List VaultEntry → Bytes → Storage → Type 0
  Survives es entries key s = Holds es s ⊎ IsOpened entries key s

  -- A file that is written with the key that is current opens with it.
  pub persist_entries-Ensures :
      (nonce : Bytes) (entries es : List VaultEntry) (key : Bytes) (s : Storage) (n : ℕ)
      → length nonce ≡ 12
      → IsReadable p entries
      → IsOpened es key s
      → Ensures
          (Survives es entries key)
          (λ _ t. IsOpened entries key t)
          (persist_entries p nonce entries key (s, n))
  unfolding persist_entries atomic_write
  persist_entries-Ensures nonce entries es key s n hn readable (raw, encrypted, o) =
      let before : Survives es entries key s =
        inl (IsOpen-recoverable p s raw encrypted key es o) in
      continue-Ensures (Survives es entries key)
        (λ env t. (encrypt_entries p nonce entries key ≡ ok env) × (t ≡ s))
        (λ _ t. IsOpened entries key t)
        (λ env. atomic_write (p.vault_to_json env) >> return (p.sha256 (p.vault_to_json env)))
        (lift (encrypt_entries p nonce entries key) (s, n))
        (lift-Ensures (Survives es entries key)
          (λ env t. (encrypt_entries p nonce entries key ≡ ok env) × (t ≡ s))
          (encrypt_entries p nonce entries key) s n before (λ env e. (e, refl)))
        (λ env t n' (e, same).
          let written : IsOpened entries key (record t { file = some (p.vault_to_json env) }) = (
            p.vault_to_json env,
            env,
            record {
              file = refl;
              parses = p.vault_from-to env;
              held = ap (λ u. key_at p u.current_password) same ∙ o.held;
              opens = decrypt_entries-encrypt p nonce key entries env hn readable e;
            },
          ) in
          continue-Ensures (Survives es entries key) (λ _ t'. IsOpened entries key t')
            (λ _ t'. IsOpened entries key t') (λ _. return (p.sha256 (p.vault_to_json env)))
            (atomic_write (p.vault_to_json env) (t, n'))
            (durable_write-Ensures (Survives es entries key) (λ _. IsOpened entries key)
              (λ u. record u { file = some (p.vault_to_json env) }) t n'
              (subst (Survives es entries key) (sym same) before) (inr written) written)
            (λ _ t' n'' h. h))

  module _ (raw : Bytes) (encrypted : EncryptedVault) (es : List VaultEntry) where
    -- The storage holds these entries in this file.
    abbrev pub HoldsIn : Storage → Type 0
    HoldsIn s = (s.file ≡ some raw) × (p.vault_from_json raw ≡ some encrypted) × Holds es s

    parsed-encrypted :
        (found : Bytes) (loaded : LoadedEncryptedVault)
        → p.vault_from_json found ≡ some encrypted
        → parsed p found ≡ ok loaded
        → loaded.encrypted ≡ encrypted
    parsed-encrypted found loaded hp h = ground (arith, hp, h)

    pub read_encrypted_vault-Ensures :
        (error : DiskError) (s : Storage) (n : ℕ)
        → HoldsIn s
        → Ensures
            (Holds es)
            (λ loaded s'. HoldsIn s' × (loaded.encrypted ≡ encrypted))
            (read_encrypted_vault p error (s, n))
    unfolding read_encrypted_vault
    read_encrypted_vault-Ensures error s n h =
        continue-Ensures (Holds es) (λ file s'. HoldsIn s' × (file ≡ some raw))
          (λ loaded s'. HoldsIn s' × (loaded.encrypted ≡ encrypted))
          (λ file. lift (ok_or file error) >>= λ found. lift (parsed p found))
          (read (λ t. t.file) (s, n)) (h, h.0)
          (λ file s' n' (h', e).
            continue-Ensures (Holds es) (λ found t. HoldsIn t × (found ≡ raw))
              (λ loaded t. HoldsIn t × (loaded.encrypted ≡ encrypted))
              (λ found. lift (parsed p found)) (lift (ok_or file error) (s', n'))
              (lift-Ensures (Holds es) (λ found t. HoldsIn t × (found ≡ raw)) (ok_or file error) s'
                n' (h'.2) (λ found e'. (h', ground (arith, e, e'))))
              (λ found t n'' (h'', same).
                lift-Ensures (Holds es) (λ loaded t'. HoldsIn t' × (loaded.encrypted ≡ encrypted))
                  (parsed p found) t n'' (h''.2)
                  (λ loaded e'.
                    (h'', parsed-encrypted found loaded (ap p.vault_from_json same ∙ h''.1) e'))))

    same_key :
        (v : OpenVault) (key : Bytes)
        → reject_if (not (text_eq key v.master_key)) key_changed ≡ ok tt
        → key ≡ v.master_key
    same_key v key h = ground (arith, text_eq_iff key v.master_key, h)

    -- The key that opens the file, where it is the vault's.
    reopen :
        (v : OpenVault) (loaded : LoadedEncryptedVault) (s : Storage) (n : ℕ)
        → loaded.encrypted ≡ encrypted
        → HoldsIn s
        → Ensures
            (Holds es)
            (λ active t. (active ≡ v.master_key) × IsOpen p t raw encrypted active es)
            (continue (decrypt_existing_vault p loaded.encrypted (s, n)) (λ opened.
              lift (reject_if (not (text_eq opened.1 v.master_key)) key_changed)
              >> return opened.1))
    reopen v loaded s n same (hf, hp, hr) =
        continue-Ensures (Holds es) (λ a t. (a.0 ≡ es) × IsOpen p t raw encrypted a.1 es)
          (λ active t. (active ≡ v.master_key) × IsOpen p t raw encrypted active es)
          (λ opened.
            lift (reject_if (not (text_eq opened.1 v.master_key)) key_changed) >> return opened.1)
          (decrypt_existing_vault p loaded.encrypted (s, n))
          (subst (λ e. Opens p raw encrypted es (decrypt_existing_vault p e (s, n))) (sym same)
            (decrypt_existing_vault-Ensures p s n raw encrypted es hf hp hr))
          (λ a t n' (_, o).
            continue-Ensures (Holds es)
              (λ _ t'. (a.1 ≡ v.master_key) × IsOpen p t' raw encrypted (a.1) es)
              (λ active t'. (active ≡ v.master_key) × IsOpen p t' raw encrypted active es)
              (λ _. return (a.1))
              (lift (reject_if (not (text_eq a.1 v.master_key)) key_changed) (t, n'))
              (lift-Ensures (Holds es)
                (λ _ t'. (a.1 ≡ v.master_key) × IsOpen p t' raw encrypted (a.1) es)
                (reject_if (not (text_eq a.1 v.master_key)) key_changed) t n'
                (IsOpen-recoverable p t raw encrypted a.1 es o) (λ u e. (same_key v a.1 e, o)))
              (λ _ t' n'' o'. o'))

    pub check_unchanged-Ensures :
        (v : OpenVault) (s : Storage) (n : ℕ)
        → HoldsIn s
        → Ensures
            (Holds es)
            (λ active s'. (active ≡ v.master_key) × IsOpen p s' raw encrypted active es)
            (check_unchanged p v (s, n))
    unfolding check_unchanged
    check_unchanged-Ensures v s n h =
        continue-Ensures (Holds es) (λ loaded t. HoldsIn t × (loaded.encrypted ≡ encrypted))
          (λ active t. (active ≡ v.master_key) × IsOpen p t raw encrypted active es)
          (λ loaded.
            lift (reject_if (not (text_eq v.envelope_fingerprint loaded.fingerprint)) vault_changed)
            >> (decrypt_existing_vault p loaded.encrypted >>= λ opened.
                lift (reject_if (not (text_eq opened.1 v.master_key)) key_changed)
                >> return opened.1))
          (read_encrypted_vault p vault_missing (s, n))
          (read_encrypted_vault-Ensures vault_missing s n h)
          (λ loaded t n' (h', same).
            continue-Ensures (Holds es) (λ _ t'. HoldsIn t')
              (λ active t'. (active ≡ v.master_key) × IsOpen p t' raw encrypted active es)
              (λ _. decrypt_existing_vault p loaded.encrypted >>= λ opened.
                lift (reject_if (not (text_eq opened.1 v.master_key)) key_changed)
                >> return opened.1)
              (lift
                (reject_if (not (text_eq v.envelope_fingerprint loaded.fingerprint)) vault_changed)
                (t, n'))
              (lift-Ensures (Holds es) (λ _ t'. HoldsIn t')
                (reject_if (not (text_eq v.envelope_fingerprint loaded.fingerprint)) vault_changed)
                t n' (h'.2) (λ _ _. h'))
              (λ _ t' n'' h''. reopen v loaded t' n'' same h''))

  -- For a vault on the disk that opens with one of its two keys: a run of `save` that is interrupted at
  -- any step, or fails, leaves it with the entries it had, or with those of the vault in memory in a file
  -- that the vault's master key, which is the current one, opens; one that succeeds leaves the latter.
  -- This is if the JSON of the saved entries reads back as the entries.
  pub save-Ensures :
      (nonce : Bytes) (v : OpenVault) (s : Storage) (n : ℕ) (es : List VaultEntry)
      → length nonce ≡ 12
      → IsReadable p v.entries
      → Holds es s
      → Ensures
          (Survives es v.entries v.master_key)
          (λ saved t. IsOpened v.entries v.master_key t × (saved.entries ≡ v.entries))
          (save p nonce v (s, n))
  unfolding save
  save-Ensures nonce v s n es hn readable h =
      let (raw, encrypted, hf, hp) = recoverable-file s es h in
      let P = Survives es v.entries v.master_key in
      continue-Ensures P (λ active t. (active ≡ v.master_key) × IsOpen p t raw encrypted active es)
        (λ saved t. IsOpened v.entries v.master_key t × (saved.entries ≡ v.entries))
        (λ active. persist_entries p nonce v.entries v.master_key >>= λ fingerprint.
          return (record v { envelope_fingerprint = fingerprint }))
        (check_unchanged p v (s, n))
        (Ensures-imp (Holds es) P
          (λ active t. (active ≡ v.master_key) × IsOpen p t raw encrypted active es)
          (check_unchanged p v (s, n)) (λ _. inl)
          (check_unchanged-Ensures raw encrypted es v s n (hf, hp, h)))
        (λ active t n' (same, o).
          continue-Ensures P (λ _ t'. IsOpened v.entries v.master_key t')
            (λ saved t'. IsOpened v.entries v.master_key t' × (saved.entries ≡ v.entries))
            (λ fingerprint. return (record v { envelope_fingerprint = fingerprint }))
            (persist_entries p nonce v.entries v.master_key (t, n'))
            (persist_entries-Ensures nonce v.entries es v.master_key t n' hn readable
              (subst (λ key. IsOpened es key t) same (raw, encrypted, o)))
            (λ _ t' n'' o'. (o', refl)))
