-- ===== src/Vault/Disk/Rotation.antt =====
-- src/vault.rs: loading, saving and rotating, interrupted anywhere.
use skyport.Prelude.{
  ℕ, zero, suc, ◌≡◌, refl, sym, subst, ◌⊎◌, inl, inr, false, none, some, List, arith, length,
  Result, is_ok, ok, err,
}
use skyport.Vault.{VaultEntry}
use skyport.Vault.Envelope.{
  IsReadable, Bytes, EncryptedVault, Primitives, DiskError, encrypt_entries, decrypt_entries,
  decrypt_entries-encrypt,
}
use skyport.Vault.Storage.{
  Storage, Machine, Disk, current, previous, ◌>>=◌, ◌>>◌, return, lift, write, set_password,
  set_stored_key, delete_stored_key, atomic_write, durable_write,
}
use skyport.Vault.Disk.{
  OpenVault, open_vault, try_key, decrypt_with_key_selection, check_unchanged, replace_master_key,
  finish_rotation, rotate_master_key,
}
use skyport.Vault.Disk.Saving.{Holds, IsOpened, HoldsIn, check_unchanged-Ensures, Survives}
use skyport.Vault.Disk.Recovery.{
  Ensures, continue-Ensures, lift-Ensures, key_at, recoverable, IsOpen, IsOpen-recoverable,
  key_at-encode, length-key_at, durable_write-Ensures, Ensures-imp,
}

module _ (p : Primitives) where
  module _ (raw : Bytes) (encrypted : EncryptedVault) (es : List VaultEntry) where
    -- In the course of a rotation: the new key is current, and the previous one opens the file.
    record IsRotating (s : Storage) (key new_key : Bytes) : Type 0 where
      file : s.file ≡ some raw
      held : key_at p s.current_password ≡ some new_key
      held_before : key_at p s.previous_password ≡ some key
      opens : decrypt_entries p encrypted key ≡ ok es

    IsRotating-recoverable :
        (s : Storage) (key new_key : Bytes)
        → p.vault_from_json raw ≡ some encrypted
        → try_key p encrypted (some new_key) ≡ none
        → IsRotating s key new_key
        → Holds p es s
    unfolding recoverable decrypt_with_key_selection
    IsRotating-recoverable s key new_key hp fresh r =
        ground (arith, hp, fresh, r.file, r.held, r.held_before, r.opens)

    module _ (nonce new_key : Bytes) (v : OpenVault) (hn : length nonce ≡ 12)
        (readable : IsReadable p v.entries) (long : length new_key ≡ 32)
        (hp : p.vault_from_json raw ≡ some encrypted)
        (fresh : try_key p encrypted (some new_key) ≡ none) where
      abbrev Rotated : OpenVault → Storage → Type 0
      Rotated rotated t =
          IsOpened p v.entries new_key t
          × (rotated.master_key ≡ new_key)
          × (rotated.entries ≡ v.entries)

      abbrev Left : Storage → Type 0
      Left = Survives p es v.entries new_key

      abbrev write_keys : Bytes → EncryptedVault → Disk OpenVault
      write_keys key replacement =
          set_stored_key p previous key
          >> (set_stored_key p current new_key
              >> (atomic_write (p.vault_to_json replacement)
                  >> return
                      (open_vault p v.entries new_key (p.sha256 (p.vault_to_json replacement)))))

      -- The file is written with the new key, after the keys.
      commit-Ensures :
          (replacement : EncryptedVault) (key : Bytes) (s : Storage) (n : ℕ)
          → encrypt_entries p nonce v.entries new_key ≡ ok replacement
          → IsRotating s key new_key
          → Ensures Left Rotated (
              (atomic_write (p.vault_to_json replacement)
                  >> return
                      (open_vault p v.entries new_key (p.sha256 (p.vault_to_json replacement))))
                (s, n))
      unfolding atomic_write
      commit-Ensures replacement key s n e r =
          let written : IsOpened p v.entries new_key
              (record s { file = some (p.vault_to_json replacement) }) =
            (
              p.vault_to_json replacement,
              replacement,
              record {
                file = refl;
                parses = p.vault_from-to replacement;
                held = r.held;
                opens = decrypt_entries-encrypt p nonce new_key v.entries replacement hn readable e;
              },
            ) in
          continue-Ensures Left (λ _ t. IsOpened p v.entries new_key t) Rotated
            (λ _. return (open_vault p v.entries new_key (p.sha256 (p.vault_to_json replacement))))
            (atomic_write (p.vault_to_json replacement) (s, n))
            (durable_write-Ensures Left (λ _ t. IsOpened p v.entries new_key t)
              (λ t. record t { file = some (p.vault_to_json replacement) }) s n
              (inl (IsRotating-recoverable s key new_key hp fresh r)) (inr written) written)
            (λ _ t n' o. (o, refl, refl))

      -- From the first write of a key on, the file opens with one of the two keys.
      replace_from :
          (replacement : EncryptedVault) (key : Bytes) (s : Storage) (n : ℕ)
          → encrypt_entries p nonce v.entries new_key ≡ ok replacement
          → IsOpen p s raw encrypted key es
          → Ensures Left Rotated (write_keys key replacement (s, n))
      unfolding set_stored_key
      replace_from replacement key s n e o =
          let finish : Disk OpenVault =
            atomic_write (p.vault_to_json replacement)
            >> return (open_vault p v.entries new_key (p.sha256 (p.vault_to_json replacement))) in
          let key_kept : key_at p (some (p.encode key)) ≡ some key =
            key_at-encode p key (length-key_at p s.current_password key o.held) in
          let keep = set_password previous (some (p.encode key)) in
          let renew = set_password current (some (p.encode new_key)) in
          let opened : IsOpen p (keep s) raw encrypted key es = record {
            file = o.file;
            parses = o.parses;
            held = o.held;
            opens = o.opens;
          } in
          continue-Ensures Left
            (λ _ t. IsOpen p t raw encrypted key es × (key_at p t.previous_password ≡ some key))
            Rotated (λ _. set_stored_key p current new_key >> finish) (durable_write keep (s, n))
            (durable_write-Ensures Left
              (λ _ t. IsOpen p t raw encrypted key es × (key_at p t.previous_password ≡ some key))
              keep s n (inl (IsOpen-recoverable p s raw encrypted key es o))
              (inl (IsOpen-recoverable p (keep s) raw encrypted key es opened)) (opened, key_kept))
            (λ _ t n' (o', kept).
              let rotating : IsRotating (renew t) key new_key = record {
                file = o'.file;
                held = key_at-encode p new_key long;
                held_before = kept;
                opens = o'.opens;
              } in
              continue-Ensures Left (λ _ t'. IsRotating t' key new_key) Rotated (λ _. finish)
                (durable_write renew (t, n'))
                (durable_write-Ensures Left (λ _ t'. IsRotating t' key new_key) renew t n'
                  (inl (IsOpen-recoverable p t raw encrypted key es o'))
                  (inl (IsRotating-recoverable (renew t) key new_key hp fresh rotating)) rotating)
                (λ _ t' n'' r. commit-Ensures replacement key t' n'' e r))

      replace_master_key-Ensures :
          (s : Storage) (n : ℕ)
          → HoldsIn p raw encrypted es s
          → Ensures Left Rotated (replace_master_key p nonce new_key v (s, n))
      unfolding replace_master_key
      replace_master_key-Ensures s n h =
          continue-Ensures Left
            (λ active t. (active ≡ v.master_key) × IsOpen p t raw encrypted active es) Rotated
            (λ active. lift (encrypt_entries p nonce v.entries new_key) >>= λ replacement.
              write_keys active replacement)
            (check_unchanged p v (s, n))
            (Ensures-imp (Holds p es) Left
              (λ active t. (active ≡ v.master_key) × IsOpen p t raw encrypted active es)
              (check_unchanged p v (s, n)) (λ _. inl)
              (check_unchanged-Ensures p raw encrypted es v s n h))
            (λ active t n' (_, o).
              continue-Ensures Left
                (λ replacement t'.
                  (encrypt_entries p nonce v.entries new_key ≡ ok replacement) × (t' ≡ t))
                Rotated (write_keys active)
                (lift (encrypt_entries p nonce v.entries new_key) (t, n'))
                (lift-Ensures Left
                  (λ replacement t'.
                    (encrypt_entries p nonce v.entries new_key ≡ ok replacement) × (t' ≡ t))
                  (encrypt_entries p nonce v.entries new_key) t n'
                  (inl (IsOpen-recoverable p t raw encrypted active es o))
                  (λ replacement e. (e, refl)))
                (λ replacement t' n'' (e, same).
                  replace_from replacement active t' n'' e
                    (subst (λ u. IsOpen p u raw encrypted active es) (sym same) o)))

  -- What a rotation leaves: the old file with the vault in memory as it was, or the new one with the
  -- new key, which the vault in memory has, unless the rotation failed with the new file in place.
  abbrev pub Rotates :
      List VaultEntry
      → Bytes
      → OpenVault
      → Machine × (OpenVault × Result DiskError (Unit {0}))
      → Type 0
  Rotates es new_key v ((s, n), (v', answer)) =
      (Survives p es v.entries new_key s × (v' ≡ v) × (is_ok answer ≡ false))
      ⊎ (IsOpened p v.entries new_key s × (v'.master_key ≡ new_key) × (v'.entries ≡ v.entries))

  finish_rotation-Rotates :
      (es : List VaultEntry) (new_key : Bytes) (v : OpenVault)
      (r : Machine × Result DiskError OpenVault)
      → Ensures
          (Survives p es v.entries new_key)
          (λ rotated t.
            IsOpened p v.entries new_key t
            × (rotated.master_key ≡ new_key)
            × (rotated.entries ≡ v.entries))
          r
      → Rotates es new_key v (finish_rotation p v r)
  unfolding delete_stored_key write
  finish_rotation-Rotates es new_key v ((s, n), err e) h = inl (h, refl, refl)
  finish_rotation-Rotates es new_key v ((s, zero), ok rotated) h = inr h
  finish_rotation-Rotates es new_key v ((s, suc n), ok rotated)
        ((raw, encrypted, o), same_key, same) =
      inr (
        (
          raw,
          encrypted,
          record { file = o.file; parses = o.parses; held = o.held; opens = o.opens },
        ),
        same_key,
        same,
      )

  -- A rotation that is interrupted at any step, or fails, leaves a vault that opens with the entries
  -- it had, or, in a file that the new key opens, with the entries in memory. In the first case the
  -- answer is an error and the vault in memory is as before; in the second the vault in memory has the
  -- new key, or is as before and the answer is an error. This is if the entries' JSON reads back as the
  -- entries, and the new key does not open the old file.
  pub rotate_master_key-Rotates :
      (raw : Bytes) (encrypted : EncryptedVault) (es : List VaultEntry) (nonce new_key : Bytes)
      (v : OpenVault) (s : Storage) (n : ℕ)
      → length nonce ≡ 12
      → IsReadable p v.entries
      → length new_key ≡ 32
      → HoldsIn p raw encrypted es s
      → try_key p encrypted (some new_key) ≡ none
      → Rotates es new_key v (rotate_master_key p nonce new_key v (s, n))
  unfolding rotate_master_key
  rotate_master_key-Rotates raw encrypted es nonce new_key v s n hn readable long h fresh =
      finish_rotation-Rotates es new_key v (replace_master_key p nonce new_key v (s, n)) (
        replace_master_key-Ensures raw encrypted es nonce new_key v hn readable long h.1 fresh s n
          h)
