-- ===== src/Vault/Disk/Recovery.antt =====
-- src/vault.rs: no interruption loses the vault.
use skyport.Prelude.{
  ℕ, zero, suc, ◌≡◌, refl, ap, ◌∙◌, inl, inr, Option, none, some, List, arith, Option-cases, length,
  Text, Result, Result-cases, ok, err,
}
use skyport.Vault.{VaultEntry}
use skyport.Vault.Envelope.{Bytes, EncryptedVault, Primitives, DiskError, decrypt_entries}
use skyport.Vault.Storage.{
  Storage, Machine, Disk, StoredKey, current, previous, missing, invalid, present, as_bytes,
  stored_key, ◌>>◌, continue, return, lift, write, set_password, read_stored_key, set_stored_key,
  delete_stored_key, durable_write,
}
use skyport.Vault.Disk.{
  KeySelection, selected_previous, decrypt_with_key_selection, try_key, recover_key, with_previous,
  decrypt_existing_vault,
}

-- What holds of the storage where a run was interrupted or failed, and where it gave an answer.
abbrev pub Ensures :
    {A : Type 0}
    → (Storage → Type 0)
    → (A → Storage → Type 0)
    → Machine × Result DiskError A
    → Type 0
Ensures P Q ((s, n), ok a) = Q a s
Ensures P Q ((s, n), err e) = P s

module _ (P : Storage → Type 0) where
  pub continue-Ensures :
      {A B : Type 0} (Q : A → Storage → Type 0) (R : B → Storage → Type 0) (k : A → Disk B)
      (r : Machine × Result DiskError A)
      → Ensures P Q r
      → ((a : A) (s : Storage) (n : ℕ) → Q a s → Ensures P R (k a (s, n)))
      → Ensures P R (continue r k)
  continue-Ensures Q R k ((s, n), ok a) h then_k = then_k a s n h
  continue-Ensures Q R k ((s, n), err e) h then_k = h

  pub write-Ensures :
      (Q : Unit {0} → Storage → Type 0) (change : Storage → Storage) (s : Storage) (n : ℕ)
      → P s
      → Q tt (change s)
      → Ensures P Q (write change (s, n))
  unfolding write
  write-Ensures Q change s zero p q = p
  write-Ensures Q change s (suc n) p q = q

  pub lift-Ensures :
      {A : Type 0} (Q : A → Storage → Type 0) (r : Result DiskError A) (s : Storage) (n : ℕ)
      → P s
      → ((a : A) → r ≡ ok a → Q a s)
      → Ensures P Q (lift r (s, n))
  lift-Ensures Q (ok a) s n p q = q a refl
  lift-Ensures Q (err e) s n p q = p

  pub durable_write-Ensures :
      (Q : Unit {0} → Storage → Type 0) (change : Storage → Storage) (s : Storage) (n : ℕ)
      → P s
      → P (change s)
      → Q tt (change s)
      → Ensures P Q (durable_write change (s, n))
  unfolding durable_write
  durable_write-Ensures Q change s zero before after q = before
  durable_write-Ensures Q change s (suc zero) before after q = after
  durable_write-Ensures Q change s (suc (suc n)) before after q = q

pub Ensures-imp :
    {A : Type 0} (P P' : Storage → Type 0) (Q : A → Storage → Type 0)
    (r : Machine × Result DiskError A)
    → ((s : Storage) → P s → P' s)
    → Ensures P Q r
    → Ensures P' Q r
Ensures-imp P P' Q ((s, n), ok a) imp h = h
Ensures-imp P P' Q ((s, n), err e) imp h = imp s h

module _ (p : Primitives) where
  abbrev pub key_at : Option Text → Option Bytes
  key_at secret = as_bytes (stored_key p secret)

  -- The entries that the file and the two keys give.
  abbrev pub entries_of : Option (List VaultEntry × KeySelection) → Option (List VaultEntry)
  entries_of none = none
  entries_of (some (entries, selection)) = some entries

  abbrev pub opened : Option EncryptedVault → Option Bytes → Option Bytes → Option (List VaultEntry)
  opened none current_key previous_key = none
  opened (some encrypted) current_key previous_key =
      entries_of (decrypt_with_key_selection p encrypted current_key previous_key)

  abbrev pub parsed_file : Option Bytes → Option EncryptedVault
  parsed_file none = none
  parsed_file (some raw) = p.vault_from_json raw

  unfoldable pub recoverable : Storage → Option (List VaultEntry)
  unfolding decrypt_with_key_selection
  recoverable s =
      opened (parsed_file s.file) (key_at s.current_password) (key_at s.previous_password)

  -- The current key opens the file.
  pub record IsOpen (s : Storage) (raw : Bytes) (encrypted : EncryptedVault) (key : Bytes)
      (es : List VaultEntry) : Type 0 where
    pub file : s.file ≡ some raw
    pub parses : p.vault_from_json raw ≡ some encrypted
    pub held : key_at s.current_password ≡ some key
    pub opens : decrypt_entries p encrypted key ≡ ok es

  pub IsOpen-recoverable :
      (s : Storage) (raw : Bytes) (encrypted : EncryptedVault) (key : Bytes) (es : List VaultEntry)
      → IsOpen s raw encrypted key es
      → recoverable s ≡ some es
  unfolding recoverable
  IsOpen-recoverable s raw encrypted key es o = ground (arith, o.file, o.parses, o.held, o.opens)

  pub key_at-encode : (key : Bytes) → length key ≡ 32 → key_at (some (p.encode key)) ≡ some key
  key_at-encode key h = ground (arith, p.decode-encode key, h)

  pub length-key_at :
      (secret : Option Text) (key : Bytes) → key_at secret ≡ some key → length key ≡ 32
  length-key_at none key h = ground arith
  length-key_at (some secret) key h = elim (Option-cases (p.decode secret)) [
    | inl e ↦ ground (arith, e, h)
    | inr (k, e) ↦ ground (arith, e, h)
  ]

  try_key-some :
      (encrypted : EncryptedVault) (key : Bytes) (es : List VaultEntry)
      → try_key p encrypted (some key) ≡ some es
      → decrypt_entries p encrypted key ≡ ok es
  try_key-some encrypted key es h = elim (Result-cases (decrypt_entries p encrypted key)) [
    | inl (found, e) ↦ ground (arith, e, h)
    | inr (e, failed) ↦ absurd (ground (arith, failed, h))
  ]

  select_previous :
      (encrypted : EncryptedVault) (key : Bytes) (es : List VaultEntry)
      → decrypt_entries p encrypted key ≡ ok es
      → decrypt_with_key_selection p encrypted none (some key) ≡ some (es, selected_previous)
  unfolding decrypt_with_key_selection
  select_previous encrypted key es h = ground (arith, h)

  module _ (raw : Bytes) (encrypted : EncryptedVault) (es : List VaultEntry) where
    -- What a run that opens the envelope leaves behind, interrupted or not.
    abbrev pub Opens : Machine × Result DiskError (List VaultEntry × Bytes) → Type 0
    Opens =
        Ensures (λ s. recoverable s ≡ some es) (λ a s. (a.0 ≡ es) × IsOpen s raw encrypted a.1 es)

    forget_previous-Opens :
        (s : Storage) (n : ℕ) (key : Bytes)
        → IsOpen s raw encrypted key es
        → Opens ((delete_stored_key p previous >> return (es, key)) (s, n))
    unfolding delete_stored_key
    forget_previous-Opens s n key o =
        continue-Ensures (λ s'. recoverable s' ≡ some es) (λ _ s'. IsOpen s' raw encrypted key es)
          (λ a s'. (a.0 ≡ es) × IsOpen s' raw encrypted a.1 es) (λ _. return (es, key))
          (write (set_password previous none) (s, n))
          (write-Ensures (λ s'. recoverable s' ≡ some es) (λ _ s'. IsOpen s' raw encrypted key es)
            (set_password previous none) s n (IsOpen-recoverable s raw encrypted key es o)
            (record { file = o.file; parses = o.parses; held = o.held; opens = o.opens }))
          (λ a s' n' o'. (refl, o'))

    restore-Opens :
        (s : Storage) (n : ℕ) (key : Bytes) (selection : KeySelection)
        → s.file ≡ some raw
        → p.vault_from_json raw ≡ some encrypted
        → recoverable s ≡ some es
        → length key ≡ 32
        → decrypt_entries p encrypted key ≡ ok es
        → Opens (recover_key p (present key) (some (es, selection)) (s, n))
    unfolding recover_key set_stored_key
    restore-Opens s n key selection hf hp hr long h =
        let restore = set_password current (some (p.encode key)) in
        let restored : IsOpen (restore s) raw encrypted key es = record {
          file = hf;
          parses = hp;
          held = key_at-encode key long;
          opens = h;
        } in
        continue-Ensures (λ s'. recoverable s' ≡ some es) (λ _ s'. IsOpen s' raw encrypted key es)
          (λ a s'. (a.0 ≡ es) × IsOpen s' raw encrypted a.1 es)
          (λ _. delete_stored_key p previous >> return (es, key)) (durable_write restore (s, n))
          (durable_write-Ensures (λ s'. recoverable s' ≡ some es)
            (λ _ s'. IsOpen s' raw encrypted key es) restore s n hr
            (IsOpen-recoverable (restore s) raw encrypted key es restored) restored)
          (λ a s' n' o'. forget_previous-Opens s' n' key o')

    recover_key-Opens :
        (s : Storage) (n : ℕ) (stored : StoredKey)
        → stored_key p s.previous_password ≡ stored
        → s.file ≡ some raw
        → p.vault_from_json raw ≡ some encrypted
        → recoverable s ≡ some es
        → try_key p encrypted (key_at s.current_password) ≡ none
        → Opens (
            recover_key p stored
              (decrypt_with_key_selection p encrypted none (as_bytes stored))
              (s, n))
    unfolding recoverable
    recover_key-Opens s n missing at_hand hf hp hr not_current =
        absurd (ground (arith, at_hand, hf, hp, hr, not_current))
    recover_key-Opens s n invalid at_hand hf hp hr not_current =
        absurd (ground (arith, at_hand, hf, hp, hr, not_current))
    recover_key-Opens s n (present key) at_hand hf hp hr not_current =
        elim (Result-cases (decrypt_entries p encrypted key)) [
          | inl (found, e) ↦
              let same : found ≡ es = ground (arith, at_hand, hf, hp, hr, not_current, e) in
              let opens : decrypt_entries p encrypted key ≡ ok es = rw (← same) e in
              rw (select_previous encrypted key es opens) (
                restore-Opens s n key selected_previous hf hp hr
                  (length-key_at s.previous_password key (ap as_bytes at_hand)) opens)
          | inr (failure, e) ↦ absurd (ground (arith, at_hand, hf, hp, hr, not_current, e))
        ]

    with_previous-Opens :
        (s : Storage) (n : ℕ)
        → s.file ≡ some raw
        → p.vault_from_json raw ≡ some encrypted
        → recoverable s ≡ some es
        → try_key p encrypted (key_at s.current_password) ≡ none
        → Opens (with_previous p encrypted (s, n))
    unfolding with_previous read_stored_key
    with_previous-Opens s n = recover_key-Opens s n (stored_key p s.previous_password) refl

  -- The vault opens with its keys as they are after an interruption, and where it does, the key is
  -- the current one.
  pub decrypt_existing_vault-Ensures :
      (s : Storage) (n : ℕ) (raw : Bytes) (encrypted : EncryptedVault) (es : List VaultEntry)
      → s.file ≡ some raw
      → p.vault_from_json raw ≡ some encrypted
      → recoverable s ≡ some es
      → Opens raw encrypted es (decrypt_existing_vault p encrypted (s, n))
  unfolding decrypt_existing_vault read_stored_key recoverable
  decrypt_existing_vault-Ensures s n raw encrypted es hf hp hr =
      elim (Option-cases (key_at s.current_password)) [
        | inl e ↦ rw e (with_previous-Opens raw encrypted es s n hf hp hr (rw e))
        | inr (key, e) ↦ elim (Option-cases (try_key p encrypted (some key))) [
          | inl shut ↦
              rw (e, shut) (with_previous-Opens raw encrypted es s n hf hp hr (rw (e, shut)))
          | inr (found, opened_by) ↦
              let same : found ≡ es = ground (arith, hf, hp, hr, e, opened_by) in
              rw (e, opened_by, same)
                (forget_previous-Opens raw encrypted es s n key (record {
                  file = hf;
                  parses = hp;
                  held = e;
                  opens = try_key-some encrypted key es (opened_by ∙ ap some same);
                }))
        ]
      ]
