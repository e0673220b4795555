-- ===== src/Vault/Envelope.antt =====
-- src/vault.rs: the encrypted envelope that the vault's file holds. AES-256-GCM, Base64, SHA-256 and
-- the JSON of serde are arguments, with the laws that reading undoes writing.
use skyport.Prelude.{
  ℕ, ◌≡◌, subst, inl, inr, true, not, Option, none, some, List, [], arith, ◌==◌, if◌then◌else◌,
  Option-cases, length, Text, codes, Result, ◌>>=◌, ◌>>◌, reject_if, ok_or, ok, err,
}
use skyport.Vault.{VaultEntry}

abbrev pub Bytes : Type 0
Bytes = List ℕ

pub record EncryptedVault : Type 0 where
  pub version : Option ℕ
  pub nonce : Text
  pub ciphertext : Text

pub record Primitives : Type 0 where
  -- nonce, key, additional data, message
  pub seal : Bytes → Bytes → Bytes → Bytes → Option Bytes
  pub unseal : Bytes → Bytes → Bytes → Bytes → Option Bytes
  pub encode : Bytes → Text
  pub decode : Text → Option Bytes
  pub entries_to_json : List VaultEntry → Bytes
  pub entries_from_json : Bytes → Option (List VaultEntry)
  pub vault_to_json : EncryptedVault → Bytes
  pub vault_from_json : Bytes → Option EncryptedVault
  pub sha256 : Bytes → Bytes
  pub unseal-seal :
      (nonce key aad message sealed : Bytes)
      → seal nonce key aad message ≡ some sealed
      → unseal nonce key aad sealed ≡ some message
  pub decode-encode : (bytes : Bytes) → decode (encode bytes) ≡ some bytes
  pub vault_from-to : (vault : EncryptedVault) → vault_from_json (vault_to_json vault) ≡ some vault

pub data DiskError : Type 0 where
  invalid_key_length encryption_failed invalid_nonce decryption_failed invalid_base64 invalid_json
        unsupported_version :
      DiskError
  undecryptable invalid_master_key vault_missing vault_changed key_changed interrupted : DiskError

abbrev pub envelope_version : ℕ
envelope_version = 1

abbrev pub envelope_aad : Bytes
envelope_aad = codes "skyport/vault/envelope/v1"

abbrev pub legacy_aad : Bytes
legacy_aad = []

module _ (p : Primitives) where
  unfoldable pub encrypt : Bytes → Bytes → Bytes → Bytes → Result DiskError (Bytes × Bytes)
  encrypt nonce message key aad = do
    reject_if (not (length key == 32)) invalid_key_length
    sealed ← ok_or (p.seal nonce key aad message) encryption_failed
    ok (nonce, sealed)

  unfoldable pub decrypt : Bytes → Bytes → Bytes → Bytes → Result DiskError Bytes
  decrypt nonce ciphertext key aad = do
    reject_if (not (length nonce == 12)) invalid_nonce
    reject_if (not (length key == 32)) invalid_key_length
    ok_or (p.unseal nonce key aad ciphertext) decryption_failed

  abbrev envelope : Bytes × Bytes → EncryptedVault
  envelope (nonce, sealed) = record {
    version = some envelope_version;
    nonce = p.encode nonce;
    ciphertext = p.encode sealed;
  }

  -- `nonce` is what the random generator gives.
  unfoldable pub encrypt_entries : Bytes → List VaultEntry → Bytes → Result DiskError EncryptedVault
  unfolding encrypt
  encrypt_entries nonce entries key = do
    sealed ← encrypt nonce (p.entries_to_json entries) key envelope_aad
    ok (envelope sealed)

  abbrev aad_of : Option ℕ → Result DiskError Bytes
  aad_of none = ok legacy_aad
  aad_of (some version) =
      if version == envelope_version then ok envelope_aad else err unsupported_version

  unfoldable pub decrypt_entries : EncryptedVault → Bytes → Result DiskError (List VaultEntry)
  unfolding decrypt
  decrypt_entries vault key = do
    aad ← aad_of vault.version
    nonce ← ok_or (p.decode vault.nonce) invalid_base64
    ciphertext ← ok_or (p.decode vault.ciphertext) invalid_base64
    plaintext ← decrypt nonce ciphertext key aad
    ok_or (p.entries_from_json plaintext) invalid_json

  -- The entries' JSON reads back as the entries.
  abbrev pub IsReadable : List VaultEntry → Type 0
  IsReadable entries = p.entries_from_json (p.entries_to_json entries) ≡ some entries

  -- What was encrypted with a key decrypts with it.
  pub decrypt_entries-encrypt :
      (nonce key : Bytes) (entries : List VaultEntry) (vault : EncryptedVault)
      → length nonce ≡ 12
      → IsReadable entries
      → encrypt_entries nonce entries key ≡ ok vault
      → decrypt_entries vault key ≡ ok entries
  unfolding encrypt_entries decrypt_entries
  decrypt_entries-encrypt nonce key entries vault hn readable h =
      elim (Option-cases (p.seal nonce key envelope_aad (p.entries_to_json entries))) [
        | inl e ↦ ground (arith, e, h)
        | inr (sealed, e) ↦
            let long : (length key == 32) ≡ true = ground (arith, e, h) in
            let same : envelope (nonce, sealed) ≡ vault = ground (arith, e, h) in
            subst (λ v. decrypt_entries v key ≡ ok entries) same
              (rw (
                p.decode-encode nonce,
                p.decode-encode sealed,
                hn,
                long,
                p.unseal-seal nonce key envelope_aad (p.entries_to_json entries) sealed e,
                readable,
              ))
      ]
