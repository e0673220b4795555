-- ===== src/Tests/Disk/Samples.antt =====
-- A cipher that tags the message with the first number of the key, formats that write numbers one
-- after the other, and a vault with one entry in a storage.
use skyport.Prelude.{
  ℕ, zero, suc, ◌≡◌, refl, ap, Option, none, some, List, [], ◌∷◌, ◌++◌, map, arith, ◌==◌,
  if◌then◌else◌, length, take, codes,
}
use skyport.Vault.{VaultEntry}
use skyport.Vault.Envelope.{Bytes, EncryptedVault, Primitives}
use skyport.Vault.Storage.{Storage}
use skyport.Vault.Disk.{OpenVault}
use skyport.Tests.Keys.Samples.{sample}

abbrev tag : Bytes → ℕ
tag [] = 0
tag (k ∷ _) = k

abbrev seal : Bytes → Bytes → Bytes → Bytes → Option Bytes
seal nonce key aad message = some (tag key ∷ message)

abbrev unseal : Bytes → Bytes → Bytes → Bytes → Option Bytes
unseal nonce key aad [] = none
unseal nonce key aad (t ∷ message) = if t == tag key then some message else none

pub unseal-seal :
    (nonce key aad message sealed : Bytes)
    → seal nonce key aad message ≡ some sealed
    → unseal nonce key aad sealed ≡ some message
unseal-seal nonce key aad message [] h = absurd (ground (arith, h))
unseal-seal nonce key aad message (t ∷ rest) h = ground (arith, h)

abbrev version_code : Option ℕ → ℕ
version_code none = 0
version_code (some v) = suc v

abbrev version_of : ℕ → Option ℕ
version_of zero = none
version_of (suc v) = some v

abbrev vault_to_json : EncryptedVault → Bytes
vault_to_json v = version_code v.version ∷ length v.nonce ∷ v.nonce ++ v.ciphertext

abbrev skip : ℕ → Bytes → Bytes
skip zero xs = xs
skip (suc n) [] = []
skip (suc n) (x ∷ xs) = skip n xs

abbrev vault_from_json : Bytes → Option EncryptedVault
vault_from_json [] = none
vault_from_json (_ ∷ []) = none
vault_from_json (v ∷ n ∷ rest) =
    some (record { version = version_of v; nonce = take n rest; ciphertext = skip n rest })

take_joined : (xs ys : Bytes) → take (length xs) (xs ++ ys) ≡ xs
take_joined [] ys = refl
take_joined (x ∷ xs) ys = ap (λ zs. x ∷ zs) (take_joined xs ys)

skip_joined : (xs ys : Bytes) → skip (length xs) (xs ++ ys) ≡ ys
skip_joined [] ys = refl
skip_joined (x ∷ xs) ys = skip_joined xs ys

version_of_code : (v : Option ℕ) → version_of (version_code v) ≡ v
version_of_code none = refl
version_of_code (some v) = refl

pub vault_from-to : (v : EncryptedVault) → vault_from_json (vault_to_json v) ≡ some v
vault_from-to v =
    rw
      (
        version_of_code v.version,
        take_joined v.nonce v.ciphertext,
        skip_joined v.nonce v.ciphertext,
      )
      refl

abbrev pub named : ℕ → VaultEntry
named c = sample (c ∷ []) (codes "openai") 0

abbrev letter : VaultEntry → ℕ
letter e = tag e.key_alias

abbrev pub primitives : Primitives
primitives = record {
  seal = seal;
  unseal = unseal;
  encode = λ bytes. bytes;
  decode = some;
  entries_to_json = map letter;
  entries_from_json = λ letters. some (map named letters);
  vault_to_json = vault_to_json;
  vault_from_json = vault_from_json;
  sha256 = λ bytes. bytes;
  unseal-seal = unseal-seal;
  decode-encode = λ bytes. refl;
  vault_from-to = vault_from-to;
}

abbrev repeat : ℕ → ℕ → Bytes
repeat zero x = []
repeat (suc n) x = x ∷ repeat n x

abbrev pub nonce : Bytes
nonce = repeat 12 7

abbrev pub old_key : Bytes
old_key = repeat 32 1

abbrev pub new_key : Bytes
new_key = repeat 32 2

abbrev pub envelope_of : List VaultEntry → Bytes → EncryptedVault
envelope_of entries key = record {
  version = some 1;
  nonce = nonce;
  ciphertext = tag key ∷ map letter entries;
}

abbrev pub stored_entries : List VaultEntry
stored_entries = named 97 ∷ []

abbrev pub stored : EncryptedVault
stored = envelope_of stored_entries old_key

abbrev pub contents : Bytes
contents = vault_to_json stored

abbrev pub disk : Storage
disk = record { file = some contents; current_password = some old_key; previous_password = none }

-- A rotation was interrupted before the file was written.
abbrev pub half_rotated : Storage
half_rotated = record {
  file = some contents;
  current_password = some new_key;
  previous_password = some old_key;
}

-- with a second entry that is not on the disk yet
abbrev pub in_memory : OpenVault
in_memory = record {
  entries = named 97 ∷ named 98 ∷ [];
  master_key = old_key;
  envelope_fingerprint = contents;
}
