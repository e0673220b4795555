-- ===== src/Security/Token.antt =====
-- src/security.rs: the tokens of the two scopes, their verifiers in the configuration, and which
-- token opens which path. SHA-256 (on the UTF-8 bytes of a token), the Base64 of the crate base64
-- and the random generator are arguments.
pub mod Scopes
use skyport.Prelude.{
  ℕ, ◌≡◌, Bool, true, false, not, ◌||◌, Option, none, some, List, ltb, ◌==◌, if◌then◌else◌, tests,
  length, Dict, lookup, insert, Text, codes, text_eq, strip_prefix, starts_with, byte_len, trim,
  Result, ◌>>=◌, ◌>>◌, reject_if, ok_or, ok, err,
}
use skyport.Config.{ServerConfig}

pub data TokenScope : Type 0 where
  admin inference : TokenScope

abbrev pub credential_account : TokenScope → Text
credential_account admin = codes "admin_token"
credential_account inference = codes "inference_token"

unfoldable pub constant_time_eq : List ℕ → List ℕ → Bool
constant_time_eq left right =
    if not (length left == length right) then false else text_eq left right

-- SHA-256 and Base64
pub record Digest : Type 0 where
  pub sha256 : Text → List ℕ
  pub encode : List ℕ → Text
  pub decode : Text → Option (List ℕ)
  pub decode-encode : (bytes : List ℕ) → decode (encode bytes) ≡ some bytes

-- What the platform's credential store holds, and whether it can be written and read.
pub record CredentialStore : Type 0 where
  pub secrets : Dict Text
  pub writable : Bool
  pub readable : Bool

pub data TokenError : Type 0 where
  not_initialized unreadable missing mismatch unwritable : TokenError

unfoldable pub store_auth_token :
    CredentialStore → TokenScope → Text → CredentialStore × Result TokenError (Unit {0})
store_auth_token store scope token =
    if store.writable
    then (record store { secrets = insert (credential_account scope) token store.secrets }, ok tt)
    else (store, err unwritable)

abbrev pub verifier : ServerConfig → TokenScope → Option Text
verifier server admin = server.admin_token_hash
verifier server inference = server.inference_token_hash

abbrev pub set_verifier : ServerConfig → TokenScope → Text → ServerConfig
set_verifier server admin hash = record server { admin_token_hash = some hash }
set_verifier server inference hash = record server { inference_token_hash = some hash }

-- `str::strip_prefix`, and the tests on what is left
unfoldable pub bearer_token : Text → Option Text
bearer_token value = elim (strip_prefix (codes "Bearer ") value) [
  | none ↦ none
  | some token ↦
      if ltb (byte_len token) 32 || ltb 256 (byte_len token) || not (text_eq (trim token) token)
      then none
      else some token
]

module _ (digest : Digest) where
  unfoldable pub hash_token : Text → Text
  hash_token token = digest.encode (digest.sha256 token)

  unfoldable pub verify_token : Text → Text → Bool
  unfolding constant_time_eq
  verify_token token expected_hash = elim (digest.decode expected_hash) [
    | none ↦ false
    | some expected ↦ constant_time_eq (digest.sha256 token) expected
  ]

  -- `token.zip(hash).is_some_and(verify_token)`
  unfoldable pub verifies : Option Text → Option Text → Bool
  unfolding verify_token
  verifies (some token) (some expected) = verify_token token expected
  verifies (some token) none = false
  verifies none hash = false

  unfoldable pub authorize_path : Text → Option Text → Option Text → Option Text → Bool
  unfolding verifies
  authorize_path path token admin_hash inference_hash =
      if starts_with (codes "/api/") path
      then verifies token admin_hash
      else verifies token admin_hash || verifies token inference_hash

  -- what a rotation makes of the configuration once the store has answered
  unfoldable rotated :
      ServerConfig
      → TokenScope
      → Text
      → CredentialStore × Result TokenError (Unit {0})
      → (ServerConfig × CredentialStore) × Result TokenError Text
  unfolding hash_token
  rotated server scope fresh (store', ok _) =
      ((set_verifier server scope (hash_token fresh), store'), ok fresh)
  rotated server scope fresh (store', err e) = ((server, store'), err e)

  -- `fresh` is the token that the random generator gives.
  unfoldable pub rotate_auth_token :
      ServerConfig
      → CredentialStore
      → TokenScope
      → Text
      → (ServerConfig × CredentialStore) × Result TokenError Text
  unfolding store_auth_token rotated
  rotate_auth_token server store scope fresh =
      rotated server scope fresh (store_auth_token store scope fresh)

  unfoldable pub stored_auth_token :
      ServerConfig → CredentialStore → TokenScope → Result TokenError Text
  unfolding verify_token
  stored_auth_token server store scope = do
    expected ← ok_or (verifier server scope) not_initialized
    reject_if (not store.readable) unreadable
    token ← ok_or (lookup (credential_account scope) store.secrets) missing
    reject_if (not (verify_token token expected)) mismatch
    ok token

  unfoldable as_changed :
      (ServerConfig × CredentialStore) × Result TokenError Text
      → (ServerConfig × CredentialStore) × Result TokenError Bool
  as_changed (next, ok token) = (next, ok true)
  as_changed (next, err e) = (next, err e)

  -- one of the two steps of `initialize_auth_tokens`: whether the configuration changed
  unfoldable initialize_scope :
      ServerConfig
      → CredentialStore
      → TokenScope
      → Text
      → (ServerConfig × CredentialStore) × Result TokenError Bool
  unfolding rotate_auth_token as_changed
  initialize_scope server store scope fresh = elim (verifier server scope) [
    | some hash ↦ ((server, store), ok false)
    | none ↦ as_changed (rotate_auth_token server store scope fresh)
  ]

  unfoldable or_changed :
      Bool
      → (ServerConfig × CredentialStore) × Result TokenError Bool
      → (ServerConfig × CredentialStore) × Result TokenError Bool
  or_changed changed (next, ok changed') = (next, ok (changed || changed'))
  or_changed changed (next, err e) = (next, err e)

  unfoldable then_inference :
      Text
      → (ServerConfig × CredentialStore) × Result TokenError Bool
      → (ServerConfig × CredentialStore) × Result TokenError Bool
  unfolding initialize_scope or_changed
  then_inference fresh ((server, store), ok changed) =
      or_changed changed (initialize_scope server store inference fresh)
  then_inference fresh (next, err e) = (next, err e)

  unfoldable pub initialize_auth_tokens :
      ServerConfig
      → CredentialStore
      → Text
      → Text
      → (ServerConfig × CredentialStore) × Result TokenError Bool
  unfolding initialize_scope then_inference
  initialize_auth_tokens server store fresh_admin fresh_inference =
      then_inference fresh_inference (initialize_scope server store admin fresh_admin)
