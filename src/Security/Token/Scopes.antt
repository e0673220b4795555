-- ===== src/Security/Token/Scopes.antt =====
-- src/security.rs: what the two scopes open, and what rotation leaves behind.
use skyport.Prelude.{
  ◌≡◌, refl, ◌≢◌, ◌↔◌, ◌⊎◌, true, false, Option, none, some, arith, Dict, lookup, insert,
  lookup-insert, Text, codes, text_eq, text_eq_refl, text_eq_iff, starts_with, ok,
}
use skyport.Config.{ServerConfig}
use skyport.Security.Token.{
  TokenScope, Digest, CredentialStore, admin, inference, credential_account, constant_time_eq,
  verify_token, verifies, authorize_path, hash_token, store_auth_token, rotated, rotate_auth_token,
  stored_auth_token,
}

lookup_own :
    (scope : TokenScope) (token : Text) (m : Dict Text)
    → lookup (credential_account scope) (insert (credential_account scope) token m) ≡ some token
lookup_own scope token m = ground (
  arith,
  lookup-insert (credential_account scope) (credential_account scope) token m,
  text_eq_refl (credential_account scope),
)

-- The two scopes have two accounts.
text_eq-account :
    (scope other : TokenScope)
    → scope ≢ other
    → text_eq (credential_account scope) (credential_account other) ≡ false
unfolding text_eq
text_eq-account admin admin ne = ground (arith, ne refl)
text_eq-account admin inference ne = refl
text_eq-account inference admin ne = refl
text_eq-account inference inference ne = ground (arith, ne refl)

lookup_other :
    (scope other : TokenScope) (token : Text) (m : Dict Text)
    → scope ≢ other
    → lookup (credential_account other) (insert (credential_account scope) token m)
      ≡ lookup (credential_account other) m
lookup_other scope other token m ne = ground (
  arith,
  lookup-insert (credential_account scope) (credential_account other) token m,
  text_eq-account scope other ne,
)

module _ (digest : Digest) where
  -- A token that verifies against a verifier of the configuration.
  abbrev pub Opens : Option Text → Option Text → Type 0
  Opens token hash =
      (t : Text) × (h : Text) × (token ≡ some t)
      × (hash ≡ some h)
      × (verify_token digest t h ≡ true)

  verifies_iff : (token hash : Option Text) → (verifies digest token hash ≡ true) ↔ Opens token hash
  unfolding verifies
  verifies_iff (some t) (some h) =
      (λ e. (t, h, refl, refl, e), λ (t', h', et, eh, v). ground (arith, et, eh, v))
  verifies_iff (some t) none = (λ e. cc, λ (t, h, et, eh, v). cc)
  verifies_iff none hash = (λ e. cc, λ (t, h, et, eh, v). cc)

  -- A path below /api/ is open to a token of the admin verifier only; any other path to one of
  -- either verifier.
  pub authorize_path_iff :
      (path : Text) (token admin_hash inference_hash : Option Text)
      → (authorize_path digest path token admin_hash inference_hash ≡ true) ↔ (
          Opens token admin_hash
          ⊎ ((starts_with (codes "/api/") path ≡ false) × Opens token inference_hash))
  unfolding authorize_path
  authorize_path_iff path token admin_hash inference_hash =
      ground (arith, verifies_iff token admin_hash, verifies_iff token inference_hash)

  -- A verifier accepts exactly the tokens with the digest that it was made from.
  pub verify_token-hash_token :
      (t u : Text)
      → (verify_token digest t (hash_token digest u) ≡ true) ↔ (digest.sha256 t ≡ digest.sha256 u)
  unfolding verify_token hash_token constant_time_eq
  verify_token-hash_token t u = ground (
    arith,
    digest.decode-encode (digest.sha256 u),
    text_eq_iff (digest.sha256 t) (digest.sha256 u),
    text_eq_refl (digest.sha256 t),
  )

  -- After a rotation of a scope with a store that can be written and read, the stored token of the
  -- scope is the new one, and it verifies.
  pub stored_auth_token-rotate :
      (server : ServerConfig) (store : CredentialStore) (scope : TokenScope) (fresh : Text)
      → store.writable ≡ true
      → store.readable ≡ true
      → stored_auth_token digest
          (rotate_auth_token digest server store scope fresh).0.0
          (rotate_auth_token digest server store scope fresh).0.1
          scope
        ≡ ok fresh
  unfolding rotate_auth_token stored_auth_token store_auth_token rotated verify_token hash_token
      constant_time_eq
  stored_auth_token-rotate server store admin fresh w r = ground (
    arith,
    w,
    r,
    lookup_own admin fresh store.secrets,
    digest.decode-encode (digest.sha256 fresh),
    text_eq_refl (digest.sha256 fresh),
  )
  stored_auth_token-rotate server store inference fresh w r = ground (
    arith,
    w,
    r,
    lookup_own inference fresh store.secrets,
    digest.decode-encode (digest.sha256 fresh),
    text_eq_refl (digest.sha256 fresh),
  )

  -- A rotation of one scope, whether it succeeds or fails, leaves the other scope's token as it was.
  pub stored_auth_token-rotate_other :
      (server : ServerConfig) (store : CredentialStore) (scope other : TokenScope) (fresh : Text)
      → scope ≢ other
      → stored_auth_token digest
          (rotate_auth_token digest server store scope fresh).0.0
          (rotate_auth_token digest server store scope fresh).0.1
          other
        ≡ stored_auth_token digest server store other
  unfolding rotate_auth_token stored_auth_token store_auth_token rotated verify_token hash_token
      constant_time_eq
  stored_auth_token-rotate_other server store admin admin fresh ne = ground (arith, ne refl)
  stored_auth_token-rotate_other server store admin inference fresh ne =
      ground (arith, lookup_other admin inference fresh store.secrets ne)
  stored_auth_token-rotate_other server store inference admin fresh ne =
      ground (arith, lookup_other inference admin fresh store.secrets ne)
  stored_auth_token-rotate_other server store inference inference fresh ne = ground (arith, ne refl)
