-- ===== src/Tests/Access.antt =====
-- src/security.rs and src/main.rs on concrete requests, with a digest that is the identity.
use skyport.Prelude.{
  ℕ, ◌≡◌, refl, ◌≢◌, ◌↔◌, ◌⊎◌, true, false, not, Option, none, some, List, [], ◌∷◌, arith, Text,
  codes, text_eq, strip_prefix, starts_with, byte_len, trim, to_ascii_lowercase,
  eq_ignore_ascii_case, ends_with, ok,
}
use skyport.Config.{ServerConfig}
use skyport.Security.Address.{IpAddr, v4, is_public_ip, is_public_ipv4}
use skyport.Security.Address.Blocks.{ipv4, is_reserved, is_public_ipv4-is_reserved}
use skyport.Security.Token.{
  Digest, CredentialStore, admin, inference, authorize_path, rotate_auth_token, stored_auth_token,
  bearer_token,
}
use skyport.Security.Token.Scopes.{stored_auth_token-rotate}
use skyport.Security.Url.{Url, domain, validate_provider_url, validate_resolved_destination}
use skyport.Security.Body.{read_limited_body}
use skyport.Security.Guard.{Request, SecurityGuardState, get, passed, is_protected, security_guard}
use skyport.Security.Guard.Access.{IsLocalHost, IsSameSite, IsAuthorized, security_guard-passed}

is_public_ipv4-is_reserved_example :
    is_public_ipv4 (ipv4 172 31 255 1) ≡ not (is_reserved (ipv4 172 31 255 1))
is_public_ipv4-is_reserved_example =
    is_public_ipv4-is_reserved (ipv4 172 31 255 1)
      (record { a = omega arith; b = omega arith; c = omega arith; d = omega arith })

-- The digest that leaves a token as it is.
abbrev digest : Digest
digest = record {
  sha256 = λ token. token;
  encode = λ bytes. bytes;
  decode = λ text. some text;
  decode-encode = λ bytes. refl;
}

abbrev admin_token : Text
admin_token = codes "0123456789abcdef0123456789abcdef"

abbrev server : ServerConfig
server = record { port = 8787; admin_token_hash = some admin_token; inference_token_hash = none }

abbrev store : CredentialStore
store = record {
  secrets = (codes "admin_token", admin_token) ∷ [];
  writable = true;
  readable = true;
}

stored_auth_token-rotate_example :
    stored_auth_token digest
      (rotate_auth_token digest server store inference (codes "fresh")).0.0
      (rotate_auth_token digest server store inference (codes "fresh")).0.1
      inference
    ≡ ok (codes "fresh")
stored_auth_token-rotate_example =
    stored_auth_token-rotate digest server store inference (codes "fresh") refl refl

admin_ne_inference : admin ≢ inference
admin_ne_inference = λ e. cc

-- The URL of a provider, and a parser and a resolver that know only this one.
abbrev pub provider_url : Url
provider_url = record {
  scheme = codes "https";
  username = [];
  password = none;
  host = some (domain (codes "api.openai.com"));
  host_str = some (codes "api.openai.com");
  port_or_known_default = some 443;
  path_segments = some (codes "v1" ∷ []);
  query = none;
  fragment = none;
}

abbrev pub parse : Text → Option Url
parse raw = some provider_url

abbrev pub lookup_host : Text → ℕ → Option (List IpAddr)
lookup_host host port = some (v4 (ipv4 104 18 7 192) ∷ [])

valid :
    validate_provider_url parse (codes "openai") (codes "https://api.openai.com/v1") true
    ≡ ok provider_url
unfolding validate_provider_url text_eq ends_with to_ascii_lowercase eq_ignore_ascii_case
valid = refl

resolved : validate_resolved_destination lookup_host (codes "openai") provider_url true ≡ ok tt
unfolding validate_resolved_destination is_public_ip
resolved = refl

abbrev bytes : List ℕ
bytes = 1 ∷ 2 ∷ 3 ∷ []

three_bytes : read_limited_body (some 3) (some (1 ∷ 2 ∷ []) ∷ some (3 ∷ []) ∷ []) 3 ≡ ok bytes
unfolding read_limited_body
three_bytes = refl

abbrev state : SecurityGuardState
state = record { config = some server; bound_port = 8787 }

abbrev request : Request
request = record {
  path = codes "/api/keys";
  method = get;
  host = some (codes "LocalHost:8787");
  origin = none;
  authorization = some (codes "Bearer 0123456789abcdef0123456789abcdef");
}

guard_test : security_guard digest parse state request ≡ passed
unfolding security_guard bearer_token authorize_path eq_ignore_ascii_case starts_with strip_prefix
    byte_len trim
guard_test = refl

security_guard-passed_example : (security_guard digest parse state request ≡ passed) ↔ (
    (known : ServerConfig) × (state.config ≡ some known)
    × IsLocalHost digest parse state request
    × ((is_protected request.path ≡ false)
        ⊎ (IsSameSite digest parse state request × IsAuthorized digest parse known request)))
security_guard-passed_example = security_guard-passed digest parse state request
