-- ===== src/Security/Url.antt =====
-- src/security.rs: where a provider's requests may go. The parser of the crate url is an argument,
-- and so are the addresses that the resolver answers; a parsed URL is a record of what the source
-- reads of it.
pub mod Destinations
use skyport.Prelude.{
  ℕ, Bool, true, false, not, ◌&&◌, ◌||◌, Option, none, some, List, [], ◌∷◌, leb, ◌==◌,
  if◌then◌else◌, is_some, all, any, Text, codes, text_eq, byte_len, is_empty, is_ascii_alphanumeric,
  to_ascii_lowercase, eq_ignore_ascii_case, ends_with, Result, ◌>>=◌, ◌>>◌, reject_if, ok_or, ok,
  err,
}
use skyport.Security.Address.{
  Ipv4, Ipv6, IpAddr, is_loopback_v4, is_loopback_v6, to_ipv4, to_ipv4_mapped, is_public_ip,
}
use skyport.Vault.{is_keyless_provider}

pub data Host : Type 0 where
  domain : Text → Host
  ipv4 : Ipv4 → Host
  ipv6 : Ipv6 → Host

pub record Url : Type 0 where
  pub scheme : Text
  pub username : Text
  pub password : Option Text
  pub host : Option Host
  pub host_str : Option Text
  pub port_or_known_default : Option ℕ
  pub path_segments : Option (List Text)
  pub query : Option Text
  pub fragment : Option Text

pub data UrlError : Type 0 where
  invalid has_credentials relative_segments no_host reserved_domain needs_https only_keyless_http
        loopback_target no_port unresolved private_address no_address :
      UrlError

unfoldable pub host_is_loopback : Host → Bool
host_is_loopback (domain name) = eq_ignore_ascii_case name (codes "localhost")
host_is_loopback (ipv4 ip) = is_loopback_v4 ip
host_is_loopback (ipv6 ip) = is_loopback_v6 ip || (elim (to_ipv4_mapped ip) [
  | some v4 ↦ is_loopback_v4 v4
  | none ↦ elim (to_ipv4 ip) [ some v4 ↦ is_loopback_v4 v4 | none ↦ false ]
])

-- `.` and `..`
unfoldable pub is_relative : Text → Bool
is_relative segment = text_eq segment (codes ".") || text_eq segment (codes "..")

unfoldable pub has_relative_segment : Url → Bool
unfolding is_relative
has_relative_segment url = elim url.path_segments [
  | none ↦ false
  | some segments ↦ any is_relative segments
]

unfoldable pub is_reserved_name : Text → Bool
is_reserved_name lower =
    ends_with (codes ".local") lower
    || ends_with (codes ".internal") lower
    || ends_with (codes ".invalid") lower
    || ends_with (codes ".test") lower
    || ends_with (codes ".example") lower
    || ends_with (codes ".localhost") lower

unfoldable pub is_reserved_domain : Host → Bool
unfolding is_reserved_name
is_reserved_domain (domain name) = is_reserved_name (to_ascii_lowercase name)
is_reserved_domain (ipv4 ip) = false
is_reserved_domain (ipv6 ip) = false

-- A model that may stand in a path: a segment of its own.
unfoldable pub valid_model_path_segment : Text → Bool
valid_model_path_segment model =
    not (is_empty model)
    && leb (byte_len model) 200
    && all (λ c. is_ascii_alphanumeric c || c == b'-' || c == b'_' || c == b'.') model

-- the match on the scheme
unfoldable pub check_scheme : Text → Text → Bool → Bool → Result UrlError (Unit {0})
check_scheme provider scheme credentialed loopback =
    if text_eq scheme (codes "https")
    then (if loopback then err loopback_target else ok tt)
    else if text_eq scheme (codes "http")
    then (if not credentialed && is_keyless_provider provider && loopback
        then ok tt
        else if credentialed
        then err needs_https
        else err only_keyless_http)
    else err needs_https

module _ (parse : Text → Option Url) where
  unfoldable pub validate_provider_url : Text → Text → Bool → Result UrlError Url
  unfolding has_relative_segment host_is_loopback is_reserved_domain check_scheme
  validate_provider_url provider raw credentialed = do
    url ← ok_or (parse raw) invalid
    reject_if
        (not (is_empty url.username)
          || is_some url.password
          || is_some url.query
          || is_some url.fragment)
        has_credentials
    reject_if (has_relative_segment url) relative_segments
    host ← ok_or url.host no_host
    reject_if
        (is_reserved_domain host
          && not (not credentialed && is_keyless_provider provider && host_is_loopback host))
        reserved_domain
    check_scheme provider url.scheme credentialed (host_is_loopback host)
    ok url

  unfoldable pub valid_browser_origin : Text → ℕ → Bool
  valid_browser_origin value port = elim (parse value) [
    | none ↦ false
    | some origin ↦
        text_eq origin.scheme (codes "http")
        && (elim origin.port_or_known_default [ none ↦ false | some p ↦ p == port ])
        && is_empty origin.username
        && not (is_some origin.password)
        && not (is_some origin.query)
        && not (is_some origin.fragment)
        && (elim origin.host_str [
          | none ↦ false
          | some host ↦
              eq_ignore_ascii_case host (codes "localhost") || text_eq host (codes "127.0.0.1")
        ])
  ]

-- the loop over the addresses: whether one was found
unfoldable pub check_addresses : List IpAddr → Bool → Result UrlError (Unit {0})
check_addresses [] found = if found then ok tt else err no_address
check_addresses (ip ∷ ips) found =
    let rest = check_addresses ips true in
    if not (is_public_ip ip) then err private_address else rest

unfoldable pub check_resolved :
    (Text → ℕ → Option (List IpAddr)) → Text → Option ℕ → Result UrlError (Unit {0})
unfolding check_addresses
check_resolved lookup_host host known_port = do
  port ← ok_or known_port no_port
  addresses ← ok_or (lookup_host host port) unresolved
  check_addresses addresses false

-- `lookup_host` is the resolver: the addresses of a host and a port.
unfoldable pub validate_resolved_destination :
    (Text → ℕ → Option (List IpAddr)) → Text → Url → Bool → Result UrlError (Unit {0})
unfolding check_resolved
validate_resolved_destination lookup_host provider url credentialed = do
  host ← ok_or url.host_str no_host
  (if not credentialed && is_keyless_provider provider
      then ok tt
      else check_resolved lookup_host host url.port_or_known_default)
