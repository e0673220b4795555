-- ===== src/Security/Url/Destinations.antt =====
-- src/security.rs: a request that carries a key goes out over HTTPS and to public addresses.
use skyport.Prelude.{
  ℕ, ◌≡◌, refl, subst, ◌≢◌, inl, inr, true, false, Option, none, some, List, [], ◌∷◌, arith,
  Option-cases, All, Text, codes, text_eq, is_empty,
}
use skyport.Security.Address.{IpAddr, is_public_ip}
use skyport.Security.Url.{
  Host, Url, host_is_loopback, is_reserved_domain, check_scheme, validate_provider_url,
  check_addresses, check_resolved, validate_resolved_destination, ok,
}

abbrev pub IsPublic : IpAddr → Type 0
IsPublic ip = is_public_ip ip ≡ true

check_addresses-true : (ips : List IpAddr) → check_addresses ips true ≡ ok tt → All IsPublic ips
unfolding check_addresses
check_addresses-true [] h = tt
check_addresses-true (ip ∷ ips) h = (ground arith, check_addresses-true ips (ground arith))

-- Some address was found, and each is public.
check_addresses-ok :
    (ips : List IpAddr) → check_addresses ips false ≡ ok tt → (ips ≢ []) × All IsPublic ips
unfolding check_addresses
check_addresses-ok [] h = ground arith
check_addresses-ok (ip ∷ ips) h = (λ e. cc, (ground arith, check_addresses-true ips (ground arith)))

module _ (parse : Text → Option Url) where
  pub provider_url-safe :
      (provider raw : Text) (url : Url)
      → validate_provider_url parse provider raw true ≡ ok url
      → (parse raw ≡ some url)
        × (text_eq url.scheme (codes "https") ≡ true)
        × ((host : Host) × (url.host ≡ some host)
            × (host_is_loopback host ≡ false)
            × (is_reserved_domain host ≡ false))
        × (is_empty url.username ≡ true)
        × (url.password ≡ none)
        × (url.query ≡ none)
        × (url.fragment ≡ none)
  unfolding validate_provider_url check_scheme
  provider_url-safe provider raw url h = elim (Option-cases (parse raw)) [
    | inl e ↦ ground (arith, e, h)
    | inr (u, e) ↦ elim (Option-cases u.host) [
      | inl eh ↦ ground (arith, e, eh, h)
      | inr (host, eh) ↦
          let e_url : u ≡ url = ground (arith, e, eh, h) in
          let (https, remote, named, username, password, query, fragment) : (text_eq u.scheme
                  (codes "https")
                ≡ true)
              × (host_is_loopback host ≡ false)
              × (is_reserved_domain host ≡ false)
              × (is_empty u.username ≡ true)
              × (u.password ≡ none)
              × (u.query ≡ none)
              × (u.fragment ≡ none) =
            ground (arith, e, eh, h) in
          subst
            (λ (w : Url).
              (parse raw ≡ some w)
              × (text_eq w.scheme (codes "https") ≡ true)
              × ((x : Host) × (w.host ≡ some x)
                  × (host_is_loopback x ≡ false)
                  × (is_reserved_domain x ≡ false))
              × (is_empty w.username ≡ true)
              × (w.password ≡ none)
              × (w.query ≡ none)
              × (w.fragment ≡ none))
            e_url (e, https, (host, eh, remote, named), username, password, query, fragment)
    ]
  ]

check_resolved-ok :
    (lookup_host : Text → ℕ → Option (List IpAddr)) (host : Text) (known_port : Option ℕ)
    → check_resolved lookup_host host known_port ≡ ok tt
    → (port : ℕ) × (ips : List IpAddr) × (known_port ≡ some port)
      × (lookup_host host port ≡ some ips)
      × (ips ≢ [])
      × All IsPublic ips
unfolding check_resolved
check_resolved-ok lookup_host host none h = ground arith
check_resolved-ok lookup_host host (some port) h = elim (Option-cases (lookup_host host port)) [
  | inl e ↦ ground (arith, e, h)
  | inr (ips, e) ↦
      let (found, public) = check_addresses-ok ips (ground (arith, e, h)) in
      (port, ips, refl, e, found, public)
]

resolved-ok :
    (lookup_host : Text → ℕ → Option (List IpAddr)) (provider : Text) (url : Url)
    → validate_resolved_destination lookup_host provider url true ≡ ok tt
    → (host : Text) × (port : ℕ) × (ips : List IpAddr) × (url.host_str ≡ some host)
      × (url.port_or_known_default ≡ some port)
      × (lookup_host host port ≡ some ips)
      × (ips ≢ [])
      × All IsPublic ips
unfolding validate_resolved_destination
resolved-ok lookup_host provider url h = elim (Option-cases url.host_str) [
  | inl e ↦ ground (arith, e, h)
  | inr (host, e) ↦
      let (port, ips, ep, el, found, public) =
        check_resolved-ok lookup_host host url.port_or_known_default (ground (arith, e, h)) in
      (host, port, ips, e, ep, el, found, public)
]

-- A public destination for a request that carries a key.
abbrev pub IsSafe : (Text → ℕ → Option (List IpAddr)) → Url → Type 0
IsSafe lookup_host url =
    (text_eq url.scheme (codes "https") ≡ true)
    × ((host : Host) × (url.host ≡ some host)
        × (host_is_loopback host ≡ false)
        × (is_reserved_domain host ≡ false))
    × (is_empty url.username ≡ true)
    × (url.password ≡ none)
    × (url.query ≡ none)
    × (url.fragment ≡ none)
    × ((host : Text) × (port : ℕ) × (ips : List IpAddr) × (url.host_str ≡ some host)
        × (url.port_or_known_default ≡ some port)
        × (lookup_host host port ≡ some ips)
        × (ips ≢ [])
        × All IsPublic ips)

module _ (parse : Text → Option Url) (lookup_host : Text → ℕ → Option (List IpAddr)) where
  -- For a request that carries a key: a URL that passes both checks has the scheme https, a host
  -- that is neither loopback nor a reserved name, and no credentials, query or fragment in it; its
  -- host resolves to at least one address, and to public addresses only.
  pub destination-IsSafe :
      (provider raw : Text) (url : Url)
      → validate_provider_url parse provider raw true ≡ ok url
      → validate_resolved_destination lookup_host provider url true ≡ ok tt
      → (parse raw ≡ some url) × IsSafe lookup_host url
  destination-IsSafe provider raw url hv hr =
      let (e, https, host, username, password, query, fragment) =
        provider_url-safe parse provider raw url hv in
      (
        e,
        (https, host, username, password, query, fragment, resolved-ok lookup_host provider url hr),
      )
