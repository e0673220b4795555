-- ===== src/Security/Guard/Access.antt =====
-- src/main.rs: which requests reach a handler.
use skyport.Prelude.{
  ◌≡◌, ◌↔◌, ◌⊎◌, inl, inr, true, false, not, ◌&&◌, Option, none, some, arith, Bool-cases,
  Option-cases, Text, codes, starts_with,
}
use skyport.Config.{ServerConfig}
use skyport.Security.Token.{Digest, bearer_token}
use skyport.Security.Token.Scopes.{Opens, authorize_path_iff}
use skyport.Security.Url.{Url, valid_browser_origin}
use skyport.Security.Guard.{
  Request, SecurityGuardState, passed, is_some_and, and_then, valid_host_header, changes_state,
  is_protected, security_guard,
}

module _ (digest : Digest) (parse : Text → Option Url) where
  -- The Host header names this machine and the port that the gateway listens on.
  abbrev pub IsLocalHost : SecurityGuardState → Request → Type 0
  IsLocalHost state request =
      (value : Text) × (request.host ≡ some value)
      × (valid_host_header value state.bound_port ≡ true)

  -- The request changes nothing, or names no origin, or the gateway's own origin.
  abbrev pub IsSameSite : SecurityGuardState → Request → Type 0
  IsSameSite state request =
      (changes_state request.method ≡ false)
      ⊎ (request.origin ≡ none)
      ⊎ ((value : Text) × (request.origin ≡ some value)
          × (valid_browser_origin parse value state.bound_port ≡ true))

  -- The bearer token is the admin's or, outside /api/, the inference token.
  abbrev pub IsAuthorized : ServerConfig → Request → Type 0
  IsAuthorized server request =
      Opens digest (and_then request.authorization bearer_token) server.admin_token_hash
      ⊎ ((starts_with (codes "/api/") request.path ≡ false)
          × Opens digest (and_then request.authorization bearer_token) server.inference_token_hash)

  IsLocalHost-iff :
      (state : SecurityGuardState) (request : Request)
      → (is_some_and request.host (λ value. valid_host_header value state.bound_port) ≡ true)
        ↔ IsLocalHost state request
  IsLocalHost-iff state request = elim (Option-cases request.host) [
    | inl e ↦ (λ h. ground (arith, e, h), λ (value, ev, h). ground (arith, e, ev, h))
    | inr (w, e) ↦ (λ h. (w, e, ground (arith, e, h)), λ (value, ev, h). ground (arith, e, ev, h))
  ]

  IsSameSite-iff :
      (state : SecurityGuardState) (request : Request)
      → ((changes_state request.method
            && is_some_and request.origin
                (λ value. not (valid_browser_origin parse value state.bound_port)))
          ≡ false)
        ↔ IsSameSite state request
  IsSameSite-iff state request = elim (Option-cases request.origin) [
    | inl e ↦ (λ h. inr (inl e), λ o. ground (arith, e))
    | inr (w, e) ↦ elim (Bool-cases (valid_browser_origin parse w state.bound_port)) [
      | inl ev ↦ (λ h. inr (inr (w, e, ev)), λ o. ground (arith, e, ev))
      | inr ev ↦ (
        λ h. inl (ground (arith, e, ev, h)),
        λ o. elim o [
          | inl safe ↦ ground (arith, safe)
          | inr (inl en) ↦ ground (arith, e, en)
          | inr (inr (value, eo, ok_origin)) ↦ ground (arith, e, eo, ok_origin)
        ],
      )
    ]
  ]

  -- A request reaches a handler exactly when the configuration can be read, the Host header is
  -- local, and the path is not protected or the request is from the same site and authorized.
  pub security_guard-passed :
      (state : SecurityGuardState) (request : Request)
      → (security_guard digest parse state request ≡ passed) ↔ (
          (server : ServerConfig) × (state.config ≡ some server)
          × IsLocalHost state request
          × ((is_protected request.path ≡ false)
              ⊎ (IsSameSite state request × IsAuthorized server request)))
  unfolding security_guard
  security_guard-passed state request = elim (Option-cases state.config) [
    | inl e ↦ (λ h. ground (arith, e, h), λ (server, es, host, rest). ground (arith, e, es))
    | inr (server, e) ↦ (
      λ h. (
        server,
        e,
        (IsLocalHost-iff state request).0 (ground (arith, e, h)),
        ground (
          arith,
          e,
          h,
          IsSameSite-iff state request,
          authorize_path_iff digest request.path (and_then request.authorization bearer_token)
              server.admin_token_hash server.inference_token_hash,
        ),
      ),
      λ (other, es, host, rest). ground (
        arith,
        e,
        es,
        rest,
        IsLocalHost-iff state request,
        host,
        IsSameSite-iff state request,
        authorize_path_iff digest request.path (and_then request.authorization bearer_token)
            server.admin_token_hash server.inference_token_hash,
      ),
    )
  ]
