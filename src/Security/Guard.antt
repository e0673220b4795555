-- ===== src/Security/Guard.antt =====
-- src/main.rs: `security_guard`, the middleware before every handler, and the check of the Host
-- header of src/security.rs. A header that is missing or not text is `none`; a passing request goes
-- on to its handler.
pub mod Access
use skyport.Prelude.{
  ℕ, zero, suc, ◌+◌, ◌/◌, ◌%◌, Bool, true, false, not, ◌&&◌, ◌||◌, Option, none, some, [], ◌∷◌,
  ◌++◌, ltb, if◌then◌else◌, Text, codes, text_eq, starts_with, eq_ignore_ascii_case,
}
use skyport.Config.{ServerConfig}
use skyport.Security.Token.{Digest, bearer_token, authorize_path}
use skyport.Security.Url.{Url, valid_browser_origin}

-- The digits of a number; a port has at most five.
unfoldable pub digits : ℕ → ℕ → Text
digits zero n = []
digits (suc fuel) n =
    let rest = digits fuel (n / 10) in
    if ltb n 10 then (48 + n) ∷ [] else rest ++ ((48 + n % 10) ∷ [])

abbrev pub port_text : ℕ → Text
port_text port = digits 5 port

unfoldable pub valid_host_header : Text → ℕ → Bool
unfolding digits
valid_host_header value port =
    eq_ignore_ascii_case value (codes "localhost:" ++ port_text port)
    || text_eq value (codes "127.0.0.1:" ++ port_text port)

pub data Method : Type 0 where
  get head other : Method

unfoldable pub changes_state : Method → Bool
changes_state get = false
changes_state head = false
changes_state other = true

pub record Request : Type 0 where
  pub path : Text
  pub method : Method
  pub host : Option Text
  pub origin : Option Text
  pub authorization : Option Text

pub record SecurityGuardState : Type 0 where
  pub config : Option ServerConfig
  pub bound_port : ℕ

pub data Verdict : Type 0 where
  passed : Verdict
  refused : ℕ → Verdict

-- `Option::is_some_and`
abbrev pub is_some_and {ℓ} : {A : Type ℓ} → Option A → (A → Bool) → Bool
is_some_and none p = false
is_some_and (some a) p = p a

abbrev pub and_then {ℓ κ} : {A : Type ℓ} {B : Type κ} → Option A → (A → Option B) → Option B
and_then none f = none
and_then (some a) f = f a

unfoldable pub is_protected : Text → Bool
is_protected path = starts_with (codes "/v1/") path || starts_with (codes "/api/") path

module _ (digest : Digest) (parse : Text → Option Url) where
  -- `config` is `none` when the configuration's lock is poisoned.
  unfoldable pub security_guard : SecurityGuardState → Request → Verdict
  unfolding is_protected changes_state valid_host_header
  security_guard state request = elim state.config [
    | none ↦ refused 503
    | some server ↦
        if not (is_some_and request.host (λ value. valid_host_header value state.bound_port))
        then refused 421
        else if is_protected request.path
            && changes_state request.method
            && is_some_and request.origin
                (λ value. not (valid_browser_origin parse value state.bound_port))
        then refused 403
        else if not (is_protected request.path)
        then passed
        else if not (
            authorize_path digest request.path (and_then request.authorization bearer_token)
              server.admin_token_hash server.inference_token_hash)
        then refused 401
        else passed
  ]
