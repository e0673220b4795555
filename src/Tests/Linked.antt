-- ===== src/Tests/Linked.antt =====
-- src/api/v1.rs and src/api/oauth.rs: a linked account whose access token has expired.
use skyport.Prelude.{
  ℕ, ◌≡◌, refl, true, Option, none, some, List, [], ◌∷◌, Dict, Text, codes, text_eq,
}
use skyport.Json.{Json, obj, field, end, str, uint, get, as_str, as_u64}
use skyport.Vault.{VaultEntry}
use skyport.Router.{Router, RouteDecision, decision_of}
use skyport.Security.Body.{read_limited_body}
use skyport.Subscriptions.{parse_tokens}
use skyport.Subscriptions.Refresh.{HttpResponse, ensure_fresh_oauth}
use skyport.Tests.Keys.Samples.{sample}
use skyport.Tests.Routes.{openai, router, after}

abbrev decode : Text → Option (List ℕ)
decode text = none

-- The provider's answer: a token for an hour.
abbrev from_slice : List ℕ → Option Json
from_slice bytes = some (
    obj (
      field (codes "access_token") (str (codes "new"))
        (field (codes "expires_in") (uint 3600) end)))

abbrev post : Text → Dict Text → Option HttpResponse
post url form =
    some (record { is_success = true; content_length = none; chunks = some (1 ∷ []) ∷ [] })

abbrev account : VaultEntry
account = record (sample (codes "me") (codes "claude") 0) {
  refresh_token = some (codes "refresh");
  expires_at = some 5;
  oauth_provider = some (codes "claude");
  oauth_extra = some (obj end);
}

abbrev r : Router ℕ
r = record (router openai) { vault = record { entries = account ∷ [] } }

abbrev decision : RouteDecision
decision = decision_of (codes "claude") openai account

refreshed_key :
    (ensure_fresh_oauth decode from_slice post after r decision 7 8 true).0.1.api_key ≡ codes "new"
unfolding ensure_fresh_oauth text_eq read_limited_body parse_tokens get as_str as_u64
refreshed_key = refl
