-- ===== src/Tests/Linking.antt =====
-- src/api/oauth.rs on sign-ins to Claude and to OpenRouter.
use skyport.Prelude.{
  ℕ, ◌+◌, ◌≡◌, refl, true, false, Option, none, some, List, [], ◌∷◌, arith, ℤ, Dict, lookup, insert,
  Text, codes, text_eq, byte_len, trim, ok, err,
}
use skyport.Json.{Json, obj, field, end, str, uint, get, as_str, as_u64}
use skyport.Security.Body.{read_limited_body}
use skyport.Sessions.{PendingSession, browser}
use skyport.Subscriptions.{AuthTokens, claude, find_provider, parse_tokens}
use skyport.Subscriptions.Account.{account_label}
use skyport.Subscriptions.Refresh.{token_expiry}
use skyport.Router.{Router, RouteDecision, select_key}
use skyport.SignIns.{AppState, refused, provider_config, paste_key, finish_login, disconnect}
use skyport.SignIns.Linked.{select_key-finish_login}
use skyport.SignIns.Pasted.{IsUnlinked, Disconnects, disconnect-Disconnects, paste_key-IsUnlinked}
use skyport.SignIns.Exchange.{StatusResponse, PostBody, exchange_authorization_code}
use skyport.SignIns.Poll.{login_done, poll}
use skyport.SignIns.Ends.{Ends}
use skyport.SignIns.Callback.{callback_page, callback_handler}
use skyport.SignIns.Browser.{poll-callback_handler}
use skyport.SignIns.Connect.{connect}
use skyport.SignIns.Connect.Encoding.{url_encode, utf8, percent_decode, percent_decode-url_encode}
use skyport.SignIns.Begun.{Begins, connect-Begins}
use skyport.Tests.Keys.Samples.{sample}
use skyport.Tests.Routes.{openai, router}

abbrev decode : Text → Option (List ℕ)
decode text = none

-- The provider's answer: a token for an hour.
abbrev from_slice : List ℕ → Option Json
from_slice bytes = some (
    obj (
      field (codes "access_token") (str (codes "new"))
        (field (codes "expires_in") (uint 3600) end)))

abbrev after : ℕ → ℤ → Option ℕ
after now secs = some (now + 1)

abbrev post : Text → PostBody → Option StatusResponse
post url body = some (record { status = 200; content_length = none; chunks = [] })

abbrev tokens : AuthTokens
tokens = record {
  access_token = codes "new";
  refresh_token = none;
  expires_in = some 3600;
  id_token = none;
  account_id = none;
  chatgpt_account_id = none;
  user_id = none;
}

abbrev session : PendingSession AuthTokens
session = record {
  provider = codes "claude";
  started_secs = 100;
  kind = browser (some (codes "verifier")) none;
}

abbrev state : AppState ℕ
state = record {
  router = router openai;
  auth_sessions = (codes "flow", session) ∷ [];
  sessions_poisoned = false;
}

abbrev params : Dict Text
params = (codes "state", codes "flow") ∷ (codes "code", codes "c0de") ∷ []

claude_found : find_provider (codes "claude") ≡ some claude
unfolding find_provider text_eq
claude_found = refl

abbrev linked_router : Router ℕ
linked_router = (finish_login decode from_slice after claude tokens 7 true true (router openai)).0

select_key-finish_login_example :
    (d : RouteDecision) × ((select_key linked_router 9 (codes "claude")).1 ≡ ok d)
unfolding finish_login lookup insert text_eq account_label
select_key-finish_login_example =
    select_key-finish_login decode from_slice after claude tokens 7 9 true true (router openai)
      linked_router (codes "subscription") (provider_config claude) refl refl refl refl

exchange_ok :
    exchange_authorization_code from_slice post claude (codes "c0de") (codes "verifier")
    ≡ some (ok tokens)
unfolding exchange_authorization_code read_limited_body parse_tokens get as_str as_u64 text_eq
exchange_ok = refl

poll-callback_handler_example :
    let (s, page) = callback_handler from_slice post state params 150 in
    (page ≡ callback_page true)
    × ((poll decode from_slice after post (codes "claude") (codes "flow") 200 7 true true s).1
        ≡ login_done (account_label decode from_slice tokens))
unfolding lookup text_eq token_expiry
poll-callback_handler_example =
    poll-callback_handler decode from_slice after post claude state session (codes "flow") tokens
      (codes "c0de") (codes "verifier") params 150 200 7 (some 8) claude_found refl refl refl refl
      refl (omega arith) (omega arith) refl refl exchange_ok refl

disconnect-Disconnects_example :
    Disconnects claude linked_router (disconnect (codes "claude") true linked_router)
disconnect-Disconnects_example =
    disconnect-Disconnects (codes "claude") claude true linked_router claude_found

-- A key of another provider has the alias "spare", and Claude's account is linked.
abbrev taken_router : Router ℕ
taken_router = record (router openai) {
  vault = record {
    entries =
        sample (codes "spare") (codes "openai") 0
        ∷ (record (sample (codes "subscription-claude") (codes "claude") 0) {
          oauth_provider = some (codes "claude");
        })
        ∷ [];
  };
}

paste_key-IsUnlinked_example :
    let (r', answer) =
      paste_key (codes "claude") (codes "key") (some (codes "spare")) true true taken_router in
    (answer ≡ err (refused (codes "failed to store key")))
    × IsUnlinked claude (codes "spare") r'.vault
unfolding trim byte_len text_eq
paste_key-IsUnlinked_example =
    paste_key-IsUnlinked (codes "claude") (codes "key") (codes "spare") claude true true
      taken_router claude_found refl (omega arith) refl refl

abbrev oldest : Dict (PendingSession AuthTokens) → List Text
oldest m = []

connect-Begins_example : Begins oldest (codes "flow-2") 300 state (codes "claude") (
    connect oldest
      (codes "flow-2")
      300
      state
      from_slice
      post
      (codes "v")
      (codes "c")
      (codes "claude"))
connect-Begins_example =
    connect-Begins oldest (codes "flow-2") 300 state (codes "claude") from_slice post (codes "v")
      (codes "c") refl

percent_decode-url_encode_example :
    percent_decode (url_encode (codes "a b&é")) ≡ utf8 (codes "a b&é")
percent_decode-url_encode_example =
    percent_decode-url_encode (codes "a b&é")
      (omega arith, (omega arith, (omega arith, (omega arith, (omega arith, tt)))))

url_encode_test : url_encode (codes "a b&c=d") ≡ codes "a%20b%26c%3Dd"
unfolding url_encode
url_encode_test = refl
