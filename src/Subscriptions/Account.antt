-- ===== src/Subscriptions/Account.antt =====
-- src/auth/mod.rs and src/api/oauth.rs: what a linked account's tokens say, and the headers it sends.
use skyport.Prelude.{
  ℕ, ◌-◌, not, Option, none, some, List, [], ◌∷◌, ◌++◌, leb, ◌==◌, if◌then◌else◌, filter, Dict,
  Text, codes, text_eq, split_once, width,
}
use mathlib.Core.Option
use mathlib.Core.Option.{get_or}
use skyport.Json.{Json, Fields, str, obj, end, field}
use skyport.Subscriptions.{SubscriptionProvider, AuthTokens, ◌or_else◌, get_in, str_of}

-- `text.get(..n)`, with `n` in bytes
unfoldable pub byte_prefix : ℕ → Text → Option Text
byte_prefix n [] = if n == 0 then some [] else none
byte_prefix n (c ∷ s) =
    let rest = Option.map (λ t. c ∷ t) (byte_prefix (n - width c) s) in
    if n == 0 then some [] else if leb (width c) n then rest else none

-- `format!("account {short}…")`
abbrev account_text : Text → Text
account_text short = codes "account " ++ short ++ 8230 ∷ []

-- `token.split('.').nth(1)`
abbrev segment_of : Text → Option Text
segment_of token = elim (split_once b'.' token) [
  | none ↦ none
  | some (_, rest) ↦ elim (split_once b'.' rest) [
    | none ↦ some rest
    | some (segment, _) ↦ some segment
  ]
]

-- The decoder of Base64's URL-safe alphabet, and serde's parser.
module _ (decode : Text → Option (List ℕ)) (from_slice : List ℕ → Option Json) where
  unfoldable pub decode_jwt_payload : Text → Option Json
  decode_jwt_payload token = elim (segment_of token) [
    | none ↦ none
    | some segment ↦ elim (decode segment) [ none ↦ none | some bytes ↦ from_slice bytes ]
  ]

  abbrev claims_of : Option Text → Option Json
  claims_of none = none
  claims_of (some id_token) = decode_jwt_payload id_token

  -- the `if let` on the auth claim
  abbrev short_claim : Option Json → Option Text
  short_claim claims =
      elim (str_of (
        get_in (codes "chatgpt_account_id")
          (get_in (codes "https://api.openai.com/auth") claims))) [
            | none ↦ none
            | some id ↦ Option.map account_text (byte_prefix 8 id)
          ]

  abbrev label_of_id : Option Text → Text
  label_of_id none = codes "subscription"
  label_of_id (some value) = elim (byte_prefix 8 value) [
    | some short ↦ account_text short
    | none ↦ value
  ]

  unfoldable pub account_label : AuthTokens → Text
  unfolding decode_jwt_payload
  account_label tokens =
      let claims = claims_of tokens.id_token in
      get_or
        (str_of (get_in (codes "email") claims)
          or_else str_of (get_in (codes "preferred_username") claims)
          or_else str_of (get_in (codes "sub") claims)
          or_else short_claim claims)
        (label_of_id (tokens.account_id or_else tokens.chatgpt_account_id or_else tokens.user_id))

  abbrev pub account_id_of : AuthTokens → Option Text
  account_id_of tokens =
      let claims = claims_of tokens.id_token in
      str_of (
        get_in (codes "chatgpt_account_id") (get_in (codes "https://api.openai.com/auth") claims)
        or_else get_in (codes "chatgpt_account_id") claims)
      or_else tokens.chatgpt_account_id
      or_else tokens.account_id

  -- The optional header of an account's id.
  abbrev pub with_account_id : Option Text → Fields → Fields
  with_account_id none headers = headers
  with_account_id (some id) headers = field (codes "ChatGPT-Account-ID") (str id) headers

  unfoldable pub oauth_extra : SubscriptionProvider → AuthTokens → Text → Json
  unfolding decode_jwt_payload
  oauth_extra provider tokens account =
      if text_eq provider.id (codes "grok")
      then obj (
          field (codes "x-xai-token-auth") (str (codes "xai-grok-cli")) (
            field (codes "x-grok-client-identifier") (str (codes "grok-shell")) (
              field (codes "x-grok-client-version") (str (codes "0.2.93"))
                (field (codes "account") (str account) end))))
      else if text_eq provider.id (codes "chatgpt")
      then obj (
          field (codes "OpenAI-Beta") (str (codes "responses=v1")) (
            field (codes "originator") (str (codes "skyport")) (
              field (codes "version") (str (codes "skyport/0.1.0")) (
                with_account_id (account_id_of tokens)
                  (field (codes "account") (str account) end)))))
      else if text_eq provider.id (codes "claude")
      then obj (
          field (codes "anthropic-beta") (str (codes "oauth-2025-04-20"))
            (field (codes "account") (str account) end))
      else obj end

-- `from_value::<HashMap<String, String>>` of an object: every value is a text.
unfoldable pub string_fields : Fields → Option (Dict Text)
string_fields end = some []
string_fields (field k (str s) fs) = Option.map (λ m. (k, s) ∷ m) (string_fields fs)
string_fields (field k _ fs) = none

abbrev headers_of : Option (Dict Text) → Dict Text
headers_of none = []
headers_of (some headers) = filter (λ h. not (text_eq h.0 (codes "account"))) headers

unfoldable pub headers_from_extra : Option Json → Dict Text
unfolding string_fields
headers_from_extra (some (obj fs)) = headers_of (string_fields fs)
headers_from_extra _ = []
