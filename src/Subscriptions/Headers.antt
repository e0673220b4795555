-- ===== src/Subscriptions/Headers.antt =====
-- src/api/oauth.rs: the headers of a linked account.
use skyport.Prelude.{
  ℕ, ◌≡◌, refl, inl, inr, Option, none, some, List, Bool-cases, Text, codes, text_eq,
}
use skyport.Json.{Json, str, obj, end, field}
use skyport.Subscriptions.{SubscriptionProvider, AuthTokens}
use skyport.Subscriptions.Account.{account_id_of, with_account_id, oauth_extra, headers_from_extra}

module _ (decode : Text → Option (List ℕ)) (from_slice : List ℕ → Option Json) where
  chatgpt_headers :
      (id : Option Text) (account other : Text)
      → headers_from_extra (
          some (
            obj (
              field (codes "OpenAI-Beta") (str (codes "responses=v1")) (
                field (codes "originator") (str (codes "skyport")) (
                  field (codes "version") (str (codes "skyport/0.1.0")) (
                    with_account_id decode from_slice id
                      (field (codes "account") (str account) end)))))))
        ≡ headers_from_extra (
            some (
              obj (
                field (codes "OpenAI-Beta") (str (codes "responses=v1")) (
                  field (codes "originator") (str (codes "skyport")) (
                    field (codes "version") (str (codes "skyport/0.1.0")) (
                      with_account_id decode from_slice id
                        (field (codes "account") (str other) end)))))))
  unfolding headers_from_extra text_eq
  chatgpt_headers none account other = refl
  chatgpt_headers (some id) account other = refl

  -- What a request to a provider carries of a linked account does not depend on its label, which is
  -- the user's mail address or name.
  pub headers_from_extra-oauth_extra :
      (provider : SubscriptionProvider) (tokens : AuthTokens) (account other : Text)
      → headers_from_extra (some (oauth_extra decode from_slice provider tokens account))
        ≡ headers_from_extra (some (oauth_extra decode from_slice provider tokens other))
  unfolding oauth_extra headers_from_extra text_eq
  headers_from_extra-oauth_extra provider tokens account other =
      elim (Bool-cases (text_eq provider.id (codes "grok"))) [
        | inl e ↦ simp e refl
        | inr e ↦ elim (Bool-cases (text_eq provider.id (codes "chatgpt"))) [
          | inl e' ↦
              simp (e, e') (chatgpt_headers (account_id_of decode from_slice tokens) account other)
          | inr e' ↦ elim (Bool-cases (text_eq provider.id (codes "claude"))) [
            | inl e'' ↦ simp (e, e', e'') refl
            | inr e'' ↦ simp (e, e', e'') refl
          ]
        ]
      ]
