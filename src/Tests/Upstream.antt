-- ===== src/Tests/Upstream.antt =====
-- src/api/v1.rs: the loop of `proxy` with a provider that fails.
use skyport.Prelude.{
  ℕ, zero, suc, ◌≤◌, ◌≡◌, refl, true, false, Option, none, some, List, [], ◌∷◌, arith, lookup, Text,
  codes, text_eq, starts_with, split_once, byte_len, to_ascii_lowercase, eq_ignore_ascii_case,
  ends_with, ok, pos,
}
use skyport.Budget.{budget_for}
use skyport.Config.{wire_format, ProviderConfig}
use skyport.Vault.{is_keyless_provider, get_keys_for_provider}
use skyport.Vault.Aliases.{aliases}
use skyport.RateLimiter.{new}
use skyport.Json.{Json, obj, field, end, str, uint, get, set_key, as_u64}
use skyport.Translate.{to_anthropic}
use skyport.Translate.Answers.{translate_answer}
use skyport.Translate.Usage.{reported, is_translated, usage_from_payload-translate_answer}
use skyport.Translate.Limits.{token_limit}
use skyport.Proxy.Bounded.{upstream_token_limit}
use skyport.Router.{Router, RouteDecision, resolve_model, decision_of, local_decision}
use skyport.Security.Url.{domain, Url}
use skyport.Proxy.{Admitted, as_admitted, check_request}
use skyport.Proxy.Upstream.{
  UpstreamRequest, answered, Web, upstream_request, translate_request, usage_from_payload,
}
use skyport.Security.Address.{is_public_ip}
use skyport.Tests.Access.{parse, lookup_host, provider_url}
use skyport.Tests.Keys.Samples.{first}
use skyport.Proxy.Loop.{Round, usable, no_eligible_key, Answer, LoopState, contains}
use skyport.Proxy.Loop.Run.{run}
use skyport.Proxy.Loop.Ends.{run-answers}
use skyport.Proxy.Loop.Local.{run-loops, IsBare}
use skyport.Tests.Routes.{openai, router, config, sent, after}

abbrev local_url : Url
local_url = record {
  scheme = codes "http";
  username = [];
  password = none;
  host = some (domain (codes "localhost"));
  host_str = some (codes "localhost");
  port_or_known_default = some 11434;
  path_segments = some (codes "v1" ∷ []);
  query = none;
  fragment = none;
}

abbrev web : Web
web = record {
  parse = λ text. some local_url;
  push_segments = λ url segments. some url;
  append_pair = λ url key value. url;
  lookup_host = λ host port. none;
  as_f64 = λ value. none;
  print = λ value. [];
  uuid = [];
  timestamp = 5;
  json_len = λ body. some 40;
  from_slice = λ bytes. none;
}

abbrev decode : Text → Option (List ℕ)
decode text = none

-- Every request is answered with 503.
abbrev round : Round
round = record {
  selected_at = 5;
  checked_at = 5;
  refreshed_at = 5;
  stored_at = 6;
  failed_at = 7;
  month = codes "2026-01";
  day = codes "2026-01-02";
  database = usable;
  saved = true;
  post = λ url form. none;
  reply = λ request. answered 503 none none [];
}

abbrev state : Router ℕ → LoopState
state r = record {
  router = r;
  limiter = new;
  rows = [];
  attempted = [];
  last_status = 503;
  last_error = no_eligible_key;
}

abbrev repeat : ℕ → Round → List Round
repeat zero x = []
repeat (suc n) x = x ∷ repeat n x

abbrev to_openai : Admitted
to_openai = as_admitted (codes "openai") (codes "gpt-4o-mini") false sent

keyed : is_keyless_provider (codes "openai") ≡ false
unfolding is_keyless_provider text_eq
keyed = refl

no_local : contains (codes "local") (aliases (router openai).vault.entries) ≡ false
unfolding text_eq
no_local = refl

run-answers_example :
    (answer : Answer) × ((run web decode after to_openai
        (codes "chat/completions")
        false
        (repeat 4 round)
        (state (router openai))).1
      ≡ some answer)
run-answers_example =
    run-answers web decode after to_openai (codes "chat/completions") false (repeat 4 round)
      (state (router openai)) keyed no_local refl (omega arith)

abbrev ollama : ProviderConfig
ollama = record openai { name = codes "Ollama"; base_url = codes "http://localhost:11434/v1" }

abbrev local_router : Router ℕ
local_router = record (router openai) {
  vault = record { entries = [] };
  config = record (config openai) { providers = (codes "ollama", ollama) ∷ [] };
}

abbrev to_ollama : Admitted
to_ollama = as_admitted (codes "ollama") (codes "llama3") false sent

abbrev request : UpstreamRequest
request = record { url = local_url; body = sent; headers = [] }

request_ok :
    upstream_request web
      (codes "ollama")
      (codes "llama3")
      sent
      (codes "chat/completions")
      false
      (local_decision (codes "ollama") ollama)
    ≡ ok request
unfolding upstream_request text_eq ends_with to_ascii_lowercase is_keyless_provider
    eq_ignore_ascii_case wire_format is_public_ip
request_ok = refl

keyless : is_keyless_provider (codes "ollama") ≡ true
unfolding is_keyless_provider text_eq
keyless = refl

bare : IsBare (codes "ollama") ollama local_router
unfolding get_keys_for_provider lookup text_eq budget_for
bare = record {
  vault_lock = refl;
  config_lock = refl;
  no_keys = refl;
  no_local = refl;
  no_budget = refl;
  configured = refl;
  enabled = refl;
}

abbrev later_round : Round
later_round = record round { failed_at = 9; reply = λ request. answered 503 (some 1) none [] }

run-loops_example :
    (run web decode after to_ollama
      (codes "chat/completions")
      false
      (round ∷ later_round ∷ [])
      (state local_router)).1
    ≡ none
run-loops_example =
    run-loops web decode after to_ollama (codes "chat/completions") false ollama request request_ok
      (round ∷ later_round ∷ []) (state local_router) keyless bare
      (
        ((none, none, [], refl), (10_000_000_007, refl)),
        (((some 1, none, [], refl), (10_000_000_009, refl)), tt),
      )

abbrev safe_web : Web
safe_web = record web { parse = parse; lookup_host = lookup_host }

abbrev keyed_decision : RouteDecision
keyed_decision = decision_of (codes "openai") openai first

abbrev keyed_request : UpstreamRequest
keyed_request = record {
  url = provider_url;
  body = sent;
  headers = (codes "authorization", codes "Bearer secret") ∷ [];
}

-- A provider with a monthly cap, and a request without a limit of its own.
abbrev capped : Router ℕ
capped = record (router openai) {
  config = record (config openai) {
    budgets =
        (
          codes "openai",
          record { monthly_cap_usd = some 100; daily_cap_usd = none; max_rpm = none },
        )
        ∷ [];
  };
}

abbrev chat : Json
chat = obj (field (codes "model") (str (codes "fast")) end)

abbrev limited : Json
limited =
    obj (
      field (codes "model") (str (codes "gpt-4o-mini"))
        (field (codes "max_tokens") (uint 4096) end))

capped_request :
    check_request capped (codes "fast") chat (codes "chat/completions") false
    ≡ ok (as_admitted (codes "openai") (codes "gpt-4o-mini") true limited)
unfolding check_request byte_len get text_eq resolve_model lookup split_once set_key starts_with
capped_request = refl

as_anthropic :
    translate_request web
      (codes "anthropic")
      (codes "gpt-4o-mini")
      local_url
      (codes "chat/completions")
      limited
      false
    ≡ ok (local_url, (to_anthropic web.as_f64 web.print limited, false))
unfolding translate_request text_eq
as_anthropic = refl

not_embeddings : text_eq (codes "chat/completions") (codes "embeddings") ≡ false
unfolding text_eq
not_embeddings = refl

upstream_token_limit_example :
    (n : ℕ) × (token_limit (codes "anthropic") (to_anthropic web.as_f64 web.print limited) ≡ some n)
    × (n ≤ 32_768)
upstream_token_limit_example =
    upstream_token_limit web capped (codes "fast") (codes "chat/completions") chat false
      (as_admitted (codes "openai") (codes "gpt-4o-mini") true limited) (codes "anthropic")
      local_url local_url (to_anthropic web.as_f64 web.print limited) false capped_request refl
      not_embeddings as_anthropic

abbrev reply : Json
reply = obj (
    field (codes "usage")
      (obj (field (codes "input_tokens") (uint 10) (field (codes "output_tokens") (uint 5) end)))
      end)

counts : reported (codes "anthropic") reply ≡ (10, 5)
unfolding text_eq get as_u64
counts = refl

translated : is_translated (codes "anthropic") ≡ true
unfolding text_eq
translated = refl

usage_from_payload-translate_answer_example :
    usage_from_payload (translate_answer (codes "anthropic") [] 5 reply)
    ≡ (pos (reported (codes "anthropic") reply).0, pos (reported (codes "anthropic") reply).1)
usage_from_payload-translate_answer_example =
    usage_from_payload-translate_answer (codes "anthropic") [] 5 reply translated
      (ground (arith, counts)) (ground (arith, counts))
