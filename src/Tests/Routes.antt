-- ===== src/Tests/Routes.antt =====
-- src/router.rs on a configuration of two providers.
use mathlib.Core.Option.{get_or}
use mathlib.Core.List.{Memᴰ}
use skyport.Prelude.{
  ℕ, ◌+◌, ◌*◌, ◌/◌, ◌^◌, ◌<◌, ◌≡◌, refl, ◌↔◌, ◌⊎◌, inl, true, false, Option, none, some, [], ◌∷◌,
  map, arith, ltb, if◌then◌else◌, get_elem?, ℤ, lookup, codes, text_eq, split_once, byte_len, ok,
  err, pos, negsuc,
}
use skyport.Config.{ProviderConfig, SkyportConfig}
use skyport.Vault.{VaultEntry, is_keyless_provider, get_keys_for_provider}
use skyport.Json.{Json, obj, field, end, str, get, set_key}
use skyport.Proxy.{as_admitted, check_request}
use skyport.Proxy.Admission.{IsAdmitted, check_request-IsAdmitted}
use skyport.Router.{
  resolve_model, Router, RouteDecision, resolve, decision_of, local_decision, select_key,
  mark_key_failed, panicked, vault_lock,
}
use skyport.Router.Models.{Resolves, resolve-Resolves}
use skyport.Router.Selection.{IsEligible, select_key-IsEligible, select_key-total}
use skyport.Router.Rotation.{Consecutive, answer_of, rotation_fair}
use skyport.Router.Failures.{IsShunned, mark_key_failed-IsShunned, mark_key_failed-panics}
use skyport.Tests.Keys.Samples.{first, second_key, vault, vault-IsUnique}

abbrev pub openai : ProviderConfig
openai = record {
  name = codes "OpenAI";
  base_url = codes "https://api.openai.com/v1";
  enabled = true;
  round_robin = false;
  format = none;
}

abbrev pub rotating_openai : ProviderConfig
rotating_openai = record openai { round_robin = true }

abbrev pub config : ProviderConfig → SkyportConfig ℕ
config p = record {
  server = record { port = 8787; admin_token_hash = none; inference_token_hash = none };
  providers = (codes "openai", p) ∷ [];
  budgets = [];
  routing = record {
    model_map = (codes "fast", codes "openai/gpt-4o-mini") ∷ [];
    default_provider = some (codes "openai");
  };
  rate_limit = record { max_rpm = none; max_rps = none };
}

abbrev pub router : ProviderConfig → Router ℕ
router p = record {
  vault = vault;
  config = config p;
  round_robin_counters = [];
  vault_poisoned = false;
  config_poisoned = false;
  counters_poisoned = false;
}

resolve_test : resolve (config openai) (codes "fast") ≡ ok (codes "openai", codes "gpt-4o-mini")
unfolding resolve text_eq lookup split_once
resolve_test = refl

resolve-Resolves_example :
    (resolve (config openai) (codes "fast") ≡ ok (codes "openai", codes "gpt-4o-mini"))
    ↔ Resolves (config openai) (codes "fast") (codes "openai") (codes "gpt-4o-mini")
resolve-Resolves_example =
    resolve-Resolves (config openai) (codes "fast") (codes "openai") (codes "gpt-4o-mini")

found : (p : ProviderConfig) → lookup (codes "openai") (config p).providers ≡ some p
unfolding lookup text_eq
found p = refl

selected :
    (select_key (router openai) 5 (codes "openai")).1
    ≡ ok (decision_of (codes "openai") openai second_key)
unfolding select_key lookup text_eq get_keys_for_provider
selected = refl

select_key-IsEligible_example :
    (p : ProviderConfig) × (lookup (codes "openai") (router openai).config.providers ≡ some p)
    × (p.enabled ≡ true)
    × (((e : VaultEntry) × IsEligible vault.entries 5 (codes "openai") e
          × (decision_of (codes "openai") openai second_key ≡ decision_of (codes "openai") p e))
        ⊎ (((e : VaultEntry) → ¬ IsEligible vault.entries 5 (codes "openai") e)
            × (is_keyless_provider (codes "openai") ≡ true)
            × (decision_of (codes "openai") openai second_key ≡ local_decision (codes "openai") p)))
select_key-IsEligible_example =
    select_key-IsEligible (router openai) 5 (codes "openai")
      (decision_of (codes "openai") openai second_key) selected

first-IsEligible : IsEligible vault.entries 5 (codes "openai") first
first-IsEligible = (Memᴰ.head refl, refl, refl)

select_key-total_example :
    (d : RouteDecision) × ((select_key (router openai) 5 (codes "openai")).1 ≡ ok d)
select_key-total_example =
    select_key-total (router openai) 5 (codes "openai") openai first refl refl refl (found openai)
      refl (inl first-IsEligible)

abbrev turning : Router ℕ
turning = router rotating_openai

rotating :
    Consecutive
      (codes "openai")
      rotating_openai
      second_key
      (first ∷ [])
      0
      ((5, turning) ∷ (6, (select_key turning 5 (codes "openai")).0) ∷ [])
unfolding select_key lookup text_eq get_keys_for_provider
rotating = (
  record {
    vault_lock = refl;
    config_lock = refl;
    counters_lock = refl;
    configured = refl;
    enabled = refl;
    rotating = refl;
    keys = refl;
  },
  refl,
  (
    record {
      vault_lock = refl;
      config_lock = refl;
      counters_lock = refl;
      configured = refl;
      enabled = refl;
      rotating = refl;
      keys = refl;
    },
    refl,
    tt,
  ),
)

rotation_fair_example :
    (i : ℕ) × (get_elem?
        (map
          (answer_of (codes "openai"))
          ((5, turning) ∷ (6, (select_key turning 5 (codes "openai")).0) ∷ []))
        i
      ≡ some (
          ok (
            decision_of
              (codes "openai")
              rotating_openai
              (get_or (get_elem? (second_key ∷ first ∷ []) 1) second_key))))
rotation_fair_example =
    rotation_fair (codes "openai") rotating_openai second_key (first ∷ []) 0 1
      ((5, turning) ∷ (6, (select_key turning 5 (codes "openai")).0) ∷ []) rotating refl
      (omega arith) (omega arith)

-- A clock whose dates end at 2^63 milliseconds.
abbrev pub after : ℕ → ℤ → Option ℕ
after now (pos s) = if ltb (2 ^ 63 / 1000) s then none else some (now + s * 1_000_000_000)
after now (negsuc s) = some now

mark_key_failed-IsShunned_example :
    IsShunned
      (codes "a")
      2_000_000_005
      (mark_key_failed after (router openai) 5 (codes "a") 429 (some 2)).0.vault.entries
mark_key_failed-IsShunned_example =
    mark_key_failed-IsShunned after (router openai) 5 (codes "a") vault-IsUnique refl 429 (some 2)
      2_000_000_005 2_000_000_005 (inl (refl, refl)) (omega arith)

after_long : (now secs : ℕ) → 2 ^ 63 / 1000 < secs → after now (pos secs) ≡ none
after_long now secs h = ground arith

mark_key_failed-panics_example :
    let (r', outcome) =
      mark_key_failed after (router openai) 5 (codes "a") 429 (some 9_300_000_000_000_000) in
    (outcome ≡ panicked) × ((select_key r' 6 (codes "groq")).1 ≡ err vault_lock)
mark_key_failed-panics_example =
    mark_key_failed-panics after after_long (router openai) 5 (codes "a") 9_300_000_000_000_000 6
      (codes "groq") refl (omega arith) (omega arith)

abbrev body : Json
body = obj (field (codes "model") (str (codes "fast")) end)

abbrev pub sent : Json
sent = obj (field (codes "model") (str (codes "gpt-4o-mini")) end)

admitted :
    check_request (router openai) (codes "fast") body (codes "chat/completions") false
    ≡ ok (as_admitted (codes "openai") (codes "gpt-4o-mini") false sent)
unfolding check_request byte_len get text_eq resolve_model lookup split_once set_key
admitted = refl

check_request-IsAdmitted_example :
    IsAdmitted
      (router openai)
      (codes "fast")
      (codes "chat/completions")
      false
      (as_admitted (codes "openai") (codes "gpt-4o-mini") false sent)
check_request-IsAdmitted_example =
    check_request-IsAdmitted (router openai) (codes "fast") (codes "chat/completions") body false
      (as_admitted (codes "openai") (codes "gpt-4o-mini") false sent) admitted
