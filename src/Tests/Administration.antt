-- ===== src/Tests/Administration.antt =====
-- src/api/admin.rs on a configuration with one provider.
use skyport.Prelude.{
  ℕ, refl, inr, true, none, some, [], ◌∷◌, codes, text_eq, byte_len, eq_ignore_ascii_case,
  ends_with, negsuc,
}
use skyport.Tests.Access.{parse, provider_url}
use skyport.Admin.{valid_identifier}
use skyport.Admin.Safe.{
  put_config, put_provider, put_limits, IsSound, IsGuarded, change_all, change_all-IsGuarded,
}
use skyport.Security.Url.{domain, host_is_loopback, is_reserved_domain}
use skyport.Config.{ProviderConfig, SkyportConfig}
use skyport.Admin.Keys.{
  AddKeyRequest, add_key_handler, remove_key_handler, disable_key_handler, enable_key_handler,
}
use skyport.Admin.Kept.{Keeps, key_handlers-Keeps}
use skyport.Tests.Keys.Samples.{vault-IsUnique}
use skyport.Tests.Routes.{openai, router, config}

abbrev new_key : AddKeyRequest
new_key = record {
  provider = codes "openai";
  alias = codes "third";
  api_key = codes "sk-3";
  priority = negsuc 0;
}

key_handlers-Keeps_example :
    Keeps (router openai) (add_key_handler (router openai) new_key true)
    × Keeps (router openai) (remove_key_handler (router openai) (codes "first") true)
    × Keeps (router openai) (disable_key_handler (router openai) (codes "first") true)
    × Keeps (router openai) (enable_key_handler (router openai) (codes "first") true)
key_handlers-Keeps_example =
    key_handlers-Keeps (router openai) new_key (codes "first") true vault-IsUnique

abbrev backup : ProviderConfig
backup = record openai { base_url = codes "https://api.example.org/v1" }

openai-IsSound : IsSound parse (codes "openai", openai)
unfolding text_eq byte_len valid_identifier host_is_loopback eq_ignore_ascii_case is_reserved_domain
    ends_with
openai-IsSound =
    (refl, inr (provider_url, refl, refl, (domain (codes "api.openai.com"), refl, refl, refl)))

abbrev other_config : SkyportConfig ℕ
other_config = record (config openai) {
  server = record { port = 9000; admin_token_hash = some (codes "x"); inference_token_hash = none };
}

change_all-IsGuarded_example :
    IsGuarded parse
      (λ t. t)
      (λ n. true)
      (router openai)
      (change_all parse
        (λ t. t)
        (λ n. true)
        (router openai)
        (put_config other_config true
          ∷ put_provider (codes "backup") backup true
          ∷ put_limits (record { max_rpm = some 60; max_rps = none }) true
          ∷ []))
change_all-IsGuarded_example =
    change_all-IsGuarded parse (λ t. t) (λ n. true) (router openai)
      (put_config other_config true
        ∷ put_provider (codes "backup") backup true
        ∷ put_limits (record { max_rpm = some 60; max_rps = none }) true
        ∷ [])
      (openai-IsSound, tt)
