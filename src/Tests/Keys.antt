-- ===== src/Tests/Keys.antt =====
-- src/vault.rs on a vault of three entries.
pub mod Samples
use skyport.Prelude.{◌≡◌, refl, ◌↔◌, true, not, ◌||◌, none, [], ◌∷◌, any, codes, text_eq}
use skyport.Vault.{
  VaultEntry, OAuthCredential, Vault, has_alias, add_key, replace_key, upsert_oauth_key, remove_key,
  disable_key, enable_key, get_keys_for_provider, sort_by_priority, insert_by_priority,
  set_cooldown, modify_first,
}
use skyport.Vault.Entries.{entry, Updates, key_switches-Updates, remove_key-entry}
use skyport.Vault.Aliases.{IsUnique, is_relink, mutators-IsUnique, upsert_oauth_key-IsUnique}
use skyport.Vault.Priority.{IsSorted, at_priority, get_keys_for_provider-IsSorted}
use skyport.Tests.Keys.Samples.{first, second_key, other, vault, vault-IsUnique}

-- A sign-in under an alias that a key of another provider has.
abbrev clash : OAuthCredential
clash = record {
  provider = codes "anthropic";
  alias = codes "a";
  access_token = codes "token";
  refresh_token = none;
  expires_at = none;
  oauth_provider = codes "claude";
  extra = none;
}

upsert_oauth_key-IsUnique_example :
    ((is_relink clash vault || not (any (has_alias clash.alias) vault.entries)) ≡ true)
    ↔ IsUnique (upsert_oauth_key vault clash).0
upsert_oauth_key-IsUnique_example = upsert_oauth_key-IsUnique vault clash vault-IsUnique

keys_test : get_keys_for_provider vault (codes "openai") ≡ second_key ∷ first ∷ []
unfolding get_keys_for_provider text_eq
keys_test = refl
