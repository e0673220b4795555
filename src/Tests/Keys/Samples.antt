-- ===== src/Tests/Keys/Samples.antt =====
-- A vault of three entries.
use skyport.Prelude.{ℕ, true, none, [], ◌∷◌, arith, Text, codes}
use skyport.Vault.{VaultEntry, Vault}
use skyport.Vault.Aliases.{IsUnique}

abbrev pub sample : Text → Text → ℕ → VaultEntry
sample alias provider priority = record {
  key_alias = alias;
  provider = provider;
  api_key = codes "secret";
  priority = priority;
  enabled = true;
  cooldown_until = none;
  refresh_token = none;
  expires_at = none;
  oauth_provider = none;
  oauth_extra = none;
}

abbrev pub first : VaultEntry
first = sample (codes "a") (codes "openai") 2

abbrev pub second_key : VaultEntry
second_key = sample (codes "b") (codes "openai") 1

abbrev pub other : VaultEntry
other = sample (codes "c") (codes "groq") 0

abbrev pub vault : Vault
vault = record { entries = first ∷ second_key ∷ other ∷ [] }

pub vault-IsUnique : IsUnique vault
vault-IsUnique = (
  (λ e. ground (arith, e), (λ e. ground (arith, e), tt)),
  ((λ e. ground (arith, e), tt), (tt, tt)),
)
