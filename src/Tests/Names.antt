-- ===== src/Tests/Names.antt =====
-- src/api/skills.rs on concrete names.
use skyport.Prelude.{◌≡◌, refl, true, false, codes, strip_prefix, starts_with, byte_len, trim}
use skyport.Skills.{valid_custom_skill_name, valid_skill_source}
use skyport.Skills.Names.{is_option, valid_custom_skill_name-is_option}

name_accepted : valid_custom_skill_name (codes " pdf-tools.v2 ") ≡ true
unfolding valid_custom_skill_name trim starts_with byte_len
name_accepted = refl

source_accepted : valid_skill_source (codes "@acme/skills") ≡ true
unfolding valid_skill_source trim starts_with byte_len strip_prefix
source_accepted = refl

valid_custom_skill_name-is_option_example :
    (is_option (codes " pdf-tools.v2 ") ≡ false) × (is_option (trim (codes "@acme/skills")) ≡ false)
valid_custom_skill_name-is_option_example =
    valid_custom_skill_name-is_option (codes " pdf-tools.v2 ") (codes "@acme/skills") name_accepted
      source_accepted
