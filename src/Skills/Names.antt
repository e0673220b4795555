-- ===== src/Skills/Names.antt =====
-- src/api/skills.rs: which accepted names could be read as options of the CLI.
use skyport.Prelude.{
  ◌≤◌, ◌≡◌, refl, Bool, true, false, some, [], ◌∷◌, arith, ◌==◌, all, Text, starts_with, byte_len,
  is_whitespace, trim_start, trim_end, trim,
}
use skyport.Skills.{
  is_name_byte, valid_trimmed_name, valid_custom_skill_name, valid_trimmed_source,
  valid_skill_source, cli_args, delete_args,
}

-- The shape of an option: a text that starts with a hyphen.
abbrev pub is_option : Text → Bool
is_option [] = false
is_option (c ∷ s) = c == b'-'

is_option-trim_end : (s : Text) → is_option s ≡ true → is_option (trim_end s) ≡ true
unfolding trim_end is_whitespace
is_option-trim_end [] h = ground arith
is_option-trim_end (c ∷ s) h = ground arith

is_option-trim : (s : Text) → is_option s ≡ true → is_option (trim s) ≡ true
unfolding trim trim_start is_whitespace
is_option-trim [] h = ground arith
is_option-trim (c ∷ s) h = ground (arith, is_option-trim_end (c ∷ s) h)

valid_trimmed_name-is_option : (n : Text) → valid_trimmed_name n ≡ true → is_option n ≡ false
unfolding valid_trimmed_name
valid_trimmed_name-is_option [] h = refl
valid_trimmed_name-is_option (c ∷ s) h = ground arith

valid_trimmed_source-is_option : (s : Text) → valid_trimmed_source s ≡ true → is_option s ≡ false
unfolding valid_trimmed_source starts_with
valid_trimmed_source-is_option [] h = refl
valid_trimmed_source-is_option (c ∷ s) h = ground arith

-- A name that `valid_custom_skill_name` accepts is no option of the CLI, and a source that
-- `valid_skill_source` accepts is none once it is trimmed.
pub valid_custom_skill_name-is_option :
    (name source : Text)
    → valid_custom_skill_name name ≡ true
    → valid_skill_source source ≡ true
    → (is_option name ≡ false) × (is_option (trim source) ≡ false)
unfolding valid_custom_skill_name valid_skill_source
valid_custom_skill_name-is_option name source hn hs = (
  ground (arith, is_option-trim name, valid_trimmed_name-is_option (trim name) hn),
  valid_trimmed_source-is_option (trim source) hs,
)

-- Deleting a skill accepts options of the CLI as names: a hyphen and up to 127 lowercase letters,
-- digits and hyphens, which is then the last argument of the command that is run.
pub delete_args-is_option :
    (rest : Text)
    → all is_name_byte rest ≡ true
    → byte_len rest ≤ 127
    → (delete_args (b'-' ∷ rest) ≡ some (cli_args (b'-' ∷ rest) false))
      × (is_option (b'-' ∷ rest) ≡ true)
unfolding delete_args byte_len
delete_args-is_option rest h le = (ground arith, refl)
