-- ===== src/Skills.antt =====
-- src/api/skills.rs: the names and sources that a caller may give, and the arguments that the skills
-- CLI is started with.
pub mod Names
use skyport.Prelude.{
  ℕ, ◌-◌, ◌*◌, ◌/◌, Bool, true, false, not, ◌&&◌, ◌||◌, Option, none, some, List, [], ◌∷◌, ltb, leb,
  ◌==◌, if◌then◌else◌, tests, all, remove, Text, codes, strip_prefix, starts_with, byte_len,
  between, is_empty, trim, is_ascii_digit, is_ascii_alphanumeric,
}

-- `str::contains`
unfoldable pub contains : Text → Text → Bool
contains p [] = is_empty p
contains p (c ∷ s) = let rest = contains p s in starts_with p (c ∷ s) || rest

abbrev pub is_ascii_lowercase : ℕ → Bool
is_ascii_lowercase c = between 97 122 c

abbrev pub is_name_byte : ℕ → Bool
is_name_byte c = is_ascii_lowercase c || is_ascii_digit c || c == b'-'

unfoldable pub valid_skill_name : Text → Bool
valid_skill_name name = not (is_empty name) && leb (byte_len name) 128 && all is_name_byte name

-- `starts_with(|c| c.is_ascii_alphanumeric())`
abbrev pub starts_alphanumeric : Text → Bool
starts_alphanumeric [] = false
starts_alphanumeric (c ∷ s) = is_ascii_alphanumeric c

abbrev pub is_custom_byte : ℕ → Bool
is_custom_byte c = is_ascii_alphanumeric c || c == b'-' || c == b'_' || c == b'.'

-- the tests of `valid_custom_skill_name` on the trimmed name
unfoldable pub valid_trimmed_name : Text → Bool
unfolding contains
valid_trimmed_name n =
    if is_empty n || ltb 128 (byte_len n)
    then false
    else if not (starts_alphanumeric n)
    then false
    else if contains (codes "..") n
    then false
    else all is_custom_byte n

unfoldable pub valid_custom_skill_name : Text → Bool
unfolding valid_trimmed_name
valid_custom_skill_name name = valid_trimmed_name (trim name)

abbrev pub is_source_byte : ℕ → Bool
is_source_byte c =
    is_ascii_alphanumeric c
    || c == b'-'
    || c == b'_'
    || c == b'.'
    || c == b'/'
    || c == b':'
    || c == b'@'

-- whether a scope follows the `@` of a source, if it starts with one
unfoldable pub is_scoped_well : Text → Bool
is_scoped_well s = elim (strip_prefix (codes "@") s) [
  | none ↦ true
  | some rest ↦ starts_alphanumeric rest
]

-- the tests of `valid_skill_source` on the trimmed source
unfoldable pub valid_trimmed_source : Text → Bool
unfolding contains is_scoped_well
valid_trimmed_source s =
    if is_empty s || ltb 256 (byte_len s)
    then false
    else if starts_with (codes "-") s
        || starts_with (codes "/") s
        || starts_with (codes ".") s
        || contains (codes "..") s
    then false
    else if not (is_scoped_well s)
    then false
    else all is_source_byte s

unfoldable pub valid_skill_source : Text → Bool
unfolding valid_trimmed_source
valid_skill_source source = valid_trimmed_source (trim source)

abbrev pub skills_cli_package : Text
skills_cli_package = codes "skills@1.5.23"

unfoldable pub cli_args : Text → Bool → List Text
cli_args name true =
    codes "--yes"
    ∷ skills_cli_package
    ∷ codes "add"
    ∷ codes "NVIDIA/skills"
    ∷ codes "--skill"
    ∷ name
    ∷ codes "--agent"
    ∷ codes "*"
    ∷ codes "--global"
    ∷ codes "--yes"
    ∷ []
cli_args name false =
    codes "--yes"
    ∷ skills_cli_package
    ∷ codes "remove"
    ∷ codes "--global"
    ∷ codes "--yes"
    ∷ name
    ∷ []

-- The arguments that `delete_custom_skill` starts the CLI with; `none` is its 400.
unfoldable pub delete_args : Text → Option (List Text)
unfolding valid_skill_name valid_custom_skill_name cli_args
delete_args name =
    if not (valid_custom_skill_name name) && not (valid_skill_name name)
    then none
    else some (cli_args name false)
