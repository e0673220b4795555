-- ===== src/Tools/Redact.antt =====
-- src/tools/mod.rs: credentials in a text. The source scans bytes with a cursor; every test that stops or
-- starts the scan is on ASCII bytes, so that characters do as well.
use skyport.Prelude.{
  ℕ, zero, suc, ◌-◌, Bool, true, false, not, ◌&&◌, ◌||◌, Option, none, some, List, [], ◌∷◌, ◌++◌,
  ◌==◌, if◌then◌else◌, length, any, take_while, Text, codes, strip_prefix, starts_with,
  is_whitespace, is_empty, is_ascii_alphanumeric, to_ascii_lowercase, lines,
}

-- `find`, `contains` and `match_indices`: a test at some place of a text
unfoldable pub anywhere : (Text → Bool) → Text → Bool
anywhere f [] = f []
anywhere f (c ∷ s) = f (c ∷ s) || anywhere f s

abbrev contains_text : Text → Text → Bool
contains_text needle = anywhere (starts_with needle)

abbrev pub drop_while : (ℕ → Bool) → Text → Text
drop_while p [] = []
drop_while p (c ∷ s) = let rest = drop_while p s in if p c then rest else c ∷ s

abbrev drop : ℕ → Text → Text
drop zero s = s
drop (suc n) [] = []
drop (suc n) (c ∷ s) = drop n s

abbrev labels : List Text
labels =
    codes "authorization"
    ∷ codes "api_key"
    ∷ codes "api-key"
    ∷ codes "api key"
    ∷ codes "apikey"
    ∷ codes "token"
    ∷ codes "access_token"
    ∷ codes "refresh_token"
    ∷ codes "auth_token"
    ∷ codes "secret_token"
    ∷ codes "client_secret"
    ∷ codes "aws_secret_access_key"
    ∷ codes "secret"
    ∷ codes "password"
    ∷ codes "passwd"
    ∷ []

abbrev pub is_one_of : Text → ℕ → Bool
is_one_of cs c = any (λ d. c == d) cs

abbrev is_assigned : Text → Bool
is_assigned [] = false
is_assigned (c ∷ s) = c == b':' || c == b'='

-- a label here, and after blanks and quotes a colon or an equals sign
abbrev label_at : Text → Text → Bool
label_at label s = elim (strip_prefix label s) [
  | none ↦ false
  | some rest ↦ is_assigned (drop_while (is_one_of (codes " \t\"'")) rest)
]

unfoldable pub has_secret_assignment : Text → Bool
unfolding anywhere strip_prefix to_ascii_lowercase
has_secret_assignment line =
    let normalized = to_ascii_lowercase (drop_while (is_one_of (codes " \t+-")) line) in
    any (λ label. anywhere (label_at label) normalized) labels

abbrev pub prefixes : List Text
prefixes =
    codes "sk-proj-"
    ∷ codes "sk-ant-"
    ∷ codes "sk-"
    ∷ codes "sk_"
    ∷ codes "ghp_"
    ∷ codes "gho_"
    ∷ codes "ghu_"
    ∷ codes "ghs_"
    ∷ codes "github_pat_"
    ∷ codes "glpat-"
    ∷ codes "hf_"
    ∷ codes "npm_"
    ∷ codes "pypi-"
    ∷ codes "xoxb-"
    ∷ codes "xoxp-"
    ∷ codes "xoxa-"
    ∷ codes "xoxr-"
    ∷ codes "akia"
    ∷ codes "aiza"
    ∷ codes "ya29."
    ∷ []

-- a prefix at the start of a text, in either case
unfoldable pub starts_lower : Text → Text → Bool
unfolding starts_with to_ascii_lowercase
starts_lower prefix s = starts_with prefix (to_ascii_lowercase s)

-- the first of the prefixes that stands here, by its length
unfoldable pub prefix_at : List Text → Text → Option ℕ
unfolding starts_lower
prefix_at [] s = none
prefix_at (p ∷ ps) s =
    let rest = prefix_at ps s in if starts_lower p s then some (length p) else rest

abbrev pub is_token_byte : ℕ → Bool
is_token_byte c = is_ascii_alphanumeric c || is_one_of (codes "_-./+=") c

-- Where the cursor is: in text that is copied, or in a token, with so much of its prefix left.
pub data Cursor : Type 0 where
  copying : Cursor
  in_token : ℕ → Cursor

abbrev pub redacted : Text
redacted = codes "[REDACTED]"

-- A character that is copied before what follows, or where something begins that is hidden, the
-- marker before what follows its first characters.
abbrev pub copy_or : Text → ℕ → Option ℕ → Text → (ℕ → Text) → Text
copy_or marker c none plain hidden = c ∷ plain
copy_or marker c (some n) plain hidden = marker ++ hidden (n - 1)

unfoldable pub redact_tokens : Cursor → Text → Text
unfolding prefix_at
redact_tokens cursor [] = []
redact_tokens (in_token (suc n)) (c ∷ s) = redact_tokens (in_token n) s
redact_tokens (in_token zero) (c ∷ s) =
    let inside = redact_tokens (in_token zero) s in
    let after_token =
      copy_or redacted c (prefix_at prefixes (c ∷ s)) (redact_tokens copying s)
        (λ n. redact_tokens (in_token n) s) in
    if is_token_byte c then inside else after_token
redact_tokens copying (c ∷ s) =
    copy_or redacted c (prefix_at prefixes (c ∷ s)) (redact_tokens copying s)
      (λ n. redact_tokens (in_token n) s)

unfoldable pub redact_prefixed_tokens : Text → Text
unfolding redact_tokens
redact_prefixed_tokens line = redact_tokens copying line

abbrev before : ℕ → Option (Text × Text) → Option (Text × Text)
before c none = none
before c (some (start, rest)) = some (c ∷ start, rest)

-- what stands before the first "bearer ", and behind it
unfoldable pub find_bearer : Text → Option (Text × Text)
unfolding starts_lower
find_bearer [] = none
find_bearer (c ∷ s) =
    let later = before c (find_bearer s) in
    if starts_lower (codes "bearer ") (c ∷ s) then some ([], drop 6 s) else later

abbrev pub ends_bearer : ℕ → Bool
ends_bearer c = is_whitespace c || is_one_of (codes "\"'`,;)]}") c

unfoldable pub redact_bearer_token : Text → Text
unfolding find_bearer is_whitespace
redact_bearer_token line = elim (find_bearer line) [
  | none ↦ line
  | some (start, rest) ↦
      if is_empty (take_while (λ c. not (ends_bearer c)) rest)
      then line
      else start ++ codes "Bearer [REDACTED]" ++ drop_while (λ c. not (ends_bearer c)) rest
]

-- `join("\n")`
abbrev pub join_lines : List Text → Text
join_lines [] = []
join_lines (line ∷ []) = line
join_lines (line ∷ l ∷ ls) = line ++ b'\n' ∷ join_lines (l ∷ ls)

abbrev pub begins_key : Text → Bool
begins_key line =
    let lower = to_ascii_lowercase line in
    contains_text (codes "-----begin ") lower && contains_text (codes "private key-----") lower

abbrev pub ends_key : Text → Bool
ends_key line =
    let lower = to_ascii_lowercase line in
    contains_text (codes "-----end ") lower && contains_text (codes "private key-----") lower

abbrev pub redact_line : Text → Text
redact_line line =
    if has_secret_assignment line
    then codes "[REDACTED likely secret]"
    else redact_prefixed_tokens (redact_bearer_token line)

-- whether the loop stands inside a private key
unfoldable pub redact_all : Bool → List Text → List Text
unfolding has_secret_assignment redact_prefixed_tokens redact_bearer_token anywhere starts_with
    to_ascii_lowercase
redact_all in_private_key [] = []
redact_all false (line ∷ ls) =
    if begins_key line
    then codes "[REDACTED private key]" ∷ redact_all true ls
    else redact_line line ∷ redact_all false ls
redact_all true (line ∷ ls) = if ends_key line then redact_all false ls else redact_all true ls

unfoldable pub redact_secrets : Text → Text
unfolding lines redact_all
redact_secrets input = join_lines (redact_all false (lines input))
