-- ===== src/Tools/Paths.antt =====
-- src/tools/mod.rs: file names in a text. As in Redact, the scan is over characters.
use skyport.Prelude.{
  ℕ, zero, suc, Bool, true, false, not, ◌&&◌, ◌||◌, Option, none, some, [], ◌∷◌, ◌++◌, ◌==◌,
  if◌then◌else◌, Text, codes, between,
}
use skyport.Tools.Redact.{is_one_of, copy_or}

-- `u8::is_ascii_whitespace`
abbrev pub is_ascii_whitespace : ℕ → Bool
is_ascii_whitespace = is_one_of (codes " \t\n\r" ++ 0xc ∷ [])

-- the byte before the cursor, if there is one
abbrev pub at_boundary : Option ℕ → Bool
at_boundary none = true
at_boundary (some c) = is_ascii_whitespace c || is_one_of (codes "'\"([{=") c

abbrev is_ascii_alphabetic : ℕ → Bool
is_ascii_alphabetic c = between b'A' b'Z' c || between b'a' b'z' c

abbrev windows_path : Text → Bool
windows_path (a ∷ b ∷ c ∷ s) = is_ascii_alphabetic a && b == b':' && (c == b'/' || c == b'\\')
windows_path _ = false

abbrev network_path : Text → Bool
network_path (a ∷ b ∷ s) = (a == b'\\' && b == b'\\') || (a == b'/' && b == b'/')
network_path _ = false

abbrev unix_path : Text → Bool
unix_path (a ∷ b ∷ s) = a == b'/' && not (b == b'/')
unix_path _ = false

-- how many characters a path that begins here has at least
unfoldable pub path_at : Option ℕ → Text → Option ℕ
path_at prev s =
    if windows_path s
    then some 3
    else if at_boundary prev && network_path s
    then some 2
    else if at_boundary prev && unix_path s
    then some 1
    else none

abbrev pub ends_path : ℕ → Bool
ends_path c = is_ascii_whitespace c || is_one_of (codes "'\"`,;)]}<>") c

pub data PathCursor : Type 0 where
  outside : PathCursor
  in_path : ℕ → PathCursor

abbrev pub path_marker : Text
path_marker = codes "[absolute path]"

unfoldable pub redact_paths : PathCursor → Option ℕ → Text → Text
unfolding path_at
redact_paths cursor prev [] = []
redact_paths (in_path (suc n)) prev (c ∷ s) = redact_paths (in_path n) (some c) s
redact_paths (in_path zero) prev (c ∷ s) =
    let inside = redact_paths (in_path zero) (some c) s in
    let after_path =
      copy_or path_marker c (path_at prev (c ∷ s)) (redact_paths outside (some c) s)
        (λ n. redact_paths (in_path n) (some c) s) in
    if ends_path c then after_path else inside
redact_paths outside prev (c ∷ s) =
    copy_or path_marker c (path_at prev (c ∷ s)) (redact_paths outside (some c) s)
      (λ n. redact_paths (in_path n) (some c) s)

unfoldable pub redact_absolute_paths : Text → Text
unfolding redact_paths
redact_absolute_paths input = redact_paths outside none input
