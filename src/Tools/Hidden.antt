-- ===== src/Tools/Hidden.antt =====
-- src/tools/mod.rs: what `redact_secrets` leaves of a text.
use skyport.Prelude.{
  ◌≡◌, refl, ap, inl, inr, Bool, true, false, not, ◌&&◌, Option, none, some, List, [], ◌∷◌, ◌++◌,
  arith, Bool-cases, is_some, All, Text, codes, starts_with, to_lower, to_ascii_lowercase, lines,
}
use skyport.Tools.Redact.{
  prefixes, prefix_at, starts_lower, has_secret_assignment, redact_bearer_token, join_lines,
  begins_key, ends_key, redact_line, redact_all, redact_secrets,
}
use skyport.Tools.Clean.{
  IsBelow, IsBelow-cons, IsBelow-feed, Clean, prefixes_below, redact_prefixed_tokens-Clean,
}

-- To compute that a known text is clean.
abbrev is_clean : Text → Bool
is_clean [] = true
is_clean (c ∷ s) = not (is_some (prefix_at prefixes (c ∷ s))) && is_clean s

none_of_not {ℓ} : {A : Type ℓ} (o : Option A) → not (is_some o) ≡ true → o ≡ none
none_of_not none h = refl
none_of_not (some a) h = absurd (ground arith)

pub Clean-is_clean : (s : Text) → is_clean s ≡ true → Clean s
Clean-is_clean [] h = tt
Clean-is_clean (c ∷ s) h =
    (none_of_not (prefix_at prefixes (c ∷ s)) (ground arith), Clean-is_clean s (ground arith))

pub feed-IsBelow : (a b : Text) → IsBelow (a ++ b'\n' ∷ b) a
feed-IsBelow [] b = IsBelow-feed b []
feed-IsBelow (c ∷ a) b = IsBelow-cons c (a ++ b'\n' ∷ b) a (feed-IsBelow a b)

-- Texts that are clean are so one after the other, with a line feed between them.
pub Clean-append : (a b : Text) → Clean a → Clean b → Clean (a ++ b'\n' ∷ b)
unfolding prefix_at starts_lower starts_with to_ascii_lowercase to_lower
Clean-append [] b h k = (refl, k)
Clean-append (c ∷ a) b (here, h) k = (
  prefixes_below (c ∷ a ++ b'\n' ∷ b) (c ∷ a) (IsBelow-cons c (a ++ b'\n' ∷ b) a (feed-IsBelow a b))
      here,
  Clean-append a b h k,
)

Clean-join_lines : (ls : List Text) → All Clean ls → Clean (join_lines ls)
Clean-join_lines [] h = tt
Clean-join_lines (line ∷ []) (clean, h) = clean
Clean-join_lines (line ∷ l ∷ ls) (clean, h) =
    Clean-append line (join_lines (l ∷ ls)) clean (Clean-join_lines (l ∷ ls) h)

redact_line-Clean : (line : Text) → Clean (redact_line line)
unfolding prefix_at starts_lower starts_with to_ascii_lowercase to_lower
redact_line-Clean line = elim (Bool-cases (has_secret_assignment line)) [
  | inl e ↦ simp e (Clean-is_clean (codes "[REDACTED likely secret]") refl)
  | inr e ↦ simp e (redact_prefixed_tokens-Clean (redact_bearer_token line))
]

key_marker-Clean : Clean (codes "[REDACTED private key]")
unfolding prefix_at starts_lower starts_with to_ascii_lowercase to_lower
key_marker-Clean = Clean-is_clean (codes "[REDACTED private key]") refl

redact_all-Clean : (inside : Bool) (ls : List Text) → All Clean (redact_all inside ls)
unfolding redact_all
redact_all-Clean inside [] = tt
redact_all-Clean false (line ∷ ls) = elim (Bool-cases (begins_key line)) [
  | inl e ↦ simp e (key_marker-Clean, redact_all-Clean true ls)
  | inr e ↦ simp e (redact_line-Clean line, redact_all-Clean false ls)
]
redact_all-Clean true (line ∷ ls) = elim (Bool-cases (ends_key line)) [
  | inl e ↦ simp e (redact_all-Clean false ls)
  | inr e ↦ simp e (redact_all-Clean true ls)
]

pub redact_secrets-Clean : (input : Text) → Clean (redact_secrets input)
unfolding redact_secrets
redact_secrets-Clean input =
    Clean-join_lines (redact_all false (lines input)) (redact_all-Clean false (lines input))

redact_all-inside :
    (body : List Text) (last : Text) (rest : List Text)
    → All (λ line. ends_key line ≡ false) body
    → ends_key last ≡ true
    → redact_all true (body ++ last ∷ rest) ≡ redact_all false rest
unfolding redact_all
redact_all-inside [] last rest h k = simp k refl
redact_all-inside (line ∷ body) last rest (e, h) k = simp e (redact_all-inside body last rest h k)

-- Of a private key, from the line that begins it to the first line after it that ends one, one
-- marker is left, whatever the lines between say.
pub redact_all-private_key :
    (first : Text) (body : List Text) (last : Text) (rest : List Text)
    → begins_key first ≡ true
    → All (λ line. ends_key line ≡ false) body
    → ends_key last ≡ true
    → redact_all false (first ∷ body ++ last ∷ rest)
      ≡ codes "[REDACTED private key]" ∷ redact_all false rest
unfolding redact_all
redact_all-private_key first body last rest b h k =
    simp b (ap (λ r. codes "[REDACTED private key]" ∷ r) (redact_all-inside body last rest h k))
