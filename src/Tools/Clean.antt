-- ===== src/Tools/Clean.antt =====
-- src/tools/mod.rs: what `redact_prefixed_tokens` leaves has no prefix of a credential, in either case.
use skyport.Prelude.{
  ℕ, zero, suc, ◌-◌, ◌≡◌, refl, inl, inr, Bool, true, not, ◌&&◌, ◌||◌, Option, none, some, List, [],
  ◌∷◌, ◌++◌, arith, ◌==◌, Bool-cases, all, Text, codes, starts_with, to_lower, to_ascii_lowercase,
}
use skyport.Tools.Redact.{
  prefixes, starts_lower, prefix_at, Cursor, copying, in_token, redacted, is_token_byte, copy_or,
  redact_tokens, redact_prefixed_tokens,
}

-- no line feed and no bracket
abbrev pub is_plain : Text → Bool
is_plain [] = true
is_plain (c ∷ s) = not (c == b'\n' || c == b'[') && is_plain s

-- Whatever plain text begins the first begins the second.
abbrev pub IsBelow : Text → Text → Type 0
IsBelow out s = (p : Text) → is_plain p ≡ true → starts_lower p out ≡ true → starts_lower p s ≡ true

pub IsBelow-nil : (s : Text) → IsBelow [] s
unfolding starts_lower starts_with to_ascii_lowercase
IsBelow-nil s [] plain h = refl
IsBelow-nil s (b ∷ p) plain h = cc h

pub IsBelow-cons : (c : ℕ) (out s : Text) → IsBelow out s → IsBelow (c ∷ out) (c ∷ s)
unfolding starts_lower starts_with to_ascii_lowercase
IsBelow-cons c out s below [] plain h = refl
IsBelow-cons c out s below (b ∷ p) plain h =
    let later = below p (ground arith) (ground arith) in ground (arith, later)

pub IsBelow-feed : (out s : Text) → IsBelow (b'\n' ∷ out) s
unfolding starts_lower starts_with to_ascii_lowercase to_lower
IsBelow-feed out s [] plain h = refl
IsBelow-feed out s (b ∷ p) plain h = absurd (ground arith)

pub IsBelow-bracket : (out s : Text) → IsBelow (b'[' ∷ out) s
unfolding starts_lower starts_with to_ascii_lowercase to_lower
IsBelow-bracket out s [] plain h = refl
IsBelow-bracket out s (b ∷ p) plain h = absurd (ground arith)

prefix_at-IsBelow :
    (ps : List Text) (out s : Text)
    → all is_plain ps ≡ true
    → IsBelow out s
    → prefix_at ps s ≡ none
    → prefix_at ps out ≡ none
unfolding prefix_at
prefix_at-IsBelow [] out s plain below h = refl
prefix_at-IsBelow (p ∷ ps) out s plain below h = elim (Bool-cases (starts_lower p out)) [
  | inl e ↦ absurd (ground (arith, below p (ground arith) e))
  | inr e ↦ ground (arith, prefix_at-IsBelow ps out s (ground arith) below (ground arith))
]

-- At no place does a prefix begin.
abbrev pub Clean : Text → Type 0
Clean [] = Unit
Clean (c ∷ s) = (prefix_at prefixes (c ∷ s) ≡ none) × Clean s

pub prefixes_below :
    (out s : Text) → IsBelow out s → prefix_at prefixes s ≡ none → prefix_at prefixes out ≡ none
prefixes_below out s below h = prefix_at-IsBelow prefixes out s refl below h

-- What is copied, or hidden behind a marker, is clean if what follows is.
pub copy_or-Clean :
    (marker : Text) (c : ℕ) (s : Text) (found : Option ℕ) (plain : Text) (hidden : ℕ → Text)
    → ((t : Text) → Clean t → Clean (marker ++ t))
    → (found ≡ none → prefix_at prefixes (c ∷ s) ≡ none)
    → IsBelow plain s
    → Clean plain
    → ((n : ℕ) → Clean (hidden n))
    → Clean (copy_or marker c found plain hidden)
copy_or-Clean marker c s none plain hidden mark free below clean rest =
    (prefixes_below (c ∷ plain) (c ∷ s) (IsBelow-cons c plain s below) (free refl), clean)
copy_or-Clean marker c s (some n) plain hidden mark free below clean rest =
    mark (hidden (n - 1)) (rest (n - 1))

-- A marker begins with a bracket, so that nothing plain begins at it.
pub copy_or-IsBelow :
    (marker : Text) (c : ℕ) (s : Text) (found : Option ℕ) (plain : Text) (hidden : ℕ → Text)
    → IsBelow plain s
    → IsBelow (copy_or (b'[' ∷ marker) c found plain hidden) (c ∷ s)
copy_or-IsBelow marker c s none plain hidden below = IsBelow-cons c plain s below
copy_or-IsBelow marker c s (some n) plain hidden below =
    IsBelow-bracket (marker ++ hidden (n - 1)) (c ∷ s)

redacted-Clean : (t : Text) → Clean t → Clean (redacted ++ t)
unfolding prefix_at starts_lower starts_with to_ascii_lowercase to_lower
redacted-Clean t h =
    (refl, (refl, (refl, (refl, (refl, (refl, (refl, (refl, (refl, (refl, h))))))))))

redact_tokens-IsBelow : (s : Text) → IsBelow (redact_tokens copying s) s
unfolding redact_tokens
redact_tokens-IsBelow [] = IsBelow-nil []
redact_tokens-IsBelow (c ∷ s) =
    copy_or-IsBelow (codes "REDACTED]") c s (prefix_at prefixes (c ∷ s)) (redact_tokens copying s)
      (λ n. redact_tokens (in_token n) s) (redact_tokens-IsBelow s)

redact_tokens-Clean : (cursor : Cursor) (s : Text) → Clean (redact_tokens cursor s)
unfolding redact_tokens
redact_tokens-Clean cursor [] = tt
redact_tokens-Clean (in_token (suc n)) (c ∷ s) = redact_tokens-Clean (in_token n) s
redact_tokens-Clean (in_token zero) (c ∷ s) = elim (Bool-cases (is_token_byte c)) [
  | inl e ↦ simp e (redact_tokens-Clean (in_token zero) s)
  | inr e ↦ simp e (
      copy_or-Clean redacted c s (prefix_at prefixes (c ∷ s)) (redact_tokens copying s)
        (λ n. redact_tokens (in_token n) s) redacted-Clean (λ h. h) (redact_tokens-IsBelow s)
        (redact_tokens-Clean copying s) (λ n. redact_tokens-Clean (in_token n) s))
]
redact_tokens-Clean copying (c ∷ s) =
    copy_or-Clean redacted c s (prefix_at prefixes (c ∷ s)) (redact_tokens copying s)
      (λ n. redact_tokens (in_token n) s) redacted-Clean (λ h. h) (redact_tokens-IsBelow s)
      (redact_tokens-Clean copying s) (λ n. redact_tokens-Clean (in_token n) s)

-- No prefix of a credential is left in a line that has passed the redaction of tokens.
pub redact_prefixed_tokens-Clean : (line : Text) → Clean (redact_prefixed_tokens line)
unfolding redact_prefixed_tokens
redact_prefixed_tokens-Clean line = redact_tokens-Clean copying line
