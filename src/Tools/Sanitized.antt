-- ===== src/Tools/Sanitized.antt =====
-- src/tools/mod.rs: what `sanitize_for_model` hands to a model.
use skyport.Prelude.{
  ℕ, zero, suc, ◌-◌, ◌≤◌, refl, inl, inr, Option, none, some, [], ◌∷◌, ◌++◌, arith, leb, leb→le,
  lt_of_leb, Bool-cases, length, take, length-append, Text, codes, starts_with, to_lower,
  to_ascii_lowercase,
}
use skyport.Tools.{truncation_marker, truncate_chars, Workspace, hide_workspace, sanitize_for_model}
use skyport.Tools.Redact.{prefix_at, starts_lower, redact_secrets}
use skyport.Tools.Paths.{
  PathCursor, outside, in_path, path_at, path_marker, ends_path, redact_paths,
  redact_absolute_paths,
}
use skyport.Tools.Clean.{
  IsBelow, IsBelow-nil, IsBelow-cons, Clean, prefixes_below, copy_or-Clean, copy_or-IsBelow,
}
use skyport.Tools.Hidden.{Clean-is_clean, Clean-append, redact_secrets-Clean}

path_marker-Clean : (t : Text) → Clean t → Clean (path_marker ++ t)
unfolding prefix_at starts_lower starts_with to_ascii_lowercase to_lower
path_marker-Clean t h = (
  refl,
  (
    refl,
    (
      refl,
      (
        refl,
        (refl, (refl, (refl, (refl, (refl, (refl, (refl, (refl, (refl, (refl, (refl, h))))))))))),
      ),
    ),
  ),
)

redact_paths-IsBelow : (prev : Option ℕ) (s : Text) → IsBelow (redact_paths outside prev s) s
unfolding redact_paths
redact_paths-IsBelow prev [] = IsBelow-nil []
redact_paths-IsBelow prev (c ∷ s) =
    copy_or-IsBelow (codes "absolute path]") c s (path_at prev (c ∷ s))
      (redact_paths outside (some c) s) (λ n. redact_paths (in_path n) (some c) s)
      (redact_paths-IsBelow (some c) s)

redact_paths-Clean :
    (cursor : PathCursor) (prev : Option ℕ) (s : Text)
    → Clean s
    → Clean (redact_paths cursor prev s)
unfolding redact_paths
redact_paths-Clean cursor prev [] h = tt
redact_paths-Clean (in_path (suc n)) prev (c ∷ s) (here, h) =
    redact_paths-Clean (in_path n) (some c) s h
redact_paths-Clean (in_path zero) prev (c ∷ s) (here, h) = elim (Bool-cases (ends_path c)) [
  | inl e ↦ simp e (
      copy_or-Clean path_marker c s (path_at prev (c ∷ s)) (redact_paths outside (some c) s)
        (λ n. redact_paths (in_path n) (some c) s) path_marker-Clean (λ _. here)
        (redact_paths-IsBelow (some c) s) (redact_paths-Clean outside (some c) s h)
        (λ n. redact_paths-Clean (in_path n) (some c) s h))
  | inr e ↦ simp e (redact_paths-Clean (in_path zero) (some c) s h)
]
redact_paths-Clean outside prev (c ∷ s) (here, h) =
    copy_or-Clean path_marker c s (path_at prev (c ∷ s)) (redact_paths outside (some c) s)
      (λ n. redact_paths (in_path n) (some c) s) path_marker-Clean (λ _. here)
      (redact_paths-IsBelow (some c) s) (redact_paths-Clean outside (some c) s h)
      (λ n. redact_paths-Clean (in_path n) (some c) s h)

take-IsBelow : (n : ℕ) (s : Text) → IsBelow (take n s) s
take-IsBelow zero s = IsBelow-nil s
take-IsBelow (suc n) [] = IsBelow-nil []
take-IsBelow (suc n) (c ∷ s) = IsBelow-cons c (take n s) s (take-IsBelow n s)

take-Clean : (n : ℕ) (s : Text) → Clean s → Clean (take n s)
take-Clean zero s h = tt
take-Clean (suc n) [] h = tt
take-Clean (suc n) (c ∷ s) (here, h) = (
  prefixes_below (c ∷ take n s) (c ∷ s) (IsBelow-cons c (take n s) s (take-IsBelow n s)) here,
  take-Clean n s h,
)

pub truncate_chars-Clean : (s : Text) (max_chars : ℕ) → Clean s → Clean (truncate_chars s max_chars)
unfolding truncate_chars prefix_at starts_lower starts_with to_ascii_lowercase to_lower
truncate_chars-Clean s max_chars h = elim (Bool-cases (leb (length s) max_chars)) [
  | inl e ↦ simp e h
  | inr e ↦ elim (Bool-cases (leb max_chars (length truncation_marker))) [
    | inl e' ↦ simp (e, e') (take-Clean max_chars s h)
    | inr e' ↦
        simp (e, e')
          (Clean-append (take (max_chars - length truncation_marker) s) (codes "... [truncated]")
            (take-Clean (max_chars - length truncation_marker) s h)
            (Clean-is_clean (codes "... [truncated]") refl))
  ]
]

length-take-le : (n : ℕ) (s : Text) → length (take n s) ≤ n
length-take-le zero s = omega arith
length-take-le (suc n) [] = omega arith
length-take-le (suc n) (c ∷ s) = omega (arith, length-take-le n s)

pub length-truncate_chars-le :
    (s : Text) (max_chars : ℕ) → length (truncate_chars s max_chars) ≤ max_chars
unfolding truncate_chars
length-truncate_chars-le s max_chars = elim (Bool-cases (leb (length s) max_chars)) [
  | inl e ↦ simp e (leb→le (length s) max_chars e)
  | inr e ↦ elim (Bool-cases (leb max_chars (length truncation_marker))) [
    | inl e' ↦ simp (e, e') (length-take-le max_chars s)
    | inr e' ↦
        simp (e, e', length-append)
          (omega (
            arith,
            length-take-le (max_chars - length truncation_marker) s,
            lt_of_leb max_chars (length truncation_marker) e',
          ))
  ]
]

-- Whatever the input and the workspace, what a utility model is told has at most the characters that
-- were asked for, and nowhere in it does the prefix of a credential begin, in upper or lower case.
pub sanitize_for_model-Clean :
    (input : Text) (workspace : Option Workspace) (max_chars : ℕ)
    → Clean (sanitize_for_model input workspace max_chars)
      × (length (sanitize_for_model input workspace max_chars) ≤ max_chars)
unfolding sanitize_for_model redact_absolute_paths
sanitize_for_model-Clean input workspace max_chars =
    let hidden = redact_secrets (hide_workspace workspace input) in
    (
      truncate_chars-Clean (redact_absolute_paths hidden) max_chars (
          redact_paths-Clean outside none hidden
            (redact_secrets-Clean (hide_workspace workspace input))),
      length-truncate_chars-le (redact_absolute_paths hidden) max_chars,
    )
