-- ===== src/Security/Body.antt =====
-- src/security.rs: the bounded read of an upstream response. A chunk that cannot be read is `none`.
pub mod Limits
use skyport.Prelude.{
  ℕ, ◌-◌, Bool, false, Option, none, some, List, [], ◌∷◌, ◌++◌, ltb, if◌then◌else◌, length, Result,
  ok, err,
}

pub data BodyError : Type 0 where
  too_large unreadable : BodyError

-- the loop over the chunks, from the body read so far; `-` is `saturating_sub`
unfoldable pub read_chunks : ℕ → List ℕ → List (Option (List ℕ)) → Result BodyError (List ℕ)
read_chunks max_bytes body [] = ok body
read_chunks max_bytes body (none ∷ chunks) = err unreadable
read_chunks max_bytes body (some chunk ∷ chunks) =
    let rest = read_chunks max_bytes (body ++ chunk) chunks in
    if ltb (max_bytes - length body) (length chunk) then err too_large else rest

unfoldable pub declares_too_much : Option ℕ → ℕ → Bool
declares_too_much none max_bytes = false
declares_too_much (some n) max_bytes = ltb max_bytes n

unfoldable pub read_limited_body : Option ℕ → List (Option (List ℕ)) → ℕ → Result BodyError (List ℕ)
unfolding read_chunks declares_too_much
read_limited_body content_length chunks max_bytes =
    if declares_too_much content_length max_bytes
    then err too_large
    else read_chunks max_bytes [] chunks
