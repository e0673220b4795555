-- ===== src/Security/Body/Limits.antt =====
-- src/security.rs: what the bounded read returns.
use skyport.Prelude.{
  ℕ, ◌+◌, ◌≤◌, ◌≡◌, Option, none, some, List, [], ◌∷◌, ◌++◌, map, arith, ltb, if◌then◌else◌, length,
  length-append,
}
use mathlib.Core.List.{append-nil, append_assoc}
use skyport.Security.Body.{read_chunks, declares_too_much, read_limited_body, ok, err, too_large}

-- the chunks in their order
unfoldable pub concat : List (List ℕ) → List ℕ
concat [] = []
concat (c ∷ cs) = c ++ concat cs

read_chunks-map :
    (max_bytes : ℕ) (body : List ℕ) (chunks : List (List ℕ))
    → length body ≤ max_bytes
    → read_chunks max_bytes body (map some chunks) ≡ (
        if ltb max_bytes (length body + length (concat chunks))
        then err too_large
        else ok (body ++ concat chunks))
unfolding read_chunks concat
read_chunks-map max_bytes body [] le = ground (arith, append-nil body)
read_chunks-map max_bytes body (c ∷ cs) le = ground (
  arith,
  read_chunks-map max_bytes (body ++ c) cs,
  length-append body c,
  length-append c (concat cs),
  append_assoc body c (concat cs),
)

-- Of a response whose chunks can all be read and that declares no length, the body is the chunks
-- joined when they are within the limit together, and an error otherwise.
pub read_limited_body-concat :
    (chunks : List (List ℕ)) (max_bytes : ℕ)
    → read_limited_body none (map some chunks) max_bytes
      ≡ (if ltb max_bytes (length (concat chunks)) then err too_large else ok (concat chunks))
unfolding read_limited_body declares_too_much
read_limited_body-concat chunks max_bytes = ground (arith, read_chunks-map max_bytes [] chunks)

read_chunks-le :
    (max_bytes : ℕ) (body result : List ℕ) (chunks : List (Option (List ℕ)))
    → length body ≤ max_bytes
    → read_chunks max_bytes body chunks ≡ ok result
    → length result ≤ max_bytes
unfolding read_chunks
read_chunks-le max_bytes body result [] le h = ground arith
read_chunks-le max_bytes body result (none ∷ cs) le h = ground arith
read_chunks-le max_bytes body result (some c ∷ cs) le h =
    ground (arith, read_chunks-le max_bytes (body ++ c) result cs, length-append body c)

-- Whatever a response declares and sends, a body that is returned is within the limit.
pub read_limited_body-le :
    (declared : Option ℕ) (chunks : List (Option (List ℕ))) (max_bytes : ℕ) (body : List ℕ)
    → read_limited_body declared chunks max_bytes ≡ ok body
    → length body ≤ max_bytes
unfolding read_limited_body
read_limited_body-le declared chunks max_bytes body h =
    ground (arith, read_chunks-le max_bytes [] body chunks)
