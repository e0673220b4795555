-- ===== src/Sessions/Bounded.antt =====
-- src/api/oauth.rs: the map of the sign-ins stays small.
use skyport.Prelude.{
  ℕ, ◌+◌, ◌≤◌, ◌<◌, ◌≡◌, refl, ◌≢◌, inl, inr, none, some, List, [], ◌∷◌, arith, Option-cases,
  length, Dict, lookup, insert, remove, Text,
}
use skyport.Sessions.{
  PendingKind, PendingSession, BrowserOutcome, Event, device, browser, begin, callback, outcome,
  forget, remove_all, insert_session, drop_session, take_verifier, take_browser_callback,
  put_outcome, store_browser_outcome, apply, apply_all,
}

module _ {V : Type 0} where
  length-insert-le : (k : Text) (v : V) (m : Dict V) → length (insert k v m) ≤ length m + 1
  unfolding insert
  length-insert-le k v [] = ground arith
  length-insert-le k v ((j, w) ∷ m) = ground (arith, length-insert-le k v m)

  length-insert_known :
      (k : Text) (v w : V) (m : Dict V) → lookup k m ≡ some w → length (insert k v m) ≡ length m
  unfolding insert lookup
  length-insert_known k v w [] h = ground arith
  length-insert_known k v w ((j, u) ∷ m) h = ground (arith, length-insert_known k v w m)

  length-remove-le : (k : Text) (m : Dict V) → length (remove k m) ≤ length m
  unfolding remove
  length-remove-le k [] = ground arith
  length-remove-le k ((j, w) ∷ m) = ground (arith, length-remove-le k m)

  length-remove-lt :
      (k : Text) (w : V) (m : Dict V) → lookup k m ≡ some w → length (remove k m) < length m
  unfolding remove lookup
  length-remove-lt k w [] h = ground arith
  length-remove-lt k w ((j, u) ∷ m) h = ground (arith, length-remove-lt k w m, length-remove-le k m)

module _ {Tokens : Type 0} where
  length-remove_all-le :
      (flows : List Text) (m : Dict (PendingSession Tokens))
      → length (remove_all flows m) ≤ length m
  unfolding remove_all
  length-remove_all-le [] m = ground arith
  length-remove_all-le (flow ∷ flows) m =
      ground (arith, length-remove_all-le flows (remove flow m), length-remove-le flow m)

  length-take_verifier :
      (flow : Text) (m : Dict (PendingSession Tokens)) (session : PendingSession Tokens)
      (kind : PendingKind Tokens)
      → lookup flow m ≡ some session
      → length (take_verifier m flow session kind).0 ≡ length m
  unfolding take_verifier
  length-take_verifier flow m session (device auth_id code interval expires) h = refl
  length-take_verifier flow m session (browser verifier (some known)) h = refl
  length-take_verifier flow m session (browser none none) h = refl
  length-take_verifier flow m session (browser (some verifier) none) h =
      length-insert_known flow (record session { kind = browser none none }) session m h

  length-put_outcome :
      (flow : Text) (m : Dict (PendingSession Tokens)) (session : PendingSession Tokens)
      (o : BrowserOutcome Tokens) (kind : PendingKind Tokens)
      → lookup flow m ≡ some session
      → length (put_outcome m flow session o kind).0 ≡ length m
  unfolding put_outcome
  length-put_outcome flow m session o (device auth_id code interval expires) h = refl
  length-put_outcome flow m session o (browser (some verifier) known) h = refl
  length-put_outcome flow m session o (browser none (some known)) h = refl
  length-put_outcome flow m session o (browser none none) h =
      length-insert_known flow (record session { kind = browser none (some o) }) session m h

  length-take_browser_callback :
      (m : Dict (PendingSession Tokens)) (flow : Text) (now : ℕ)
      → length (take_browser_callback m flow now).0 ≤ length m
  unfolding take_browser_callback
  length-take_browser_callback m flow now = elim (Option-cases (lookup flow m)) [
    | inl e ↦ ground (arith, e)
    | inr (session, e) ↦
        ground
          (arith, e, length-remove-le flow m, length-take_verifier flow m session session.kind e)
  ]

  length-store_browser_outcome :
      (m : Dict (PendingSession Tokens)) (flow : Text) (o : BrowserOutcome Tokens)
      → length (store_browser_outcome m flow o).0 ≤ length m
  unfolding store_browser_outcome
  length-store_browser_outcome m flow o = elim (Option-cases (lookup flow m)) [
    | inl e ↦ ground (arith, e)
    | inr (session, e) ↦ ground (arith, e, length-put_outcome flow m session o session.kind e)
  ]

-- The iteration of a map that is not empty starts with one of its keys.
abbrev pub StartsWithKey : {Tokens : Type 0} → (Dict (PendingSession Tokens) → List Text) → Type 0
StartsWithKey {Tokens} oldest =
    (m : Dict (PendingSession Tokens))
    → m ≢ []
    → (k : Text) × (ks : List Text) × (s : PendingSession Tokens) × (oldest m ≡ k ∷ ks)
      × (lookup k m ≡ some s)

module _ {Tokens : Type 0} (oldest : Dict (PendingSession Tokens) → List Text)
    (starts : StartsWithKey oldest) where
  length-insert_session :
      (m : Dict (PendingSession Tokens)) (flow : Text) (session : PendingSession Tokens)
      → length m ≤ 65
      → length (insert_session oldest m flow session) ≤ 65
  unfolding insert_session remove_all
  length-insert_session [] flow session le = ground (arith, length-insert-le flow session [])
  length-insert_session (b ∷ m) flow session le =
      let (k, ks, s, eo, el) = starts (b ∷ m) (λ e. cc) in
      ground (
        arith,
        eo,
        length-insert-le flow session (b ∷ m),
        length-insert-le flow session (remove_all ks (remove k (b ∷ m))),
        length-remove_all-le ks (remove k (b ∷ m)),
        length-remove-lt k s (b ∷ m) el,
      )

  length-apply :
      (m : Dict (PendingSession Tokens)) (e : Event Tokens)
      → length m ≤ 65
      → length (apply oldest m e) ≤ 65
  unfolding apply drop_session
  length-apply m (begin flow session) le = length-insert_session m flow session le
  length-apply m (callback flow now) le = omega (arith, length-take_browser_callback m flow now)
  length-apply m (outcome flow o) le = omega (arith, length-store_browser_outcome m flow o)
  length-apply m (forget flow) le = omega (arith, length-remove-le flow m)

  length-apply_all :
      (events : List (Event Tokens)) (m : Dict (PendingSession Tokens))
      → length m ≤ 65
      → length (apply_all oldest m events) ≤ 65
  unfolding apply_all
  length-apply_all [] m le = le
  length-apply_all (e ∷ events) m le =
      length-apply_all events (apply oldest m e) (length-apply m e le)

  -- A map that starts with no sign-in never holds more than sixty-five, if the iteration of a map
  -- that is not empty starts with one of its keys.
  pub length-apply_all-le :
      (events : List (Event Tokens)) → length (apply_all oldest [] events) ≤ 65
  length-apply_all-le events = length-apply_all events [] (ground arith)
