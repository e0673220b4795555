-- ===== src/Sessions/Once.antt =====
-- src/api/oauth.rs: the verifier of a browser sign-in is handed out once.
use skyport.Prelude.{
  ℕ, ◌≡◌, refl, inl, inr, Bool, true, false, not, Option, none, some, List, [], ◌∷◌, arith,
  Option-cases, All, Dict, lookup, remove, lookup-insert, lookup-remove, Text, text_eq,
  text_eq_refl,
}
use skyport.Sessions.{
  PendingKind, PendingSession, BrowserOutcome, Event, device, browser, begin, callback, outcome,
  forget, remove_all, insert_session, drop_session, take_verifier, take_browser_callback,
  put_outcome, store_browser_outcome, apply, apply_all,
}

module _ {Tokens : Type 0} where
  abbrev has_verifier : PendingKind Tokens → Bool
  has_verifier (device auth_id code interval expires) = false
  has_verifier (browser (some verifier) known) = true
  has_verifier (browser none known) = false

  -- The flow is unknown, or has no verifier.
  abbrev pub is_spent : Text → Option (PendingSession Tokens) → Bool
  is_spent flow none = true
  is_spent flow (some session) = not (has_verifier session.kind)

  abbrev pub begins : Text → Event Tokens → Bool
  begins flow (begin other session) = text_eq other flow
  begins flow _ = false

  is_spent-remove :
      (flow other : Text) (m : Dict (PendingSession Tokens))
      → is_spent flow (lookup flow m) ≡ true
      → is_spent flow (lookup flow (remove other m)) ≡ true
  is_spent-remove flow other m h = ground (arith, lookup-remove other flow m, h)

  is_spent-remove_all :
      (flow : Text) (flows : List Text) (m : Dict (PendingSession Tokens))
      → is_spent flow (lookup flow m) ≡ true
      → is_spent flow (lookup flow (remove_all flows m)) ≡ true
  unfolding remove_all
  is_spent-remove_all flow [] m h = h
  is_spent-remove_all flow (other ∷ flows) m h =
      is_spent-remove_all flow flows (remove other m) (is_spent-remove flow other m h)

  is_spent-take_verifier :
      (flow other : Text) (m : Dict (PendingSession Tokens)) (session : PendingSession Tokens)
      (kind : PendingKind Tokens)
      → is_spent flow (lookup flow m) ≡ true
      → is_spent flow (lookup flow (take_verifier m other session kind).0) ≡ true
  unfolding take_verifier
  is_spent-take_verifier flow other m session (device auth_id code interval expires) h = h
  is_spent-take_verifier flow other m session (browser verifier (some known)) h = h
  is_spent-take_verifier flow other m session (browser none none) h = h
  is_spent-take_verifier flow other m session (browser (some verifier) none) h =
      ground (arith, lookup-insert other flow (record session { kind = browser none none }) m, h)

  is_spent-put_outcome :
      (flow other : Text) (m : Dict (PendingSession Tokens)) (session : PendingSession Tokens)
      (o : BrowserOutcome Tokens) (kind : PendingKind Tokens)
      → is_spent flow (lookup flow m) ≡ true
      → is_spent flow (lookup flow (put_outcome m other session o kind).0) ≡ true
  unfolding put_outcome
  is_spent-put_outcome flow other m session o (device auth_id code interval expires) h = h
  is_spent-put_outcome flow other m session o (browser (some verifier) known) h = h
  is_spent-put_outcome flow other m session o (browser none (some known)) h = h
  is_spent-put_outcome flow other m session o (browser none none) h =
      ground
        (arith, lookup-insert other flow (record session { kind = browser none (some o) }) m, h)

  take_verifier-is_spent :
      (flow : Text) (m : Dict (PendingSession Tokens)) (session : PendingSession Tokens)
      (kind : PendingKind Tokens) (got : Text × Text)
      → (take_verifier m flow session kind).1 ≡ some got
      → is_spent flow (lookup flow (take_verifier m flow session kind).0) ≡ true
  unfolding take_verifier
  take_verifier-is_spent flow m session (device auth_id code interval expires) got h = ground arith
  take_verifier-is_spent flow m session (browser verifier (some known)) got h = ground arith
  take_verifier-is_spent flow m session (browser none none) got h = ground arith
  take_verifier-is_spent flow m session (browser (some verifier) none) got h = ground (
    arith,
    lookup-insert flow flow (record session { kind = browser none none }) m,
    text_eq_refl flow,
  )

  take_verifier-none :
      (flow : Text) (m : Dict (PendingSession Tokens)) (session : PendingSession Tokens)
      (kind : PendingKind Tokens)
      → has_verifier kind ≡ false
      → (take_verifier m flow session kind).1 ≡ none
  unfolding take_verifier
  take_verifier-none flow m session (device auth_id code interval expires) h = refl
  take_verifier-none flow m session (browser verifier (some known)) h = refl
  take_verifier-none flow m session (browser none none) h = refl
  take_verifier-none flow m session (browser (some verifier) none) h = ground arith

  is_spent-take :
      (flow other : Text) (now : ℕ) (m : Dict (PendingSession Tokens))
      → is_spent flow (lookup flow m) ≡ true
      → is_spent flow (lookup flow (take_browser_callback m other now).0) ≡ true
  unfolding take_browser_callback
  is_spent-take flow other now m h = elim (Option-cases (lookup other m)) [
    | inl e ↦ ground (arith, e, h)
    | inr (session, e) ↦ ground (
      arith,
      e,
      is_spent-remove flow other m h,
      is_spent-take_verifier flow other m session session.kind h,
    )
  ]

  is_spent-store :
      (flow other : Text) (o : BrowserOutcome Tokens) (m : Dict (PendingSession Tokens))
      → is_spent flow (lookup flow m) ≡ true
      → is_spent flow (lookup flow (store_browser_outcome m other o).0) ≡ true
  unfolding store_browser_outcome
  is_spent-store flow other o m h = elim (Option-cases (lookup other m)) [
    | inl e ↦ ground (arith, e, h)
    | inr (session, e) ↦
        ground (arith, e, is_spent-put_outcome flow other m session o session.kind h)
  ]

  -- A callback that gets the verifier leaves the flow without one.
  take-is_spent :
      (flow : Text) (now : ℕ) (m : Dict (PendingSession Tokens)) (got : Text × Text)
      → (take_browser_callback m flow now).1 ≡ some got
      → is_spent flow (lookup flow (take_browser_callback m flow now).0) ≡ true
  unfolding take_browser_callback
  take-is_spent flow now m got h = elim (Option-cases (lookup flow m)) [
    | inl e ↦ ground (arith, e, h)
    | inr (session, e) ↦
        ground (arith, e, h, take_verifier-is_spent flow m session session.kind got)
  ]

  spent-none :
      (flow : Text) (now : ℕ) (m : Dict (PendingSession Tokens))
      → is_spent flow (lookup flow m) ≡ true
      → (take_browser_callback m flow now).1 ≡ none
  unfolding take_browser_callback
  spent-none flow now m h = elim (Option-cases (lookup flow m)) [
    | inl e ↦ ground (arith, e)
    | inr (session, e) ↦ ground (arith, e, h, take_verifier-none flow m session session.kind)
  ]

module _ {Tokens : Type 0} (oldest : Dict (PendingSession Tokens) → List Text) where
  apply-is_spent :
      (flow : Text) (e : Event Tokens) (m : Dict (PendingSession Tokens))
      → begins flow e ≡ false
      → is_spent flow (lookup flow m) ≡ true
      → is_spent flow (lookup flow (apply oldest m e)) ≡ true
  unfolding apply insert_session drop_session
  apply-is_spent flow (begin other session) m ne h = ground (
    arith,
    ne,
    h,
    lookup-insert other flow session m,
    lookup-insert other flow session (remove_all (oldest m) m),
    is_spent-remove_all flow (oldest m) m h,
  )
  apply-is_spent flow (callback other now) m ne h = is_spent-take flow other now m h
  apply-is_spent flow (outcome other o) m ne h = is_spent-store flow other o m h
  apply-is_spent flow (forget other) m ne h = is_spent-remove flow other m h

  apply_all-is_spent :
      (flow : Text) (events : List (Event Tokens)) (m : Dict (PendingSession Tokens))
      → All (λ e. begins flow e ≡ false) events
      → is_spent flow (lookup flow m) ≡ true
      → is_spent flow (lookup flow (apply_all oldest m events)) ≡ true
  unfolding apply_all
  apply_all-is_spent flow [] m ne h = h
  apply_all-is_spent flow (e ∷ events) m (ne, rest) h =
      apply_all-is_spent flow events (apply oldest m e) rest (apply-is_spent flow e m ne h)

  -- Once a callback has got the verifier of a flow, no later callback gets it, whatever happens in
  -- between, unless a new sign-in begins under the same id.
  pub take_browser_callback-once :
      (sessions : Dict (PendingSession Tokens)) (flow : Text) (now later : ℕ) (got : Text × Text)
      (events : List (Event Tokens))
      → (take_browser_callback sessions flow now).1 ≡ some got
      → All (λ e. begins flow e ≡ false) events
      → (take_browser_callback
          (apply_all oldest (take_browser_callback sessions flow now).0 events)
          flow
          later).1
        ≡ none
  take_browser_callback-once sessions flow now later got events h ne =
      spent-none flow later (apply_all oldest (take_browser_callback sessions flow now).0 events) (
        apply_all-is_spent flow events (take_browser_callback sessions flow now).0 ne
          (take-is_spent flow now sessions got h))
