-- ===== src/Sessions.antt =====
-- src/api/oauth.rs and src/auth/mod.rs: the sign-ins that are under way, by the flow's id. `Tokens` is
-- the type of the tokens that a provider gives. The map's lock is taken for the whole of each
-- operation. `oldest` gives the sixteen keys that the iteration of the `HashMap` starts with, in
-- no order that the source controls.
pub mod Once
pub mod Bounded
use skyport.Prelude.{
  ℕ, ◌-◌, Bool, true, false, Option, none, some, List, [], ◌∷◌, ltb, leb, if◌then◌else◌, length,
  Dict, lookup, insert, remove, Text, ◌>>=◌, ◌>>◌,
}

pub data BrowserOutcome (Tokens : Type 0) : Type 0 where
  arrived : Tokens → BrowserOutcome Tokens
  failed : Text → BrowserOutcome Tokens

pub data PendingKind (Tokens : Type 0) : Type 0 where
  -- device_auth_id, user_code, interval, expires_in_secs
  device : Text → Text → ℕ → ℕ → PendingKind Tokens
  -- verifier, outcome
  browser : Option Text → Option (BrowserOutcome Tokens) → PendingKind Tokens

pub record PendingSession (Tokens : Type 0) : Type 0 where
  pub provider : Text
  pub started_secs : ℕ
  pub kind : PendingKind Tokens

module _ {Tokens : Type 0} where
  unfoldable pub remove_all :
      List Text → Dict (PendingSession Tokens) → Dict (PendingSession Tokens)
  remove_all [] sessions = sessions
  remove_all (flow ∷ flows) sessions = remove_all flows (remove flow sessions)

  unfoldable pub insert_session :
      (Dict (PendingSession Tokens) → List Text)
      → Dict (PendingSession Tokens)
      → Text
      → PendingSession Tokens
      → Dict (PendingSession Tokens)
  unfolding remove_all
  insert_session oldest sessions flow session =
      if ltb 64 (length sessions)
      then insert flow session (remove_all (oldest sessions) sessions)
      else insert flow session sessions

  unfoldable pub drop_session : Dict (PendingSession Tokens) → Text → Dict (PendingSession Tokens)
  drop_session sessions flow = remove flow sessions

  -- the session once its verifier is taken, with the provider and the verifier
  unfoldable pub take_verifier :
      Dict (PendingSession Tokens)
      → Text
      → PendingSession Tokens
      → PendingKind Tokens
      → Dict (PendingSession Tokens) × Option (Text × Text)
  take_verifier sessions flow session (device auth_id code interval expires) = (sessions, none)
  take_verifier sessions flow session (browser verifier (some outcome)) = (sessions, none)
  take_verifier sessions flow session (browser none none) = (sessions, none)
  take_verifier sessions flow session (browser (some verifier) none) = (
    insert flow (record session { kind = browser none none }) sessions,
    some (session.provider, verifier),
  )

  -- `-` is `saturating_sub`
  unfoldable pub take_browser_callback :
      Dict (PendingSession Tokens) → Text → ℕ → Dict (PendingSession Tokens) × Option (Text × Text)
  unfolding take_verifier
  take_browser_callback sessions flow current_secs = elim (lookup flow sessions) [
    | none ↦ (sessions, none)
    | some session ↦
        if leb 900 (current_secs - session.started_secs)
        then (remove flow sessions, none)
        else take_verifier sessions flow session session.kind
  ]

  unfoldable pub put_outcome :
      Dict (PendingSession Tokens)
      → Text
      → PendingSession Tokens
      → BrowserOutcome Tokens
      → PendingKind Tokens
      → Dict (PendingSession Tokens) × Bool
  put_outcome sessions flow session outcome (device auth_id code interval expires) =
      (sessions, false)
  put_outcome sessions flow session outcome (browser (some verifier) known) = (sessions, false)
  put_outcome sessions flow session outcome (browser none (some known)) = (sessions, false)
  put_outcome sessions flow session outcome (browser none none) =
      (insert flow (record session { kind = browser none (some outcome) }) sessions, true)

  unfoldable pub store_browser_outcome :
      Dict (PendingSession Tokens)
      → Text
      → BrowserOutcome Tokens
      → Dict (PendingSession Tokens) × Bool
  unfolding put_outcome
  store_browser_outcome sessions flow outcome = elim (lookup flow sessions) [
    | none ↦ (sessions, false)
    | some session ↦ put_outcome sessions flow session outcome session.kind
  ]

-- What the handlers do to the map: a sign-in begins, a callback takes the verifier, an outcome is
-- recorded, a poll forgets the flow.
pub data Event (Tokens : Type 0) : Type 0 where
  begin : Text → PendingSession Tokens → Event Tokens
  callback : Text → ℕ → Event Tokens
  outcome : Text → BrowserOutcome Tokens → Event Tokens
  forget : Text → Event Tokens

module _ {Tokens : Type 0} (oldest : Dict (PendingSession Tokens) → List Text) where
  unfoldable pub apply : Dict (PendingSession Tokens) → Event Tokens → Dict (PendingSession Tokens)
  unfolding insert_session take_browser_callback store_browser_outcome drop_session
  apply sessions (begin flow session) = insert_session oldest sessions flow session
  apply sessions (callback flow now) = (take_browser_callback sessions flow now).0
  apply sessions (outcome flow o) = (store_browser_outcome sessions flow o).0
  apply sessions (forget flow) = drop_session sessions flow

  unfoldable pub apply_all :
      Dict (PendingSession Tokens) → List (Event Tokens) → Dict (PendingSession Tokens)
  unfolding apply
  apply_all sessions [] = sessions
  apply_all sessions (e ∷ events) = apply_all (apply sessions e) events
