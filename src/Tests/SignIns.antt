-- ===== src/Tests/SignIns.antt =====
-- src/api/oauth.rs on a concrete sign-in.
use skyport.Prelude.{◌≡◌, refl, none, some, List, [], ◌∷◌, Dict, lookup, Text, codes, text_eq}
use skyport.Sessions.{
  PendingSession, Event, browser, begin, outcome, failed, take_browser_callback, apply_all,
}
use skyport.Sessions.Once.{take_browser_callback-once}

-- The tokens are texts.
abbrev session : PendingSession Text
session = record {
  provider = codes "claude";
  started_secs = 100;
  kind = browser (some (codes "verifier")) none;
}

abbrev sessions : Dict (PendingSession Text)
sessions = (codes "flow", session) ∷ []

-- The first key of the map.
abbrev oldest : Dict (PendingSession Text) → List Text
oldest [] = []
oldest ((k, s) ∷ m) = k ∷ []

taken :
    (take_browser_callback sessions (codes "flow") 200).1 ≡ some (codes "claude", codes "verifier")
unfolding take_browser_callback lookup text_eq
taken = refl

abbrev later_events : List (Event Text)
later_events =
    outcome (codes "flow") (failed (codes "no code")) ∷ begin (codes "other") session ∷ []

take_browser_callback-once_example :
    (take_browser_callback
      (apply_all oldest (take_browser_callback sessions (codes "flow") 200).0 later_events)
      (codes "flow")
      300).1
    ≡ none
unfolding text_eq
take_browser_callback-once_example =
    take_browser_callback-once oldest sessions (codes "flow") 200 300
      (codes "claude", codes "verifier") later_events taken (refl, (refl, tt))
