-- ===== src/Lib.antt =====
-- Skyport is a local gateway: it keeps API keys for several model providers, and forwards requests to
-- them. This library models the parts that decide something, with the theorems that hold of them.
--
-- The parts, and how they meet. A request first passes `security_guard` (src/main.rs), which checks
-- its headers and its token (src/security.rs). The proxy (src/api/v1.rs) then asks the rate limiter
-- (src/rate_limiter.rs), resolves the model and selects a key (src/router.rs) among the entries of the
-- vault (src/vault.rs), asks the budget (src/db.rs), checks where the request goes (src/security.rs),
-- and reports a failure to the router, which cools the key down or disables it, before it goes over to
-- another key. A subscription is linked by a sign-in (src/api/oauth.rs), which ends as an entry of the
-- vault; keys and configuration are changed through the API (src/api/admin.rs); its access token is refreshed before a request (src/auth/mod.rs, src/api/v1.rs). The vault
-- lies in one encrypted file, whose key the operating system's credential store keeps.
--
-- Which file models what:
--   Prelude       texts, maps, results, lists and integers that the other files share
--   Json          `serde_json::Value`
--   Config        src/config.rs: the records that routing, budgets and limits read
--   RateLimiter   src/rate_limiter.rs: `check_and_record`, `check_global`, `check_scoped`
--   Vault         src/vault.rs: the entries and the operations on them; Envelope (encryption), Storage
--                 (the file and the two stored keys), Disk (load, save and the rotation of the key)
--   Router        src/router.rs: `resolve_model`, `select_key`, `mark_key_failed`, `mark_key_success`
--   Security      src/security.rs: Token (scopes, rotation, paths), Url (destinations), Address
--                 (public addresses), Body (the bounded read), Guard (src/main.rs, `security_guard`)
--   Budget        src/providers/mod.rs, src/db.rs and src/api/v1.rs: prices, usage, caps, charges
--   Sessions      src/api/oauth.rs: the map of the sign-ins under way
--   Subscriptions src/auth/mod.rs: providers and tokens; Account (labels and headers), Refresh
--                 (`ensure_fresh_oauth`)
--   Translate     src/providers/translate.rs: the bodies for Anthropic, Gemini and the
--                 Responses API, Answers (the way back) and Events (one event of a stream)
--   Proxy         src/api/v1.rs: `proxy` before its loop; Upstream (the request that is sent), Loop
--                 (one iteration, and the loop over them), Stream (the loops over a stream)
--   SignIns       src/api/oauth.rs: the shared state and a login's end; Connect (the start of a sign-in),
--                 Exchange (the provider's endpoints), Poll, Callback
--   Admin         src/api/admin.rs: the handlers that change the configuration, and Keys (those that
--                 change the vault)
--   Tools         src/tools/mod.rs: what a utility model may be told; Redact (credentials), Paths
--   Activity      src/activity.rs: the title of a completion, and what of a request may be kept in the log
--   Skills        src/api/skills.rs: the validators of names and sources, and the CLI's arguments
--   Tests         runs on concrete inputs, and the theorems applied to them
--
-- Conventions. A `str` is the list of its characters; a `HashMap` is an association list; an `Instant`
-- and a `DateTime` are numbers of nanoseconds. `as u32` and a wrapping counter are written out with
-- their modulus. An `f64` amount of money is an exact number of units of 1e-8 USD, so rounding is not
-- modelled. A method that changes `&mut self` returns the new value beside its answer; a lock that a
-- panic can poison is a flag. Every loop is structural recursion. The printing of a port has a fuel of
-- five digits, which is all that a 16-bit number has. The loop of `proxy` runs over a list of rounds,
-- each of which says what one iteration meets, so that the list's length is its fuel; how long a list
-- is enough is among the results. The loop over the events of a stream has the length of what has arrived as fuel, and
-- each event takes two characters of it at least. Such a run has the shared state to itself: other requests may change
-- it in between, which is not modelled. A run over the vault's file carries the number of steps it makes
-- before it is interrupted: a write is one, and the sync of the directory after a rename, which can fail
-- with the new file in place, is another. A stream is a list of chunks of bytes, each of which is decoded
-- on its own. A handler takes whether its save succeeds as an argument, and what is modelled of one that
-- does not is the memory: the file may by then be the new one.
--
-- Arguments of the model, for code of other packages: SHA-256 and Base64 (of which decoding what was
-- encoded is assumed), the random generator, the credential store's medium, the URL parser, the name
-- resolver, Unicode's lower case, from_utf8_lossy, chrono's addition of a duration, the iteration order of a `HashMap`, the HTTP client,
-- AES-256-GCM (decryption gives what was encrypted with the same key, nonce and additional data) and
-- serde's JSON (an envelope that was written reads back).
--
-- Not modelled: the parsing of tool calls for the activity log, the list of models, the git commands, the rest of
-- the skills and the administration handlers that only query; SQL, files, processes and HTTP, which are input and
-- output.
pub mod Prelude
pub mod RateLimiter
pub mod Json
pub mod Config
pub mod Vault
pub mod Router
pub mod Security
pub mod Budget
pub mod Sessions
pub mod Proxy
pub mod SignIns
pub mod Skills
pub mod Subscriptions
pub mod Translate
pub mod Admin
pub mod Tools
pub mod Tests
pub mod Activity
