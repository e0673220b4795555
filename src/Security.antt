-- ===== src/Security.antt =====
-- src/security.rs: the checks on tokens, request headers, provider addresses and response bodies.
pub mod Address
pub mod Token
pub mod Url
pub mod Guard
pub mod Body
