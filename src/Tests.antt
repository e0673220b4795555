-- ===== src/Tests.antt =====
-- Runs on concrete inputs, and the theorems applied to them.
mod Limits
mod Keys
mod Routes
mod Access
mod Spending
mod SignIns
mod Names
mod Disk
mod Upstream
mod Linked
mod Linking
mod Redaction
mod Streams
mod Administration
mod Telemetry
