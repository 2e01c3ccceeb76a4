-- ===== src/Matcher.antt =====
-- services/matcher: the process that runs the engine over the inbound stream.
pub mod Snapshot
pub mod Records
pub mod State
pub mod Adapter
