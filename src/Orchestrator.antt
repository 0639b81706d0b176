-- ===== src/Orchestrator.antt =====
-- crates/engine/src/orchestrator: the life of a job from its request to its one terminal event, and
-- the two lanes that rip and deliver its tracks in order.
pub mod Jobs
pub mod Lane
pub mod Dispatch
pub mod Cached
pub mod Storage
