-- ===== src/Models.antt =====
-- engine/contextrail/models.py: the domain models and the state machines that they carry.
pub mod Dump
pub mod Equality
pub mod Value
pub mod Subject
pub mod Evidence
pub mod Verdict
pub mod Action
pub mod Run
pub mod Case
pub mod Lifecycle
