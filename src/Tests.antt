-- ===== src/Tests.antt =====
-- Sample data, and the theorems of the library at concrete inputs.
pub mod Samples
pub mod Policies
pub mod Runs
pub mod Writes
pub mod Queues
pub mod Decisions
pub mod Audits
pub mod Capsules
pub mod Calls
pub mod Plans
pub mod Memories
pub mod Resumes
