-- ===== src/Policy.antt =====
-- engine/contextrail/policy/*.py: rules, their conditions, and the engine that decides an action.
pub mod Python
pub mod Schema
pub mod Matchers
pub mod Conditions
pub mod Approvers
pub mod Outcomes
pub mod Engine
pub mod Precedence
pub mod Decisions
pub mod TimeBox
pub mod Guarantees
