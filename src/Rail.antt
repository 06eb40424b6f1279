-- ===== src/Rail.antt =====
-- The stages of a run and the runner that takes it through them (engine/contextrail/rail, billing.py).
pub mod World
pub mod Continue
pub mod Runner
pub mod Final
pub mod Loaded
pub mod Resumed
pub mod Billing
pub mod BilledOnce
pub mod Compile
pub mod Fresh
pub mod Discover
pub mod Resolved
pub mod Govern
pub mod Plan
pub mod Ordered
pub mod Handoff
pub mod HandedOver
pub mod Store
pub mod Stored
pub mod Approve
pub mod Dispatch
pub mod AskedOnce
pub mod Execute
pub mod Held
pub mod Attempts
pub mod Once
pub mod ReadBack
pub mod Verify
pub mod Finalize
pub mod Events
pub mod Streams
pub mod Status
pub mod Decided
