-- ===== src/Llm.antt =====
-- engine/contextrail/llm: the router over the tiers of one language model, its prices, its ledger
-- and the recorded answers.
pub mod Pricing
pub mod Tiers
pub mod Failures
pub mod Breaker
pub mod Ledger
pub mod Replay
pub mod Router
pub mod Budget
pub mod Within
