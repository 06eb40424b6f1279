-- ===== src/Audit.antt =====
-- engine/contextrail/audit/chain.py, and `append_audit` of engine/contextrail/repo.py.
pub mod Chain
pub mod Linked
pub mod Append
pub mod Agreement
