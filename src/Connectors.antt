-- ===== src/Connectors.antt =====
-- engine/contextrail/connectors/base.py and fixture.py.
pub mod Base
pub mod Fixture
pub mod Entitlements
pub mod Replay
pub mod Once
pub mod SentOnce
