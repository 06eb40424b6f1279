-- ===== src/Connectors/Base.antt =====
-- The connector contract (engine/contextrail/connectors/base.py).
use contextrail.Prelude.{Bool, String}
use contextrail.Models.Value.{Fields}
use contextrail.Models.Action.{Action}

-- The exceptions of a connector: a permanent one (ConnectorError), TransientError, UnknownOutcome.
pub data Fault : Type 0 where
  permanent transient unknown_outcome : Fault

pub data Answer {ℓ} (A : Type ℓ) : Type ℓ where
  ok : A → Answer A
  raised : Fault → Answer A

-- `WriteResult`, without the mode: `replayed` says that the key was already applied.
pub record WriteResult : Type 0 where
  pub replayed : Bool
  pub ref : Fields

-- A connector over the state `S` of the system behind it; the answer comes with the state after.
-- `verify` reports whether the intended state is there, and what was observed.
pub record Connector (S : Type 0) : Type 0 where
  pub write : Action → String → S → Answer WriteResult × S
  pub verify : Action → S → Answer (Bool × Fields) × S
