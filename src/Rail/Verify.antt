-- ===== src/Rail/Verify.antt =====
-- Reading a written action back (engine/contextrail/rail/verify.py). `now` is the time of the read.
use contextrail.Prelude.{ℕ, Bool, true, false, String, Option, none, some, ◌>>=◌, if◌then◌else◌}
use contextrail.Models.Value.{Fields, end}
use contextrail.Models.Action.{ActionState, executed, verified, failed, unknown, Action}
use contextrail.Connectors.Base.{Answer, ok, raised, Connector}
use contextrail.Rail.Execute.{connector_name}

pub record VerifyOutcome : Type 0 where
  pub action_id : String
  pub state : ActionState
  pub observed : Fields
  pub at : Option ℕ

-- action.state in VERIFIABLE
unfoldable pub is_verifiable : ActionState → Bool
is_verifiable executed = true
is_verifiable unknown = true
is_verifiable _ = false

abbrev pub outcome_of : Action → ℕ → Answer (Bool × Fields) → VerifyOutcome
outcome_of a now (raised e) = record { action_id = a.id; state = failed; observed = end; at = none }
outcome_of a now (ok (true, seen)) = record {
  action_id = a.id;
  state = verified;
  observed = seen;
  at = some now;
}
outcome_of a now (ok (false, seen)) = record {
  action_id = a.id;
  state = failed;
  observed = seen;
  at = none;
}

abbrev with_outcome : {S : Type 0} → Action → ℕ → Answer (Bool × Fields) × S → VerifyOutcome × S
with_outcome a now r = (outcome_of a now r.0, r.1)

-- `none` is ValueError, or the KeyError of the registry.
unfoldable pub verify_action :
    {S : Type 0} → (String → Option (Connector S)) → ℕ → Action → S → Option (VerifyOutcome × S)
unfolding is_verifiable
verify_action registry now a s =
    if is_verifiable a.state
    then (do
      connector ← registry (connector_name a)
      some (with_outcome a now (connector.verify a s)))
    else none
