-- ===== src/Rail/Execute.antt =====
-- Writing an action through its connector (engine/contextrail/rail/execute.py). `S` is the state of
-- the systems behind the connectors; the waits between attempts and the notes are left out.
use contextrail.Prelude.{
  ℕ, zero, suc, Bool, true, false, String, Option, none, some, ◌==◌, str_eq, if◌then◌else◌, ◌>>=◌,
}
use contextrail.Canonical.{Encoder, idempotency_key}
use contextrail.Models.Value.{Value, str, Fields, lookup}
use contextrail.Models.Verdict.{VerdictKind, allow, hold}
use contextrail.Models.Action.{ActionState, planned, approved, executed, failed, unknown, Action}
use contextrail.Connectors.Base.{
  permanent, transient, unknown_outcome, Answer, ok, raised, WriteResult, Connector,
}

abbrev is_github : Option Value → Bool
is_github (some (str s)) = str_eq s "github"
is_github _ = false

unfoldable pub connector_name : Action → String
connector_name a = if is_github (lookup "system" a.target) then "github" else "entitlements"

-- (action.state, action.verdict) in EXECUTABLE
abbrev executable : ActionState → Option VerdictKind → Bool
executable planned (some allow) = true
executable approved (some hold) = true
executable _ _ = false

unfoldable pub is_executable : Action → Bool
is_executable a = executable a.state a.verdict

pub record ExecOutcome : Type 0 where
  pub action_id : String
  pub state : ActionState
  pub attempts : ℕ
  pub replayed : Bool

module _ {S : Type 0} (connector : Connector S) (max_attempts : ℕ) (a : Action) (key : String) where
  abbrev ended : ActionState → ℕ → Bool → S → Option (ExecOutcome × S)
  ended state attempt replayed s =
      some (record { action_id = a.id; state = state; attempts = attempt; replayed = replayed }, s)

  -- go on with the next attempt, unless this was the last one
  abbrev pub unless_last :
      ActionState → ℕ → (S → Option (ExecOutcome × S)) → S → Option (ExecOutcome × S)
  unless_last state attempt retry s =
      if attempt == max_attempts then ended state attempt false s else retry s

  -- the read-back after a write of unknown outcome
  abbrev pub reconcile :
      ℕ → (S → Option (ExecOutcome × S)) → Answer (Bool × Fields) × S → Option (ExecOutcome × S)
  reconcile attempt retry (raised e, s) = ended unknown attempt false s
  reconcile attempt retry (ok (true, seen), s) = ended executed attempt false s
  reconcile attempt retry (ok (false, seen), s) = unless_last unknown attempt retry s

  abbrev pub on_write :
      ℕ → (S → Option (ExecOutcome × S)) → Answer WriteResult × S → Option (ExecOutcome × S)
  on_write attempt retry (ok result, s) = ended executed attempt result.replayed s
  on_write attempt retry (raised transient, s) = unless_last failed attempt retry s
  on_write attempt retry (raised unknown_outcome, s) =
      reconcile attempt retry (connector.verify a s)
  on_write attempt retry (raised permanent, s) = ended failed attempt false s

  -- The loop over range(attempt, max_attempts + 1), of which `left` attempts are left; `none` is the
  -- AssertionError behind it.
  unfoldable pub try_from : ℕ → ℕ → S → Option (ExecOutcome × S)
  try_from zero attempt s = none
  try_from (suc left) attempt s =
      on_write attempt (try_from left (suc attempt)) (connector.write a key s)

-- `registry` is its `get`, `none` the KeyError. `none` is ValueError or another exception.
unfoldable pub execute_action :
    {S : Type 0}
    → Encoder
    → (String → Option (Connector S))
    → ℕ
    → String
    → Action
    → S
    → Option (ExecOutcome × S)
execute_action enc registry max_attempts run_id a s =
    if is_executable a
    then (do
      connector ← registry (connector_name a)
      key ← idempotency_key enc run_id a.id a.params_hash
      try_from connector max_attempts a key max_attempts 1 s)
    else none
