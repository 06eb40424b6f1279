-- ===== src/Surfaces/Cards.antt =====
-- What a door decides on and answers with: the rows that it reads, the card that was pressed and the
-- result (engine/contextrail/surfaces/door.py).
use Prim.Native.String.{◌++◌}
use contextrail.Prelude.{
  Bool, true, false, ◌&&◌, String, Option, none, some, List, find?, str_eq, get_or,
}
use contextrail.Canonical.{Encoder}
use contextrail.Models.Value.{Value, null, str}
use contextrail.Models.Subject.{Subject}
use contextrail.Models.Action.{
  ActionState, planned, awaiting, approved, refused, executed, verified, failed, unknown, Action,
}
use contextrail.Policy.Python.{Python}
use contextrail.Policy.Engine.{Engine}
use contextrail.Audit.Chain.{Table}
use contextrail.Jobs.Queue.{Jobs}
use contextrail.Rail.Approve.{Choice, Approval}
use contextrail.Surfaces.Identity.{Channel, slack, teams, email, voice, freshservice, mcp, Identity}

pub record RunRow : Type 0 where
  pub id : String
  pub subject_id : Option String
  pub requested_by : Option String

pub record ActionRow : Type 0 where
  pub run_id : String
  pub action : Action

-- the tables that a decision reads and writes
pub record Store : Type 0 where
  pub runs : List RunRow
  pub actions : List ActionRow
  pub approvals : List Approval
  pub audit : Table
  pub jobs : Jobs
  pub identities : List Identity

pub data Outcome : Type 0 where
  recorded already_decided rejected : Outcome

pub record DecisionResult : Type 0 where
  pub outcome : Outcome
  pub reason : Option String
  pub rule_id : Option String
  pub decided_by : Option String
  pub decided_channel : Option String

-- What the door is built with: the policy engine, the people's names, and `hris`, the record of a
-- subject as the HRIS connector reads it.
pub record Setting : Type 0 where
  pub py : Python
  pub enc : Encoder
  pub lower : String → String
  pub engine : Engine
  pub people : String → Option String
  pub hris : String → Option Subject

-- the arguments of `decide`
pub record Card : Type 0 where
  pub run_id : String
  pub action_id : String
  pub params_hash : String
  pub channel : Channel
  pub actor_external_id : Option String
  pub decision : Choice
  pub reason : Option String

abbrev pub channel_name : Channel → String
channel_name slack = "slack"
channel_name teams = "teams"
channel_name email = "email"
channel_name voice = "voice"
channel_name freshservice = "freshservice"
channel_name mcp = "mcp"

abbrev pub state_name : ActionState → String
state_name planned = "planned"
state_name awaiting = "awaiting"
state_name approved = "approved"
state_name refused = "refused"
state_name executed = "executed"
state_name verified = "verified"
state_name failed = "failed"
state_name unknown = "unknown"

abbrev pub choice_name : Choice → String
choice_name Choice.approved = "approved"
choice_name Choice.refused = "refused"

abbrev pub is_awaiting : ActionState → Bool
is_awaiting awaiting = true
is_awaiting _ = false

abbrev pub optional : Option String → Value
optional none = null
optional (some s) = str s

abbrev pub get_run : String → Store → Option RunRow
get_run run_id s = find? (λ (r : RunRow). str_eq r.id run_id) s.runs

abbrev pub get_action : String → String → Store → Option ActionRow
get_action run_id action_id s =
    find? (λ (r : ActionRow). str_eq r.run_id run_id && str_eq r.action.id action_id) s.actions

abbrev pub plain : Outcome → Option String → Option String → DecisionResult
plain outcome reason rule_id = record {
  outcome = outcome;
  reason = reason;
  rule_id = rule_id;
  decided_by = none;
  decided_channel = none;
}

abbrev pub already : Approval → DecisionResult
already first = record {
  outcome = already_decided;
  reason = some ("already " ++ choice_name first.decision);
  rule_id = none;
  decided_by = some first.approver;
  decided_channel = some first.channel;
}

-- What the checks come to: they pass for a person, or the decision ends with a result.
pub data Checked : Type 0 where
  pass : String → Checked
  stop : DecisionResult → Store → Checked

abbrev pub is_hris : String → Option String → Bool
is_hris subject_id none = false
is_hris subject_id (some id) = str_eq id subject_id

abbrev pub is_named : String → Option String → Bool
is_named person none = false
is_named person (some approver) = str_eq approver person

-- people.get(approver, approver) in a text
abbrev pub shown : (String → Option String) → Option String → String
shown people none = "None"
shown people (some approver) = get_or (people approver) approver
