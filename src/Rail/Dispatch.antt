-- ===== src/Rail/Dispatch.antt =====
-- The jobs that ask for approvals: `dispatch_holds` of engine/contextrail/rail/approve.py.
use Prim.Native.String.{◌++◌}
use contextrail.Prelude.{ℕ, String, Option, none, some, List, [], ◌∷◌, if◌then◌else◌}
use contextrail.Models.Value.{Value, null, str, Fields, end, field}
use contextrail.Models.Action.{Action}
use contextrail.Policy.Approvers.{is_unresolved}
use contextrail.Jobs.Queue.{Jobs, enqueue_job}
use contextrail.Rail.Approve.{is_awaiting}

abbrev text_or_null : Option String → Value
text_or_null none = null
text_or_null (some s) = str s

abbrev shown : Option String → String
shown none = "None"
shown (some s) = s

abbrev pub dispatch_key : String → Action → String
dispatch_key run_id a = "approval.dispatch:" ++ run_id ++ ":" ++ a.id

abbrev dispatch_body : String → Action → Fields
dispatch_body run_id a = field "run_id" (str run_id) (
    field "action_id" (str a.id) (
      field "approver" (text_or_null a.approver)
        (field "params_hash" (str a.params_hash) (field "rule_id" (text_or_null a.rule_id) end))))

abbrev pub blocker : Action → String
blocker a =
    "No named approver for "
    ++ a.id
    ++ " ("
    ++ shown a.approver
    ++ "); resolve the role before it can proceed."

pub record Dispatched : Type 0 where
  pub dispatched : List String
  pub blockers : List String
  pub jobs : Jobs

-- the id, if a job was enqueued, before those of the actions that follow
abbrev pub with_job : String → Option ℕ → Dispatched → Dispatched
with_job id none r = r
with_job id (some job) r = record r { dispatched = id ∷ r.dispatched }

abbrev pub with_blocker : String → Dispatched → Dispatched
with_blocker text r = record r { blockers = text ∷ r.blockers }

abbrev pub dispatch : ℕ → String → Action → Jobs → Option ℕ × Jobs
dispatch now run_id a jobs =
    enqueue_job now "approval.dispatch" (dispatch_body run_id a) none (some (dispatch_key run_id a))
      5 jobs

-- the actions that a job is asked for, and those that only block
pub data Case : Type 0 where
  skip block ask : Case

unfoldable pub case_of : Action → Case
case_of a = if is_awaiting a.state then (if is_unresolved a.approver then block else ask) else skip

-- one step of the loop; `rest` is the loop over the actions that follow
abbrev pub proceed : Case → Action → Option ℕ × Jobs → (Jobs → Dispatched) → Jobs → Dispatched
proceed skip a asked rest jobs = rest jobs
proceed block a asked rest jobs = with_blocker (blocker a) (rest jobs)
proceed ask a asked rest jobs = with_job a.id asked.0 (rest asked.1)

unfoldable pub dispatch_holds : ℕ → String → List Action → Jobs → Dispatched
dispatch_holds now run_id [] jobs = record { dispatched = []; blockers = []; jobs = jobs }
dispatch_holds now run_id (a ∷ actions) jobs =
    proceed (case_of a) a (dispatch now run_id a jobs) (dispatch_holds now run_id actions) jobs
