-- ===== src/Tests/Decisions.antt =====
-- A held action, and the decision of its approver through Slack.
use contextrail.Prelude.{true, none, some, [], ◌∷◌, ◌≡◌, ◌≢◌, ◌↔◌, refl, String, ◌⊎◌, All, here}
use contextrail.Models.Value.{null, str, end, field}
use contextrail.Models.Verdict.{hold, refuse}
use contextrail.Models.Action.{ActionState, awaiting, Action, transition}
use contextrail.Rail.Approve.{
  approved, Approval, Applied, get_approval, record_approval, apply_decisions,
}
use contextrail.Rail.Decided.{
  Steps, apply_decisions_total, IsBacked, approved-IsBacked, record_approval_first,
}
use contextrail.Jobs.Queue.{Jobs, new_job, enqueue_job}
use contextrail.Surfaces.Identity.{slack, Identity, resolve_actor}
use contextrail.Surfaces.Cards.{Store, recorded, already_decided, DecisionResult, Setting, Card}
use contextrail.Surfaces.Door.{check, record_decision, decide}
use contextrail.Policy.Engine.{check_decision}
use contextrail.Policy.Matchers.{applies_to, matches}
use contextrail.Policy.Conditions.{evaluate_all}
use contextrail.Audit.Chain.{append_audit, chain_hash}
use contextrail.Surfaces.Checks.{Authorised}
use contextrail.Surfaces.Endings.{IsUnrecorded}
use contextrail.Surfaces.Decides.{Landed, decide-recorded, decide-IsUnrecorded}
use contextrail.Tests.Samples.{
  sample_action, sample_encoder, sample_python, sample_engine, sample_subject,
}

abbrev held : Action
held = record sample_action { verdict = some hold; approver = some "p1"; state = awaiting }

abbrev approval : Approval
approval = record {
  run_id = "r1";
  action_id = "G01";
  params_hash = "h1";
  approver = "p1";
  decision = approved;
  channel = "slack";
  reason = none;
}

not_refused : All (λ (a : Action). a.state ≡ awaiting → a.verdict ≢ some refuse) (held ∷ [])
not_refused = (λ e f. cc, tt)

apply_decisions_total_example :
    (r : Applied) × (apply_decisions "r1" (approval ∷ []) (held ∷ []) ≡ some r)
    × Steps "r1" (approval ∷ []) (held ∷ []) r.actions
apply_decisions_total_example = apply_decisions_total "r1" (approval ∷ []) (held ∷ []) not_refused

abbrev now_approved : Action
now_approved = record held { state = ActionState.approved }

abbrev applied : Applied
applied = record { actions = now_approved ∷ []; decided = "G01" ∷ []; void = [] }

applies : apply_decisions "r1" (approval ∷ []) (held ∷ []) ≡ some applied
unfolding apply_decisions get_approval transition
applies = refl

approved-IsBacked_example : IsBacked "r1" (approval ∷ []) (held ∷ []) now_approved
approved-IsBacked_example =
    approved-IsBacked "r1" (approval ∷ []) (held ∷ []) applied now_approved applies here refl

record_approval_first_example :
    ((record_approval approval []).0 ≡ true ↔ get_approval "r1" "G01" [] ≡ none)
    × ((record_approval approval []).0 ≡ true
        → get_approval "r1" "G01" (record_approval approval []).1 ≡ some approval)
    × ((first : Approval)
        → get_approval "r1" "G02" [] ≡ some first
        → get_approval "r1" "G02" (record_approval approval []).1 ≡ some first)
record_approval_first_example = record_approval_first approval [] "r1" "G02"

abbrev no_jobs : Jobs
no_jobs = record { rows = []; next_id = 1 }

abbrev setting : Setting
setting = record {
  py = sample_python;
  enc = record sample_encoder { dumps = λ v. "d"; sha256 = λ s. "h" };
  lower = λ s. s;
  engine = sample_engine;
  people = λ s. none;
  hris = λ s. some sample_subject;
}

abbrev approver : Identity
approver = record {
  person_id = "p1";
  hris_id = none;
  slack_user_id = some "U1";
  teams_aad_id = none;
  email = none;
  phone = none;
  fs_requester_id = none;
  fs_agent_id = none;
}

abbrev card : Card
card = record {
  run_id = "r1";
  action_id = "G01";
  params_hash = "h1";
  channel = slack;
  actor_external_id = some "U1";
  decision = approved;
  reason = none;
}

abbrev store : Store
store = record {
  runs = record { id = "r1"; subject_id = some "E1"; requested_by = some "p2" } ∷ [];
  actions = record { run_id = "r1"; action = held } ∷ [];
  approvals = [];
  audit = record { rows = []; next_seq = 1 };
  jobs = record { rows = []; next_id = 1 };
  identities = approver ∷ [];
}

abbrev result : DecisionResult
result = record {
  outcome = recorded;
  reason = none;
  rule_id = none;
  decided_by = some "p1";
  decided_channel = some "slack";
}

abbrev stored : Store
stored = record store {
  approvals = approval ∷ [];
  audit = record {
    rows =
        record {
          seq = 1;
          run_id = some "r1";
          event = "approval.decided";
          payload = field "action_id" (str "G01") (
              field "approver" (str "p1") (
                field "decision" (str "approved") (
                  field "channel" (str "slack")
                    (field "reason" null (field "params_hash" (str "h1") end)))));
          prev_hash = "GENESIS";
          hash = "h";
          at = 9;
        }
        ∷ [];
    next_seq = 2;
  };
  jobs = record {
    rows =
        new_job 2 "door.update"
          (field "run_id" (str "r1") (
            field "action_id" (str "G01")
              (field "decided_by" (str "p1") (field "channel" (str "slack") end))))
          9 (some "door.update:r1:G01") 5
        ∷ new_job 1 "fs.approval.mirror"
            (field "run_id" (str "r1") (field "action_id" (str "G01") end)) 9
            (some "fs.approval.mirror:r1:G01") 5
        ∷ [];
    next_id = 3;
  };
}

lands : decide setting card 9 (λ s. s) (λ run s. some s) store ≡ some (result, stored)
unfolding decide check resolve_actor get_approval check_decision applies_to matches evaluate_all
    record_decision record_approval append_audit chain_hash enqueue_job
lands = refl

decide-recorded_example :
    (person : String) × Authorised setting card 9 person store
    × Landed setting card 9 (λ run s. some s) person store result stored
decide-recorded_example =
    decide-recorded setting card 9 (λ s. s) (λ run s. some s) store stored result lands refl

-- the same decision again
abbrev too_late : DecisionResult
too_late = record {
  outcome = already_decided;
  reason = some "already approved";
  rule_id = none;
  decided_by = some "p1";
  decided_channel = some "slack";
}

late : decide setting card 9 (λ s. s) (λ run s. some s) stored ≡ some (too_late, stored)
unfolding decide check resolve_actor get_approval
late = refl

decide-IsUnrecorded_example :
    IsUnrecorded setting card 9 stored too_late stored
    ⊎ IsUnrecorded setting card 9 stored too_late stored
decide-IsUnrecorded_example =
    decide-IsUnrecorded setting card 9 (λ s. s) (λ run s. some s) stored stored too_late late
      (λ e. cc)
