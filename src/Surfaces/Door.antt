-- ===== src/Surfaces/Door.antt =====
-- `Door.decide` (engine/contextrail/surfaces/door.py): where a decision from any door lands. `none` is
-- an exception. The view of the run that a recorded decision carries is left out.
use Prim.Native.String.{◌++◌}
use contextrail.Prelude.{
  ℕ, Bool, true, false, not, String, Option, none, some, List, find?, str_eq, if◌then◌else◌, ◌>>=◌,
}
use contextrail.Models.Value.{str, Fields, end, field}
use contextrail.Models.Verdict.{Verdict, is_allow}
use contextrail.Models.Action.{Action}
use contextrail.Policy.Engine.{check_decision}
use contextrail.Audit.Chain.{append_audit}
use contextrail.Jobs.Queue.{Jobs, enqueue_job}
use contextrail.Rail.Approve.{Approval, get_approval, record_approval}
use contextrail.Surfaces.Identity.{Identity, resolve_actor}
use contextrail.Surfaces.Cards.{
  ActionRow, Card, Checked, DecisionResult, RunRow, Setting, Store, already, already_decided,
  channel_name, choice_name, get_action, get_run, is_awaiting, is_hris, is_named, optional, pass,
  plain, recorded, rejected, shown, state_name, stop,
}

module _ (d : Setting) (card : Card) (now : ℕ) where
  abbrev pub rejection : Option String → String → Option String → Fields
  rejection who reason rule_id = field "action_id" (str card.action_id) (
      field "channel" (str (channel_name card.channel)) (
        field "actor" (optional who)
          (field "reason" (str reason) (field "rule_id" (optional rule_id) end))))

  -- `_reject`
  unfoldable pub reject :
      Option String → String → Option String → Store → Option (DecisionResult × Store)
  reject who reason rule_id s = elim (get_run card.run_id s) [
    | none ↦ some (plain rejected (some reason) rule_id, s)
    | some run ↦
        append_audit d.enc true now (some card.run_id) "approval.rejected"
          (rejection who reason rule_id) s.audit
        >>= λ r. some (plain rejected (some reason) rule_id, record s { audit = r.1 })
  ]

  -- identity_map.person_id of the person with this HRIS id, or the id
  abbrev pub beneficiary : String → Store → String
  beneficiary subject_id s =
      elim (find? (λ (r : Identity). is_hris subject_id r.hris_id) s.identities) [
        | none ↦ subject_id
        | some r ↦ r.person_id
      ]

  abbrev pub duties : String → RunRow → Store → Option Verdict
  duties person run s = run.subject_id >>= λ subject_id. d.hris subject_id >>= λ subject.
      check_decision d.py d.enc d.engine subject card.action_id card.params_hash person
        run.requested_by (some (beneficiary subject_id s))

  abbrev pub stopped : Option (DecisionResult × Store) → Option Checked
  stopped r = r >>= λ p. some (stop p.0 p.1)

  abbrev refuse_card : String → String → Option String → Store → Option Checked
  refuse_card person reason rule_id s = stopped (reject (some person) reason rule_id s)

  -- 5. separation of duties
  abbrev pub check_duties : String → Option Verdict → Store → Option Checked
  check_duties person none s = none
  check_duties person (some v) s =
      if is_allow v.verdict
      then some (pass person)
      else refuse_card person v.clause_text (some v.rule_id) s

  -- 2. to 4.
  abbrev pub check_card : String → RunRow → Action → Store → Option Checked
  check_card person run a s =
      if not (is_awaiting a.state)
      then refuse_card person ("action is " ++ state_name a.state ++ ", not awaiting") none s
      else if not (str_eq a.params_hash card.params_hash)
      then refuse_card person "this card is out of date: the action's parameters changed" none s
      else if not (is_named person a.approver)
      then refuse_card person ("only " ++ shown d.people a.approver ++ " can decide this") none s
      else check_duties person (duties person run s) s

  abbrev pub check_first : String → RunRow → Action → Option Approval → Store → Option Checked
  check_first person run a (some first) s = some (stop (already first) s)
  check_first person run a none s = check_card person run a s

  abbrev pub check_rows : String → Option RunRow → Option ActionRow → Store → Option Checked
  check_rows person (some run) (some row) s =
      check_first person run row.action (get_approval card.run_id card.action_id s.approvals) s
  check_rows person none row s = refuse_card person "no such action" none s
  check_rows person (some run) none s = refuse_card person "no such action" none s

  -- 1. the actor
  abbrev pub check_actor : Option Identity → Store → Option Checked
  check_actor none s =
      stopped (reject card.actor_external_id "unknown identity for this door" none s)
  check_actor (some actor) s =
      check_rows actor.person_id (get_run card.run_id s) (get_action card.run_id card.action_id s) s

  -- the reads and checks before the transaction
  unfoldable pub check : Store → Option Checked
  check s =
      check_actor (resolve_actor d.lower s.identities card.channel true card.actor_external_id) s

  abbrev pub approval_of : String → Approval
  approval_of person = record {
    run_id = card.run_id;
    action_id = card.action_id;
    params_hash = card.params_hash;
    approver = person;
    decision = card.decision;
    channel = channel_name card.channel;
    reason = card.reason;
  }

  abbrev pub decided_payload : String → Fields
  decided_payload person = field "action_id" (str card.action_id) (
      field "approver" (str person) (
        field "decision" (str (choice_name card.decision)) (
          field "channel" (str (channel_name card.channel)) (
            field "reason" (optional card.reason)
              (field "params_hash" (str card.params_hash) end)))))

  abbrev job_body : Fields → Fields
  job_body more = field "run_id" (str card.run_id) (field "action_id" (str card.action_id) more)

  abbrev job_key : String → Option String
  job_key kind = some (kind ++ ":" ++ card.run_id ++ ":" ++ card.action_id)

  -- the mirror of the approval, and the update of the other doors' cards
  abbrev announce : String → Jobs → Jobs
  announce person jobs =
      let mirrored =
        enqueue_job now "fs.approval.mirror" (job_body end) none (job_key "fs.approval.mirror") 5
          jobs in
      (enqueue_job now "door.update"
        (job_body
          (field "decided_by" (str person) (field "channel" (str (channel_name card.channel)) end)))
        none (job_key "door.update") 5 mirrored.1).1

  abbrev pub decided : String → DecisionResult
  decided person = record {
    outcome = recorded;
    reason = none;
    rule_id = none;
    decided_by = some person;
    decided_channel = some (channel_name card.channel);
  }

  abbrev pub stored : String → Bool × List Approval → Store → Option (DecisionResult × Store)
  stored person (true, rows) s =
      append_audit d.enc true now (some card.run_id) "approval.decided" (decided_payload person)
        s.audit
      >>= λ r. some (
        decided person,
        record s { approvals = rows; audit = r.1; jobs = announce person s.jobs },
      )
  stored person (false, rows) s =
      get_approval card.run_id card.action_id s.approvals >>= λ first. some (already first, s)

  -- the transaction that stores the decision, and 6., the first one of them
  unfoldable pub record_decision : String → Store → Option (DecisionResult × Store)
  record_decision person s = stored person (record_approval (approval_of person) s.approvals) s

  abbrev pub resumed :
      (String → Store → Option Store) → DecisionResult × Store → Option (DecisionResult × Store)
  resumed resume (r, s) = elim r.outcome [
    | recorded ↦ resume card.run_id s >>= λ t. some (r, t)
    | already_decided ↦ some (r, s)
    | rejected ↦ some (r, s)
  ]

  abbrev pub continued :
      (Store → Store)
      → (String → Store → Option Store)
      → Store
      → Checked
      → Option (DecisionResult × Store)
  continued between resume s (stop r t) = some (r, t)
  continued between resume s (pass person) =
      record_decision person (between s) >>= λ r. resumed resume r

  -- `between` is what the other doors do from the checks to the transaction, `resume` is `Runner.resume`
  unfoldable pub decide :
      (Store → Store) → (String → Store → Option Store) → Store → Option (DecisionResult × Store)
  decide between resume s = check s >>= λ c. continued between resume s c
