-- ===== src/Tests/Resumes.antt =====
-- A run that waits for one approval and is resumed with it.
use contextrail.Prelude.{
  Option, none, some, get_or, [], ◌∷◌, ◌≡◌, refl, sym, ap, some-eq-some, ◌⊎◌, Bool, true, false,
}
use contextrail.Models.Value.{dict}
use contextrail.Models.Verdict.{hold}
use contextrail.Models.Action.{awaiting, Action}
use contextrail.Models.Case.{CaseFile}
use contextrail.Models.Run.{RunStatus, running, done, awaiting_approval, finalize}
use contextrail.Models.Dump.{dump_case, jsonable}
use contextrail.Capsule.{seal}
use contextrail.Connectors.Fixture.{Doc}
use contextrail.Connectors.Entitlements.{Holdings, entitlements}
use contextrail.Rail.Approve.{approved}
use contextrail.Rail.Store.{StoredRun, get_run}
use contextrail.Rail.World.{World, Deps}
use contextrail.Rail.Runner.{resume}
use contextrail.Rail.Resumed.{NamesOwn, IsLeft, IsStopped, IsCarriedOut, resume-ends}
use contextrail.Tests.Samples.{sample_encoder, sample_action}
use contextrail.Tests.Capsules.{sample_case, sample_json}

abbrev waiting_action : Action
waiting_action = record sample_action {
  verdict = some hold;
  approver = some "p9";
  state = awaiting;
}

abbrev waiting_case : CaseFile
waiting_case = record sample_case { actions = waiting_action ∷ [] }

unfoldable sealed : CaseFile
sealed = get_or (seal sample_encoder waiting_case) waiting_case

unfoldable waiting_run : StoredRun
waiting_run = record {
  id = "r1";
  stage = some finalize;
  status = awaiting_approval;
  intent = none;
  subject_id = none;
  capsule = some (jsonable sample_json (dict (dump_case sealed)));
  capsule_digest = sealed.digest;
}

abbrev sample_deps : Deps (Doc Holdings)
sample_deps = record {
  enc = sample_encoder;
  js = sample_json;
  model_validate = λ v. some sealed;
  parse = λ v. some v;
  isoformat = λ n. "1970-01-01T00:00:00Z";
  registry = λ name. some entitlements;
  max_attempts = 3;
  now = 7;
}

unfoldable before : World (Doc Holdings)
before = record {
  runs = waiting_run ∷ [];
  actions = record { run_id = "r1"; action_id = "G01"; state = awaiting; verified_at = none } ∷ [];
  approvals =
      record {
        run_id = "r1";
        action_id = "G01";
        params_hash = "h1";
        approver = "p9";
        decision = approved;
        channel = "web";
        reason = none;
      }
      ∷ [];
  audit = record { rows = []; next_seq = 1 };
  jobs = record { rows = []; next_id = 1 };
  systems = record {
    content = record { catalog = "wiki" ∷ []; holdings = [] };
    ledger = [];
    faults = [];
  };
  bus = record { seq = 0; keep = 10; history = []; queues = [] };
}

unfoldable after : RunStatus × World (Doc Holdings)
after = get_or (resume sample_deps "r1" before) (running, before)

abbrev is_given : {A : Type 0} → Option A → Bool
is_given none = false
is_given (some x) = true

given_lem : {A : Type 0} (o : Option A) (x : A) → is_given o ≡ true → o ≡ some (get_or o x)
given_lem none x e = cc
given_lem (some y) x e = refl

-- The approval is applied, the grant is written and read back, and the run is done.
ends : (is_given (resume sample_deps "r1" before) ≡ true) × (after.0 ≡ done)
unfolding resume get_run before waiting_run contextrail.Models.Run.RunStatus-discrete
    contextrail.Rail.World.change_status contextrail.Models.Run.check_run_transition
    contextrail.Rail.Store.set_stage contextrail.Audit.Chain.append_audit
    contextrail.Audit.Chain.chain_hash contextrail.Canonical.canonical_json
    contextrail.Rail.Runner.handoff_stage contextrail.Rail.Store.load_case
    contextrail.Capsule.receive contextrail.Capsule.verify contextrail.Capsule.compute_digest
    contextrail.Canonical.sha256_hex contextrail.Canonical.idempotency_key
    contextrail.Canonical.normalise seal contextrail.Jobs.Queue.enqueue_job
    contextrail.Models.Action.may_move contextrail.Models.Action.transition dump_case
    contextrail.Models.Dump.dump_content jsonable contextrail.Models.Dump.jsonable_fields
    contextrail.Models.Run.check_stage_order contextrail.Models.Run.may_turn
    contextrail.Models.Run.next_stage contextrail.Models.Subject.dump contextrail.Models.Value.equal
    contextrail.Policy.Approvers.is_unresolved contextrail.Rail.Approve.apply_decisions
    contextrail.Rail.Approve.get_approval contextrail.Rail.Billing.request_receipt
    contextrail.Rail.Billing.request_usage_event contextrail.Rail.Dispatch.case_of
    contextrail.Rail.Dispatch.dispatch_holds contextrail.Rail.Events.emit
    contextrail.Rail.Execute.connector_name contextrail.Rail.Execute.execute_action
    contextrail.Rail.Execute.is_executable contextrail.Rail.Execute.try_from
    contextrail.Rail.Finalize.final_status contextrail.Rail.Finalize.tally
    contextrail.Rail.Handoff.build_team_view contextrail.Rail.Handoff.hand_over
    contextrail.Rail.Handoff.leaks_fields contextrail.Rail.Handoff.pick
    contextrail.Rail.Handoff.project contextrail.Rail.Handoff.receive_view
    contextrail.Rail.Handoff.salary_like contextrail.Rail.Handoff.view_digest
    contextrail.Rail.Continue.approve_stage contextrail.Rail.Continue.continue_run
    contextrail.Rail.Continue.execute_each contextrail.Rail.Continue.execute_stage
    contextrail.Rail.Continue.finalize_stage contextrail.Rail.World.halt
    contextrail.Rail.Continue.record_stage contextrail.Rail.World.set_action_state
    contextrail.Rail.World.sync_states contextrail.Rail.Continue.verify_each
    contextrail.Rail.Continue.verify_stage contextrail.Rail.Store.save_case
    contextrail.Rail.Verify.is_verifiable contextrail.Rail.Verify.verify_action sealed after
    contextrail.Connectors.Fixture.apply contextrail.Connectors.Entitlements.write
    contextrail.Connectors.Entitlements.verify contextrail.Connectors.Entitlements.change
ends = (refl, refl)

resumed : resume sample_deps "r1" before ≡ some after
unfolding after
resumed = given_lem (resume sample_deps "r1" before) (running, before) ends.0

names_own : NamesOwn sample_deps "r1" before
unfolding sealed seal contextrail.Capsule.compute_digest contextrail.Canonical.sha256_hex
    contextrail.Models.Dump.dump_content contextrail.Models.Subject.dump
names_own row v c g stored parsed = sym (ap (λ (x : CaseFile). x.run_id) (some-eq-some parsed))

resume-ends_example :
    (row : StoredRun) × (get_run "r1" before.runs ≡ some row)
    × (IsLeft sample_deps row before after
        ⊎ (IsStopped sample_deps "r1" before after ⊎ IsCarriedOut sample_deps "r1" after))
resume-ends_example = resume-ends sample_deps "r1" before after names_own resumed
