-- ===== src/Tests/Writes.antt =====
-- A grant through the fixture entitlements, whose first write times out after it was applied.
use contextrail.Prelude.{
  ℕ, suc, true, false, Option, none, some, [], ◌∷◌, ◌≡◌, refl, String, inl, arith, contains, ◌↔◌,
  ◌≢◌, ◌⊎◌,
}
use contextrail.Models.Verdict.{allow, refuse}
use contextrail.Models.Action.{ActionState, executed, verified, Action, transition}
use contextrail.Models.Value.{Fields, str, bool, end, field}
use contextrail.Models.Run.{awaiting_approval, partial, done, running, check_run_transition}
use contextrail.Models.Case.{CaseFile}
use contextrail.Canonical.{idempotency_key, door_send_key}
use contextrail.Connectors.Base.{Connector}
use contextrail.Connectors.Fixture.{Doc, timeout_after_apply, apply}
use contextrail.Connectors.Entitlements.{Holdings, held_by, change, write, verify, entitlements}
use contextrail.Connectors.Once.{message, Sent, returned, raised, send_once}
use contextrail.Connectors.Replay.{IsOnce}
use contextrail.Rail.Execute.{ExecOutcome, is_executable, execute_action, try_from}
use contextrail.Rail.Attempts.{IsEnd, execute_action-IsEnd, reports}
use contextrail.Rail.Once.{grants, Targets, execute_action-IsOnce}
use contextrail.Rail.Verify.{VerifyOutcome, verify_action}
use contextrail.Rail.ReadBack.{verify_action_lem, verified_in_force}
use contextrail.Rail.Finalize.{final_status}
use contextrail.Rail.Status.{IsWaiting, IsDone, final_status-exact}
use contextrail.Tests.Samples.{sample_action, sample_target, sample_encoder, sample_subject}

abbrev granting : Action
granting = record sample_action { verdict = some allow }

abbrev nobody : Holdings
nobody = record { catalog = "wiki" ∷ []; holdings = [] }

abbrev faulty : Doc Holdings
faulty = record { content = nobody; ledger = []; faults = ("wiki", timeout_after_apply) ∷ [] }

abbrev only_entitlements : String → Option (Connector (Doc Holdings))
only_entitlements name = some entitlements

execute_action-IsEnd_example :
    (is_executable granting ≡ true
      → (key : String) × (o : ExecOutcome) × (t : Doc Holdings) × (b : Action) × (idempotency_key
            sample_encoder "r1" "G01" "h1"
          ≡ some key)
        × (execute_action sample_encoder only_entitlements 3 "r1" granting faulty ≡ some (o, t))
        × IsEnd entitlements 3 granting key o t
        × (transition granting o.state ≡ some b)
        × (b.state ≡ o.state))
    × (is_executable granting ≡ false
        → execute_action sample_encoder only_entitlements 3 "r1" granting faulty ≡ none)
execute_action-IsEnd_example =
    execute_action-IsEnd sample_encoder only_entitlements 3 "r1" granting faulty entitlements
      (omega arith) refl

abbrev the_key : String
the_key = "#{run_id:'r1',action_id:'G01',params_hash:'h1',}"

abbrev granted : Doc Holdings
granted = record {
  content = record { catalog = "wiki" ∷ []; holdings = ("E1", "wiki" ∷ []) ∷ [] };
  ledger = (the_key, sample_target) ∷ [];
  faults = [];
}

abbrev outcome : ExecOutcome
outcome = record { action_id = "G01"; state = executed; attempts = 1; replayed = false }

keyed : idempotency_key sample_encoder "r1" "G01" "h1" ≡ some the_key
unfolding idempotency_key
keyed = refl

ran :
    execute_action sample_encoder only_entitlements 3 "r1" granting faulty ≡ some (outcome, granted)
unfolding execute_action is_executable idempotency_key try_from write apply change verify
ran = refl

targets : Targets granting "E1" "wiki"
targets = record {
  subject_given = refl;
  ent_given = refl;
  subject_filled = refl;
  ent_filled = refl;
}

execute_action-IsOnce_example : IsOnce (change (grants granting) "E1" "wiki") the_key nobody granted
execute_action-IsOnce_example =
    execute_action-IsOnce sample_encoder only_entitlements 3 "r1" granting the_key "E1" "wiki"
      nobody faulty granted outcome refl targets keyed (inl (refl, refl)) ran

abbrev written : Action
written = record granting { state = executed }

verify_action_lem_example :
    (written.state ≢ executed
      → written.state ≢ ActionState.unknown
      → verify_action only_entitlements 7 written granted ≡ none)
    × (((written.state ≡ executed) ⊎ (written.state ≡ ActionState.unknown))
        → (v : VerifyOutcome) × (verify_action only_entitlements 7 written granted
            ≡ some (v, (entitlements.verify written granted).1))
          × (v.action_id ≡ "G01")
          × (reports (entitlements.verify written granted).0 ≡ true
              → (v.state ≡ verified) × (v.at ≡ some 7))
          × (reports (entitlements.verify written granted).0 ≡ false
              → (v.state ≡ ActionState.failed) × (v.at ≡ none))
          × (written.verdict ≢ some refuse → (b : Action) × (transition written v.state ≡ some b)))
verify_action_lem_example = verify_action_lem only_entitlements 7 written granted entitlements refl

abbrev seen : VerifyOutcome
seen = record {
  action_id = "G01";
  state = verified;
  observed =
      field "subject_id" (str "E1")
        (field "entitlement" (str "wiki") (field "present" (bool true) end));
  at = some 7;
}

read : verify_action only_entitlements 7 written granted ≡ some (seen, granted)
unfolding verify_action verify
read = refl

verified_in_force_example :
    (granted ≡ granted) × (contains "wiki" (held_by granted.content "E1") ≡ grants written)
verified_in_force_example =
    verified_in_force only_entitlements 7 written "E1" "wiki" granted granted seen refl
      (record { subject_given = refl; ent_given = refl; subject_filled = refl; ent_filled = refl })
      read refl

abbrev sample_case : CaseFile
sample_case = record {
  run_id = "r1";
  request_text = "wiki for Ada";
  intent = "access";
  subject = sample_subject;
  peer = none;
  evidence = [];
  constraints = [];
  actions = record granting { state = verified } ∷ [];
  decisions = [];
  open_blockers = [];
  digest = none;
}

final_status-exact_example :
    (final_status sample_case ≡ awaiting_approval ↔ IsWaiting sample_case)
    × (final_status sample_case ≡ done ↔ IsDone sample_case)
    × (¬ IsWaiting sample_case → ¬ IsDone sample_case → final_status sample_case ≡ partial)
    × (check_run_transition running (final_status sample_case) ≡ some (final_status sample_case))
final_status-exact_example = final_status-exact sample_case

-- a mail server that counts its mails
abbrev mail : String → ℕ → Option Fields × ℕ
mail key n = (some end, suc n)

abbrev mail_ref : Fields
mail_ref = field "idempotency_key" (str "#{run_id:'r1',action_id:'G01',channel:'email',}") end

abbrev mailed : Sent ℕ
mailed = record {
  ref = mail_ref;
  replayed = false;
  world = 1;
  rows = message "r1" "G01" "email" mail_ref ∷ [];
}

mails : send_once sample_encoder "r1" "G01" "email" true mail 0 [] ≡ returned mailed
unfolding send_once door_send_key
mails = refl

-- the one window in which a mail goes twice
lost : send_once sample_encoder "r1" "G01" "email" false mail 0 [] ≡ raised 1 []
unfolding send_once door_send_key
lost = refl
