-- ===== src/Rail/Continue.antt =====
-- `_continue` of engine/contextrail/rail/runner.py: the stages from the approval on. No other pass of
-- the run is under way, and the notes of the outcomes, which the audit repeats, are left out.
use contextrail.Prelude.{
  Bool, true, false, String, Option, some, ◌>>=◌, List, [], ◌∷◌, ◌++◌, map, contains, length,
  if◌then◌else◌, decimal, ◌&◌,
}
use contextrail.Prelude.Int.{pos}
use contextrail.Models.Value.{Value, bool, int, str, list, dict, Fields, end, field}
use contextrail.Models.Subject.{texts, optional}
use contextrail.Models.Action.{Action, transition}
use contextrail.Models.Dump.{state_name, dicts}
use contextrail.Models.Run.{
  RunStatus, running, Stage, approve, execute, verify, finalize, check_stage_order,
}
use contextrail.Models.Case.{CaseFile}
use contextrail.Jobs.Queue.{Jobs}
use contextrail.Rail.Approve.{apply_decisions}
use contextrail.Rail.Dispatch.{dispatch_holds}
use contextrail.Rail.Execute.{is_executable, ExecOutcome, execute_action}
use contextrail.Rail.Verify.{is_verifiable, VerifyOutcome, verify_action}
use contextrail.Rail.Finalize.{Tally, tally, final_status}
use contextrail.Rail.Billing.{status_name, request_usage_event, request_receipt}
use contextrail.Rail.World.{World, Deps, audited, emitted, change_status, saved, synced}

abbrev seen_before : List String → List String → List String
seen_before seen [] = []
seen_before seen (s ∷ ss) =
    let with_it = seen_before (s ∷ seen) ss in
    let without = seen_before seen ss in if contains s seen then without else s ∷ with_it

-- list(dict.fromkeys(l))
abbrev unique_texts : List String → List String
unique_texts l = seen_before [] l

abbrev pub tally_text : Tally → String
tally_text t =
    decimal t.verified & " verified, " & decimal t.hold & " held, " & decimal t.refuse & " refused"

abbrev pub digest_value : CaseFile → Value
digest_value c = optional str c.digest

abbrev result_fields : ExecOutcome → Fields
result_fields o = field "action_id" (str o.action_id) (
    field "state" (str (state_name o.state))
      (field "attempts" (int (pos o.attempts)) (field "replayed" (bool o.replayed) end)))

abbrev check_fields : VerifyOutcome → Fields
check_fields o =
    field "action_id" (str o.action_id)
      (field "state" (str (state_name o.state)) (field "observed" (dict o.observed) end))

abbrev tally_fields : Tally → Fields
tally_fields t = field "allow" (int (pos t.allow)) (
    field "hold" (int (pos t.hold)) (
      field "refuse" (int (pos t.refuse))
        (field "verified" (int (pos t.verified)) (field "failed" (int (pos t.failed)) end))))

abbrev is_open {ℓ} : {A : Type ℓ} → List A → Bool
is_open [] = false
is_open (x ∷ xs) = true

module _ {S : Type 0} (d : Deps S) where
  -- The loop of the execute stage.
  unfoldable pub execute_each :
      String → List Action → S → Option (List Action × List ExecOutcome × S)
  execute_each run_id [] s = some ([], [], s)
  execute_each run_id (a ∷ actions) s =
      let rest = execute_each run_id actions in
      if is_executable a
      then (do
        o ← execute_action d.enc d.registry d.max_attempts run_id a s
        b ← transition a o.0.state
        r ← rest o.1
        some (b ∷ r.0, o.0 ∷ r.1, r.2))
      else (rest s >>= λ r. some (a ∷ r.0, r.1, r.2))

  -- The loop of the verify stage.
  unfoldable pub verify_each : List Action → S → Option (List Action × List VerifyOutcome × S)
  verify_each [] s = some ([], [], s)
  verify_each (a ∷ actions) s =
      let rest = verify_each actions in
      if is_verifiable a.state
      then (do
        o ← verify_action d.registry d.now a s
        b ← transition a o.0.state
        r ← rest o.1
        some (b ∷ r.0, o.0 ∷ r.1, r.2))
      else (rest s >>= λ r. some (a ∷ r.0, r.1, r.2))

  -- What the first three stages end with: the case saved, the states of the actions given synchronised,
  -- the audit row and the event.
  unfoldable pub record_stage :
      String
      → Stage
      → String
      → (CaseFile → Fields)
      → (CaseFile → String)
      → List String
      → List VerifyOutcome
      → CaseFile
      → World S
      → Option (CaseFile × World S)
  record_stage run_id stage event payload message ids checks c w = do
    r ← saved d c stage w
    w' ← synced d r.0 ids checks r.1
    w'' ← audited d run_id event (payload r.0) w'
    some (r.0, emitted d stage running (message r.0) w'')

  unfoldable pub approve_stage : String → CaseFile → World S → Option (CaseFile × World S)
  approve_stage run_id c w = do
    counted ← apply_decisions c.run_id w.approvals c.actions
    let asked = dispatch_holds d.now c.run_id counted.actions w.jobs
    record_stage run_id approve "stage.approve"
        (λ s. field "decided" (list (texts counted.decided)) (
          field "void" (list (texts counted.void)) (
            field "dispatched" (list (texts asked.dispatched))
              (field "digest" (digest_value s) end))))
        (λ s.
          "Approve: "
          & decimal (length asked.dispatched)
          & " sent for approval, "
          & decimal (length counted.decided)
          & " decided")
        counted.decided []
        (record c {
          actions = counted.actions;
          open_blockers = unique_texts (c.open_blockers ++ asked.blockers);
        })
        (record w { jobs = asked.jobs })

  -- Nothing is written while a blocker is open.
  abbrev pub executed : String → CaseFile → S → Option (List Action × List ExecOutcome × S)
  executed run_id c s =
      let run = execute_each run_id c.actions in
      if is_open c.open_blockers then some (c.actions, [], s) else run s

  unfoldable pub execute_stage : String → CaseFile → World S → Option (CaseFile × World S)
  execute_stage run_id c w = do
    e ← executed run_id c w.systems
    record_stage run_id execute "stage.execute"
        (λ s. field "results" (list (dicts result_fields e.1)) (
          field "skipped_for_blockers" (bool (is_open s.open_blockers))
            (field "digest" (digest_value s) end)))
        (λ s. "Execute: " & decimal (length e.1) & " written")
        (map (λ (o : ExecOutcome). o.action_id) e.1) [] (record c { actions = e.0 })
        (record w { systems = e.2 })

  unfoldable pub verify_stage : String → CaseFile → World S → Option (CaseFile × World S)
  verify_stage run_id c w = do
    v ← verify_each c.actions w.systems
    record_stage run_id verify "stage.verify"
        (λ s. field "checks" (list (dicts check_fields v.1)) (field "digest" (digest_value s) end))
        (λ s.
          "Verify: "
          & decimal (tally s).verified
          & " verified, "
          & decimal (tally s).failed
          & " failed")
        (map (λ (o : VerifyOutcome). o.action_id) v.1) v.1 (record c { actions = v.0 })
        (record w { systems = v.2 })

  abbrev pub jobs_after : CaseFile → RunStatus → Jobs → Jobs
  jobs_after c status jobs =
      (request_usage_event d.isoformat d.now c status (request_receipt d.now c status jobs).1).1

  unfoldable pub finalize_stage : String → CaseFile → World S → Option (RunStatus × World S)
  finalize_stage run_id c w = do
    let status = final_status c
    r ← saved d c finalize w
    runs ← change_status d run_id status r.1.runs
    w' ←
        audited d run_id "stage.finalize"
          (field "status" (str (status_name status)) (
            field "tally" (dict (tally_fields (tally r.0)))
              (field "digest" (digest_value r.0) end)))
          (record r.1 { runs = runs; jobs = jobs_after r.0 status r.1.jobs })
    some (status, emitted d finalize status (status_name status & ": " & tally_text (tally r.0)) w')

  -- `_continue`, from the stage that came before; `none` is an exception.
  unfoldable pub continue_run : String → CaseFile → Stage → World S → Option (RunStatus × World S)
  continue_run run_id c prev w = do
    p ← check_stage_order (some prev) approve
    a ← approve_stage run_id c w
    q ← check_stage_order (some p) execute
    e ← execute_stage run_id a.0 a.1
    r ← check_stage_order (some q) verify
    v ← verify_stage run_id e.0 e.1
    s ← check_stage_order (some r) finalize
    finalize_stage run_id v.0 v.1
