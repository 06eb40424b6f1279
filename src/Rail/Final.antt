-- ===== src/Rail/Final.antt =====
-- What a pass of the runner leaves on the row of its run (engine/contextrail/rail/runner.py).
use contextrail.Prelude.{
  true, false, String, none, some, List, ◌≡◌, refl, sym, ap, ◌∙◌, inl, inr, Bool-cases, >>=-eq-some,
  some-eq-some,
}
use mathlib.Core.Path.{subst}
use contextrail.Models.Value.{dict, Fields}
use contextrail.Rail.Approve.{apply_decisions}
use contextrail.Rail.Verify.{VerifyOutcome}
use contextrail.Models.Case.{CaseFile}
use contextrail.Models.Run.{
  RunStatus, RunStatus-discrete, done, Stage, approve, execute, verify, finalize, check_stage_order,
  check_run_transition,
}
use contextrail.Models.Dump.{dump_case, jsonable}
use contextrail.Capsule.{ok, seal, verify as verify_seal}
use contextrail.Capsule.Seal.{seal_lem, verify-seal}
use contextrail.Rail.Finalize.{final_status}
use contextrail.Rail.Status.{IsDone, done→IsDone}
use contextrail.Rail.Store.{StoredRun, set_row, sealing, get_run, save_case}
use contextrail.Rail.Stored.{Updated, set_stage_lem, save_case_lem}
use contextrail.Audit.Chain.{append_audit}
use contextrail.Rail.World.{World, Deps, same_status, change_status, saved, synced, audited}
use contextrail.Rail.Continue.{
  approve_stage, execute_stage, verify_stage, finalize_stage, record_stage, executed, verify_each,
  continue_run,
}

-- A row that differs from another in its status at most.
abbrev IsTurned : RunStatus → StoredRun → StoredRun → Type 0
IsTurned to row row' =
    (row'.status ≡ to)
    × (row'.stage ≡ row.stage)
    × (row'.capsule ≡ row.capsule)
    × (row'.capsule_digest ≡ row.capsule_digest)

same_status-eq : (s t : RunStatus) → same_status s t ≡ true → s ≡ t
same_status-eq s t h = go (RunStatus-discrete s t) h
  where
    go : (c : Dec (s ≡ t)) → (elim c [ yes e ↦ true | no n ↦ false ]) ≡ true → s ≡ t
    go (yes e) h = e
    go (no n) h = cc

module _ {S : Type 0} (d : Deps S) where
  pub change_status-IsTurned :
      (id : String) (to : RunStatus) (runs runs' : List StoredRun) (row : StoredRun)
      → get_run id runs ≡ some row
      → change_status d id to runs ≡ some runs'
      → (row' : StoredRun) × (get_run id runs' ≡ some row') × IsTurned to row row'
  unfolding change_status
  change_status-IsTurned id to runs runs' row g e =
      let (r, p, q) = >>=-eq-some (get_run id runs) _ e in
      let same : r ≡ row = some-eq-some (sym p ∙ g) in
      elim (Bool-cases (same_status r.status to)) [
        | inl t ↦ (
          row,
          subst (λ l. get_run id l ≡ some row) (some-eq-some (rw t at q)) g,
          (ap (λ x. x.status) (sym same) ∙ same_status-eq r.status to t, refl, refl, refl),
        )
        | inr f ↦
            let (_, _, k) = >>=-eq-some (check_run_transition r.status to) _ (rw f at q) in
            let ((old, h, new), _) = set_stage_lem id none (some to) none runs runs' k in
            let is_row : row ≡ old = some-eq-some (sym g ∙ h) in
            (
              set_row none (some to) none old,
              new,
              (
                refl,
                ap (λ x. x.stage) (sym is_row),
                ap (λ x. x.capsule) (sym is_row),
                ap (λ x. x.capsule_digest) (sym is_row),
              ),
            )
      ]

  saved_lem :
      (c : CaseFile) (stage : Stage) (w : World S) (r : CaseFile × World S)
      → saved d c stage w ≡ some r
      → (seal d.enc c ≡ some r.0)
        × Updated c.run_id (set_row (some stage) none (some (sealing d.js r.0))) w.runs r.1.runs
  saved_lem c stage w r e =
      let (x, p, q) = >>=-eq-some (save_case d.enc d.js c (some stage) none w.runs) _ e in
      let same = some-eq-some q in
      subst
        (λ y.
          (seal d.enc c ≡ some y.0)
          × Updated c.run_id (set_row (some stage) none (some (sealing d.js y.0))) w.runs y.1.runs)
        same (save_case_lem d.enc d.js c x.0 (some stage) none w.runs x.1 p)

  -- A saved case is the case that was given, with its digest.
  seal-run_id : (c s : CaseFile) → seal d.enc c ≡ some s → s.run_id ≡ c.run_id
  seal-run_id c s e = let (_, _, q) = seal_lem d.enc c s e in ap (λ x. x.run_id) q

  seal-final_status : (c s : CaseFile) → seal d.enc c ≡ some s → final_status c ≡ final_status s
  unfolding final_status
  seal-final_status c s e = let (_, _, q) = seal_lem d.enc c s e in sym (ap final_status q)

  pub audited-runs :
      (id event : String) (payload : Fields) (w w' : World S)
      → audited d id event payload w ≡ some w'
      → w'.runs ≡ w.runs
  audited-runs id event payload w w' e =
      let (_, _, q) =
        >>=-eq-some (append_audit d.enc true d.now (some id) event payload w.audit) _ e in
      sym (ap (λ x. x.runs) (some-eq-some q))

  record_stage-run_id :
      (id : String) (stage : Stage) (event : String) (payload : CaseFile → Fields)
      (message : CaseFile → String) (ids : List String) (checks : List VerifyOutcome) (c : CaseFile)
      (w : World S) (r : CaseFile × World S)
      → record_stage d id stage event payload message ids checks c w ≡ some r
      → r.0.run_id ≡ c.run_id
  unfolding record_stage
  record_stage-run_id id stage event payload message ids checks c w r e =
      let (s, p, e2) = >>=-eq-some (saved d c stage w) _ e in
      let (w', _, e3) = >>=-eq-some (synced d s.0 ids checks s.1) _ e2 in
      let (_, _, e4) = >>=-eq-some (audited d id event (payload s.0) w') _ e3 in
      sym (ap (λ x. x.0.run_id) (some-eq-some e4)) ∙ seal-run_id c s.0 (saved_lem c stage w s p).0

  approve_stage-run_id :
      (id : String) (c : CaseFile) (w : World S) (r : CaseFile × World S)
      → approve_stage d id c w ≡ some r
      → r.0.run_id ≡ c.run_id
  unfolding approve_stage
  approve_stage-run_id id c w r e =
      let (_, _, e') = >>=-eq-some (apply_decisions c.run_id w.approvals c.actions) _ e in
      record_stage-run_id _ _ _ _ _ _ _ _ _ r e'

  execute_stage-run_id :
      (id : String) (c : CaseFile) (w : World S) (r : CaseFile × World S)
      → execute_stage d id c w ≡ some r
      → r.0.run_id ≡ c.run_id
  unfolding execute_stage
  execute_stage-run_id id c w r e =
      let (_, _, e') = >>=-eq-some (executed d id c w.systems) _ e in
      record_stage-run_id _ _ _ _ _ _ _ _ _ r e'

  verify_stage-run_id :
      (id : String) (c : CaseFile) (w : World S) (r : CaseFile × World S)
      → verify_stage d id c w ≡ some r
      → r.0.run_id ≡ c.run_id
  unfolding verify_stage
  verify_stage-run_id id c w r e =
      let (_, _, e') = >>=-eq-some (verify_each d c.actions w.systems) _ e in
      record_stage-run_id _ _ _ _ _ _ _ _ _ r e'

  -- What the row of a run says after a pass: the status that was computed, the last stage, and the
  -- sealed case that the status was computed from.
  abbrev pub IsFinal : RunStatus → CaseFile → StoredRun → Type 0
  IsFinal status s row =
      (row.status ≡ status)
      × (row.stage ≡ some finalize)
      × (row.capsule ≡ some (jsonable d.js (dict (dump_case s))))
      × (row.capsule_digest ≡ s.digest)
      × (verify_seal d.enc s ≡ ok s)
      × (status ≡ final_status s)

  finalize_stage-IsFinal :
      (id : String) (c : CaseFile) (w : World S) (r : RunStatus × World S)
      → c.run_id ≡ id
      → finalize_stage d id c w ≡ some r
      → (s : CaseFile) × ((row : StoredRun) × (get_run id r.1.runs ≡ some row) × IsFinal r.0 s row)
  unfolding finalize_stage
  finalize_stage-IsFinal id c w r own e =
      let (x, p, e1) = >>=-eq-some (saved d c finalize w) _ e in
      let (runs, q, e2) = >>=-eq-some (change_status d id (final_status c) x.1.runs) _ e1 in
      let (w', audit, e3) = >>=-eq-some (audited d id "stage.finalize" _ _) _ e2 in
      let kept = audited-runs id "stage.finalize" _ _ w' audit in
      let (sealed, ((old, _, at_old), _)) = saved_lem c finalize w x p in
      let (row, at_row, turned) =
        change_status-IsTurned id (final_status c) x.1.runs runs
          (set_row (some finalize) none (some (sealing d.js x.0)) old)
          (subst
            (λ i.
              get_run i x.1.runs
              ≡ some (set_row (some finalize) none (some (sealing d.js x.0)) old))
            own at_old)
          q in
      let same = some-eq-some e3 in
      (
        x.0,
        (
          row,
          subst (λ y. get_run id y.1.runs ≡ some row) same (rw kept at_row),
          subst (λ y. IsFinal y.0 x.0 row) same
              (
                turned.0,
                turned.1,
                turned.2,
                turned.3,
                verify-seal d.enc c x.0 sealed,
                seal-final_status c x.0 sealed,
              ),
        ),
      )

  -- A pass over a case file of its run returns the status that the final case file has, and the row of
  -- its run then holds that status, the last stage and that case file: sealed, with the digest that the
  -- row records, and it verifies. A pass that returns done has every action of that case file verified
  -- and no open blocker.
  pub continue_run-IsFinal :
      (id : String) (c : CaseFile) (prev : Stage) (w : World S) (r : RunStatus × World S)
      → c.run_id ≡ id
      → continue_run d id c prev w ≡ some r
      → (s : CaseFile) × ((row : StoredRun) × (get_run id r.1.runs ≡ some row) × IsFinal r.0 s row)
        × (r.0 ≡ done → IsDone s)
  unfolding continue_run
  continue_run-IsFinal id c prev w r own e =
      let (p, _, e1) = >>=-eq-some (check_stage_order (some prev) approve) _ e in
      let (a, ha, e2) = >>=-eq-some (approve_stage d id c w) _ e1 in
      let (q, _, e3) = >>=-eq-some (check_stage_order (some p) execute) _ e2 in
      let (x, hx, e4) = >>=-eq-some (execute_stage d id a.0 a.1) _ e3 in
      let (o, _, e5) = >>=-eq-some (check_stage_order (some q) verify) _ e4 in
      let (v, hv, e6) = >>=-eq-some (verify_stage d id x.0 x.1) _ e5 in
      let (_, _, e7) = >>=-eq-some (check_stage_order (some o) finalize) _ e6 in
      let same =
        verify_stage-run_id id x.0 x.1 v hv
        ∙ (execute_stage-run_id id a.0 a.1 x hx ∙ approve_stage-run_id id c w a ha) in
      let (s, (row, at_row, final)) = finalize_stage-IsFinal id v.0 v.1 r (same ∙ own) e7 in
      (s, (row, at_row, final), λ is_done. done→IsDone s (sym final.5 ∙ is_done))
