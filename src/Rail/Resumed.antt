-- ===== src/Rail/Resumed.antt =====
-- How resuming a run ends (`Runner.resume` of engine/contextrail/rail/runner.py).
use contextrail.Prelude.{
  true, false, String, Option, none, some, List, ◌≡◌, ◌≢◌, refl, sym, ap, ◌∙◌, ◌⊎◌, inl, inr,
  Bool-cases, >>=-eq-some, some-eq-some,
}
use mathlib.Core.Path.{subst}
use contextrail.Models.Value.{Value, Fields, end}
use contextrail.Models.Case.{CaseFile}
use contextrail.Models.Run.{
  RunStatus, RunStatus-discrete, awaiting_approval, failed, running, done, handoff,
}
use contextrail.Audit.Chain.{append_audit}
use contextrail.Capsule.{Checked, ok, digest_mismatch, invalid}
use contextrail.Jobs.Queue.{Jobs}
use contextrail.Rail.Approve.{Approval}
use contextrail.Rail.Status.{IsDone}
use contextrail.Rail.Store.{StoredRun, get_run, set_stage, load_case}
use contextrail.Rail.Handoff.{Team, TeamView, hand_over}
use contextrail.Rail.World.{World, StateRow, Deps, same_status, change_status, audited, halt}
use contextrail.Rail.Runner.{handed, handed_over, handoff_stage, after_handoff, resume_row, resume}
use contextrail.Rail.Loaded.{load_case_parsed, handoff_stage-loaded}
use contextrail.Rail.Final.{audited-runs, change_status-IsTurned, IsFinal, continue_run-IsFinal}

-- What a pass writes beside the row of the run, the audit and the events.
abbrev pub writes : {S : Type 0} → World S → S × List StateRow × Jobs × List Approval
writes w = (w.systems, w.actions, w.jobs, w.approvals)

-- The run failed, and nothing was written beside its row, the audit and the events.
abbrev pub IsHalted : {S : Type 0} → String → World S → World S → Type 0
IsHalted id w w' =
    (writes w' ≡ writes w)
    × ((row : StoredRun) × (get_run id w'.runs ≡ some row) × (row.status ≡ failed))

different_status : (s : RunStatus) → same_status s awaiting_approval ≡ false → s ≢ awaiting_approval
different_status s h e = go (RunStatus-discrete s awaiting_approval) h
  where
    go : (c : Dec (s ≡ awaiting_approval)) → (elim c [ yes e ↦ true | no n ↦ false ]) ≡ false → ⊥
    go (yes e) h = cc
    go (no n) h = n e

module _ {S : Type 0} (d : Deps S) where
  audited-writes :
      (id event : String) (payload : Fields) (w w' : World S)
      → audited d id event payload w ≡ some w'
      → writes w' ≡ writes w
  audited-writes id event payload w w' e =
      let (_, _, q) =
        >>=-eq-some (append_audit d.enc true d.now (some id) event payload w.audit) _ e in
      sym (ap writes (some-eq-some q))

  change_status-turned :
      (id : String) (to : RunStatus) (runs runs' : List StoredRun)
      → change_status d id to runs ≡ some runs'
      → (row : StoredRun) × (get_run id runs' ≡ some row) × (row.status ≡ to)
  unfolding change_status
  change_status-turned id to runs runs' e =
      let (row, g, _) = >>=-eq-some (get_run id runs) _ e in
      let (row', g', turned) = change_status-IsTurned d id to runs runs' row g e in
      (row', g', turned.0)

  halt-IsHalted :
      (id event : String) (payload : Fields) (message : String) (w w' : World S)
      → halt d id event payload message w ≡ some w'
      → IsHalted id w w'
  unfolding halt
  halt-IsHalted id event payload message w w' e =
      let (v, p, e1) = >>=-eq-some (audited d id event payload w) _ e in
      let (runs, q, e2) = >>=-eq-some (change_status d id failed v.runs) _ e1 in
      let same = some-eq-some e2 in
      let (row, g, is_failed) = change_status-turned id failed v.runs runs q in
      (
        sym (ap writes same) ∙ audited-writes id event payload w v p,
        (row, subst (λ x. get_run id x.runs ≡ some row) same g, is_failed),
      )

  handed-IsHalted :
      (id : String) (c : CaseFile) (views : Checked (List (Team × TeamView))) (w : World S)
      (h : Option CaseFile × World S)
      → handed d id c views w ≡ some h
      → h.0 ≡ none
      → IsHalted id w h.1
  handed-IsHalted id c (ok views) w h e n =
      let (runs, _, e1) = >>=-eq-some (set_stage id (some handoff) none none w.runs) _ e in
      let (w', _, e2) = >>=-eq-some (audited d id "stage.handoff" _ _) _ e1 in
      let kept = ap (λ x. x.0) (some-eq-some e2) in cc
  handed-IsHalted id c (digest_mismatch expected actual) w h e n =
      let (w', p, e1) = >>=-eq-some (halt d id "handoff.view_mismatch" _ _ w) _ e in
      subst (λ x. IsHalted id w x.1) (some-eq-some e1) (halt-IsHalted id _ _ _ w w' p)
  handed-IsHalted id c invalid w h e n = cc

  handed_over-IsHalted :
      (id : String) (loaded : Checked CaseFile) (w : World S) (h : Option CaseFile × World S)
      → handed_over d id loaded w ≡ some h
      → h.0 ≡ none
      → IsHalted id w h.1
  handed_over-IsHalted id (ok c) w h e n =
      handed-IsHalted id c (hand_over d.enc d.js d.parse c) w h e n
  handed_over-IsHalted id (digest_mismatch expected actual) w h e n =
      let (w', p, e1) = >>=-eq-some (halt d id "capsule.digest_mismatch" _ _ w) _ e in
      subst (λ x. IsHalted id w x.1) (some-eq-some e1) (halt-IsHalted id _ _ _ w w' p)
  handed_over-IsHalted id invalid w h e n = cc

  handoff_stage-IsHalted :
      (id : String) (w : World S) (h : Option CaseFile × World S)
      → handoff_stage d id w ≡ some h
      → h.0 ≡ none
      → IsHalted id w h.1
  unfolding handoff_stage
  handoff_stage-IsHalted id w h e n =
      handed_over-IsHalted id (load_case d.enc d.model_validate id w.runs) w h e n

  -- The ends of a resumed run: it did not wait for approval and is left as it is; or it was halted at
  -- the handoff; or it went through the remaining stages.
  abbrev pub IsLeft : StoredRun → World S → RunStatus × World S → Type 0
  IsLeft row w r = (row.status ≢ awaiting_approval) × (r ≡ (row.status, w))

  abbrev pub IsStopped : String → World S → RunStatus × World S → Type 0
  IsStopped id w r = (r.0 ≡ failed) × IsHalted id w r.1

  abbrev pub IsCarriedOut : String → RunStatus × World S → Type 0
  IsCarriedOut id r =
      (s : CaseFile) × ((row : StoredRun) × (get_run id r.1.runs ≡ some row) × IsFinal d r.0 s row)
      × (r.0 ≡ done → IsDone s)

  -- The case file that is stored on the row of the run names this run.
  abbrev pub NamesOwn : String → World S → Type 0
  NamesOwn id w =
      (row : StoredRun) (v : Value) (c : CaseFile)
      → get_run id w.runs ≡ some row
      → row.capsule ≡ some v
      → d.model_validate v ≡ some c
      → c.run_id ≡ id

  handed_on :
      (id : String) (w : World S) (x : Option CaseFile) (v : World S) (r : RunStatus × World S)
      → (x ≡ none → IsHalted id w v)
      → ((c : CaseFile) → x ≡ some c → c.run_id ≡ id)
      → after_handoff d id x v ≡ some r
      → IsStopped id w r ⊎ IsCarriedOut id r
  handed_on id w none v r halted own e =
      let same = some-eq-some e in
      inl (sym (ap (λ x. x.0) same), subst (λ x. IsHalted id w x.1) same (halted refl))
  handed_on id w (some c) v r halted own e =
      inr (continue_run-IsFinal d id c handoff v r (own c refl) e)

  -- Setting the run to running and the audit leave the stored case file as it is.
  resumed-names :
      (id : String) (row : StoredRun) (w v : World S) (runs : List StoredRun)
      (h : Option CaseFile × World S)
      → get_run id w.runs ≡ some row
      → NamesOwn id w
      → change_status d id running w.runs ≡ some runs
      → audited d id "run.resumed" end (record w { runs = runs }) ≡ some v
      → handoff_stage d id v ≡ some h
      → (c : CaseFile) → h.0 ≡ some c
      → c.run_id ≡ id
  resumed-names id row w v runs h g own p q s c n =
      let (row', g', turned) = change_status-IsTurned d id running w.runs runs row g p in
      let kept = audited-runs d id "run.resumed" end (record w { runs = runs }) v q in
      let loaded = handoff_stage-loaded d id c v h s n in
      let (value, stored, parsed) =
        load_case_parsed d.enc d.model_validate id v.runs row' c (rw kept g') loaded in
      own row value c g (sym turned.2 ∙ stored) parsed

  resume_row-ends :
      (id : String) (row : StoredRun) (w : World S) (r : RunStatus × World S)
      → get_run id w.runs ≡ some row
      → NamesOwn id w
      → resume_row d id row w ≡ some r
      → IsLeft row w r ⊎ (IsStopped id w r ⊎ IsCarriedOut id r)
  resume_row-ends id row w r g own e =
      elim (Bool-cases (same_status row.status awaiting_approval)) [
        | inr f ↦ inl (different_status row.status f, sym (some-eq-some (rw f at e)))
        | inl t ↦
            let (runs, turned, e1) =
              >>=-eq-some (change_status d id running w.runs) _ (rw t at e) in
            let (v, p, e2) =
              >>=-eq-some (audited d id "run.resumed" end (record w { runs = runs })) _ e1 in
            let (h, q, e3) = >>=-eq-some (handoff_stage d id v) _ e2 in
            let unwritten = audited-writes id "run.resumed" end (record w { runs = runs }) v p in
            inr (
              handed_on id w h.0 h.1 r
                (λ n.
                  let (same, failing) = handoff_stage-IsHalted id v h q n in
                  (same ∙ unwritten, failing))
                (resumed-names id row w v runs h g own turned p q) e3)
      ]

  -- Resuming a run whose stored case file names this run ends in one of three ways. Either the run does
  -- not wait for approval, and it is left as it is. Or failed is returned and stands on the row of the
  -- run, and neither the systems, the states of the actions, the jobs nor the approvals changed. Or the
  -- row holds the status that is returned, the last stage and the final case file, which is sealed,
  -- verifies and gives that status; and if that is done, every action of it is verified and no blocker
  -- is open.
  pub resume-ends :
      (id : String) (w : World S) (r : RunStatus × World S)
      → NamesOwn id w
      → resume d id w ≡ some r
      → (row : StoredRun) × (get_run id w.runs ≡ some row)
        × (IsLeft row w r ⊎ (IsStopped id w r ⊎ IsCarriedOut id r))
  unfolding resume
  resume-ends id w r own e =
      let (row, g, e1) = >>=-eq-some (get_run id w.runs) _ e in
      (row, g, resume_row-ends id row w r g own e1)
