-- ===== src/Rail/Runner.antt =====
-- `_handoff` and `resume` of engine/contextrail/rail/runner.py.
use contextrail.Prelude.{
  true, not, String, Option, none, some, ◌>>=◌, List, [], ◌∷◌, if◌then◌else◌, ◌&◌,
}
use contextrail.Models.Value.{bool, str, dict, Fields, end, field}
use contextrail.Models.Subject.{optional}
use contextrail.Models.Run.{RunStatus, running, awaiting_approval, failed, handoff}
use contextrail.Models.Case.{CaseFile}
use contextrail.Capsule.{Checked, ok, digest_mismatch, invalid}
use contextrail.Rail.Store.{StoredRun, set_stage, get_run, load_case}
use contextrail.Rail.Handoff.{Team, TeamView, team_name, hand_over}
use contextrail.Rail.World.{World, Deps, same_status, audited, emitted, change_status, halt}
use contextrail.Rail.Continue.{digest_value, continue_run}

module _ {S : Type 0} (d : Deps S) where
  abbrev digests : Option String → String → Fields
  digests expected actual =
      field "expected" (optional str expected) (field "actual" (str actual) end)

  abbrev view_fields : List (Team × TeamView) → Fields
  view_fields [] = end
  view_fields ((t, v) ∷ l) = field (team_name t) (str v.view_digest) (view_fields l)

  abbrev team_names : List (Team × TeamView) → String
  team_names [] = ""
  team_names ((t, v) ∷ []) = team_name t
  team_names ((t, v) ∷ u ∷ l) = team_name t & ", " & team_names (u ∷ l)

  abbrev pub handed :
      String
      → CaseFile
      → Checked (List (Team × TeamView))
      → World S
      → Option (Option CaseFile × World S)
  handed run_id c (ok views) w = do
    runs ← set_stage run_id (some handoff) none none w.runs
    w' ←
        audited d run_id "stage.handoff"
          (field "digest" (digest_value c)
            (field "verified" (bool true) (field "views" (dict (view_fields views)) end)))
          (record w { runs = runs })
    some (
      some c,
      emitted d handoff running
          ("Handoff: case file seal verified; views for " & team_names views & " verified") w',
    )
  handed run_id c (digest_mismatch expected actual) w = do
    w' ←
        halt d run_id "handoff.view_mismatch" (digests expected actual)
          "Halted: a team view did not match the sealed case file" w
    some (none, w')
  handed run_id c invalid w = none

  abbrev pub handed_over : String → Checked CaseFile → World S → Option (Option CaseFile × World S)
  handed_over run_id (ok c) w = handed run_id c (hand_over d.enc d.js d.parse c) w
  handed_over run_id (digest_mismatch expected actual) w = do
    w' ←
        halt d run_id "capsule.digest_mismatch" (digests expected actual)
          "Halted: the case file was altered" w
    some (none, w')
  handed_over run_id invalid w = none

  -- `_handoff`, without the team that a view mismatch names; a mismatch behind the verified load is one
  -- of a view. No case means that the run was halted.
  unfoldable pub handoff_stage : String → World S → Option (Option CaseFile × World S)
  handoff_stage run_id w = handed_over run_id (load_case d.enc d.model_validate run_id w.runs) w

  abbrev pub after_handoff : String → Option CaseFile → World S → Option (RunStatus × World S)
  after_handoff run_id none w = some (failed, w)
  after_handoff run_id (some c) w = continue_run d run_id c handoff w

  abbrev pub resume_row : String → StoredRun → World S → Option (RunStatus × World S)
  resume_row run_id row w =
      if not (same_status row.status awaiting_approval) then some (row.status, w) else (do
        runs ← change_status d run_id running w.runs
        w' ← audited d run_id "run.resumed" end (record w { runs = runs })
        h ← handoff_stage run_id w'
        after_handoff run_id h.0 h.1)

  unfoldable pub resume : String → World S → Option (RunStatus × World S)
  resume run_id w = do row ← get_run run_id w.runs; resume_row run_id row w
