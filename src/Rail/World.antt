-- ===== src/Rail/World.antt =====
-- The state of a run and what every stage does with it (`_audit`, `_status`, `_emit`, `_sync_states` and
-- `_halt` of engine/contextrail/rail/runner.py). A pass reads the clock once.
use contextrail.Prelude.{
  ℕ, Bool, true, false, ◌&&◌, String, Option, none, some, ◌>>=◌, List, [], ◌∷◌, find?, str_eq,
  if◌then◌else◌,
}
use contextrail.Models.Value.{Value, Fields}
use contextrail.Models.Action.{ActionState, verified, Action}
use contextrail.Models.Dump.{JsonMode}
use contextrail.Models.Run.{
  RunStatus, RunStatus-discrete, failed, check_run_transition, Stage, handoff,
}
use contextrail.Models.Case.{CaseFile}
use contextrail.Canonical.{Encoder}
use contextrail.Audit.Chain.{Table, append_audit}
use contextrail.Connectors.Base.{Connector}
use contextrail.Jobs.Queue.{Jobs}
use contextrail.Rail.Approve.{Approval}
use contextrail.Rail.Verify.{VerifyOutcome}
use contextrail.Rail.Events.{EventBus, emit}
use contextrail.Rail.Store.{StoredRun, set_stage, get_run, save_case}
use contextrail.Rail.Handoff.{TeamView}

-- The columns of an action that `set_action_state` writes.
pub record StateRow : Type 0 where
  pub run_id : String
  pub action_id : String
  pub state : ActionState
  pub verified_at : Option ℕ

pub record World (S : Type 0) : Type 0 where
  pub runs : List StoredRun
  pub actions : List StateRow
  pub approvals : List Approval
  pub audit : Table
  pub jobs : Jobs
  pub systems : S
  pub bus : EventBus

-- What a runner is made with: `RailDeps`, the parsers of pydantic and the clock.
pub record Deps (S : Type 0) : Type 0 where
  pub enc : Encoder
  pub js : JsonMode
  pub model_validate : Value → Option CaseFile
  pub parse : TeamView → Option TeamView
  pub isoformat : ℕ → String
  pub registry : String → Option (Connector S)
  pub max_attempts : ℕ
  pub now : ℕ

abbrev or_old : Option ℕ → Option ℕ → Option ℕ
or_old none old = old
or_old (some t) old = some t

-- `set_action_state` of repo.py; `none` is LookupError.
unfoldable pub set_action_state :
    String → String → ActionState → Option ℕ → List StateRow → Option (List StateRow)
set_action_state run_id id state at_time [] = none
set_action_state run_id id state at_time (r ∷ rs) =
    let rest = set_action_state run_id id state at_time rs in
    if str_eq r.run_id run_id && str_eq r.action_id id
    then some ((record r { state = state; verified_at = or_old at_time r.verified_at }) ∷ rs)
    else (rest >>= λ rows. some (r ∷ rows))

abbrev is_verified : ActionState → Bool
is_verified verified = true
is_verified _ = false

abbrev time_of : String → List VerifyOutcome → Option ℕ
time_of id [] = none
time_of id (o ∷ os) = let rest = time_of id os in if str_eq o.action_id id then o.at else rest

-- `_sync_states` for the ids given, with the times of the read-backs
unfoldable pub sync_states :
    CaseFile → List String → List VerifyOutcome → List StateRow → Option (List StateRow)
sync_states c [] checks rows = some rows
sync_states c (id ∷ ids) checks rows =
    let rest = sync_states c ids checks in
    find? (λ (a : Action). str_eq a.id id) c.actions >>= λ a.
    set_action_state c.run_id id a.state (if is_verified a.state then time_of id checks else none)
      rows
    >>= rest

abbrev pub same_status : RunStatus → RunStatus → Bool
same_status s t = elim (RunStatus-discrete s t) [ yes e ↦ true | no d ↦ false ]

module _ {S : Type 0} (d : Deps S) where
  -- `_audit`
  abbrev pub audited : String → String → Fields → World S → Option (World S)
  audited run_id event payload w = do
    r ← append_audit d.enc true d.now (some run_id) event payload w.audit
    some (record w { audit = r.1 })

  -- `_emit`
  abbrev pub emitted : Stage → RunStatus → String → World S → World S
  emitted stage status message w = record w {
    bus = (emit stage status message d.now false w.bus).1;
  }

  -- `_status`
  unfoldable pub change_status : String → RunStatus → List StoredRun → Option (List StoredRun)
  change_status run_id to runs = get_run run_id runs >>= λ row.
      if same_status row.status to
      then some runs
      else (check_run_transition row.status to >>= λ s. set_stage run_id none (some to) none runs)

  abbrev pub saved : CaseFile → Stage → World S → Option (CaseFile × World S)
  saved c stage w = do
    r ← save_case d.enc d.js c (some stage) none w.runs
    some (r.0, record w { runs = r.1 })

  abbrev pub synced : CaseFile → List String → List VerifyOutcome → World S → Option (World S)
  synced c ids checks w = do
    rows ← sync_states c ids checks w.actions
    some (record w { actions = rows })

  -- `_halt`
  unfoldable pub halt : String → String → Fields → String → World S → Option (World S)
  halt run_id event payload message w = do
    w' ← audited run_id event payload w
    runs ← change_status run_id failed w'.runs
    some (emitted handoff failed message (record w' { runs = runs }))
