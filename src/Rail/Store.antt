-- ===== src/Rail/Store.antt =====
-- engine/contextrail/rail/store.py over `set_stage` and `get_run` of repo.py: the sealed case file
-- on the row of its run.
use contextrail.Prelude.{
  Bool, true, false, String, Option, none, some, ◌>>=◌, List, [], ◌∷◌, str_eq, if◌then◌else◌, find?,
}
use contextrail.Models.Value.{Value, dict}
use contextrail.Models.Case.{CaseFile}
use contextrail.Models.Run.{RunStatus, Stage}
use contextrail.Models.Dump.{JsonMode, dump_case, jsonable}
use contextrail.Canonical.{Encoder}
use contextrail.Capsule.{Checked, ok, digest_mismatch, invalid, same_digest, seal, receive}

-- The columns of a run that `set_stage` writes.
pub record StoredRun : Type 0 where
  pub id : String
  pub stage : Option Stage
  pub status : RunStatus
  pub intent : Option String
  pub subject_id : Option String
  pub capsule : Option Value
  pub capsule_digest : Option String

-- The optional fields, which the rail gives together.
pub record RunFields : Type 0 where
  pub intent : String
  pub subject_id : String
  pub capsule : Value
  pub capsule_digest : Option String

abbrev or_old {ℓ} : {A : Type ℓ} → Option A → Option A → Option A
or_old none old = old
or_old (some x) old = some x

abbrev set_status : Option RunStatus → RunStatus → RunStatus
set_status none old = old
set_status (some s) old = s

abbrev set_fields : Option RunFields → StoredRun → StoredRun
set_fields none r = r
set_fields (some f) r = record r {
  intent = some f.intent;
  subject_id = some f.subject_id;
  capsule = some f.capsule;
  capsule_digest = f.capsule_digest;
}

abbrev pub set_row : Option Stage → Option RunStatus → Option RunFields → StoredRun → StoredRun
set_row stage status fields r =
    set_fields fields
      (record r { stage = or_old stage r.stage; status = set_status status r.status })

-- `none` is LookupError: there is no such run.
unfoldable pub set_stage :
    String
    → Option Stage
    → Option RunStatus
    → Option RunFields
    → List StoredRun
    → Option (List StoredRun)
set_stage run_id stage status fields [] = none
set_stage run_id stage status fields (r ∷ rs) =
    let rest = set_stage run_id stage status fields rs in
    if str_eq r.id run_id
    then some (set_row stage status fields r ∷ rs)
    else (rest >>= λ rows. some (r ∷ rows))

unfoldable pub get_run : String → List StoredRun → Option StoredRun
get_run run_id rows = find? (λ (r : StoredRun). str_eq r.id run_id) rows

abbrev pub sealing : JsonMode → CaseFile → RunFields
sealing js c = record {
  intent = c.intent;
  subject_id = c.subject.source_id;
  capsule = jsonable js (dict (dump_case c));
  capsule_digest = c.digest;
}

-- The sealed case and the runs after it; `none` is an error of the digest or of the lookup.
unfoldable pub save_case :
    Encoder
    → JsonMode
    → CaseFile
    → Option Stage
    → Option RunStatus
    → List StoredRun
    → Option (CaseFile × List StoredRun)
save_case enc js c stage status rows = do
  sealed ← seal enc c
  rows' ← set_stage c.run_id stage status (some (sealing js sealed)) rows
  some (sealed, rows')

abbrev pub recorded_digest : Option String → Option String → Bool
recorded_digest none none = true
recorded_digest (some d) recorded = same_digest recorded d
recorded_digest none (some h) = false

abbrev digest_text : Option String → String
digest_text none = ""
digest_text (some d) = d

abbrev pub check_recorded : Option String → Checked CaseFile → Checked CaseFile
check_recorded recorded (ok c) =
    if recorded_digest c.digest recorded
    then ok c
    else digest_mismatch recorded (digest_text c.digest)
check_recorded recorded (digest_mismatch expected actual) = digest_mismatch expected actual
check_recorded recorded invalid = invalid

abbrev pub load_payload :
    Encoder → (Value → Option CaseFile) → Option String → Option Value → Checked CaseFile
load_payload enc model_validate recorded none = invalid
load_payload enc model_validate recorded (some payload) =
    check_recorded recorded (receive enc model_validate payload)

abbrev load_row : Encoder → (Value → Option CaseFile) → Option StoredRun → Checked CaseFile
load_row enc model_validate none = invalid
load_row enc model_validate (some row) =
    load_payload enc model_validate row.capsule_digest row.capsule

-- `invalid` is LookupError, or a payload that is no case file.
unfoldable pub load_case :
    Encoder → (Value → Option CaseFile) → String → List StoredRun → Checked CaseFile
load_case enc model_validate run_id rows = load_row enc model_validate (get_run run_id rows)
