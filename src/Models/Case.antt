-- ===== src/Models/Case.antt =====
-- `CaseFile` of engine/contextrail/models.py: the case that a run carries through its stages.
use contextrail.Prelude.{
  Bool, not, ◌&&◌, true, String, Option, none, some, List, [], ◌∷◌, map, contains, if◌then◌else◌,
}
use contextrail.Models.Value.{Fields}
use contextrail.Models.Subject.{Subject}
use contextrail.Models.Evidence.{Evidence}
use contextrail.Models.Action.{Action}

pub record CaseFile : Type 0 where
  pub run_id : String
  pub request_text : String
  pub intent : String
  pub subject : Subject
  pub peer : Option Subject
  pub evidence : List Evidence
  pub constraints : List String
  pub actions : List Action
  pub decisions : List Fields
  pub open_blockers : List String
  pub digest : Option String

-- whether no text occurs twice
abbrev distinct : List String → Bool
distinct [] = true
distinct (s ∷ ss) = not (contains s ss) && distinct ss

-- `_unique_ids`; `none` is the validation error.
unfoldable pub unique_ids : CaseFile → Option CaseFile
unique_ids c =
    if distinct (map (λ (a : Action). a.id) c.actions)
      && distinct (map (λ (e : Evidence). e.id) c.evidence)
    then some c
    else none
