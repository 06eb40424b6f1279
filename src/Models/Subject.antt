-- ===== src/Models/Subject.antt =====
-- `Subject` of engine/contextrail/models.py: the person a run is about, as fetched.
use contextrail.Prelude.{ℕ, String, Option, none, some, List, [], ◌∷◌}
use contextrail.Models.Value.{Value, null, str, date, list, Items, nil, cons, Fields, end, field}

pub data Source : Type 0 where
  freshservice hris freshdesk : Source

pub data EmploymentType : Type 0 where
  employee contractor vendor customer : EmploymentType

pub data Seniority : Type 0 where
  junior mid senior lead principal : Seniority

-- Dates are ordinals.
pub record Subject : Type 0 where
  pub source : Source
  pub source_id : String
  pub display_name : String
  pub employment_type : EmploymentType
  pub role : Option String
  pub team : Option String
  pub seniority : Option Seniority
  pub manager_id : Option String
  pub start_date : Option ℕ
  pub end_date : Option ℕ
  pub sow_repos : List String

abbrev pub source_name : Source → String
source_name freshservice = "freshservice"
source_name hris = "hris"
source_name freshdesk = "freshdesk"

abbrev pub employment_name : EmploymentType → String
employment_name employee = "employee"
employment_name contractor = "contractor"
employment_name vendor = "vendor"
employment_name customer = "customer"

abbrev pub seniority_name : Seniority → String
seniority_name junior = "junior"
seniority_name mid = "mid"
seniority_name senior = "senior"
seniority_name lead = "lead"
seniority_name principal = "principal"

abbrev pub texts : List String → Items
texts [] = nil
texts (s ∷ l) = cons (str s) (texts l)

abbrev pub optional {ℓ} : {A : Type ℓ} → (A → Value) → Option A → Value
optional f none = null
optional f (some a) = f a

-- subject.model_dump(mode="python")
unfoldable pub dump : Subject → Fields
dump s = field "source" (str (source_name s.source)) (
    field "source_id" (str s.source_id) (
      field "display_name" (str s.display_name) (
        field "employment_type" (str (employment_name s.employment_type)) (
          field "role" (optional str s.role) (
            field "team" (optional str s.team) (
              field "seniority" (optional (λ l. str (seniority_name l)) s.seniority) (
                field "manager_id" (optional str s.manager_id) (
                  field "start_date" (optional date s.start_date) (
                    field "end_date" (optional date s.end_date)
                      (field "sow_repos" (list (texts s.sow_repos)) end))))))))))
