-- ===== src/Policy/Approvers.antt =====
-- engine/contextrail/policy/approvers.py: a HOLD names a person, not a role.
use Prim.Native.String.{◌++◌}
use contextrail.Prelude.{
  Bool, true, false, not, ◌&&◌, String, Option, none, some, List, [], ◌∷◌, str_eq, get_or,
  if◌then◌else◌,
}
use contextrail.Models.Subject.{Subject}
use contextrail.Policy.Python.{starts}

-- the protocol ApproverDirectory: the candidates for a role on a subject, in order
abbrev pub Directory : Type 0
Directory = Option String → Subject → List String

-- `f"role:{role}"`; Python prints None for no role
unfoldable pub unresolved : Option String → String
unresolved none = "role:None"
unresolved (some role) = "role:" ++ role

abbrev pub is_requester : Option String → String → Bool
is_requester none person = false
is_requester (some requester) person = str_eq requester person

-- the loop over the candidates
unfoldable pub first_other : Option String → List String → Option String
first_other requested_by [] = none
first_other requested_by (person ∷ rest) =
    let later = first_other requested_by rest in
    if not (str_eq person "") && not (is_requester requested_by person) then some person else later

abbrev pub candidates_of : Option Directory → Option String → Subject → List String
candidates_of none role subject = []
candidates_of (some directory) role subject = directory role subject

unfoldable pub resolve_approver :
    Option Directory → Option String → Subject → Option String → String
unfolding first_other unresolved
resolve_approver directory role subject requested_by =
    get_or (first_other requested_by (candidates_of directory role subject)) (unresolved role)

unfoldable pub is_unresolved : Option String → Bool
is_unresolved none = true
is_unresolved (some approver) = starts "role:" approver

abbrev find_text {ℓ} : {V : Type ℓ} → String → List (String × V) → Option V
find_text k [] = none
find_text k ((j, v) ∷ d) = let rest = find_text k d in if str_eq j k then some v else rest

-- `StaticDirectory`
pub record StaticDirectory : Type 0 where
  pub roster : List (String × List String)
  pub managers : List (String × String)

-- [person] if person else []
abbrev singleton : Option String → List String
singleton none = []
singleton (some person) = if str_eq person "" then [] else person ∷ []

-- managers.get(manager_id or "", manager_id)
abbrev manager_of : List (String × String) → Option String → Option String
manager_of managers manager_id = elim (find_text (get_or manager_id "") managers) [
  | none ↦ manager_id
  | some p ↦ some p
]

unfoldable pub candidates : StaticDirectory → Directory
candidates d none subject = []
candidates d (some role) subject =
    if str_eq role "manager"
    then singleton (manager_of d.managers subject.manager_id)
    else get_or (find_text role d.roster) []
