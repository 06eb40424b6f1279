-- ===== src/Rail/Govern.antt =====
-- engine/contextrail/rail/govern.py: the candidate actions of a request and their verdicts.
use contextrail.Prelude.{
  ℕ, suc, Bool, true, false, not, ◌&&◌, String, Option, none, some, ◌>>=◌, List, [], ◌∷◌, ◌++◌,
  filter, contains, str_eq, if◌then◌else◌, two_digits, ◌&◌,
}
use contextrail.Models.Value.{
  Value, null, str, list, dict, Items, nil, cons, Fields, end, field, lookup,
}
use contextrail.Models.Subject.{Subject}
use contextrail.Models.Evidence.{Evidence}
use contextrail.Models.Verdict.{Verdict}
use contextrail.Models.Action.{Action, create}
use contextrail.Canonical.{Encoder}
use contextrail.Policy.Python.{Python}
use contextrail.Policy.Outcomes.{RuleOutcome}
use contextrail.Policy.Engine.{Engine, Request, decide, apply_decision}

-- `CompileInputs` of rail/compile.py
pub record CompileInputs : Type 0 where
  pub subject_holdings : List String
  pub peer_holdings : List String
  pub catalog : Fields
  pub role : Fields
  pub evidence : List Evidence
  pub blockers : List String

-- d[key] = v
abbrev pub put : String → Value → Fields → Fields
put key v end = field key v end
put key v (field k w d) =
    let rest = put key v d in if str_eq k key then field k v d else field k w rest

-- catalog[ent], which is a dict
abbrev pub entry : String → Fields → Option Fields
entry ent catalog = elim (lookup ent catalog) [ some (dict d) ↦ some d | _ ↦ none ]

-- `none` is KeyError, or a target that cannot be hashed.
unfoldable pub grant : Encoder → ℕ → String → Fields → Subject → String → Option Action
grant enc n ent catalog subject origin = do
  known ← entry ent catalog
  create enc ("A" & two_digits n) "grant" (
      put "subject_id" (str subject.source_id)
        (put "origin" (str origin) (put "entitlement" (str ent) known)))

-- [_grant(i, e, ...) for i, e in enumerate(wanted, n)]
unfoldable pub grants : Encoder → ℕ → List String → Fields → Subject → String → Option (List Action)
grants enc n [] catalog subject origin = some []
grants enc n (e ∷ es) catalog subject origin =
    let rest = grants enc (suc n) es catalog subject origin in
    grant enc n e catalog subject origin >>= λ a. rest >>= λ as'. some (a ∷ as')

abbrev strings : Items → List String
strings nil = []
strings (cons (str s) xs) = s ∷ strings xs
strings (cons _ xs) = strings xs

abbrev pub texts_at : String → Fields → List String
texts_at key d = elim (lookup key d) [ some (list xs) ↦ strings xs | _ ↦ [] ]

abbrev is_text : String → Option Value → Bool
is_text s (some (str t)) = str_eq t s
is_text s _ = false

abbrev fields_of : Value → Fields
fields_of (dict d) = d
fields_of _ = end

-- {t["repo"]: e for e, t in catalog.items() if t.get("system") == "github"}; `none` is KeyError
abbrev sow_entries : Fields → Option (List (String × String))
sow_entries end = some []
sow_entries (field e t d) =
    let rest = sow_entries d in
    if is_text "github" (lookup "system" (fields_of t))
    then elim (lookup "repo" (fields_of t)) [
      | some (str repo) ↦ (rest >>= λ l. some ((repo, e) ∷ l))
      | _ ↦ none
    ]
    else rest

-- The last entry of a key counts.
abbrev sow_of : String → List (String × String) → Option String
sow_of repo [] = none
sow_of repo ((r, e) ∷ l) =
    let rest = sow_of repo l in
    elim rest [ some x ↦ some x | none ↦ if str_eq r repo then some e else none ]

abbrev new_entry : List String → List String → Option String → List String → List String
new_entry wanted held none rest = rest
new_entry wanted held (some e) rest =
    if not (contains e wanted) && not (contains e held) then e ∷ rest else rest

abbrev from_sow : List String → List String → List (String × String) → List String → List String
from_sow wanted held sow [] = []
from_sow wanted held sow (r ∷ rs) =
    new_entry wanted held (sow_of r sow) (from_sow wanted held sow rs)

-- [e for e, t in catalog.items() if team in t.get("teams", []) and e not in wanted and e not in held]
abbrev from_team : List String → List String → String → Fields → List String
from_team wanted held team end = []
from_team wanted held team (field e t d) =
    let rest = from_team wanted held team d in
    if contains team (texts_at "teams" (fields_of t))
    then new_entry wanted held (some e) rest
    else rest

abbrev everything_of : Bool → Option String → List String → List String → Fields → List String
everything_of true (some team) wanted held catalog =
    if str_eq team "" then [] else from_team wanted held team catalog
everything_of _ _ wanted held catalog = []

-- `everything` is _EVERYTHING.search; what is not held, of a list
abbrev pub missing_of : List String → List String → List String
missing_of held l = filter (λ e. not (contains e held)) l

abbrev pub onboarding_wanted :
    (String → Bool) → String → Subject → CompileInputs → List (String × String) → List String
onboarding_wanted everything text subject inputs sow =
    let base = missing_of inputs.subject_holdings (texts_at "baseline" inputs.role) in
    let more = base ++ from_sow base inputs.subject_holdings sow subject.sow_repos in
    more ++ everything_of (everything text) subject.team more inputs.subject_holdings inputs.catalog

-- What the request could mean. `none` is KeyError.
unfoldable pub wanted_of :
    (String → Bool) → String → String → Subject → CompileInputs → Option (List String × String)
wanted_of everything intent text subject inputs =
    if str_eq intent "access.same_as_peer"
    then some (missing_of inputs.subject_holdings inputs.peer_holdings, "same_as_peer")
    else if str_eq intent "onboarding"
    then (sow_entries inputs.catalog >>= λ sow.
        some (onboarding_wanted everything text subject inputs sow, "onboarding"))
    else some ([], "onboarding")

unfoldable pub build_candidates :
    Encoder → (String → Bool) → String → String → Subject → CompileInputs → Option (List Action)
build_candidates enc everything intent text subject inputs = do
  wanted ← wanted_of everything intent text subject inputs
  grants enc 1 wanted.0 inputs.catalog subject wanted.1

pub record Governed : Type 0 where
  pub action : Action
  pub verdict : Verdict
  pub fired : List RuleOutcome

abbrev pub requester : Option String → Value
requester none = null
requester (some p) = str p

abbrev pub request_of : Fields → Option String → Request
request_of role requested_by = record {
  role = role;
  run = field "requested_by" (requester requested_by) end;
  decision = end;
  disabled = [];
}

unfoldable pub govern_one : Python → Engine → Subject → Request → ℕ → Action → Option Governed
govern_one py engine subject q now a = do
  d ← decide py engine a subject q
  stamped ← apply_decision a d now
  some (record { action = stamped; verdict = d.verdict; fired = d.fired })

-- `evaluate`
unfoldable pub evaluate_all_actions :
    Python → Engine → Subject → Request → ℕ → List Action → Option (List Governed)
evaluate_all_actions py engine subject q now [] = some []
evaluate_all_actions py engine subject q now (a ∷ as') =
    let rest = evaluate_all_actions py engine subject q now as' in
    govern_one py engine subject q now a >>= λ g. rest >>= λ gs. some (g ∷ gs)
