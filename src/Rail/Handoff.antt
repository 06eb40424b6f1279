-- ===== src/Rail/Handoff.antt =====
-- engine/contextrail/rail/handoff.py: the views of the sealed case file that the teams receive.
use contextrail.Prelude.{
  Bool, false, ◌&&◌, ◌||◌, String, Option, none, some, ◌>>=◌, List, [], ◌∷◌, str_eq, if◌then◌else◌,
  any, mentions,
}
use contextrail.Models.Value.{
  Value, null, str, list, dict, Items, nil, cons, Fields, end, field, lookup, equal,
}
use contextrail.Models.Case.{CaseFile}
use contextrail.Models.Dump.{JsonMode, dump_case, jsonable_fields}
use contextrail.Canonical.{Encoder, sha256_hex}
use contextrail.Capsule.{Checked, ok, digest_mismatch, invalid, verify}

pub data Team : Type 0 where
  it security : Team

abbrev pub team_name : Team → String
team_name it = "it"
team_name security = "security"

abbrev pub teams : List Team
teams = it ∷ security ∷ []

abbrev pub subject_fields : Team → List String
subject_fields it =
    "source_id" ∷ "display_name" ∷ "employment_type" ∷ "role" ∷ "team" ∷ "start_date" ∷ "end_date"
    ∷ []
subject_fields security =
    "source_id" ∷ "display_name" ∷ "employment_type" ∷ "role" ∷ "team" ∷ "seniority" ∷ "manager_id"
    ∷ "start_date" ∷ "end_date" ∷ "sow_repos" ∷ []

abbrev pub action_fields : List String
action_fields =
    "id" ∷ "kind" ∷ "verdict" ∷ "rule_id" ∷ "clause" ∷ "approver" ∷ "state" ∷ "params_hash"
    ∷ "expires_at" ∷ []

abbrev pub target_fields : Team → List String
target_fields it = "system" ∷ "entitlement" ∷ "label" ∷ "repo" ∷ "permission" ∷ []
target_fields security =
    "system" ∷ "entitlement" ∷ "label" ∷ "repo" ∷ "permission" ∷ "resource_class" ∷ "repo_tags" ∷ []

abbrev pub evidence_fields : Team → List String
evidence_fields it = []
evidence_fields security =
    "id" ∷ "kind" ∷ "source" ∷ "uri" ∷ "trust" ∷ "stale" ∷ "last_verified" ∷ []

abbrev pub case_fields : Team → List String
case_fields it = "constraints" ∷ "open_blockers" ∷ []
case_fields security = "constraints" ∷ "open_blockers" ∷ "decisions" ∷ []

-- {k: d[k] for k in fields if k in d}
unfoldable pub pick : List String → Fields → Fields
pick [] d = end
pick (k ∷ ks) d = elim (lookup k d) [ none ↦ pick ks d | some v ↦ field k v (pick ks d) ]

abbrev salary_words : List String
salary_words =
    "salar" ∷ "compensation" ∷ "payroll" ∷ "payband" ∷ "pay_band" ∷ "bonus" ∷ "wage" ∷ "ctc"
    ∷ "stipend" ∷ "bank" ∷ []

-- SALARY_LIKE.search(k), for ASCII
unfoldable pub salary_like : String → Bool
salary_like k = any (λ w. mentions w k) salary_words

-- any(SALARY_LIKE.search(k) for k in _keys(body))
unfoldable mutual
  pub leaks : Value → Bool
  leaks (dict d) = leaks_fields d
  leaks (list xs) = leaks_items xs
  leaks _ = false

  pub leaks_items : Items → Bool
  leaks_items nil = false
  leaks_items (cons x xs) = leaks x || leaks_items xs

  pub leaks_fields : Fields → Bool
  leaks_fields end = false
  leaks_fields (field k v d) = salary_like k || leaks v || leaks_fields d

abbrev fields_of : Value → Fields
fields_of (dict d) = d
fields_of _ = end

abbrev items_of : Value → Items
items_of (list xs) = xs
items_of _ = nil

-- c[key], for the keys that `model_dump` always writes
abbrev at_key : String → Fields → Value
at_key key d = elim (lookup key d) [ none ↦ null | some v ↦ v ]

abbrev map_items : (Value → Value) → Items → Items
map_items f nil = nil
map_items f (cons x xs) = cons (f x) (map_items f xs)

abbrev join : Fields → Fields → Fields
join end e = e
join (field k v d) e = field k v (join d e)

abbrev project_action : Team → Value → Value
project_action team a = dict (
    join (pick action_fields (fields_of a)) (
      field "target" (dict (pick (target_fields team) (fields_of (at_key "target" (fields_of a)))))
        end))

abbrev project_peer : Value → Value
project_peer (dict d) = dict (pick ("source_id" ∷ "display_name" ∷ []) d)
project_peer _ = null

abbrev project_evidence : Team → Fields → Fields
project_evidence it c = end
project_evidence security c =
    field "evidence"
      (list (
        map_items (λ e. dict (pick (evidence_fields security) (fields_of e)))
          (items_of (at_key "evidence" c))))
      end

abbrev pub body_of : Team → Fields → Fields
body_of team c = field "request_text" (at_key "request_text" c) (
    field "intent" (at_key "intent" c) (
      field "subject" (dict (pick (subject_fields team) (fields_of (at_key "subject" c)))) (
        field "peer" (project_peer (at_key "peer" c)) (
          field "actions" (list (map_items (project_action team) (items_of (at_key "actions" c))))
            (join (pick (case_fields team) c) (project_evidence team c))))))

abbrev guarded : Team → Fields → Option Fields
guarded it body = some body
guarded security body = if leaks_fields body then none else some body

-- `_project`; `none` is its ValueError.
unfoldable pub project : JsonMode → Team → CaseFile → Option Fields
project js team c = guarded team (body_of team (jsonable_fields js (dump_case c)))

pub record TeamView : Type 0 where
  pub team : Team
  pub run_id : String
  pub capsule_digest : String
  pub body : Fields
  pub view_digest : String

unfoldable pub view_digest : Encoder → Team → String → String → Fields → Option String
view_digest enc team run_id capsule_digest body = sha256_hex enc (
    dict (
      field "team" (str (team_name team)) (
        field "run_id" (str run_id)
          (field "capsule_digest" (str capsule_digest) (field "body" (dict body) end)))))

abbrev pub and_then {ℓ κ} : {A : Type ℓ} {B : Type κ} → Checked A → (A → Checked B) → Checked B
and_then (ok a) f = f a
and_then (digest_mismatch expected actual) f = digest_mismatch expected actual
and_then invalid f = invalid

abbrev pub or_invalid {ℓ} : {A : Type ℓ} → Option A → Checked A
or_invalid none = invalid
or_invalid (some a) = ok a

-- The view of a case whose seal was verified.
abbrev pub cut : Encoder → JsonMode → Team → CaseFile → Option TeamView
cut enc js team c = do
  digest ← c.digest
  body ← project js team c
  own ← view_digest enc team c.run_id digest body
  some (record {
    team = team;
    run_id = c.run_id;
    capsule_digest = digest;
    body = body;
    view_digest = own;
  })

unfoldable pub build_team_view : Encoder → JsonMode → CaseFile → Team → Checked TeamView
build_team_view enc js c team = and_then (verify enc c) (λ sealed. or_invalid (cut enc js team c))

-- view == expected
abbrev pub same_view : TeamView → TeamView → Bool
same_view v w =
    str_eq (team_name v.team) (team_name w.team)
    && str_eq v.run_id w.run_id
    && str_eq v.capsule_digest w.capsule_digest
    && equal (dict v.body) (dict w.body)
    && str_eq v.view_digest w.view_digest

abbrev pub digest_is : Option String → String → Bool
digest_is none h = false
digest_is (some d) h = str_eq h d

abbrev pub check_projection : TeamView → TeamView → Checked TeamView
check_projection view expected =
    if same_view view expected
    then ok view
    else digest_mismatch (some expected.view_digest) view.view_digest

abbrev pub check_cut : Encoder → JsonMode → TeamView → CaseFile → Checked TeamView
check_cut enc js view c =
    if digest_is c.digest view.capsule_digest
    then and_then (build_team_view enc js c view.team) (check_projection view)
    else digest_mismatch c.digest view.capsule_digest

-- The checks of `receive_view` on a payload that parsed.
unfoldable pub receive_view : Encoder → JsonMode → TeamView → CaseFile → Checked TeamView
receive_view enc js view c =
    and_then (or_invalid (view_digest enc view.team view.run_id view.capsule_digest view.body))
      (λ own.
        if str_eq own view.view_digest
        then check_cut enc js view c
        else digest_mismatch (some view.view_digest) own)

-- One hop: `parse` is model_validate_json after model_dump_json.
abbrev pub hop :
    Encoder → JsonMode → (TeamView → Option TeamView) → CaseFile → Team → Checked TeamView
hop enc js parse c team =
    and_then (build_team_view enc js c team)
      (λ view. and_then (or_invalid (parse view)) (λ received. receive_view enc js received c))

abbrev hop_all : (Team → Checked TeamView) → List Team → Checked (List (Team × TeamView))
hop_all f [] = ok []
hop_all f (t ∷ ts) =
    let rest = hop_all f ts in and_then (f t) (λ v. and_then rest (λ vs. ok ((t, v) ∷ vs)))

unfoldable pub hand_over :
    Encoder → JsonMode → (TeamView → Option TeamView) → CaseFile → Checked (List (Team × TeamView))
hand_over enc js parse c = hop_all (hop enc js parse c) teams
