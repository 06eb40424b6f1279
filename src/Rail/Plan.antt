-- ===== src/Rail/Plan.antt =====
-- engine/contextrail/rail/plan.py: transfer revocations, the order of the plan and explanations.
use contextrail.Prelude.{
  ℕ, suc, ltb, Bool, String, Option, none, some, ◌>>=◌, List, [], ◌∷◌, ◌++◌, find?, ◌==◌, str_eq,
  if◌then◌else◌, two_digits, ◌&◌,
}
use contextrail.Models.Value.{Value, str, list, Fields, end, field, lookup, member, Items, nil}
use contextrail.Models.Subject.{Subject}
use contextrail.Models.Verdict.{VerdictKind, allow, hold, refuse}
use contextrail.Models.Dump.{verdict_name}
use contextrail.Models.Action.{Action, create}
use contextrail.Canonical.{Encoder}
use contextrail.Policy.Python.{Python, str_le}
use contextrail.Policy.Outcomes.{RuleOutcome}
use contextrail.Policy.Engine.{Engine}
use contextrail.Rail.Govern.{
  CompileInputs, Governed, put, entry, requester, request_of, evaluate_all_actions,
}

abbrev role_scope : Fields → Items
role_scope d = elim (lookup "role_scope" d) [ some (list xs) ↦ xs | _ ↦ nil ]

-- Whether the role covers an entitlement; `none` is KeyError.
abbrev covers : Subject → Fields → String → Option Bool
covers subject catalog e = do
  known ← entry e catalog
  some (member (requester subject.role) (role_scope known))

-- The holdings that the role does not cover.
unfoldable pub uncovered : Subject → Fields → List String → Option (List String)
uncovered subject catalog [] = some []
uncovered subject catalog (e ∷ es) =
    let rest = uncovered subject catalog es in
    covers subject catalog e >>= λ c. rest >>= λ old. some (if c then old else e ∷ old)

abbrev revoke : Encoder → ℕ → String → Fields → Value → Subject → Option Action
revoke enc n e catalog previous subject = do
  known ← entry e catalog
  create enc ("R" & two_digits n) "revoke" (
      put "subject_id" (str subject.source_id) (
        put "previous_team" previous
          (put "origin" (str "transfer") (put "entitlement" (str e) known))))

unfoldable pub revokes : Encoder → ℕ → List String → Fields → Value → Subject → Option (List Action)
revokes enc n [] catalog previous subject = some []
revokes enc n (e ∷ es) catalog previous subject =
    let rest = revokes enc (suc n) es catalog previous subject in
    revoke enc n e catalog previous subject >>= λ a. rest >>= λ as'. some (a ∷ as')

-- the previous team of a record, where it is given
abbrev pub previous_team : Fields → Option Value
previous_team d = elim (lookup "previous_team" d) [
  | some (str t) ↦ if str_eq t "" then none else some (str t)
  | _ ↦ none
]

abbrev revokes_after : Encoder → Option Value → Subject → CompileInputs → Option (List Action)
revokes_after enc none subject inputs = some []
revokes_after enc (some previous) subject inputs = do
  old ← uncovered subject inputs.catalog inputs.subject_holdings
  revokes enc 1 old inputs.catalog previous subject

unfoldable pub transfer_revokes : Encoder → Subject → Fields → CompileInputs → Option (List Action)
transfer_revokes enc subject subject_record inputs =
    revokes_after enc (previous_team subject_record) subject inputs

abbrev rank_of : VerdictKind → String → ℕ
rank_of allow kind = if str_eq kind "grant" then 0 else 1
rank_of hold kind = 2
rank_of refuse kind = 3

-- the first part of `_rank`
unfoldable pub rank : Governed → ℕ
rank g = rank_of g.verdict.verdict g.action.kind

-- `_rank` of the first is not above that of the second
unfoldable pub ranked : Governed → Governed → Bool
ranked g h = if rank g == rank h then str_le g.action.id h.action.id else ltb (rank g) (rank h)

unfoldable pub insert : Governed → List Governed → List Governed
insert g [] = g ∷ []
insert g (h ∷ hs) = let rest = insert g hs in if ranked g h then g ∷ h ∷ hs else h ∷ rest

-- sorted(governed, key=_rank): equal keys keep their order
unfoldable pub sorted : List Governed → List Governed
sorted [] = []
sorted (g ∷ gs) = insert g (sorted gs)

unfoldable pub build_plan :
    Encoder
    → Python
    → Engine
    → List Governed
    → Subject
    → Fields
    → CompileInputs
    → Option String
    → ℕ
    → Option (List Governed)
build_plan enc py engine governed subject subject_record inputs requested_by now = do
  actions ← transfer_revokes enc subject subject_record inputs
  revoked ← evaluate_all_actions py engine subject (request_of inputs.role requested_by) now actions
  some (sorted (governed ++ revoked))

abbrev pub title_of : String → List RuleOutcome → Option String
title_of rule_id fired =
    find? (λ (o : RuleOutcome). str_eq o.rule.id rule_id) fired >>= λ o. some o.rule.title

abbrev person : List (String × String) → String → String
person [] id = id
person ((p, name) ∷ people) id = let rest = person people id in if str_eq p id then name else rest

abbrev text_or_none : Option String → String
text_or_none none = "None"
text_or_none (some s) = s

abbrev approver_name : List (String × String) → Option String → String
approver_name people none = "None"
approver_name people (some p) = person people p

-- `TemplateExplainer.explain`
unfoldable pub explain : List (String × String) → Governed → Option String
explain people g = elim g.verdict.verdict [
  | allow ↦ none
  | hold ↦ some (
      "Held for "
      & approver_name people g.verdict.approver
      & ": "
      & text_or_none (title_of g.verdict.rule_id g.fired)
      & ".")
  | refuse ↦
      if str_eq g.verdict.rule_id "DEFAULT-DENY"
      then some "Refused: no written policy allows this."
      else some (
          "Refused under "
          & g.verdict.rule_id
          & (if g.verdict.terminal then " (no approval path)" else "")
          & ": "
          & text_or_none (title_of g.verdict.rule_id g.fired)
          & ".")
]

abbrev explanation : Governed → String → Fields
explanation g text = field "action_id" (str g.action.id) (
    field "verdict" (str (verdict_name g.verdict.verdict)) (
      field "rule_id" (str g.verdict.rule_id)
        (field "explanation" (str text) (field "explainer" (str "template") end))))

abbrev with_text : Governed → Option String → List Fields → List Fields
with_text g none rest = rest
with_text g (some text) rest = if str_eq text "" then rest else explanation g text ∷ rest

unfoldable pub explanations : List (String × String) → List Governed → List Fields
explanations people [] = []
explanations people (g ∷ gs) = with_text g (explain people g) (explanations people gs)
