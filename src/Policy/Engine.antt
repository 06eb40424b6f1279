-- ===== src/Policy/Engine.antt =====
-- engine/contextrail/policy/engine.py: the only producer of verdicts. `none` is a raised error.
use contextrail.Prelude.{
  ℕ, ◌+◌, Bool, false, String, Option, none, some, List, [], ◌∷◌, str_eq, contains, find?,
  if◌then◌else◌, ◌>>=◌,
}
use Prim.Native.String.{◌++◌}
use contextrail.Models.Value.{Value, str, dict, Fields, end, field, lookup}
use contextrail.Models.Subject.{Subject, dump}
use contextrail.Models.Verdict.{VerdictKind, is_allow, Verdict}
use contextrail.Prelude.{true, false}
use contextrail.Models.Action.{Action, create, apply_verdict}
use contextrail.Canonical.{Encoder}
use contextrail.Policy.Python.{Python, str_le}
use contextrail.Policy.Schema.{Rule, Escalate}
use contextrail.Policy.Matchers.{resolve, applies_to, matches}
use contextrail.Policy.Conditions.{evaluate, evaluate_all}
use contextrail.Policy.Approvers.{Directory}
use contextrail.Policy.Outcomes.{
  RuleOutcome, by_verdict, by_escalate, by_else, resolve_fired, time_box,
}

-- `expires_after` is in minutes.
pub record Decision : Type 0 where
  pub verdict : Verdict
  pub fired : List RuleOutcome
  pub alternative : Option String
  pub expires_after : Option ℕ

-- the keyword arguments of `decide`; an omitted dict is the empty one
pub record Request : Type 0 where
  pub role : Fields
  pub run : Fields
  pub decision : Fields
  pub disabled : List String

pub record Engine : Type 0 where
  pub rules : List Rule
  pub directory : Option Directory

unfoldable pub build_context : Action → Subject → Request → Fields
unfolding dump
build_context a s q = field "subject" (dict (dump s)) (
    field "target" (dict a.target) (
      field "action" (dict (field "id" (str a.id) (field "kind" (str a.kind) end))) (
        field "role" (dict q.role)
          (field "run" (dict q.run) (field "decision" (dict q.decision) end)))))

-- sorted(rules, key=lambda r: r.id), which is stable
abbrev pub insert_rule : Rule → List Rule → List Rule
insert_rule r [] = r ∷ []
insert_rule r (x ∷ xs) =
    let rest = insert_rule r xs in if str_le r.id x.id then r ∷ x ∷ xs else x ∷ rest

abbrev pub sort_rules : List Rule → List Rule
sort_rules [] = []
sort_rules (r ∷ rs) = insert_rule r (sort_rules rs)

-- `PolicyEngine.__init__`
unfoldable pub new : List Rule → Option Directory → Engine
new rules directory = record { rules = sort_rules rules; directory = directory }

-- value if isinstance(value, str) and value else None
abbrev offered : Value → Option String
offered (str s) = if str_eq s "" then none else some s
offered _ = none

-- (run or {}).get("requested_by")
abbrev pub text_of : Option Value → Option String
text_of (some (str s)) = some s
text_of _ = none

module _ (py : Python) where
  abbrev escalates : Option Escalate → Fields → Option Bool
  escalates none ctx = some false
  escalates (some e) ctx = evaluate py ctx (str e.when)

  abbrev escalation : Rule → Option Escalate → RuleOutcome
  escalation r none = record {
    rule = r;
    verdict = r.verdict;
    approver_role = r.approver;
    via = by_verdict;
  }
  escalation r (some e) = record {
    rule = r;
    verdict = e.verdict;
    approver_role = e.approver;
    via = by_escalate;
  }

  abbrev otherwise : Rule → Option VerdictKind → Option RuleOutcome
  otherwise r none = none
  otherwise r (some v) =
      some (record { rule = r; verdict = v; approver_role = none; via = by_else })

  unfoldable pub rule_outcome : Rule → Fields → Option (Option RuleOutcome)
  rule_outcome r ctx = do
    holds ← evaluate_all py ctx r.conditions
    raised ← (if holds then escalates r.escalate ctx else some false)
    some (
        if raised
        then some (escalation r r.escalate)
        else if holds
        then some (escalation r none)
        else otherwise r r.else_verdict)

  -- the filter of the generator, in the order of its tests
  abbrev pub concerns : List String → Action → Subject → Rule → Option Bool
  concerns disabled a s r =
      if contains r.id disabled
      then some false
      else (do applies ← applies_to r s; if applies then matches py r a else some false)

  abbrev pub fires : List String → Action → Subject → Fields → Rule → Option (Option RuleOutcome)
  fires disabled a s ctx r = do
    concerned ← concerns disabled a s r
    if concerned then rule_outcome r ctx else some none

  abbrev pub keep : Option RuleOutcome → List RuleOutcome → List RuleOutcome
  keep none os = os
  keep (some o) os = o ∷ os

  unfoldable pub fire :
      List String → Action → Subject → Fields → List Rule → Option (List RuleOutcome)
  unfolding rule_outcome
  fire disabled a s ctx [] = some []
  fire disabled a s ctx (r ∷ rs) = do
    o ← fires disabled a s ctx r
    os ← fire disabled a s ctx rs
    some (keep o os)

  abbrev alternative_of : Option RuleOutcome → Fields → Option String
  alternative_of none ctx = none
  alternative_of (some o) ctx = elim o.rule.alternative [
    | none ↦ none
    | some path ↦ offered (resolve py (dict ctx) path)
  ]

  -- `_alternative`
  unfoldable pub alternative : Verdict → List RuleOutcome → Fields → Option String
  alternative v fired ctx =
      if is_allow v.verdict
      then none
      else alternative_of (find? (λ (o : RuleOutcome). str_eq o.rule.id v.rule_id) fired) ctx

  unfoldable pub decide : Engine → Action → Subject → Request → Option Decision
  unfolding build_context fire resolve_fired alternative time_box
  decide engine a s q = do
    let ctx = build_context a s q
    fired ← fire q.disabled a s ctx engine.rules
    let verdict = resolve_fired engine.directory fired s (text_of (lookup "requested_by" q.run))
    expires_after ← time_box verdict fired
    some (record {
      verdict = verdict;
      fired = fired;
      alternative = alternative verdict fired ctx;
      expires_after = expires_after;
    })

-- the action of a call that returned
abbrev returned : Bool × Action → Option Action
returned (true, a) = some a
returned (false, a) = none

-- `apply_decision`, with a clock in minutes; the check for a naive datetime has nothing to test.
unfoldable pub apply_decision : Action → Decision → ℕ → Option Action
unfolding apply_verdict
apply_decision a d now = do
  stamped ← returned (apply_verdict a d.verdict)
  some (elim d.expires_after [
    | none ↦ stamped
    | some n ↦ record stamped { expires_at = some (now + n) }
  ])

-- One field that is left out where the text is absent or empty.
abbrev attributed : String → Option String → Fields → Fields
attributed key none d = d
attributed key (some t) d = if str_eq t "" then d else field key (str t) d

-- `check_decision`: separation of duties for an approval, by the same engine
unfoldable pub check_decision :
    Python
    → Encoder
    → Engine
    → Subject
    → String
    → String
    → String
    → Option String
    → Option String
    → Option Verdict
unfolding decide create
check_decision py enc engine s action_id params_hash approver requested_by beneficiary =
    let synthetic =
      create enc (action_id ++ ":decision") "approval_decision"
        (field "action_id" (str action_id) (field "params_hash" (str params_hash) end)) in
    let run = attributed "requested_by" requested_by (attributed "beneficiary" beneficiary end) in
    let q : Request = record {
      role = end;
      run = run;
      decision = field "approver" (str approver) end;
      disabled = [];
    } in
    synthetic >>= λ (a : Action). decide py engine a s q >>= λ (d : Decision). some d.verdict
