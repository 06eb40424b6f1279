-- ===== src/Tests/Policies.antt =====
-- The policy engine on one rule.
use contextrail.Prelude.{
  ◌≤◌, ℕ, none, some, [], ◌∷◌, ◌≡◌, refl, true, false, ◌≢◌, ◌⊎◌, At, here, there,
}
use contextrail.Models.Verdict.{allow, refuse, is_shaped}
use contextrail.Policy.Outcomes.{RuleOutcome, by_verdict}
use contextrail.Policy.Engine.{Decision, build_context, decide}
use contextrail.Policy.Matchers.{applies_to, matches}
use contextrail.Policy.Conditions.{evaluate_all}
use contextrail.Policy.Outcomes.{default_deny}
use contextrail.Policy.TimeBox.{Limits}
use contextrail.Policy.Approvers.{
  Directory, candidates_of, unresolved, resolve_approver, candidates,
}
use contextrail.Policy.Schema.{Rule, accepts}
use contextrail.Policy.Decisions.{Fired, IsJustified, decide-IsJustified}
use contextrail.Policy.Guarantees.{decide-is_shaped, resolve_approver_lem, decide-permits}
use contextrail.Policy.TimeBox.{expires_shortest}
use contextrail.Tests.Samples.{
  sample_python, sample_subject, sample_action, sample_rule, sample_engine, sample_request,
}

abbrev sample_outcome : RuleOutcome
sample_outcome = record {
  rule = sample_rule;
  verdict = allow;
  approver_role = none;
  via = by_verdict;
}

abbrev sample_decision : Decision
sample_decision = record {
  verdict = record {
    verdict = allow;
    rule_id = "POL-WKI-001";
    clause_text = "Everyone in the company may read the wiki.";
    approver = none;
    terminal = false;
  };
  fired = sample_outcome ∷ [];
  alternative = none;
  expires_after = some 240;
}

decided :
    decide sample_python sample_engine sample_action sample_subject sample_request
    ≡ some sample_decision
unfolding decide applies_to matches evaluate_all
decided = refl

decide-IsJustified_example :
    IsJustified sample_python sample_engine sample_action sample_subject sample_request
      sample_decision
decide-IsJustified_example =
    decide-IsJustified sample_python sample_engine sample_action sample_subject sample_request
      sample_decision decided

granted : sample_decision.verdict.verdict ≢ refuse
granted e = cc

expires_shortest_example :
    ((o : RuleOutcome) (n : ℕ)
      → At o sample_decision.fired
      → Limits o n
      → (m : ℕ) × (sample_decision.expires_after ≡ some m) × (m ≤ n))
    × ((m : ℕ)
        → sample_decision.expires_after ≡ some m
        → (o : RuleOutcome) × At o sample_decision.fired × Limits o m)
expires_shortest_example =
    expires_shortest sample_python sample_engine sample_action sample_subject sample_request
      sample_decision decided granted

is_accepted : (r : Rule) → At r sample_engine.rules → accepts sample_python r ≡ true
unfolding accepts
is_accepted _ here = refl
is_accepted _ (there m) = elim m [ ]

decide-is_shaped_example : is_shaped sample_decision.verdict ≡ true
decide-is_shaped_example =
    decide-is_shaped sample_python sample_engine sample_action sample_subject sample_request
      sample_decision is_accepted decided

decide-permits_example :
    (o : RuleOutcome) × At o.rule sample_engine.rules
    × Fired sample_python sample_request.disabled sample_action sample_subject
        (build_context sample_action sample_subject sample_request)
        o
    × (o.verdict ≡ allow)
    × ("POL-WKI-001" ≡ o.rule.id)
    × ((other : RuleOutcome)
        → At other.rule sample_engine.rules
        → Fired sample_python sample_request.disabled sample_action sample_subject
            (build_context sample_action sample_subject sample_request)
            other
        → other.verdict ≢ refuse)
decide-permits_example =
    decide-permits sample_python sample_engine sample_action sample_subject sample_request
      sample_decision decided granted

-- With its only rule disabled, the engine refuses.
denied_by_default :
    decide sample_python sample_engine sample_action sample_subject
      (record sample_request { disabled = "POL-WKI-001" ∷ [] })
    ≡ some (record { verdict = default_deny; fired = []; alternative = none; expires_after = none })
unfolding decide
denied_by_default = refl

-- the requester is the first of two candidates
abbrev sample_directory : Directory
sample_directory = candidates (record { roster = ("owner", "p1" ∷ "p2" ∷ []) ∷ []; managers = [] })

resolve_approver_lem_example :
    (At
        (resolve_approver (some sample_directory) (some "owner") sample_subject (some "p1"))
        (candidates_of (some sample_directory) (some "owner") sample_subject)
      × (resolve_approver (some sample_directory) (some "owner") sample_subject (some "p1") ≢ "")
      × (some "p1"
          ≢ some
              (resolve_approver (some sample_directory) (some "owner") sample_subject (some "p1"))))
    ⊎ (resolve_approver (some sample_directory) (some "owner") sample_subject (some "p1")
        ≡ unresolved (some "owner"))
resolve_approver_lem_example =
    resolve_approver_lem (some sample_directory) (some "owner") sample_subject (some "p1")
