-- ===== src/Policy/Outcomes.antt =====
-- The outcomes that rules give, and the verdict and time box that follow from them (`_resolve` and
-- `_time_box` of engine/contextrail/policy/engine.py).
use contextrail.Prelude.{
  codes, ℕ, suc, Bool, true, false, not, ◌&&◌, ◌||◌, String, Option, none, some, List, [], ◌∷◌,
  ◌==◌, ltb, str_eq, filter, get_or, if◌then◌else◌, ◌>>=◌,
}
use contextrail.Models.Subject.{Subject}
use contextrail.Models.Verdict.{
  VerdictKind, allow, hold, refuse, is_allow, is_hold, is_refuse, Verdict,
}
use contextrail.Policy.Python.{str_lt}
use contextrail.Policy.Schema.{Rule, approver_roles, duration}
use contextrail.Policy.Approvers.{Directory, resolve_approver}

abbrev pub default_deny_id : String
default_deny_id = "DEFAULT-DENY"

abbrev pub default_deny_clause : String
default_deny_clause =
    "No written policy allows this action. Under the Access Control & Least Privilege Standard, access and changes are denied by default until a rule explicitly allows them."

pub data Via : Type 0 where
  by_verdict by_escalate by_else : Via

pub record RuleOutcome : Type 0 where
  pub rule : Rule
  pub verdict : VerdictKind
  pub approver_role : Option String
  pub via : Via

module _ {A : Type 0} where
  -- the loop of `min` and `max`: a later element is taken only where it is better
  abbrev pub pick : (A → A → Bool) → A → List A → A
  pick better a [] = a
  pick better a (x ∷ xs) = pick better (if better x a then x else a) xs

  -- min(xs, key=…)
  abbrev pub least : (A → A → Bool) → A → List A → A
  least less = pick less

  -- max(xs, key=…)
  abbrev pub greatest : (A → A → Bool) → A → List A → A
  greatest less = pick (λ x a. less a x)

-- (not terminal, id) of the first below that of the second
abbrev pub refusal_lt : RuleOutcome → RuleOutcome → Bool
refusal_lt a b =
    (a.rule.terminal && not b.rule.terminal)
    || ((not a.rule.terminal || b.rule.terminal)
        && (a.rule.terminal || not b.rule.terminal)
        && str_lt a.rule.id b.rule.id)

abbrev pub allow_lt : RuleOutcome → RuleOutcome → Bool
allow_lt a b = str_lt a.rule.id b.rule.id

abbrev rank_in : String → List String → Option ℕ
rank_in role [] = none
rank_in role (r ∷ rs) =
    let rest = rank_in role rs in
    if str_eq r role then some 0 else elim rest [ none ↦ none | some n ↦ some (suc n) ]

abbrev above_unknown : Option ℕ → ℕ
above_unknown none = 0
above_unknown (some n) = suc n

-- _APPROVER_RANK.get(role or "", -1), plus one
unfoldable pub rank : Option String → ℕ
rank role = above_unknown (rank_in (get_or role "") approver_roles)

-- the order of `_neg`: tuples of negated code points
abbrev pub neg_lt : List ℕ → List ℕ → Bool
neg_lt [] [] = false
neg_lt [] (y ∷ ys) = true
neg_lt (x ∷ xs) [] = false
neg_lt (x ∷ xs) (y ∷ ys) = ltb y x || (x == y && neg_lt xs ys)

-- (rank, _neg(id)) of the first below that of the second
unfoldable pub hold_lt : RuleOutcome → RuleOutcome → Bool
hold_lt a b =
    ltb (rank a.approver_role) (rank b.approver_role)
    || (rank a.approver_role == rank b.approver_role && neg_lt (codes a.rule.id) (codes b.rule.id))

abbrev pub of_kind : (VerdictKind → Bool) → List RuleOutcome → List RuleOutcome
of_kind p = filter (λ (o : RuleOutcome). p o.verdict)

abbrev pub refused_by : RuleOutcome → Verdict
refused_by top = record {
  verdict = refuse;
  rule_id = top.rule.id;
  clause_text = top.rule.clause_text;
  approver = none;
  terminal = top.rule.terminal;
}

abbrev pub held_by : Option Directory → Subject → Option String → RuleOutcome → Verdict
held_by directory subject requested_by top = record {
  verdict = hold;
  rule_id = top.rule.id;
  clause_text = top.rule.clause_text;
  approver = some (resolve_approver directory top.approver_role subject requested_by);
  terminal = false;
}

abbrev pub allowed_by : RuleOutcome → Verdict
allowed_by top = record {
  verdict = allow;
  rule_id = top.rule.id;
  clause_text = top.rule.clause_text;
  approver = none;
  terminal = false;
}

abbrev pub default_deny : Verdict
default_deny = record {
  verdict = refuse;
  rule_id = default_deny_id;
  clause_text = default_deny_clause;
  approver = none;
  terminal = false;
}

-- `_resolve` by its three lists: refusals, then holds, then allowances
abbrev pub among_allows : List RuleOutcome → Verdict
among_allows [] = default_deny
among_allows (o ∷ os) = allowed_by (least allow_lt o os)

abbrev pub among_holds :
    Option Directory → Subject → Option String → List RuleOutcome → Verdict → Verdict
among_holds directory subject requested_by [] otherwise = otherwise
among_holds directory subject requested_by (o ∷ os) otherwise =
    held_by directory subject requested_by (greatest hold_lt o os)

abbrev pub among_refusals : List RuleOutcome → Verdict → Verdict
among_refusals [] otherwise = otherwise
among_refusals (o ∷ os) otherwise = refused_by (least refusal_lt o os)

unfoldable pub resolve_fired :
    Option Directory → List RuleOutcome → Subject → Option String → Verdict
resolve_fired directory fired subject requested_by = among_refusals (of_kind is_refuse fired) (
    among_holds directory subject requested_by (of_kind is_hold fired)
      (among_allows (of_kind is_allow fired)))

abbrev pub shortest : Option ℕ → Option ℕ → Option ℕ
shortest none o = o
shortest (some m) none = some m
shortest (some m) (some n) = some (if ltb n m then n else m)

-- the minutes of one outcome: `some none` where it sets no limit, `none` where `duration` raises
abbrev pub box_of : VerdictKind → Option String → Option (Option ℕ)
box_of v text =
    if is_refuse v || str_eq (get_or text "") ""
    then some none
    else elim (duration (get_or text "")) [ none ↦ none | some n ↦ some (some n) ]

abbrev pub box : RuleOutcome → Option (Option ℕ)
box o = box_of o.verdict o.rule.expires_after

abbrev pub boxes : List RuleOutcome → Option (Option ℕ)
boxes [] = some none
boxes (o ∷ os) = do first ← box o; rest ← boxes os; some (shortest first rest)

-- `_time_box`
unfoldable pub time_box : Verdict → List RuleOutcome → Option (Option ℕ)
unfolding duration
time_box v fired = if is_refuse v.verdict then some none else boxes fired
