-- ===== src/Models/Verdict.antt =====
-- `Verdict` of engine/contextrail/models.py: the policy engine's decision for one action.
use contextrail.Prelude.{Bool, true, false, ◌&&◌, not, String, Option, none, some, str_eq}

pub data VerdictKind : Type 0 where
  allow hold refuse : VerdictKind

pub VerdictKind-discrete : Discrete VerdictKind
VerdictKind-discrete = hlevel

abbrev pub is_allow : VerdictKind → Bool
is_allow allow = true
is_allow _ = false

abbrev pub is_hold : VerdictKind → Bool
is_hold hold = true
is_hold _ = false

abbrev pub is_refuse : VerdictKind → Bool
is_refuse refuse = true
is_refuse _ = false

pub record Verdict : Type 0 where
  pub verdict : VerdictKind
  pub rule_id : String
  pub clause_text : String
  pub approver : Option String
  pub terminal : Bool

-- Python's truth of a `str | None`
abbrev pub is_true : Option String → Bool
is_true none = false
is_true (some s) = not (str_eq s "")

-- `Verdict._shape`, with the minimum lengths of the two texts: whether the model accepts the value.
unfoldable pub is_shaped : Verdict → Bool
is_shaped v =
    not (str_eq v.rule_id "")
    && not (str_eq v.clause_text "")
    && not (is_hold v.verdict && not (is_true v.approver))
    && not (not (is_hold v.verdict) && is_true v.approver)
    && not (not (is_refuse v.verdict) && v.terminal)
