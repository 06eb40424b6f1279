-- ===== src/Rail/Finalize.antt =====
-- The status of a run, from its actions (engine/contextrail/rail/finalize.py).
use contextrail.Prelude.{
  ℕ, suc, ◌+◌, Bool, true, false, Option, some, List, [], ◌∷◌, any, if◌then◌else◌, ◌||◌, not,
}
use contextrail.Models.Verdict.{VerdictKind, allow, hold, refuse}
use contextrail.Models.Action.{
  ActionState, planned, awaiting, approved, refused, executed, verified, failed, unknown, Action,
}
use contextrail.Models.Run.{RunStatus, awaiting_approval, partial, done}
use contextrail.Models.Case.{CaseFile}

abbrev pub count : (Action → Bool) → List Action → ℕ
count p [] = 0
count p (a ∷ actions) = let rest = count p actions in if p a then suc rest else rest

abbrev pub is_awaiting : ActionState → Bool
is_awaiting awaiting = true
is_awaiting _ = false

-- the set of the states that make a run partial
abbrev pub is_unsettled : ActionState → Bool
is_unsettled refused = true
is_unsettled failed = true
is_unsettled unknown = true
is_unsettled planned = true
is_unsettled approved = true
is_unsettled executed = true
is_unsettled _ = false

abbrev pub is_empty {ℓ} : {A : Type ℓ} → List A → Bool
is_empty [] = true
is_empty (x ∷ xs) = false

pub record Tally : Type 0 where
  pub allow : ℕ
  pub hold : ℕ
  pub refuse : ℕ
  pub verified : ℕ
  pub failed : ℕ

abbrev is_verdict : VerdictKind → Option VerdictKind → Bool
is_verdict allow (some allow) = true
is_verdict hold (some hold) = true
is_verdict refuse (some refuse) = true
is_verdict _ _ = false

abbrev is_verified : ActionState → Bool
is_verified verified = true
is_verified _ = false

abbrev is_failed : ActionState → Bool
is_failed failed = true
is_failed _ = false

abbrev is_unknown : ActionState → Bool
is_unknown unknown = true
is_unknown _ = false

unfoldable pub tally : CaseFile → Tally
tally c = record {
  allow = count (λ (a : Action). is_verdict allow a.verdict) c.actions;
  hold = count (λ (a : Action). is_verdict hold a.verdict) c.actions;
  refuse = count (λ (a : Action). is_verdict refuse a.verdict) c.actions;
  verified = count (λ (a : Action). is_verified a.state) c.actions;
  failed =
      count (λ (a : Action). is_failed a.state) c.actions
      + count (λ (a : Action). is_unknown a.state) c.actions;
}

unfoldable pub final_status : CaseFile → RunStatus
final_status c =
    if any (λ (a : Action). is_awaiting a.state) c.actions
    then awaiting_approval
    else if not (is_empty c.open_blockers) || any (λ (a : Action). is_unsettled a.state) c.actions
    then partial
    else done
