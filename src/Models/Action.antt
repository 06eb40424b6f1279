-- ===== src/Models/Action.antt =====
-- `Action`, its transitions and `apply_verdict` of engine/contextrail/models.py.
use contextrail.Prelude.{
  ℕ, Bool, true, false, not, ◌&&◌, String, Option, none, some, is_some, ◌>>=◌, if◌then◌else◌,
}
use contextrail.Models.Value.{Fields}
use contextrail.Canonical.{Encoder, params_hash}
use contextrail.Models.Verdict.{VerdictKind, allow, hold, refuse, Verdict}

pub data ActionState : Type 0 where
  planned awaiting approved refused executed verified failed unknown : ActionState

pub ActionState-discrete : Discrete ActionState
ActionState-discrete = hlevel

-- ACTION_TRANSITIONS: whether the second state is in the set of the first
unfoldable pub may_move : ActionState → ActionState → Bool
may_move planned awaiting = true
may_move planned refused = true
may_move planned executed = true
may_move planned unknown = true
may_move planned failed = true
may_move awaiting approved = true
may_move awaiting refused = true
may_move approved executed = true
may_move approved unknown = true
may_move approved failed = true
may_move executed verified = true
may_move executed failed = true
may_move unknown executed = true
may_move unknown verified = true
may_move unknown failed = true
may_move _ _ = false

-- `expires_at` is in minutes.
pub record Action : Type 0 where
  pub id : String
  pub kind : String
  pub target : Fields
  pub params_hash : String
  pub verdict : Option VerdictKind
  pub rule_id : Option String
  pub clause : Option String
  pub approver : Option String
  pub state : ActionState
  pub expires_at : Option ℕ

abbrev is_refuse_verdict : Option VerdictKind → Bool
is_refuse_verdict (some refuse) = true
is_refuse_verdict _ = false

abbrev is_refused : ActionState → Bool
is_refused refused = true
is_refused _ = false

-- `none` is IllegalTransition.
unfoldable pub transition : Action → ActionState → Option Action
unfolding may_move
transition a to =
    if is_refuse_verdict a.verdict && not (is_refused to)
    then none
    else if may_move a.state to
    then some (record a { state = to })
    else none

-- Whether a transition of the action was made, and the action after it; one that raises leaves the
-- action as it is.
abbrev moved_to : Action → Option Action → Bool × Action
moved_to a none = (false, a)
moved_to a (some b) = (true, b)

-- The states that a verdict moves a planned action to; an allowed one stays where it is.
abbrev first_move : VerdictKind → Action → Bool × Action
first_move refuse a = moved_to a (transition a refused)
first_move hold a = moved_to a (transition a awaiting)
first_move allow a = (true, a)

-- Whether the call returns, and the action as it leaves it: the verdict is assigned before the
-- transition that may raise.
unfoldable pub apply_verdict : Action → Verdict → Bool × Action
unfolding transition
apply_verdict a v =
    if is_some a.verdict
    then (false, a)
    else first_move v.verdict (record a {
      verdict = some v.verdict;
      rule_id = some v.rule_id;
      clause = some v.clause_text;
      approver = v.approver;
    })

-- `Action.create`; `none` is a target that cannot be hashed.
unfoldable pub create : Encoder → String → String → Fields → Option Action
unfolding params_hash
create enc id kind target = do
  digest ← params_hash enc kind target
  some (record {
    id = id;
    kind = kind;
    target = target;
    params_hash = digest;
    verdict = none;
    rule_id = none;
    clause = none;
    approver = none;
    state = planned;
    expires_at = none;
  })
