-- ===== src/Rail/Approve.antt =====
-- The decisions on held actions (engine/contextrail/rail/approve.py, and the approvals table of
-- engine/contextrail/repo.py).
use contextrail.Prelude.{
  Bool, true, false, ◌&&◌, String, Option, none, some, List, [], ◌∷◌, ◌>>=◌, find?, str_eq,
  if◌then◌else◌,
}
use contextrail.Models.Action.{ActionState, awaiting, Action, transition}

pub data Choice : Type 0 where
  approved refused : Choice

pub record Approval : Type 0 where
  pub run_id : String
  pub action_id : String
  pub params_hash : String
  pub approver : String
  pub decision : Choice
  pub channel : String
  pub reason : Option String

-- the primary key
abbrev pub is_for : String → String → Approval → Bool
is_for run_id action_id d = str_eq d.run_id run_id && str_eq d.action_id action_id

unfoldable pub get_approval : String → String → List Approval → Option Approval
get_approval run_id action_id rows = find? (is_for run_id action_id) rows

abbrev insert : Approval → List Approval → Option Approval → Bool × List Approval
insert d rows none = (true, d ∷ rows)
insert d rows (some first) = (false, rows)

-- whether this call won, and the table after it
unfoldable pub record_approval : Approval → List Approval → Bool × List Approval
record_approval d rows = insert d rows (get_approval d.run_id d.action_id rows)

-- What `apply_decisions` makes of the actions, with the ids decided and the ids whose approval is void.
pub record Applied : Type 0 where
  pub actions : List Action
  pub decided : List String
  pub void : List String

abbrev pub state_for : Choice → ActionState
state_for approved = ActionState.approved
state_for refused = ActionState.refused

abbrev pub is_awaiting : ActionState → Bool
is_awaiting awaiting = true
is_awaiting _ = false

abbrev pass : Action → Applied → Option Applied
pass a r = some (record r { actions = a ∷ r.actions })

-- an awaiting action, by the decision that is recorded for it
abbrev pub counted : Action → Option Approval → Applied → Option Applied
counted a none r = pass a r
counted a (some d) r =
    if str_eq d.params_hash a.params_hash
    then (do
      b ← transition a (state_for d.decision)
      some (record { actions = b ∷ r.actions; decided = a.id ∷ r.decided; void = r.void }))
    else some (record { actions = a ∷ r.actions; decided = r.decided; void = a.id ∷ r.void })

-- `none` is an IllegalTransition
unfoldable pub apply_decisions : String → List Approval → List Action → Option Applied
apply_decisions run_id rows [] = some (record { actions = []; decided = []; void = [] })
apply_decisions run_id rows (a ∷ actions) =
    let rest = apply_decisions run_id rows actions in
    rest >>= λ (r : Applied).
    if is_awaiting a.state then counted a (get_approval run_id a.id rows) r else pass a r
