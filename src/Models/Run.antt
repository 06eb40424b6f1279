-- ===== src/Models/Run.antt =====
-- The run lifecycle and the fixed order of the stages (engine/contextrail/models.py).
use contextrail.Prelude.{
  ℕ, zero, suc, Bool, true, false, Option, none, some, List, [], ◌∷◌, ◌==◌, if◌then◌else◌,
}

pub data RunStatus : Type 0 where
  running needs_input awaiting_approval partial done failed : RunStatus

unfoldable pub RunStatus-discrete : Discrete RunStatus
RunStatus-discrete = hlevel

-- RUN_TRANSITIONS: whether the second status is in the set of the first
unfoldable pub may_turn : RunStatus → RunStatus → Bool
may_turn running needs_input = true
may_turn running awaiting_approval = true
may_turn running partial = true
may_turn running done = true
may_turn running failed = true
may_turn needs_input running = true
may_turn needs_input failed = true
may_turn awaiting_approval running = true
may_turn awaiting_approval partial = true
may_turn awaiting_approval done = true
may_turn awaiting_approval failed = true
may_turn _ _ = false

-- `none` is IllegalTransition.
unfoldable pub check_run_transition : RunStatus → RunStatus → Option RunStatus
unfolding may_turn
check_run_transition current to = if may_turn current to then some to else none

pub data Stage : Type 0 where
  discover compile govern plan handoff approve execute verify finalize : Stage

pub Stage-discrete : Discrete Stage
Stage-discrete = hlevel

-- STAGE_ORDER = tuple(Stage)
abbrev pub stage_order : List Stage
stage_order =
    discover ∷ compile ∷ govern ∷ plan ∷ handoff ∷ approve ∷ execute ∷ verify ∷ finalize ∷ []

-- where a stage is declared in the enumeration
abbrev pub index : Stage → ℕ
index discover = 0
index compile = 1
index govern = 2
index plan = 3
index handoff = 4
index approve = 5
index execute = 6
index verify = 7
index finalize = 8

abbrev pub same_stage : Stage → Stage → Bool
same_stage a b = index a == index b

abbrev get_elem? : List Stage → ℕ → Option Stage
get_elem? [] i = none
get_elem? (x ∷ xs) zero = some x
get_elem? (x ∷ xs) (suc i) = get_elem? xs i

-- STAGE_ORDER.index(stage)
abbrev index_of : Stage → List Stage → ℕ
index_of s [] = 0
index_of s (x ∷ xs) = let rest = index_of s xs in if same_stage x s then 0 else suc rest

unfoldable pub next_stage : Option Stage → Option Stage
next_stage none = get_elem? stage_order 0
next_stage (some current) = get_elem? stage_order (suc (index_of current stage_order))

abbrev is_stage : Option Stage → Stage → Bool
is_stage none to = false
is_stage (some s) to = same_stage s to

-- `none` is IllegalTransition.
unfoldable pub check_stage_order : Option Stage → Stage → Option Stage
unfolding next_stage
check_stage_order current to = if is_stage (next_stage current) to then some to else none
