-- ===== src/Policy/Conditions.antt =====
-- engine/contextrail/policy/conditions.py: the condition evaluator.
use text.Mathlib.Text.{find?}
use contextrail.Prelude.{
  Bool, true, false, not, String, Option, none, some, List, [], ◌∷◌, str_eq, is_some, if◌then◌else◌,
  ◌>>=◌,
}
use contextrail.Prelude.Int.{ltb_ℤ, leb_ℤ}
use contextrail.Models.Value.{
  Value, null, missing, int, str, list, dict, Items, nil, cons, Fields, end, field, equal, member,
}
use contextrail.Policy.Python.{
  Python, Condition, Op, is_in, not_in, eq, ne, contains, not_contains, ge, le, gt, lt,
}
use contextrail.Policy.Schema.{right_is_path}
use contextrail.Policy.Matchers.{resolve}

-- `x in container`: `none` is the TypeError of a non-text sought in a text. Of other containers the
-- code answers False before it asks.
abbrev inside : Value → Value → Option Bool
inside x (list xs) = some (member x xs)
inside (str s) (str t) = some (is_some (find? t s))
inside x (str t) = none
inside x container = some false

abbrev is_container : Value → Bool
is_container (list xs) = true
is_container (str s) = true
is_container _ = false

abbrev is_known : Value → Bool
is_known null = false
is_known missing = false
is_known _ = true

abbrev negated : Value → Value → Option Bool
negated x container =
    if is_container container then (do b ← inside x container; some (not b)) else some false

-- the table of the four orders; a bool is no number
abbrev ordered : Op → Value → Value → Bool
ordered gt (int a) (int b) = ltb_ℤ b a
ordered lt (int a) (int b) = ltb_ℤ a b
ordered ge (int a) (int b) = leb_ℤ b a
ordered le (int a) (int b) = leb_ℤ a b
ordered _ _ _ = false

abbrev apply_op : Op → Value → Value → Option Bool
apply_op is_in left right = inside left right
apply_op not_in left right = negated left right
apply_op contains left right = inside right left
apply_op not_contains left right = negated right left
apply_op eq left right = some (equal left right)
apply_op ne left right = some (not (equal left right))
apply_op op left right = some (ordered op left right)

-- `_compare`; `none` is a raised TypeError.
unfoldable pub compare_values : Value → Op → Value → Option Bool
unfolding equal member
compare_values left op right =
    if is_known left
    then (if is_known right then apply_op op left right else some false)
    else some false

module _ (py : Python) (ctx : Fields) where
  unfoldable pub operand : String → Value
  unfolding right_is_path
  operand right = if right_is_path py right then resolve py (dict ctx) right else py.safe_load right

  -- an expression: what does not parse is false
  abbrev evaluate_text : Option Condition → Option Bool
  evaluate_text none = some false
  evaluate_text (some c) = compare_values (resolve py (dict ctx) c.left) c.op (operand c.right)

  -- `evaluate`, with the early exits of `any` and `all`; `none` is a raised error, which every
  -- shape that the schema refuses gives.
  unfoldable mutual
    pub evaluate : Value → Option Bool
    evaluate (str expr) = evaluate_text (py.condition expr)
    evaluate (dict (field kind (list items) end)) =
        let some_item = evaluate_any items in
        let each_item = evaluate_each items in if str_eq kind "any" then some_item else each_item
    evaluate _ = none

    pub evaluate_any : Items → Option Bool
    evaluate_any nil = some false
    evaluate_any (cons item items) =
        let rest = evaluate_any items in
        elim (evaluate item) [ none ↦ none | some holds ↦ if holds then some true else rest ]

    pub evaluate_each : Items → Option Bool
    evaluate_each nil = some true
    evaluate_each (cons item items) =
        let rest = evaluate_each items in
        elim (evaluate item) [ none ↦ none | some holds ↦ if holds then rest else some false ]

  unfoldable pub evaluate_all : List Value → Option Bool
  unfolding evaluate
  evaluate_all [] = some true
  evaluate_all (c ∷ cs) =
      let rest = evaluate_all cs in
      elim (evaluate c) [ none ↦ none | some holds ↦ if holds then rest else some false ]
