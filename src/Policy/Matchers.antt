-- ===== src/Policy/Matchers.antt =====
-- engine/contextrail/policy/matchers.py: which rules concern this subject and this action.
use contextrail.Prelude.{
  codes, ℕ, zero, suc, Bool, true, false, ◌&&◌, String, Option, none, some, List, [], ◌∷◌, str_eq,
  if◌then◌else◌, ◌>>=◌,
}
use contextrail.Models.Value.{
  Value, null, missing, str, list, dict, Items, nil, cons, Fields, lookup, member,
}
use contextrail.Models.Subject.{Subject, dump}
use contextrail.Models.Action.{Action}
use contextrail.Policy.Python.{Python, split_dots, remove_prefix, is_number, number_of}
use contextrail.Policy.Schema.{Rule}

abbrev pub or_missing : Option Value → Value
or_missing none = missing
or_missing (some v) = v

-- xs[i], MISSING past the end
abbrev pub item : ℕ → Items → Value
item i nil = missing
item zero (cons x xs) = x
item (suc i) (cons x xs) = item i xs

-- A member of a set must be hashable: no list and no dict.
abbrev is_hashable : Value → Bool
is_hashable (list xs) = false
is_hashable (dict d) = false
is_hashable _ = true

abbrev all_hashable : Items → Bool
all_hashable nil = true
all_hashable (cons x xs) = is_hashable x && all_hashable xs

abbrev meets : Items → Items → Bool
meets nil ys = false
meets (cons x xs) ys = let rest = meets xs ys in if member x ys then true else rest

-- bool(set(xs) & set(ys)); `none` is the TypeError of an unhashable member.
unfoldable pub overlap : Items → Items → Option Bool
unfolding member
overlap xs ys = if all_hashable xs && all_hashable ys then some (meets xs ys) else none

-- one field of `applies_to`
abbrev field_applies : Option Value → Items → Option Bool
field_applies none allowed = none
field_applies (some null) allowed = some false
field_applies (some (list values)) allowed = overlap values allowed
field_applies (some value) allowed = some (member value allowed)

abbrev fields_apply : Fields → List (String × Items) → Option Bool
fields_apply subject [] = some true
fields_apply subject ((name, allowed) ∷ rest) = do
  holds ← field_applies (lookup name subject) allowed
  if holds then fields_apply subject rest else some false

-- `none` is a raised error: an unknown field name, or an unhashable value.
unfoldable pub applies_to : Rule → Subject → Option Bool
unfolding overlap dump
applies_to rule subject = fields_apply (dump subject) rule.applies_to

abbrev as_list : Value → Items
as_list (list xs) = xs
as_list v = cons v nil

-- `_value_matches`
unfoldable pub value_matches : Value → Value → Option Bool
unfolding overlap
value_matches null expected = some false
value_matches missing expected = some false
value_matches (list actual) expected = overlap actual (as_list expected)
value_matches actual expected = some (member actual (as_list expected))

module _ (py : Python) where
  -- one part of a dotted path
  abbrev step : Value → String → Value
  step null part = missing
  step missing part = missing
  step (dict d) part = or_missing (lookup part d)
  step (list xs) part =
      if is_number part then item (number_of 0 (codes part)) xs else py.getattr (list xs) part
  step v part = py.getattr v part

  abbrev walk : Value → List String → Value
  walk v [] = v
  walk v (part ∷ parts) = walk (step v part) parts

  -- MISSING if any step is absent
  unfoldable pub resolve : Value → String → Value
  resolve obj dotted = walk obj (split_dots dotted)

  abbrev actual_of : Action → String → Value
  actual_of a key =
      if str_eq key "kind"
      then str a.kind
      else resolve (dict a.target) (remove_prefix "target." key)

  abbrev all_match : Action → List (String × Value) → Option Bool
  all_match a [] = some true
  all_match a ((key, expected) ∷ rest) = do
    holds ← value_matches (actual_of a key) expected
    if holds then all_match a rest else some false

  unfoldable pub matches : Rule → Action → Option Bool
  unfolding resolve value_matches
  matches rule action = all_match action rule.match
