-- ===== src/Policy/Python.antt =====
-- What the policy code asks of Python's `re`, of PyYAML and of objects that are no containers, and
-- the texts that the code takes apart itself.
use Prim.Native.Char.{Char, code}
use Prim.Native.String.{compare}
use text.Mathlib.Text.{is_lt, is_le}
use contextrail.Prelude.{
  ℕ, ◌+◌, ◌-◌, ◌*◌, Bool, true, false, ◌&&◌, String, Option, none, some, List, [], ◌∷◌, ◌==◌, leb,
  codes, if◌then◌else◌,
}
use contextrail.Models.Value.{Value}

-- the operators of a condition (`_OPS` of policy/schema.py)
pub data Op : Type 0 where
  is_in not_in eq ne contains not_contains ge le gt lt : Op

pub record Condition : Type 0 where
  pub left : String
  pub op : Op
  pub right : String

-- `condition` is CONDITION_RE.match with its three groups, `is_dotted` the fullmatch of
-- `_right_is_path`, `safe_load` that of yaml (MISSING where it raises), and `getattr` that of a
-- value which is neither a dict nor a list at a numeric part.
pub record Python : Type 0 where
  pub condition : String → Option Condition
  pub is_dotted : String → Bool
  pub safe_load : String → Value
  pub getattr : Value → String → Value

abbrev pub str_lt : String → String → Bool
str_lt s t = is_lt (compare s t)

abbrev pub str_le : String → String → Bool
str_le s t = is_le (compare s t)

abbrev grow : Char → List String → List String
grow c [] = []
grow c (w ∷ ws) = (String.◌∷◌ c w) ∷ ws

-- text.split(".")
abbrev pub split_dots : String → List String
split_dots String.[] = "" ∷ []
split_dots (String.◌∷◌ c s) =
    let rest = split_dots s in if code c == b'.' then "" ∷ rest else grow c rest

-- text.removeprefix(prefix); the first argument is what is left of the prefix
abbrev strip : String → String → Option String
strip String.[] s = some s
strip (String.◌∷◌ c p) String.[] = none
strip (String.◌∷◌ c p) (String.◌∷◌ d s) =
    let rest = strip p s in if code c == code d then rest else none

abbrev pub starts : String → String → Bool
starts p s = elim (strip p s) [ none ↦ false | some _ ↦ true ]

abbrev pub remove_prefix : String → String → String
remove_prefix p s = elim (strip p s) [ none ↦ s | some r ↦ r ]

abbrev pub is_digit : ℕ → Bool
is_digit c = leb b'0' c && leb c b'9'

abbrev all_digits : List ℕ → Bool
all_digits [] = true
all_digits (c ∷ cs) = is_digit c && all_digits cs

-- text.isdigit(), for ASCII
abbrev pub is_number : String → Bool
is_number String.[] = false
is_number s = all_digits (codes s)

abbrev pub number_of : ℕ → List ℕ → ℕ
number_of n [] = n
number_of n (c ∷ cs) = number_of (10 * n + (c - b'0')) cs
