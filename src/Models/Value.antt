-- ===== src/Models/Value.antt =====
-- The Python values that records, targets and rules hold, with `==` between them. `float`,
-- `Decimal`, `tuple` and `set` do not occur: the values come from JSON, YAML and `model_dump`.
use native.Mathlib.Decide.{ℕ_discrete}
use contextrail.Prelude.{
  String-discrete, ℕ, Bool, true, false, ◌&&◌, String, Option, none, some, ◌==◌, str_eq,
  if◌then◌else◌,
}
use contextrail.Prelude.Int.{ℤ, pos, eq_ℤ}

mutual
  -- `missing` is the sentinel MISSING of policy/matchers.py. A date is its proleptic ordinal and a
  -- datetime its microseconds since the epoch, in UTC.
  pub data Value : Type 0 where
    null missing : Value
    bool : Bool → Value
    int : ℤ → Value
    str : String → Value
    date datetime : ℕ → Value
    list : Items → Value
    dict : Fields → Value

  pub data Items : Type 0 where
    nil : Items
    cons : Value → Items → Items

  pub data Fields : Type 0 where
    end : Fields
    field : String → Value → Fields → Fields

pub Value-discrete : Discrete Value
Value-discrete = hlevel (ℕ_discrete, String-discrete)

-- d.get(key)
abbrev pub lookup : String → Fields → Option Value
lookup key end = none
lookup key (field k v d) = let rest = lookup key d in if str_eq k key then some v else rest

abbrev pub size : Fields → ℕ
size end = 0
size (field k v d) = ℕ.suc (size d)

abbrev int_of_bool : Bool → ℤ
int_of_bool true = pos 1
int_of_bool false = pos 0

-- Python's `==`: a bool is the integer 0 or 1, and the order of a dict's keys does not matter.
unfoldable mutual
  pub equal : Value → Value → Bool
  equal null null = true
  equal missing missing = true
  equal (bool a) (bool b) = eq_ℤ (int_of_bool a) (int_of_bool b)
  equal (bool a) (int n) = eq_ℤ (int_of_bool a) n
  equal (int n) (bool b) = eq_ℤ n (int_of_bool b)
  equal (int m) (int n) = eq_ℤ m n
  equal (str s) (str t) = str_eq s t
  equal (date m) (date n) = m == n
  equal (datetime m) (datetime n) = m == n
  equal (list xs) (list ys) = equal_items xs ys
  equal (dict d) (dict e) = size d == size e && equal_fields d e
  equal _ _ = false

  pub equal_items : Items → Items → Bool
  equal_items nil nil = true
  equal_items (cons x xs) (cons y ys) = equal x y && equal_items xs ys
  equal_items _ _ = false

  -- every entry of the first is in the second
  pub equal_fields : Fields → Fields → Bool
  equal_fields end e = true
  equal_fields (field k v d) e =
      (let rest : Value → Bool = equal v in elim (lookup k e) [ none ↦ false | some w ↦ rest w ])
      && equal_fields d e

-- `x in xs`
unfoldable pub member : Value → Items → Bool
unfolding equal
member x nil = false
member x (cons y ys) = let rest = member x ys in if equal y x then true else rest
