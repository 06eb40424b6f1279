-- ===== src/Policy/Schema.antt =====
-- engine/contextrail/policy/schema.py: the rule, its durations, and what the schema accepts.
use contextrail.Prelude.{
  codes, ℕ, ◌*◌, Bool, true, false, not, ◌&&◌, ◌||◌, String, Option, none, some, List, [], ◌∷◌,
  ◌==◌, str_eq, contains, is_some, if◌then◌else◌, get_or, leb, length,
}
use contextrail.Models.Value.{Value, str, list, dict, Items, nil, cons, end, field}
use contextrail.Models.Verdict.{VerdictKind, is_hold, is_refuse, is_true}
use contextrail.Policy.Python.{Python, Condition, split_dots, starts, is_digit, number_of}

pub record Escalate : Type 0 where
  pub when : String
  pub verdict : VerdictKind
  pub approver : Option String

pub record Rule : Type 0 where
  pub id : String
  pub title : String
  pub okf : String
  pub clause : String
  pub clause_text : String
  pub applies_to : List (String × Items)
  pub match : List (String × Value)
  pub conditions : List Value
  pub verdict : VerdictKind
  pub approver : Option String
  pub escalate : Option Escalate
  pub else_verdict : Option VerdictKind
  pub terminal : Bool
  pub expires_after : Option String
  pub alternative : Option String

abbrev pub allowed_roots : List String
allowed_roots = "subject" ∷ "target" ∷ "action" ∷ "role" ∷ "run" ∷ "decision" ∷ []

abbrev pub approver_roles : List String
approver_roles =
    "manager" ∷ "security-oncall" ∷ "incident-commander" ∷ "data-owner" ∷ "finance" ∷ "vp-finance"
    ∷ []

abbrev first : List String → String
first [] = ""
first (w ∷ ws) = w

-- path.split(".", 1)[0]
abbrev pub path_root : String → String
path_root path = first (split_dots path)

abbrev pub has_allowed_root : String → Bool
has_allowed_root path = contains (path_root path) allowed_roots

-- minutes of a unit letter
abbrev unit_minutes : ℕ → Option ℕ
unit_minutes c =
    if c == b'm'
    then some 1
    else if c == b'h'
    then some 60
    else if c == b'd'
    then some 1440
    else none

abbrev times : ℕ → Option ℕ → Option ℕ
times n none = none
times n (some u) = some (n * u)

-- The number read so far is `n`; the last character is the unit.
abbrev read_duration : ℕ → List ℕ → Option ℕ
read_duration n [] = none
read_duration n (c ∷ []) = times n (unit_minutes c)
read_duration n (c ∷ d ∷ cs) =
    let rest = read_duration (number_of n (c ∷ [])) (d ∷ cs) in if is_digit c then rest else none

abbrev read_digits : List ℕ → Option ℕ
read_digits [] = none
read_digits (c ∷ cs) = if is_digit c then read_duration 0 (c ∷ cs) else none

-- `duration`, in minutes, for ASCII digits; `none` is a raised error.
unfoldable pub duration : String → Option ℕ
duration text = read_digits (codes text)

abbrev is_upper : ℕ → Bool
is_upper c = leb b'A' c && leb c b'Z'

-- every character passes the test at its place, and there are as many
abbrev each_passes : List (ℕ → Bool) → List ℕ → Bool
each_passes [] [] = true
each_passes (p ∷ ps) (c ∷ cs) = p c && each_passes ps cs
each_passes _ _ = false

abbrev is_char : ℕ → ℕ → Bool
is_char c d = d == c

-- the pattern ^POL-[A-Z]{3}-\d{3}$ of `Rule.id`
abbrev id_pattern : List (ℕ → Bool)
id_pattern =
    is_char b'P'
    ∷ is_char b'O'
    ∷ is_char b'L'
    ∷ is_char b'-'
    ∷ is_upper
    ∷ is_upper
    ∷ is_upper
    ∷ is_char b'-'
    ∷ is_digit
    ∷ is_digit
    ∷ is_digit
    ∷ []

unfoldable pub is_rule_id : String → Bool
is_rule_id id = each_passes id_pattern (codes id)

-- `Rule._match_keys`
abbrev is_match_key : String → Bool
is_match_key key = str_eq key "kind" || starts "target." key

abbrev keys_pass {ℓ} : {A : Type ℓ} → (String → Bool) → List (String × A) → Bool
keys_pass p [] = true
keys_pass p ((k, v) ∷ l) = p k && keys_pass p l

abbrev subject_fields : List String
subject_fields =
    "source" ∷ "source_id" ∷ "display_name" ∷ "employment_type" ∷ "role" ∷ "team" ∷ "seniority"
    ∷ "manager_id" ∷ "start_date" ∷ "end_date" ∷ "sow_repos" ∷ []

-- the text before a last newline, at which the `$` of _DURATION_RE matches too
abbrev before_newline : List ℕ → List ℕ
before_newline [] = []
before_newline (c ∷ []) = if c == 10 then [] else c ∷ []
before_newline (c ∷ d ∷ cs) = c ∷ before_newline (d ∷ cs)

-- `Rule._duration`
abbrev is_duration : Option String → Bool
is_duration none = true
is_duration (some text) = is_some (read_digits (before_newline (codes text)))

-- one pair of the loop of `_coherent`: an outcome with its approver
abbrev outcome_passes : VerdictKind → Option String → Bool
outcome_passes outcome approver =
    not (is_hold outcome && not (is_true approver))
    && not (is_true approver && not (contains (get_or approver "") approver_roles))

abbrev is_refusal : Option VerdictKind → Bool
is_refusal none = false
is_refusal (some v) = is_refuse v

abbrev is_withheld : Option VerdictKind → Bool
is_withheld none = false
is_withheld (some v) = is_refuse v || is_hold v

abbrev is_empty : List Value → Bool
is_empty [] = true
is_empty (c ∷ cs) = false

abbrev escalated : Option Escalate → Option VerdictKind
escalated none = none
escalated (some e) = some e.verdict

-- the pattern of the identifier and the least length of the clause
abbrev pub texts_pass : Rule → Bool
texts_pass r = is_rule_id r.id && leb 20 (length (codes r.clause_text))

module _ (py : Python) where
  unfoldable pub right_is_path : String → Bool
  right_is_path right = py.is_dotted right && has_allowed_root right

  abbrev parts_pass : Option Condition → Bool
  parts_pass none = false
  parts_pass (some c) =
      has_allowed_root c.left
      && (if py.is_dotted c.right && not (right_is_path c.right)
          then has_allowed_root c.right
          else true)

  abbrev is_block : String → Bool
  is_block key = str_eq key "any" || str_eq key "all"

  -- `check_condition`; `false` is the ValueError.
  unfoldable mutual
    pub check_condition : Value → Bool
    check_condition (str expr) = parts_pass (py.condition expr)
    check_condition (dict (field key (list (cons item items)) end)) =
        is_block key && check_condition item && check_items items
    check_condition _ = false

    pub check_items : Items → Bool
    check_items nil = true
    check_items (cons item items) = check_condition item && check_items items

  abbrev check_all : List Value → Bool
  check_all [] = true
  check_all (c ∷ cs) = check_condition c && check_all cs

  abbrev escalate_passes : Option Escalate → Bool
  escalate_passes none = true
  escalate_passes (some e) = outcome_passes e.verdict e.approver && check_condition (str e.when)

  abbrev alternative_passes : Option String → Bool → Bool
  alternative_passes none withholds = true
  alternative_passes (some path) withholds =
      has_allowed_root path && right_is_path path && withholds

  -- The validators of `Rule`: whether the schema accepts it.
  unfoldable pub accepts : Rule → Bool
  unfolding is_rule_id duration right_is_path check_condition
  accepts r =
      texts_pass r
      && (keys_pass (λ k. contains k subject_fields) r.applies_to
          && keys_pass is_match_key r.match
          && is_duration r.expires_after
          && check_all r.conditions
          && outcome_passes r.verdict r.approver
          && escalate_passes r.escalate
          && not (r.terminal && not (is_refuse r.verdict || is_refusal r.else_verdict))
          && not (is_some r.else_verdict && is_empty r.conditions)
          && alternative_passes r.alternative (
              is_withheld (some r.verdict)
              || is_withheld r.else_verdict
              || is_withheld (escalated r.escalate)))
