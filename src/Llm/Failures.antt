-- ===== src/Llm/Failures.antt =====
-- What a failed call means for the chain (engine/contextrail/llm/router.py).
use contextrail.Prelude.{
  ℕ, ◌*◌, Bool, false, ◌&&◌, ◌||◌, String, Option, none, some, ◌==◌, leb, str_eq, if◌then◌else◌,
  min, mentions,
}
use contextrail.Prelude.Int.{ℤ, pos_part}
use contextrail.Models.Value.{Value, null, str, dict, lookup}

-- APIStatusError, with the two headers that are read.
pub record StatusError : Type 0 where
  pub status_code : ℕ
  pub type_name : Option String
  pub body : Value
  pub message : String
  pub retry_after_ms : Option String
  pub retry_after : Option String

-- What a call of a client raises: APIConnectionError, APIStatusError or another exception.
pub data Exception : Type 0 where
  connection : Exception
  status : StatusError → Exception
  other : Exception

pub data Failure : Type 0 where
  rate_limited failover fatal : Failure

-- `str` of a value, and `float` of a text in thousandths, `none` where it raises ValueError.
pub record Texts : Type 0 where
  pub str_of : Value → String
  pub float_of : String → Option ℤ

abbrev get_field : String → Value → Value
get_field key (dict d) = elim (lookup key d) [ none ↦ null | some v ↦ v ]
get_field key _ = null

abbrev detail_of : String → Value → Value
detail_of message (dict d) = get_field "message" (dict d)
detail_of message _ = str message

abbrev is_billing : Option String → Bool
is_billing none = false
is_billing (some t) = str_eq t "billing_error"

unfoldable pub credit_exhausted : Texts → StatusError → Bool
credit_exhausted py e =
    (is_billing e.type_name || e.status_code == 402)
    || (e.status_code == 400
        && mentions "credit balance" (py.str_of (detail_of e.message (get_field "error" e.body))))

unfoldable pub classify : Texts → Exception → Failure
classify py connection = failover
classify py (status e) =
    if e.status_code == 429
    then rate_limited
    else if leb 500 e.status_code
    then failover
    else if credit_exhausted py e
    then failover
    else fatal
classify py other = fatal

abbrev read_header : Texts → ℕ → Option String → Option ℕ
read_header py scale none = none
read_header py scale (some raw) =
    if str_eq raw ""
    then none
    else elim (py.float_of raw) [ none ↦ none | some x ↦ some (pos_part x * scale) ]

abbrev capped : Option ℕ → Option ℕ → ℕ → ℕ
capped (some x) y cap = min x cap
capped none (some y) cap = min y cap
capped none none cap = min 1000000 cap

-- The wait before the one retry, in microseconds.
unfoldable pub retry_after_s : Texts → StatusError → ℕ → ℕ
retry_after_s py e cap =
    capped (read_header py 1 e.retry_after_ms) (read_header py 1000 e.retry_after) cap
