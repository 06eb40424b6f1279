-- ===== src/Rail/Billing.antt =====
-- engine/contextrail/billing.py, and `request_receipt` of rail/finalize.py: the jobs that a finished
-- run asks for, and the usage event that is sent.
use contextrail.Prelude.{
  ℕ, Bool, true, false, ◌&&◌, String, Option, none, some, ◌>>=◌, List, [], ◌∷◌, ◌==◌, str_eq,
  if◌then◌else◌, decimal, ◌&◌,
}
use contextrail.Prelude.Int.{pos}
use contextrail.Models.Value.{Value, null, str, int, Fields, end, field, lookup}
use contextrail.Models.Run.{
  RunStatus, running, needs_input, awaiting_approval, partial, done, failed,
}
use contextrail.Models.Case.{CaseFile}
use contextrail.Models.Action.{Action}
use contextrail.Jobs.Queue.{Jobs, enqueue_job}
use contextrail.Rail.Finalize.{tally, count}

abbrev pub status_name : RunStatus → String
status_name running = "running"
status_name needs_input = "needs_input"
status_name awaiting_approval = "awaiting_approval"
status_name partial = "partial"
status_name done = "done"
status_name failed = "failed"

-- COMPLETED
abbrev pub is_completed : RunStatus → Bool
is_completed done = true
is_completed partial = true
is_completed _ = false

abbrev number : ℕ → Value
number n = int (pos n)

abbrev pub usage_payload : (ℕ → String) → ℕ → CaseFile → RunStatus → Fields
usage_payload isoformat now c status =
    let t = tally c in
    field "run_id" (str c.run_id) (
      field "status" (str (status_name status)) (
        field "intent" (str c.intent) (
          field "action_count" (number (count (λ (a : Action). true) c.actions)) (
            field "allow" (number t.allow) (
              field "hold" (number t.hold) (
                field "refuse" (number t.refuse) (
                  field "verified" (number t.verified) (
                    field "failed" (number t.failed)
                      (field "finalized_at" (str (isoformat now)) end)))))))))

abbrev pub usage_key : String → String
usage_key run_id = "dodo.usage:" & run_id

-- The job, and the jobs after it; five attempts are the default of `enqueue_job`.
unfoldable pub request_usage_event :
    (ℕ → String) → ℕ → CaseFile → RunStatus → Jobs → Option ℕ × Jobs
request_usage_event isoformat now c status jobs =
    if is_completed status
    then enqueue_job now "dodo.usage" (usage_payload isoformat now c status) none
        (some (usage_key c.run_id)) 5 jobs
    else (none, jobs)

abbrev pub receipt_key : CaseFile → RunStatus → String
receipt_key c status =
    "receipt.build:"
    & c.run_id
    & ":"
    & status_name status
    & ":"
    & decimal (tally c).verified
    & ":"
    & decimal (tally c).failed

-- One receipt for each outcome of a run.
unfoldable pub request_receipt : ℕ → CaseFile → RunStatus → Jobs → Option ℕ × Jobs
request_receipt now c status jobs =
    enqueue_job now "receipt.build"
      (field "run_id" (str c.run_id) (field "status" (str (status_name status)) end)) none
      (some (receipt_key c status)) 5 jobs

abbrev is_null : Value → Bool
is_null null = true
is_null _ = false

abbrev unless_null : String → Option Value → Fields → Fields
unless_null key none rest = rest
unless_null key (some v) rest = if is_null v then rest else field key v rest

-- {k: payload[k] for k in keys if payload.get(k) is not None}
unfoldable pub metadata : List String → Fields → Fields
metadata [] payload = end
metadata (k ∷ ks) payload = unless_null k (lookup k payload) (metadata ks payload)

abbrev metadata_keys : List String
metadata_keys =
    "status" ∷ "intent" ∷ "action_count" ∷ "allow" ∷ "hold" ∷ "refuse" ∷ "verified" ∷ "failed"
    ∷ "finalized_at" ∷ []

pub record UsageEvent : Type 0 where
  pub event_id : String
  pub customer_id : String
  pub event_name : String
  pub timestamp : String
  pub metadata : Fields

abbrev pub usage_event_name : String
usage_event_name = "contextrail.governed_run"

abbrev event_of : Fields → String → String → Option Value → Option UsageEvent
event_of payload customer_id timestamp (some (str run_id)) = some (record {
  event_id = run_id;
  customer_id = customer_id;
  event_name = usage_event_name;
  timestamp = timestamp;
  metadata = metadata metadata_keys payload;
})
event_of payload customer_id timestamp _ = none

-- `none` is KeyError: the payload has no run.
unfoldable pub usage_event : Fields → String → String → Option UsageEvent
usage_event payload customer_id timestamp =
    event_of payload customer_id timestamp (lookup "run_id" payload)

-- The service Dodo over a state of its own: the number of events that are new to it, and an event
-- read back, each of which may fail.
pub record Dodo (S : Type 0) : Type 0 where
  pub pilot_customer_id : String
  pub ingest_usage : UsageEvent → S → Option ℕ × S
  pub get_usage_event : String → S → Option (Option UsageEvent)

pub record UsageResult : Type 0 where
  pub event_id : String
  pub ingested : ℕ
  pub replayed : Bool
  pub verified : Bool

abbrev seen_as_sent : String → Option UsageEvent → Bool
seen_as_sent customer none = false
seen_as_sent customer (some e) =
    str_eq e.event_name usage_event_name && str_eq e.customer_id customer

module _ {S : Type 0} (dodo : Dodo S) where
  abbrev read_back : UsageEvent → Option ℕ × S → Option UsageResult × S
  read_back e (none, s) = (none, s)
  read_back e (some n, s) = (
    (dodo.get_usage_event e.event_id s >>= λ seen. some (record {
      event_id = e.event_id;
      ingested = n;
      replayed = n == 0;
      verified = seen_as_sent dodo.pilot_customer_id seen;
    })),
    s,
  )

  abbrev send_event : Option UsageEvent → S → Option UsageResult × S
  send_event none s = (none, s)
  send_event (some e) s = read_back e (dodo.ingest_usage e s)

  -- `none` is an error: no customer to bill, no run, or the service failed.
  unfoldable pub send_usage_event : Fields → String → S → Option UsageResult × S
  send_usage_event payload timestamp s =
      if str_eq dodo.pilot_customer_id ""
      then (none, s)
      else send_event (usage_event payload dodo.pilot_customer_id timestamp) s
