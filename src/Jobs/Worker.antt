-- ===== src/Jobs/Worker.antt =====
-- `Worker.run_once` and `retry_delay` (engine/contextrail/jobs.py).
use contextrail.Prelude.{
  ℕ, ◌-◌, ◌*◌, ◌^◌, String, Option, none, some, List, [], ◌∷◌, leb, min, if◌then◌else◌,
}
use contextrail.Models.Value.{Fields}
use contextrail.Jobs.Queue.{Job, Jobs, claim_job, complete_job, fail_job, kill_job}

unfoldable pub retry_delay : ℕ → ℕ → ℕ → ℕ
retry_delay base_s cap_s attempt = min cap_s (base_s * 2 ^ min (attempt - 1) 20)

-- How a handler ended within its timeout: it returned, raised PermanentJobError, or raised another
-- exception, a timeout among them; with the text for `last_error`.
pub data Ended : Type 0 where
  returned : Ended
  permanent raised : String → Ended

pub data Result : Type 0 where
  done retry dead : Result

pub record JobOutcome : Type 0 where
  pub id : ℕ
  pub kind : String
  pub outcome : Result
  pub error : Option String

abbrev outcome_of : Job → Result → Option String → JobOutcome
outcome_of j outcome error = record { id = j.id; kind = j.kind; outcome = outcome; error = error }

-- `_run`; `now` is the time when the handler ends
unfoldable pub run : (ℕ → ℕ) → Ended → ℕ → Job → Jobs → JobOutcome × Jobs
run delay returned now j t = (outcome_of j done none, complete_job j.id t)
run delay (permanent error) now j t = (outcome_of j dead (some error), kill_job j.id error t)
run delay (raised error) now j t =
    if leb j.max_attempts j.attempts
    then (outcome_of j dead (some error), fail_job j.id error 0 now t)
    else (outcome_of j retry (some error), fail_job j.id error (delay j.attempts) now t)

-- The registered handlers as a function: what the handler of a kind does with a payload, and when it
-- is done; it may enqueue jobs itself.
abbrev pub Handlers : Type 0
Handlers = String → Fields → ℕ → Jobs → Ended × ℕ × Jobs

abbrev settle : (ℕ → ℕ) → Handlers → ℕ → Option Job × Jobs → Option JobOutcome × Jobs
settle delay handlers now (none, t) = (none, t)
settle delay handlers now (some j, t) =
    let (ended, later, u) = handlers j.kind j.payload now t in
    let (out, after) = run delay ended later j u in (some out, after)

unfoldable pub run_once : (ℕ → ℕ) → Handlers → List String → ℕ → ℕ → Jobs → Option JobOutcome × Jobs
unfolding run
run_once delay handlers [] lease_seconds now t = (none, t)
run_once delay handlers (kind ∷ kinds) lease_seconds now t =
    settle delay handlers now (claim_job (some (kind ∷ kinds)) lease_seconds now t)
