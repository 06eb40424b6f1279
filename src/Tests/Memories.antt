-- ===== src/Tests/Memories.antt =====
-- A remembered note and a billed run.
use contextrail.Prelude.{String, none, some, [], ◌∷◌, ◌≡◌, ◌≢◌, refl, get_or}
use contextrail.Models.Run.{done, partial}
use contextrail.Jobs.Queue.{Jobs, claim_job, complete_job}
use contextrail.Jobs.Sound.{Reachable}
use contextrail.Memory.{Memory, Note, append, thread_key}
use contextrail.Memory.Bounded.{IsRemembered, append-IsRemembered}
use contextrail.Rail.Billing.{usage_key, request_usage_event}
use contextrail.Rail.BilledOnce.{
  unchanged, claiming, completing, Later, IsOnlyOne, request_usage_event_once,
}
use contextrail.Tests.Capsules.{sample_case}

abbrev note : Note
note = record {
  channel = "slack";
  person_id = "p1";
  thread_ref = "t1";
  role = "user";
  summary = "Asked for the wiki";
  run_id = some "r1";
  audit_seqs = 1 ∷ [];
}

abbrev empty : Memory
empty = record { next_id = 1; rows = [] }

unfoldable remembered : Memory
remembered = get_or (append (λ s. s) (λ s. s) 0 note empty) empty

appended : append (λ s. s) (λ s. s) 0 note empty ≡ some remembered
unfolding remembered append thread_key
appended = refl

append-IsRemembered_example :
    (note.person_id ≢ "")
    × ((run : String) × (note.run_id ≡ some run)
        × ((key : String) × (thread_key (λ s. s) note.thread_ref ≡ some key)
            × IsRemembered (λ s. s) 0 note key run empty remembered))
append-IsRemembered_example = append-IsRemembered (λ s. s) (λ s. s) 0 note empty remembered appended

abbrev no_jobs : Jobs
no_jobs = record { rows = []; next_id = 1 }

unfoldable after_first : Jobs
after_first = (request_usage_event (λ n. "t") 5 sample_case partial no_jobs).1

-- the job is claimed and done before the second request
unfoldable job_done : Jobs
job_done = complete_job 1 (claim_job none 60 6 after_first).1

meanwhile : Later (request_usage_event (λ n. "t") 5 sample_case partial no_jobs).1 job_done
unfolding job_done after_first
meanwhile = completing 1 (claiming none 60 6 unchanged)

request_usage_event_once_example :
    IsOnlyOne (usage_key "r1") job_done
    × ((request_usage_event (λ n. "t") 9 sample_case done job_done).0 ≡ none)
    × ((request_usage_event (λ n. "t") 9 sample_case done job_done).1.rows ≡ job_done.rows)
request_usage_event_once_example =
    request_usage_event_once (λ n. "t") 5 9 sample_case sample_case partial done no_jobs job_done
      Reachable.empty refl refl meanwhile

first_job : (request_usage_event (λ n. "t") 5 sample_case partial no_jobs).0 ≡ some 1
unfolding request_usage_event contextrail.Jobs.Queue.enqueue_job
first_job = refl
