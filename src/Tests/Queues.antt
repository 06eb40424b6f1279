-- ===== src/Tests/Queues.antt =====
-- One job, claimed by a worker while another worker enqueues and claims.
use contextrail.Prelude.{ℕ, false, ◌+◌, none, some, [], ◌∷◌, ◌≡◌, refl, arith, All, At}
use contextrail.Models.Value.{end}
use contextrail.Jobs.Queue.{
  Job, Jobs, new_job, update, lease, is_ready, enqueue_job, claim_job, fail_job,
}
use contextrail.Jobs.Next.{IsNext, claim_job-IsNext}
use contextrail.Jobs.Leases.{Others, idle, enqueued, claimed, leased_once}
use contextrail.Jobs.Sound.{Reachable, empty, IsSound, Reachable-IsSound}
use contextrail.Jobs.Worker.{raised, retry, JobOutcome, retry_delay, run}
use contextrail.Jobs.Retries.{IsSettled, run-IsSettled}

abbrev waiting : Job
waiting = new_job 1 "rail.run" end 10 none 5

abbrev table : Jobs
table = record { rows = waiting ∷ []; next_id = 2 }

abbrev leased : Job
leased = lease 360 waiting

abbrev held : Jobs
held = record { rows = leased ∷ []; next_id = 2 }

claims : claim_job none 300 60 table ≡ (some leased, held)
unfolding claim_job is_ready
claims = refl

claim_job-IsNext_example :
    ((j : Job)
      → some leased ≡ some j
      → (k : Job) × IsNext none 60 table.rows k
        × (j ≡ lease (60 + 300) k)
        × (held ≡ record { rows = update k.id (lease (60 + 300)) table.rows; next_id = 2 }))
    × (some leased ≡ none → All (λ k. is_ready none 60 k ≡ false) table.rows × (held ≡ table))
claim_job-IsNext_example = claim_job-IsNext none 300 60 table held (some leased) claims

-- another job is enqueued and claimed
abbrev two : Jobs
two = record { rows = new_job 2 "door.update" end 70 none 5 ∷ leased ∷ []; next_id = 3 }

abbrev both : Jobs
both = record {
  rows = lease 140 (new_job 2 "door.update" end 70 none 5) ∷ leased ∷ [];
  next_id = 3;
}

others : Others 1 (60 + 300) held (2 ∷ []) both
unfolding enqueue_job claim_job is_ready
others =
    claimed {u = two} {j = lease 140 (new_job 2 "door.update" end 70 none 5)} none 60 80
      (omega arith) (enqueued {u = held} 70 "door.update" end none none 5 idle) refl

leased_once_example : ¬ At {A = ℕ} 1 (2 ∷ [])
leased_once_example =
    leased_once none 300 60 table held both leased (2 ∷ []) (omega arith, tt) claims others

reached :
    Reachable
      (claim_job none 300 60
        (enqueue_job 10 "rail.run" end none none 5 (record { rows = []; next_id = 1 })).1).1
reached = Reachable.claimed none 300 60 (Reachable.enqueued 10 "rail.run" end none none 5 empty)

Reachable-IsSound_example :
    IsSound
      (claim_job none 300 60
        (enqueue_job 10 "rail.run" end none none 5 (record { rows = []; next_id = 1 })).1).1
Reachable-IsSound_example =
    Reachable-IsSound
      (claim_job none 300 60
        (enqueue_job 10 "rail.run" end none none 5 (record { rows = []; next_id = 1 })).1).1
      reached

abbrev retried : Job
retried = record leased { locked_until = none; last_error = some "E"; run_at = 105 }

abbrev after : Jobs
after = record { rows = retried ∷ []; next_id = 2 }

abbrev outcome : JobOutcome
outcome = record { id = 1; kind = "rail.run"; outcome = retry; error = some "E" }

ran : run (retry_delay 5 600) (raised "E") 100 leased held ≡ (outcome, after)
unfolding run retry_delay fail_job
ran = refl

run-IsSettled_example :
    (outcome.id ≡ 1)
    × All (λ r. r.id ≡ 1 → IsSettled (100 + retry_delay 5 600 1) retry r) after.rows
run-IsSettled_example =
    run-IsSettled (retry_delay 5 600) (raised "E") 100 leased held after outcome
      (λ e. (refl, refl, refl), tt) ran
