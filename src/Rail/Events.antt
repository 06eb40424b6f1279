-- ===== src/Rail/Events.antt =====
-- The events of one run (engine/contextrail/rail/events.py): its sequence, its history and the queues
-- that follow it. The callbacks of the doors cannot stop an emission and are left out.
use contextrail.Prelude.{
  ℕ, zero, suc, ◌-◌, ◌==◌, Bool, String, List, [], ◌∷◌, length, map, if◌then◌else◌,
}
use contextrail.Models.Run.{RunStatus, Stage}

pub record StageEvent : Type 0 where
  pub seq : ℕ
  pub stage : Stage
  pub status : RunStatus
  pub message : String
  pub at : ℕ
  pub replay : Bool

-- `keep` is the number of events in the history; a queue holds all that was put on it.
pub record EventBus : Type 0 where
  pub seq : ℕ
  pub keep : ℕ
  pub history : List StageEvent
  pub queues : List (List StageEvent)

abbrev pub add_last : StageEvent → List StageEvent → List StageEvent
add_last e [] = e ∷ []
add_last e (x ∷ xs) = x ∷ add_last e xs

abbrev pub drop : ℕ → List StageEvent → List StageEvent
drop zero xs = xs
drop (suc n) [] = []
drop (suc n) (x ∷ xs) = drop n xs

-- del hist[:-keep], which deletes nothing if `keep` is 0
abbrev pub trim : ℕ → List StageEvent → List StageEvent
trim keep xs = if keep == 0 then xs else drop (length xs - keep) xs

-- message[:n]
abbrev cut : ℕ → String → String
cut zero s = ""
cut (suc n) String.[] = ""
cut (suc n) (String.◌∷◌ c s) = String.◌∷◌ c (cut n s)

-- a queue with the history; it is the first one
unfoldable pub subscribe : EventBus → EventBus
subscribe b = record b { queues = b.history ∷ b.queues }

abbrev pub without {ℓ} : {A : Type ℓ} → ℕ → List A → List A
without n [] = []
without zero (q ∷ qs) = qs
without (suc n) (q ∷ qs) = q ∷ without n qs

-- the queue by its place
unfoldable pub unsubscribe : ℕ → EventBus → EventBus
unsubscribe n b = record b { queues = without n b.queues }

unfoldable pub emit : Stage → RunStatus → String → ℕ → Bool → EventBus → StageEvent × EventBus
emit stage status message now replay b =
    let event : StageEvent = record {
      seq = b.seq;
      stage = stage;
      status = status;
      message = cut 280 message;
      at = now;
      replay = replay;
    } in
    (
      event,
      record {
        seq = suc b.seq;
        keep = b.keep;
        history = trim b.keep (add_last event b.history);
        queues = map (add_last event) b.queues;
      },
    )
