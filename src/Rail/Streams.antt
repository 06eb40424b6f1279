-- ===== src/Rail/Streams.antt =====
-- What a subscriber of a run's events gets (engine/contextrail/rail/events.py).
use contextrail.Prelude.{
  ℕ, zero, suc, ◌+◌, ◌-◌, false, ap, sym, ◌∙◌, ◌≤◌, ◌==◌, Bool, String, List, [], ◌∷◌, ◌≡◌, refl,
  inl, inr, length, map, Bool-cases, arith,
}
use contextrail.Models.Run.{RunStatus, Stage}
use contextrail.Rail.Events.{
  StageEvent, EventBus, add_last, drop, trim, without, subscribe, unsubscribe, emit,
}

-- Events in their order without a gap, from one number up to the one before another.
pub data Counts : ℕ → List StageEvent → ℕ → Type 0 where
  none_left : (n : ℕ) → Counts n [] n
  next :
      {n m : ℕ} {e : StageEvent} {xs : List StageEvent}
      → e.seq ≡ n
      → Counts (suc n) xs m
      → Counts n (e ∷ xs) m

Counts-add_last :
    {n m : ℕ} {xs : List StageEvent} (e : StageEvent)
    → Counts n xs m
    → e.seq ≡ m
    → Counts n (add_last e xs) (suc m)
Counts-add_last e (none_left n) q = next q (none_left (suc n))
Counts-add_last e (next p c) q = next p (Counts-add_last e c q)

length-drop : (k : ℕ) (xs : List StageEvent) → length (drop k xs) ≡ length xs - k
length-drop zero xs = omega arith
length-drop (suc k) [] = omega arith
length-drop (suc k) (x ∷ xs) = omega (arith, length-drop k xs)

length-add_last : (e : StageEvent) (xs : List StageEvent) → length (add_last e xs) ≡ suc (length xs)
length-add_last e [] = refl
length-add_last e (x ∷ xs) = omega (arith, length-add_last e xs)

add_last-drop :
    (e : StageEvent) (k : ℕ) (xs : List StageEvent)
    → k ≤ length xs
    → add_last e (drop k xs) ≡ drop k (add_last e xs)
add_last-drop e zero xs h = refl
add_last-drop e (suc k) [] h = absurd (omega arith)
add_last-drop e (suc k) (x ∷ xs) h = add_last-drop e k xs (omega arith)

zero_add : (j : ℕ) → 0 + j ≡ j
zero_add j = omega arith

suc_add : (k j : ℕ) → suc k + j ≡ suc (k + j)
suc_add k j = omega arith

drop-nil : (k : ℕ) → ◌≡◌ {A = List StageEvent} (drop k []) []
drop-nil zero = refl
drop-nil (suc k) = refl

sub_zero : (keep : ℕ) → 0 - keep ≡ 0
sub_zero keep = omega arith

positive : (keep : ℕ) → 1 ≤ keep → (keep == 0) ≡ false
positive keep p = elim (Bool-cases (keep == 0)) [ inl e ↦ absurd (ground arith) | inr e ↦ e ]

drop-drop : (j k : ℕ) (xs : List StageEvent) → drop j (drop k xs) ≡ drop (k + j) xs
drop-drop j zero xs = rw (zero_add j) refl
drop-drop j (suc k) [] = drop-nil j ∙ sym (drop-nil (suc k + j))
drop-drop j (suc k) (x ∷ xs) = rw (suc_add k j) (drop-drop j k xs)

-- Trimming what was trimmed before and got one event more.
trim-add_last :
    (keep : ℕ) (e : StageEvent) (log : List StageEvent)
    → 1 ≤ keep
    → trim keep (add_last e (drop (length log - keep) log))
      ≡ drop (length (add_last e log) - keep) (add_last e log)
trim-add_last keep e log p =
    let k = length log - keep in
    let total = length-add_last e log in
    let kept = length-drop k (add_last e log) in
    rw (positive keep p, add_last-drop e k log (omega arith))
      (drop-drop (length (drop k (add_last e log)) - keep) k (add_last e log)
        ∙ ap (λ j. drop j (add_last e log)) (omega (arith, total, kept)))

-- The buses that come of a new one, with all the events emitted so far and, for each queue, how many of
-- them there were when it was subscribed.
pub data Used (keep : ℕ) : List StageEvent → List ℕ → EventBus → Type 0 where
  new : Used keep [] [] (record { seq = 0; keep = keep; history = []; queues = [] })
  subscribed :
      {log : List StageEvent} {starts : List ℕ} {b : EventBus}
      → Used keep log starts b
      → Used keep log (length log ∷ starts) (subscribe b)
  unsubscribed :
      {log : List StageEvent} {starts : List ℕ} {b : EventBus} (n : ℕ)
      → Used keep log starts b
      → Used keep log (without n starts) (unsubscribe n b)
  emitted :
      {log : List StageEvent} {starts : List ℕ} {b : EventBus} (stage : Stage) (status : RunStatus)
      (message : String) (now : ℕ) (replay : Bool)
      → Used keep log starts b
      → Used keep
          (add_last (emit stage status message now replay b).0 log)
          starts
          (emit stage status message now replay b).1

-- A queue that was subscribed after so many events has all events but those that the history had lost
-- by then.
abbrev pub Follows : ℕ → List StageEvent → List ℕ → List (List StageEvent) → Type 0
Follows keep log [] [] = Unit
Follows keep log (t ∷ ts) (q ∷ qs) =
    (t ≤ length log) × (q ≡ drop (t - keep) log) × Follows keep log ts qs
Follows keep log _ _ = ⊥

pub record IsLive (keep : ℕ) (log : List StageEvent) (starts : List ℕ) (b : EventBus) : Type 0 where
  pub kept : b.keep ≡ keep
  pub numbered : Counts 0 log b.seq
  pub history : b.history ≡ drop (length log - keep) log
  pub short : length b.history ≤ keep
  pub queues : Follows keep log starts b.queues

Follows-without :
    (keep n : ℕ) (log : List StageEvent) (ts : List ℕ) (qs : List (List StageEvent))
    → Follows keep log ts qs
    → Follows keep log (without n ts) (without n qs)
Follows-without keep zero log [] [] f = tt
Follows-without keep (suc n) log [] [] f = tt
Follows-without keep zero log (t ∷ ts) (q ∷ qs) f = f.2
Follows-without keep (suc n) log (t ∷ ts) (q ∷ qs) f =
    (f.0, f.1, Follows-without keep n log ts qs f.2)
Follows-without keep n log [] (q ∷ qs) f = absurd f
Follows-without keep n log (t ∷ ts) [] f = absurd f

Follows-add_last :
    (keep : ℕ) (e : StageEvent) (log : List StageEvent) (ts : List ℕ) (qs : List (List StageEvent))
    → Follows keep log ts qs
    → Follows keep (add_last e log) ts (map (add_last e) qs)
Follows-add_last keep e log [] [] f = tt
Follows-add_last keep e log (t ∷ ts) (q ∷ qs) f = (
  omega (arith, length-add_last e log, f.0),
  ap (add_last e) f.1 ∙ add_last-drop e (t - keep) log (omega (arith, f.0)),
  Follows-add_last keep e log ts qs f.2,
)
Follows-add_last keep e log [] (q ∷ qs) f = absurd f
Follows-add_last keep e log (t ∷ ts) [] f = absurd f

subscribe-IsLive :
    (keep : ℕ) (log : List StageEvent) (starts : List ℕ) (b : EventBus)
    → IsLive keep log starts b
    → IsLive keep log (length log ∷ starts) (subscribe b)
unfolding subscribe
subscribe-IsLive keep log starts b h = record {
  kept = h.kept;
  numbered = h.numbered;
  history = h.history;
  short = h.short;
  queues = (omega arith, h.history, h.queues);
}

unsubscribe-IsLive :
    (keep n : ℕ) (log : List StageEvent) (starts : List ℕ) (b : EventBus)
    → IsLive keep log starts b
    → IsLive keep log (without n starts) (unsubscribe n b)
unfolding unsubscribe
unsubscribe-IsLive keep n log starts b h = record {
  kept = h.kept;
  numbered = h.numbered;
  history = h.history;
  short = h.short;
  queues = Follows-without keep n log starts b.queues h.queues;
}

kept_short :
    (keep : ℕ) (log xs : List StageEvent) → xs ≡ drop (length log - keep) log → length xs ≤ keep
kept_short keep log xs e = rw e (omega (arith, length-drop (length log - keep) log))

emit-IsLive :
    (keep : ℕ) (stage : Stage) (status : RunStatus) (message : String) (now : ℕ) (replay : Bool)
    (log : List StageEvent) (starts : List ℕ) (b : EventBus)
    → 1 ≤ keep
    → IsLive keep log starts b
    → IsLive keep
        (add_last (emit stage status message now replay b).0 log)
        starts
        (emit stage status message now replay b).1
unfolding emit
emit-IsLive keep stage status message now replay log starts b p h =
    let e = (emit stage status message now replay b).0 in
    let trimmed : trim b.keep (add_last e b.history)
        ≡ drop (length (add_last e log) - keep) (add_last e log) =
      rw (h.kept, h.history) (trim-add_last keep e log p) in
    record {
      kept = h.kept;
      numbered = Counts-add_last e h.numbered refl;
      history = trimmed;
      short = kept_short keep (add_last e log) _ trimmed;
      queues = Follows-add_last keep e log starts b.queues h.queues;
    }

-- However a bus that keeps at least one event is subscribed to, unsubscribed from and emitted on: the
-- events are numbered from 0 without a gap, the history is the last of them, as many as it keeps at
-- most, and the queue of a subscriber has, in their order, the history of the time it subscribed
-- and every event since.
pub Used-IsLive :
    (keep : ℕ) (log : List StageEvent) (starts : List ℕ) (b : EventBus)
    → 1 ≤ keep
    → Used keep log starts b
    → IsLive keep log starts b
Used-IsLive keep _ _ _ p new = record {
  kept = refl;
  numbered = none_left 0;
  history = rw (sub_zero keep) refl;
  short = omega arith;
  queues = tt;
}
Used-IsLive keep _ _ _ p (subscribed {log = log} {starts = starts} {b = b} u) =
    subscribe-IsLive keep log starts b (Used-IsLive keep log starts b p u)
Used-IsLive keep _ _ _ p (unsubscribed {log = log} {starts = starts} {b = b} n u) =
    unsubscribe-IsLive keep n log starts b (Used-IsLive keep log starts b p u)
Used-IsLive keep _ _ _ p
      (emitted {log = log} {starts = starts} {b = b} stage status message now replay u) =
    emit-IsLive keep stage status message now replay log starts b p
      (Used-IsLive keep log starts b p u)
