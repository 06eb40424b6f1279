-- ===== src/Rail/BilledOnce.antt =====
-- The usage event of a run is queued once (engine/contextrail/billing.py, over the job queries of
-- engine/contextrail/repo.py).
use contextrail.Prelude.{
  ℕ, ◌+◌, Bool, true, false, String, Option, none, some, List, [], ◌∷◌, ◌≡◌, refl, sym, ap, ◌∙◌,
  ◌⊎◌, inl, inr, All-At, At, At-cons, any, Bool-cases, eq_iff, arith, ◌==◌,
}
use contextrail.Models.Value.{Fields}
use contextrail.Models.Run.{RunStatus}
use contextrail.Models.Case.{CaseFile}
use contextrail.Jobs.Queue.{
  Job, Jobs, same_key, update, lease, enqueue_job, claim_job, complete_job, fail_job, kill_job,
}
use contextrail.Jobs.Next.{claim_job-IsNext}
use contextrail.Jobs.Sound.{
  Reachable, enqueued, claimed, completed, failed, killed, IsApart, Apart, IsSound,
  Reachable-IsSound,
}
use contextrail.Rail.Status.{any-At}
use contextrail.Rail.AskedOnce.{has_key, or_true, enqueue-new}
use contextrail.Rail.Billing.{is_completed, usage_key, usage_payload, request_usage_event}

-- What becomes of a table while jobs are enqueued, claimed, completed, failed and killed.
pub data Later (t : Jobs) : Jobs → Type 0 where
  unchanged : Later t t
  enqueuing :
      {u : Jobs} (now : ℕ) (kind : String) (payload : Fields) (run_at : Option ℕ)
      (dedupe_key : Option String) (max_attempts : ℕ)
      → Later t u
      → Later t (enqueue_job now kind payload run_at dedupe_key max_attempts u).1
  claiming :
      {u : Jobs} (kinds : Option (List String)) (lease_seconds now : ℕ)
      → Later t u
      → Later t (claim_job kinds lease_seconds now u).1
  completing : {u : Jobs} (id : ℕ) → Later t u → Later t (complete_job id u)
  failing :
      {u : Jobs} (id : ℕ) (error : String) (retry_in_seconds now : ℕ)
      → Later t u
      → Later t (fail_job id error retry_in_seconds now u)
  killing : {u : Jobs} (id : ℕ) (error : String) → Later t u → Later t (kill_job id error u)

Later-Reachable : {t u : Jobs} → Reachable t → Later t u → Reachable u
Later-Reachable r unchanged = r
Later-Reachable r (enqueuing now kind payload run_at key n l) =
    enqueued now kind payload run_at key n (Later-Reachable r l)
Later-Reachable r (claiming kinds s now l) = claimed kinds s now (Later-Reachable r l)
Later-Reachable r (completing id l) = completed id (Later-Reachable r l)
Later-Reachable r (failing id error s now l) = failed id error s now (Later-Reachable r l)
Later-Reachable r (killing id error l) = killed id error (Later-Reachable r l)

module _ (key : String) where
  abbrev holds : List Job → Bool
  holds js = any (λ (j : Job). same_key (some key) j.dedupe_key) js

  update-holds :
      (id : ℕ) (set : Job → Job) (js : List Job)
      → ((j : Job) → (set j).dedupe_key ≡ j.dedupe_key)
      → holds (update id set js) ≡ holds js
  update-holds id set [] k = refl
  update-holds id set (j ∷ js) k =
      let rest = update-holds id set js k in
      elim (Bool-cases (j.id == id)) [ inl e ↦ rw (e, k j, rest) refl | inr e ↦ rw (e, rest) refl ]

  enqueue-holds :
      (now : ℕ) (kind : String) (payload : Fields) (run_at : Option ℕ) (other : Option String)
      (n : ℕ) (t : Jobs)
      → has_key key t ≡ true
      → has_key key (enqueue_job now kind payload run_at other n t).1 ≡ true
  unfolding enqueue_job
  enqueue-holds now kind payload run_at other n t h =
      elim (Bool-cases (any (λ (j : Job). same_key other j.dedupe_key) t.rows)) [
        | inl e ↦ rw e h
        | inr e ↦ rw (e, h) (or_true (same_key (some key) other))
      ]

  claim-holds :
      (kinds : Option (List String)) (lease_seconds now : ℕ) (t u : Jobs) (taken : Option Job)
      → claim_job kinds lease_seconds now t ≡ (taken, u)
      → has_key key t ≡ true
      → has_key key u ≡ true
  claim-holds kinds lease_seconds now t u none c h =
      rw ((claim_job-IsNext kinds lease_seconds now t u none c).1 refl).1 h
  claim-holds kinds lease_seconds now t u (some j) c h =
      let (k, _, _, same) = (claim_job-IsNext kinds lease_seconds now t u (some j) c).0 j refl in
      rw same (update-holds k.id (lease (now + lease_seconds)) t.rows (λ r. refl) ∙ h)

  complete-holds :
      (id : ℕ) (t : Jobs) → has_key key t ≡ true → has_key key (complete_job id t) ≡ true
  unfolding complete_job
  complete-holds id t h = update-holds id _ t.rows (λ r. refl) ∙ h

  fail-holds :
      (id : ℕ) (error : String) (s now : ℕ) (t : Jobs)
      → has_key key t ≡ true
      → has_key key (fail_job id error s now t) ≡ true
  unfolding fail_job
  fail-holds id error s now t h = update-holds id _ t.rows (λ r. refl) ∙ h

  kill-holds :
      (id : ℕ) (error : String) (t : Jobs)
      → has_key key t ≡ true
      → has_key key (kill_job id error t) ≡ true
  unfolding kill_job
  kill-holds id error t h = update-holds id _ t.rows (λ r. refl) ∙ h

  Later-holds : {t u : Jobs} → Later t u → has_key key t ≡ true → has_key key u ≡ true
  Later-holds unchanged h = h
  Later-holds (enqueuing {u = u} now kind payload run_at other n l) h =
      enqueue-holds now kind payload run_at other n u (Later-holds l h)
  Later-holds (claiming {u = u} kinds s now l) h =
      claim-holds kinds s now u (claim_job kinds s now u).1 (claim_job kinds s now u).0 refl
        (Later-holds l h)
  Later-holds (completing {u = u} id l) h = complete-holds id u (Later-holds l h)
  Later-holds (failing {u = u} id error s now l) h = fail-holds id error s now u (Later-holds l h)
  Later-holds (killing {u = u} id error l) h = kill-holds id error u (Later-holds l h)

  has_it : (o : Option String) → same_key (some key) o ≡ true → o ≡ some key
  has_it none h = cc
  has_it (some k) h = ap some (sym ((eq_iff key k).0 h))

  collides : (o p : Option String) → o ≡ some key → p ≡ some key → same_key o p ≡ true
  collides o p e f = rw (e, f) ((eq_iff key key).1 refl)

  not_apart : (j k : Job) → IsApart j k → j.dedupe_key ≡ some key → k.dedupe_key ≡ some key → ⊥
  not_apart j k a e f = ground (arith, a.1, collides j.dedupe_key k.dedupe_key e f)

  one_key :
      (js : List Job) (j k : Job)
      → Apart js
      → At j js
      → At k js
      → j.dedupe_key ≡ some key
      → k.dedupe_key ≡ some key
      → k ≡ j
  one_key [] j k a m n e f = elim m [ ]
  one_key (r ∷ js) j k a m n e f = same (λ g h. one_key js j k a.1 g h e f) (At-cons m) (At-cons n)
    where
      same : (At j js → At k js → k ≡ j) → (j ≡ r) ⊎ At j js → (k ≡ r) ⊎ At k js → k ≡ j
      same rest (inl p) (inl q) = q ∙ sym p
      same rest (inl p) (inr h) = absurd (
          not_apart r k (All-At (IsApart r) js a.0 h) (sym (ap (λ (x : Job). x.dedupe_key) p) ∙ e)
            f)
      same rest (inr g) (inl q) = absurd (
          not_apart r j (All-At (IsApart r) js a.0 g) (sym (ap (λ (x : Job). x.dedupe_key) q) ∙ f)
            e)
      same rest (inr g) (inr h) = rest g h

  -- exactly one job has the key
  abbrev pub IsOnlyOne : Jobs → Type 0
  IsOnlyOne t =
      (j : Job) × At j t.rows
      × (j.dedupe_key ≡ some key)
      × ((k : Job) → At k t.rows → k.dedupe_key ≡ some key → k ≡ j)

  has_key-IsOnlyOne : (t : Jobs) → IsSound t → has_key key t ≡ true → IsOnlyOne t
  has_key-IsOnlyOne t s h =
      let (j, m, e) = any-At (λ (j : Job). same_key (some key) j.dedupe_key) t.rows h in
      let own = has_it j.dedupe_key e in (j, m, own, λ k n f. one_key t.rows j k s.apart m n own f)

  queued_once :
      (now : ℕ) (kind : String) (payload : Fields) (n : ℕ) (jobs between : Jobs)
      → Reachable jobs
      → Later (enqueue_job now kind payload none (some key) n jobs).1 between
      → (has_key key between ≡ true) × IsOnlyOne between
  queued_once now kind payload n jobs between r l =
      let there = Later-holds l (enqueue-new now kind payload none key n jobs) in
      let sound =
        Reachable-IsSound between
          (Later-Reachable (enqueued now kind payload none (some key) n r) l) in
      (there, has_key-IsOnlyOne between sound there)

  enqueue-none :
      (now : ℕ) (kind : String) (payload : Fields) (run_at : Option ℕ) (n : ℕ) (t : Jobs)
      → has_key key t ≡ true
      → ((enqueue_job now kind payload run_at (some key) n t).0 ≡ none)
        × ((enqueue_job now kind payload run_at (some key) n t).1.rows ≡ t.rows)
  unfolding enqueue_job
  enqueue-none now kind payload run_at n t h = (rw h refl, rw h refl)

-- The usage event of a run is queued once. After it was requested in a completed status, whatever is
-- enqueued, claimed, completed, failed and killed in between, exactly one job of the table has the key
-- of the run; and a request for the same run, with another status and at another time too, gives no
-- job and leaves the rows as they are.
pub request_usage_event_once :
    (isoformat : ℕ → String) (now later : ℕ) (c d : CaseFile) (status other : RunStatus)
    (jobs between : Jobs)
    → Reachable jobs
    → is_completed status ≡ true
    → d.run_id ≡ c.run_id
    → Later (request_usage_event isoformat now c status jobs).1 between
    → IsOnlyOne (usage_key c.run_id) between
      × ((request_usage_event isoformat later d other between).0 ≡ none)
      × ((request_usage_event isoformat later d other between).1.rows ≡ between.rows)
request_usage_event_once isoformat now later c d status other jobs between r h same l =
    let (there, one) =
      queued_once (usage_key c.run_id) now "dodo.usage" _ 5 jobs between r (first l) in
    let (no_job, kept) = again (Bool-cases (is_completed other)) (rw same there) in
    (one, no_job, kept)
  where
    first :
        Later (request_usage_event isoformat now c status jobs).1 between
        → Later
            (enqueue_job now "dodo.usage"
              (usage_payload isoformat now c status)
              none
              (some (usage_key c.run_id))
              5
              jobs).1
            between
    first k = unfold request_usage_event in (rw h at k)

    again :
        (is_completed other ≡ true) ⊎ (is_completed other ≡ false)
        → has_key (usage_key d.run_id) between ≡ true
        → ((request_usage_event isoformat later d other between).0 ≡ none)
          × ((request_usage_event isoformat later d other between).1.rows ≡ between.rows)
    again (inl t) k =
        unfold request_usage_event in
        rw t (enqueue-none (usage_key d.run_id) later "dodo.usage" _ none 5 between k)
    again (inr f) k = unfold request_usage_event in rw f (refl, refl)
