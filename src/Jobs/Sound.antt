-- ===== src/Jobs/Sound.antt =====
-- What holds of the jobs table whatever the workers do (engine/contextrail/repo.py).
use contextrail.Prelude.{
  ℕ, suc, ◌+◌, ◌≤◌, ◌<◌, true, false, String, Option, none, some, List, [], ◌∷◌, ◌≡◌, ◌≢◌, refl,
  ◌⊎◌, inl, inr, Bool-cases, All, any, get_or, All-At, At, here, there, At-cons, arith, ap, sym,
  ◌∙◌, ◌==◌,
}
use contextrail.Models.Value.{Fields}
use contextrail.Jobs.Queue.{
  Job, Jobs, same_key, update, new_job, is_ready, lease, enqueue_job, claim_job, complete_job,
  fail_job, kill_job,
}
use contextrail.Jobs.Next.{claim_job-IsNext}

-- The tables that the queries make of the empty one.
pub data Reachable : Jobs → Type 0 where
  empty : Reachable (record { rows = []; next_id = 1 })
  enqueued :
      {t : Jobs} (now : ℕ) (kind : String) (payload : Fields) (run_at : Option ℕ)
      (dedupe_key : Option String) (max_attempts : ℕ)
      → Reachable t
      → Reachable (enqueue_job now kind payload run_at dedupe_key max_attempts t).1
  claimed :
      {t : Jobs} (kinds : Option (List String)) (lease_seconds now : ℕ)
      → Reachable t
      → Reachable (claim_job kinds lease_seconds now t).1
  completed : {t : Jobs} (id : ℕ) → Reachable t → Reachable (complete_job id t)
  failed :
      {t : Jobs} (id : ℕ) (error : String) (retry_in_seconds now : ℕ)
      → Reachable t
      → Reachable (fail_job id error retry_in_seconds now t)
  killed : {t : Jobs} (id : ℕ) (error : String) → Reachable t → Reachable (kill_job id error t)

-- two jobs with neither the id nor the deduplication key in common
abbrev pub IsApart : Job → Job → Type 0
IsApart j k = (j.id ≢ k.id) × (same_key j.dedupe_key k.dedupe_key ≡ false)

abbrev pub Apart : List Job → Type 0
Apart [] = Unit
Apart (j ∷ js) = All (IsApart j) js × Apart js

abbrev pub IsBounded : ℕ → Job → Type 0
IsBounded next_id j = (j.id < next_id) × (j.attempts ≤ j.max_attempts)

pub record IsSound (t : Jobs) : Type 0 where
  pub bounded : All (IsBounded t.next_id) t.rows
  pub apart : Apart t.rows

-- an update that keeps ids and keys
record IsKeeping (set : Job → Job) : Type 0 where
  id_kept : (j : Job) → (set j).id ≡ j.id
  key_kept : (j : Job) → (set j).dedupe_key ≡ j.dedupe_key

module _ (id : ℕ) (set : Job → Job) (keeps : IsKeeping set) where
  update-IsApart :
      (j : Job) (js : List Job) → All (IsApart j) js → All (IsApart j) (update id set js)
  update-IsApart j [] a = tt
  update-IsApart j (k ∷ js) a =
      let rest = update-IsApart j js a.1 in
      elim (Bool-cases (k.id == id)) [
        | inl e ↦ rw e ((λ q. a.0.0 (q ∙ keeps.id_kept k), rw (keeps.key_kept k) a.0.1), rest)
        | inr e ↦ rw e (a.0, rest)
      ]

  set-IsApart : (j : Job) (js : List Job) → All (IsApart j) js → All (IsApart (set j)) js
  set-IsApart j [] a = tt
  set-IsApart j (k ∷ js) a =
      ((λ q. a.0.0 (sym (keeps.id_kept j) ∙ q), rw (keeps.key_kept j) a.0.1), set-IsApart j js a.1)

  update-Apart : (js : List Job) → Apart js → Apart (update id set js)
  update-Apart [] a = tt
  update-Apart (j ∷ js) a =
      let rest = update-Apart js a.1 in
      elim (Bool-cases (j.id == id)) [
        | inl e ↦ rw e (set-IsApart j (update id set js) (update-IsApart j js a.0), rest)
        | inr e ↦ rw e (update-IsApart j js a.0, rest)
      ]

  update-IsBounded :
      (n : ℕ) (js : List Job)
      → ((j : Job)
          → At j js
          → j.id ≡ id
          → j.attempts ≤ j.max_attempts
          → (set j).attempts ≤ (set j).max_attempts)
      → All (IsBounded n) js
      → All (IsBounded n) (update id set js)
  update-IsBounded n [] f a = tt
  update-IsBounded n (j ∷ js) f a =
      let rest = update-IsBounded n js (λ k m. f k (there m)) a.1 in
      elim (Bool-cases (j.id == id)) [
        | inl e ↦ rw e ((rw (keeps.id_kept j) a.0.0, f j here (ground arith) a.0.1), rest)
        | inr e ↦ rw e (a.0, rest)
      ]

apart_from : (j k : Job) (js : List Job) → All (IsApart j) js → At k js → j.id ≢ k.id
apart_from j k js a m = (All-At (IsApart j) js a m).0

one_row : (j k : Job) (js : List Job) → Apart js → At j js → At k js → j.id ≡ k.id → j ≡ k
one_row j k [] a m n q = elim m [ ]
one_row j k (r ∷ js) a m n q = same (λ g h. one_row j k js a.1 g h q) (At-cons m) (At-cons n)
  where
    same : (At j js → At k js → j ≡ k) → (j ≡ r) ⊎ At j js → (k ≡ r) ⊎ At k js → j ≡ k
    same rest (inl e) (inl f) = e ∙ sym f
    same rest (inl e) (inr g) =
        absurd (apart_from r k js a.0 g (sym (ap (λ (x : Job). x.id) e) ∙ q))
    same rest (inr g) (inl f) =
        absurd (apart_from r j js a.0 g (sym (ap (λ (x : Job). x.id) f) ∙ sym q))
    same rest (inr g) (inr h) = rest g h

raised : (n : ℕ) (js : List Job) → All (IsBounded n) js → All (IsBounded (suc n)) js
raised n [] a = tt
raised n (j ∷ js) a = ((omega (arith, a.0.0), a.0.1), raised n js a.1)

new_row :
    (t : Jobs) (job : Job)
    → job.id ≡ t.next_id
    → job.attempts ≡ 0
    → any (λ (j : Job). same_key job.dedupe_key j.dedupe_key) t.rows ≡ false
    → IsSound t
    → IsSound (record { rows = job ∷ t.rows; next_id = suc t.next_id })
new_row t job i z d h = record {
  bounded = ((omega arith, omega arith), raised t.next_id t.rows h.bounded);
  apart = (fresh t.next_id t.rows i h.bounded d, h.apart);
}
  where
    fresh :
        (n : ℕ) (js : List Job)
        → job.id ≡ n
        → All (IsBounded n) js
        → any (λ (j : Job). same_key job.dedupe_key j.dedupe_key) js ≡ false
        → All (IsApart job) js
    fresh n [] q a d = tt
    fresh n (j ∷ js) q a d = elim (Bool-cases (same_key job.dedupe_key j.dedupe_key)) [
      | inl e ↦ absurd (ground arith)
      | inr e ↦ ((λ p. omega (arith, p, q, a.0.0), e), fresh n js q a.1 (ground arith))
    ]

enqueue-IsSound :
    (now : ℕ) (kind : String) (payload : Fields) (run_at : Option ℕ) (dedupe_key : Option String)
    (max_attempts : ℕ) (t : Jobs)
    → IsSound t
    → IsSound (enqueue_job now kind payload run_at dedupe_key max_attempts t).1
unfolding enqueue_job
enqueue-IsSound now kind payload run_at dedupe_key max_attempts t h =
    elim (Bool-cases (any (λ (j : Job). same_key dedupe_key j.dedupe_key) t.rows)) [
      | inl e ↦ rw e (record { bounded = raised t.next_id t.rows h.bounded; apart = h.apart })
      | inr e ↦ rw e (
          new_row t (new_job t.next_id kind payload (get_or run_at now) dedupe_key max_attempts)
            refl refl e h)
    ]

settle-IsSound :
    (id : ℕ) (set : Job → Job) (t : Jobs)
    → IsKeeping set
    → ((j : Job)
        → At j t.rows
        → j.id ≡ id
        → j.attempts ≤ j.max_attempts
        → (set j).attempts ≤ (set j).max_attempts)
    → IsSound t
    → IsSound (record { rows = update id set t.rows; next_id = t.next_id })
settle-IsSound id set t k f h = record {
  bounded = update-IsBounded id set k t.next_id t.rows f h.bounded;
  apart = update-Apart id set k t.rows h.apart;
}

complete-IsSound : (id : ℕ) (t : Jobs) → IsSound t → IsSound (complete_job id t)
unfolding complete_job
complete-IsSound id t h =
    settle-IsSound id _ t (record { id_kept = λ r. refl; key_kept = λ r. refl }) (λ r m q b. b) h

fail-IsSound :
    (id : ℕ) (error : String) (retry_in_seconds now : ℕ) (t : Jobs)
    → IsSound t
    → IsSound (fail_job id error retry_in_seconds now t)
unfolding fail_job
fail-IsSound id error retry_in_seconds now t h =
    settle-IsSound id _ t (record { id_kept = λ r. refl; key_kept = λ r. refl }) (λ r m q b. b) h

kill-IsSound : (id : ℕ) (error : String) (t : Jobs) → IsSound t → IsSound (kill_job id error t)
unfolding kill_job
kill-IsSound id error t h =
    settle-IsSound id _ t (record { id_kept = λ r. refl; key_kept = λ r. refl })
      (λ r m q b. ground arith) h

claim-IsSound :
    (kinds : Option (List String)) (lease_seconds now : ℕ) (t u : Jobs) (claimed : Option Job)
    → claim_job kinds lease_seconds now t ≡ (claimed, u)
    → IsSound t
    → IsSound u
claim-IsSound kinds lease_seconds now t u none c h =
    rw ((claim_job-IsNext kinds lease_seconds now t u none c).1 refl).1 h
claim-IsSound kinds lease_seconds now t u (some j) c h =
    let (k, n, leased, same) = (claim_job-IsNext kinds lease_seconds now t u (some j) c).0 j refl in
    rw same (
      settle-IsSound k.id (lease (now + lease_seconds)) t
        (record { id_kept = λ r. refl; key_kept = λ r. refl })
        (λ r m q b. spent r k (one_row r k t.rows h.apart m n.stands q) n.ready) h)
  where
    spent : (r k : Job) → r ≡ k → is_ready kinds now k ≡ true → suc r.attempts ≤ r.max_attempts
    spent r k e ready = unfold is_ready in ground arith

-- However jobs are enqueued, claimed, completed, failed and killed: ids and deduplication keys stay
-- unique, ids stay below the sequence, and no job is attempted more often than its maximum.
pub Reachable-IsSound : (t : Jobs) → Reachable t → IsSound t
Reachable-IsSound _ empty = record { bounded = tt; apart = tt }
Reachable-IsSound _ (enqueued {t = t} now kind payload run_at dedupe_key max_attempts r) =
    enqueue-IsSound now kind payload run_at dedupe_key max_attempts t (Reachable-IsSound t r)
Reachable-IsSound _ (claimed {t = t} kinds lease_seconds now r) =
    claim-IsSound kinds lease_seconds now t (claim_job kinds lease_seconds now t).1
      (claim_job kinds lease_seconds now t).0 refl (Reachable-IsSound t r)
Reachable-IsSound _ (completed {t = t} id r) = complete-IsSound id t (Reachable-IsSound t r)
Reachable-IsSound _ (failed {t = t} id error retry now r) =
    fail-IsSound id error retry now t (Reachable-IsSound t r)
Reachable-IsSound _ (killed {t = t} id error r) = kill-IsSound id error t (Reachable-IsSound t r)
