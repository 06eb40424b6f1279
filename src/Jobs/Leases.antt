-- ===== src/Jobs/Leases.antt =====
-- A leased job is not claimed again before its lease ends (engine/contextrail/repo.py).
use contextrail.Prelude.{
  ℕ, ◌+◌, ◌≤◌, ◌<◌, String, Option, some, List, [], ◌∷◌, ◌≡◌, ◌≢◌, refl, inl, inr, Bool-cases, All,
  All-At, any, At, At-cons, arith, ap, sym, ◌∙◌, ◌==◌,
}
use contextrail.Models.Value.{Fields}
use contextrail.Jobs.Queue.{
  Job, Jobs, update, same_key, is_ready, lease, enqueue_job, claim_job, complete_job, fail_job,
  kill_job,
}
use contextrail.Jobs.Next.{IsNext, claim_job-IsNext}

-- What other workers do to the table until a time: they enqueue and claim jobs, and settle any job
-- but the given one. The ids that were claimed are listed, the last one first.
pub data Others (id until : ℕ) (t : Jobs) : List ℕ → Jobs → Type 0 where
  idle : Others id until t [] t
  enqueued :
      {l : List ℕ} {u : Jobs} (now : ℕ) (kind : String) (payload : Fields) (run_at : Option ℕ)
      (dedupe_key : Option String) (max_attempts : ℕ)
      → Others id until t l u
      → Others id until t l (enqueue_job now kind payload run_at dedupe_key max_attempts u).1
  claimed :
      {l : List ℕ} {u v : Jobs} {j : Job} (kinds : Option (List String)) (lease_seconds now : ℕ)
      → now ≤ until
      → Others id until t l u
      → claim_job kinds lease_seconds now u ≡ (some j, v)
      → Others id until t (j.id ∷ l) v
  completed :
      {l : List ℕ} {u : Jobs} (other : ℕ)
      → other ≢ id
      → Others id until t l u
      → Others id until t l (complete_job other u)
  failed :
      {l : List ℕ} {u : Jobs} (other : ℕ) (error : String) (retry_in_seconds now : ℕ)
      → other ≢ id
      → Others id until t l u
      → Others id until t l (fail_job other error retry_in_seconds now u)
  killed :
      {l : List ℕ} {u : Jobs} (other : ℕ) (error : String)
      → other ≢ id
      → Others id until t l u
      → Others id until t l (kill_job other error u)

module _ (id until : ℕ) where
  abbrev IsHeld : Job → Type 0
  IsHeld j = j.id ≡ id → j.locked_until ≡ some until

  record Held (t : Jobs) : Type 0 where
    rows : All IsHeld t.rows
    numbered : id < t.next_id

  -- an update of other rows
  update-IsHeld :
      (other : ℕ) (set : Job → Job) (js : List Job)
      → other ≢ id
      → ((j : Job) → (set j).id ≡ j.id)
      → All IsHeld js
      → All IsHeld (update other set js)
  update-IsHeld other set [] n s a = tt
  update-IsHeld other set (j ∷ js) n s a = elim (Bool-cases (j.id == other)) [
    | inl e ↦
        rw e (
          λ q. absurd (n (sym (ground arith) ∙ (sym (s j) ∙ q))),
          update-IsHeld other set js n s a.1,
        )
    | inr e ↦ rw e (a.0, update-IsHeld other set js n s a.1)
  ]

  not_taken :
      (kinds : Option (List String)) (now : ℕ) (rows : List Job) (k : Job)
      → All IsHeld rows
      → IsNext kinds now rows k
      → now ≤ until
      → k.id ≢ id
  unfolding is_ready
  not_taken kinds now rows k a n m q =
      let e = All-At IsHeld rows a n.stands q in let r = n.ready in ground arith

  enqueue-Held :
      (now : ℕ) (kind : String) (payload : Fields) (run_at : Option ℕ) (dedupe_key : Option String)
      (max_attempts : ℕ) (t : Jobs)
      → Held t
      → Held (enqueue_job now kind payload run_at dedupe_key max_attempts t).1
  unfolding enqueue_job
  enqueue-Held now kind payload run_at dedupe_key max_attempts t h =
      elim (Bool-cases (any (λ (j : Job). same_key dedupe_key j.dedupe_key) t.rows)) [
        | inl e ↦ rw e (record { rows = h.rows; numbered = omega (arith, h.numbered) })
        | inr e ↦ rw e (record {
          rows = (λ q. absurd (omega (arith, q, h.numbered)), h.rows);
          numbered = omega (arith, h.numbered);
        })
      ]

  complete-Held : (other : ℕ) (t : Jobs) → other ≢ id → Held t → Held (complete_job other t)
  unfolding complete_job
  complete-Held other t n h = record {
    rows = update-IsHeld other _ t.rows n (λ j. refl) h.rows;
    numbered = h.numbered;
  }

  fail-Held :
      (other : ℕ) (error : String) (retry_in_seconds now : ℕ) (t : Jobs)
      → other ≢ id
      → Held t
      → Held (fail_job other error retry_in_seconds now t)
  unfolding fail_job
  fail-Held other error retry_in_seconds now t n h = record {
    rows = update-IsHeld other _ t.rows n (λ j. refl) h.rows;
    numbered = h.numbered;
  }

  kill-Held :
      (other : ℕ) (error : String) (t : Jobs) → other ≢ id → Held t → Held (kill_job other error t)
  unfolding kill_job
  kill-Held other error t n h = record {
    rows = update-IsHeld other _ t.rows n (λ j. refl) h.rows;
    numbered = h.numbered;
  }

  claim-Held :
      (kinds : Option (List String)) (lease_seconds now : ℕ) (t u : Jobs) (j : Job)
      → now ≤ until
      → claim_job kinds lease_seconds now t ≡ (some j, u)
      → Held t
      → Held u × (j.id ≢ id)
  claim-Held kinds lease_seconds now t u j m c h =
      let (k, n, leased, same) =
        (claim_job-IsNext kinds lease_seconds now t u (some j) c).0 j refl in
      let other = not_taken kinds now t.rows k h.rows n m in
      (
        rw same (record {
          rows = update-IsHeld k.id (lease (now + lease_seconds)) t.rows other (λ r. refl) h.rows;
          numbered = h.numbered;
        }),
        λ q. other (sym (ap (λ (r : Job). r.id) leased) ∙ q),
      )

  Others-Held :
      {t : Jobs} {l : List ℕ} {u : Jobs} → Others id until t l u → Held t → Held u × (At id l → ⊥)
  Others-Held idle h = (h, λ m. elim m [ ])
  Others-Held (enqueued {u = u} now kind payload run_at dedupe_key max_attempts o) h =
      let (g, n) = Others-Held o h in
      (enqueue-Held now kind payload run_at dedupe_key max_attempts u g, n)
  Others-Held (claimed {u = u} {v = v} {j = j} kinds lease_seconds now m o c) h =
      let (g, n) = Others-Held o h in
      let (k, d) = claim-Held kinds lease_seconds now u v j m c g in
      (k, λ at. elim (At-cons at) [ inl q ↦ d (sym q) | inr r ↦ n r ])
  Others-Held (completed {u = u} other d o) h =
      let (g, n) = Others-Held o h in (complete-Held other u d g, n)
  Others-Held (failed {u = u} other error retry now d o) h =
      let (g, n) = Others-Held o h in (fail-Held other error retry now u d g, n)
  Others-Held (killed {u = u} other error d o) h =
      let (g, n) = Others-Held o h in (kill-Held other error u d g, n)

leased_rows : (id until : ℕ) (js : List Job) → All (IsHeld id until) (update id (lease until) js)
leased_rows id until [] = tt
leased_rows id until (j ∷ js) = elim (Bool-cases (j.id == id)) [
  | inl e ↦ rw e (λ q. refl, leased_rows id until js)
  | inr e ↦ rw e (λ q. absurd (ground arith), leased_rows id until js)
]

-- While the lease of a claimed job runs and the job is not settled, no worker claims it again, in
-- whatever order jobs are enqueued, claimed and settled in between.
pub leased_once :
    (kinds : Option (List String)) (lease_seconds now : ℕ) (t u v : Jobs) (j : Job) (l : List ℕ)
    → All (λ (r : Job). r.id < t.next_id) t.rows
    → claim_job kinds lease_seconds now t ≡ (some j, u)
    → Others j.id (now + lease_seconds) u l v
    → ¬ At j.id l
leased_once kinds lease_seconds now t u v j l numbered c o =
    let (k, n, leased, same) = (claim_job-IsNext kinds lease_seconds now t u (some j) c).0 j refl in
    let held : Held j.id (now + lease_seconds) u =
      rw (same, leased)
        (record {
          rows = leased_rows k.id (now + lease_seconds) t.rows;
          numbered = All-At (λ (r : Job). r.id < t.next_id) t.rows numbered n.stands;
        }) in
    (Others-Held j.id (now + lease_seconds) o held).1
