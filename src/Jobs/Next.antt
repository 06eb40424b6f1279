-- ===== src/Jobs/Next.antt =====
-- Which job `claim_job` takes (engine/contextrail/repo.py).
use mathlib.Core.Path.{subst}
use contextrail.Prelude.{
  some-eq-some, ℕ, ◌+◌, Bool, true, false, String, Option, none, some, List, [], ◌∷◌, ◌≡◌, refl,
  inl, inr, Bool-cases, Option-cases, All, At, here, there, arith, ◌∙◌, if◌then◌else◌,
}
use contextrail.Jobs.Queue.{
  Job, Jobs, update, goes_first, earlier, is_ready, first_ready, lease, claim_job,
}

goes_first_self : (a : Job) → goes_first a a ≡ true
goes_first_self a = ground arith

goes_first_total : (a b : Job) → goes_first a b ≡ false → goes_first b a ≡ true
goes_first_total a b h = ground arith

goes_first_trans :
    (a b c : Job) → goes_first a b ≡ true → goes_first b c ≡ true → goes_first a c ≡ true
goes_first_trans a b c h g = ground arith

module _ (kinds : Option (List String)) (now : ℕ) where
  -- a ready row that goes before every other ready row
  pub record IsNext (rows : List Job) (j : Job) : Type 0 where
    pub stands : At j rows
    pub ready : is_ready kinds now j ≡ true
    pub first : All (λ k. is_ready kinds now k ≡ true → goes_first j k ≡ true) rows

  none_ready :
      (rows : List Job)
      → first_ready kinds now rows ≡ none
      → All (λ k. is_ready kinds now k ≡ false) rows
  none_ready [] h = tt
  none_ready (r ∷ rows) h =
      go (is_ready kinds now r) (first_ready kinds now rows) refl (none_ready rows) h
    where
      go :
          (b : Bool) (rest : Option Job)
          → is_ready kinds now r ≡ b
          → (rest ≡ none → All (λ k. is_ready kinds now k ≡ false) rows)
          → (if b then earlier r rest else rest) ≡ none
          → All (λ k. is_ready kinds now k ≡ false) (r ∷ rows)
      go false rest e ih h = (e, ih h)
      go true none e ih h = cc
      go true (some k) e ih h = absurd (ground arith)

  All-map :
      {P Q : Job → Type 0} (rows : List Job) → ((k : Job) → P k → Q k) → All P rows → All Q rows
  All-map [] f a = tt
  All-map (r ∷ rows) f a = (f r a.0, All-map rows f a.1)

  first_ready-IsNext :
      (rows : List Job) (j : Job) → first_ready kinds now rows ≡ some j → IsNext rows j
  first_ready-IsNext [] j h = cc
  first_ready-IsNext (r ∷ rows) j h =
      go (is_ready kinds now r) (first_ready kinds now rows) refl refl
        (λ k. first_ready-IsNext rows k) h
    where
      go :
          (b : Bool) (rest : Option Job)
          → is_ready kinds now r ≡ b
          → first_ready kinds now rows ≡ rest
          → ((k : Job) → first_ready kinds now rows ≡ some k → IsNext rows k)
          → (if b then earlier r rest else rest) ≡ some j
          → IsNext (r ∷ rows) j
      go false rest e q ih h =
          let n = ih j (q ∙ h) in
          record { stands = there n.stands; ready = n.ready; first = (λ t. cc, n.first) }
      go true none e q ih h =
          let s : r ≡ j = some-eq-some h in
          subst (IsNext (r ∷ rows)) s (record {
            stands = here;
            ready = e;
            first = (λ t. goes_first_self r, All-map rows (λ k f t. cc) (none_ready rows q));
          })
      go true (some k) e q ih h =
          let n = ih k q in
          elim (Bool-cases (goes_first r k)) [
            | inl f ↦
                let s : r ≡ j = ground arith in
                subst (IsNext (r ∷ rows)) s (record {
                  stands = here;
                  ready = e;
                  first = (
                    λ t. goes_first_self r,
                    All-map rows (λ l g t. goes_first_trans r k l f (g t)) n.first,
                  );
                })
            | inr f ↦
                let s : k ≡ j = ground arith in
                subst (IsNext (r ∷ rows)) s (record {
                  stands = there n.stands;
                  ready = n.ready;
                  first = (λ t. goes_first_total r k f, n.first);
                })
          ]

-- `claim_job` takes a ready row, the first of the ready ones by `run_at` and then by id, and leases it:
-- the row is stored with its lease and one attempt more, and so it is returned. It returns none
-- only if no row is ready, and changes nothing then.
pub claim_job-IsNext :
    (kinds : Option (List String)) (lease_seconds now : ℕ) (t u : Jobs) (claimed : Option Job)
    → claim_job kinds lease_seconds now t ≡ (claimed, u)
    → ((j : Job)
        → claimed ≡ some j
        → (k : Job) × IsNext kinds now t.rows k
          × (j ≡ lease (now + lease_seconds) k)
          × (u ≡ record {
            rows = update k.id (lease (now + lease_seconds)) t.rows;
            next_id = t.next_id;
          }))
      × (claimed ≡ none → All (λ k. is_ready kinds now k ≡ false) t.rows × (u ≡ t))
unfolding claim_job
claim_job-IsNext kinds lease_seconds now t u claimed h =
    elim (Option-cases (first_ready kinds now t.rows)) [
      | inl e ↦ (λ j q. absurd (ground arith), λ q. (none_ready kinds now t.rows e, ground arith))
      | inr (k, e) ↦ (
        λ j q. (k, first_ready-IsNext kinds now t.rows k e, ground arith, ground arith),
        λ q. absurd (ground arith),
      )
    ]
