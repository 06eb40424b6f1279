-- ===== src/Rail/AskedOnce.antt =====
-- An approver is asked once (engine/contextrail/rail/approve.py).
use contextrail.Prelude.{
  ℕ, Bool, true, false, ◌||◌, String, Option, none, some, List, ◌≡◌, refl, inl, inr, any,
  Bool-cases, str_eq, eq_iff, All,
}
use contextrail.Models.Value.{Fields}
use contextrail.Models.Action.{Action}
use contextrail.Jobs.Queue.{Job, Jobs, same_key, enqueue_job}
use contextrail.Rail.Dispatch.{ask, case_of, dispatch_key}

abbrev pub has_key : String → Jobs → Bool
has_key key t = any (λ (j : Job). same_key (some key) j.dedupe_key) t.rows

pub or_true : (b : Bool) → (b || true) ≡ true
or_true true = refl
or_true false = refl

pub enqueue-kept :
    (now : ℕ) (kind : String) (payload : Fields) (run_at : Option ℕ) (key other : String) (n : ℕ)
    (t : Jobs)
    → has_key other t ≡ true
    → has_key other (enqueue_job now kind payload run_at (some key) n t).1 ≡ true
unfolding enqueue_job
enqueue-kept now kind payload run_at key other n t h = elim (Bool-cases (has_key key t)) [
  | inl e ↦ rw e h
  | inr e ↦ rw (e, h) (or_true (str_eq other key))
]

pub enqueue-new :
    (now : ℕ) (kind : String) (payload : Fields) (run_at : Option ℕ) (key : String) (n : ℕ)
    (t : Jobs)
    → has_key key (enqueue_job now kind payload run_at (some key) n t).1 ≡ true
unfolding enqueue_job
enqueue-new now kind payload run_at key n t = elim (Bool-cases (has_key key t)) [
  | inl e ↦ rw e e
  | inr e ↦ rw (e, (eq_iff key key).1 refl) refl
]

pub enqueue-known :
    (now : ℕ) (kind : String) (payload : Fields) (run_at : Option ℕ) (key : String) (n : ℕ)
    (t : Jobs)
    → has_key key t ≡ true
    → (enqueue_job now kind payload run_at (some key) n t).0 ≡ none
unfolding enqueue_job
enqueue-known now kind payload run_at key n t h = rw h refl

module _ (run_id : String) where
  -- whether each action that a job is asked for has one
  abbrev Asked : List Action → Jobs → Type 0
  Asked actions t = All (λ a. case_of a ≡ ask → has_key (dispatch_key run_id a) t ≡ true) actions
