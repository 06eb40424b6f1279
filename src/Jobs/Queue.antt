-- ===== src/Jobs/Queue.antt =====
-- The jobs table and its queries (engine/contextrail/repo.py). Times are seconds; each query is one
-- transaction, so a row that another worker holds is one that it has already leased.
use contextrail.Prelude.{
  ℕ, suc, ◌+◌, Bool, true, false, not, ◌&&◌, ◌||◌, String, Option, none, some, List, [], ◌∷◌, ◌==◌,
  ltb, leb, any, str_eq, contains, if◌then◌else◌, get_or,
}
use contextrail.Models.Value.{Fields}

pub record Job : Type 0 where
  pub id : ℕ
  pub kind : String
  pub payload : Fields
  pub run_at : ℕ
  pub dedupe_key : Option String
  pub attempts : ℕ
  pub max_attempts : ℕ
  pub locked_until : Option ℕ
  pub done : Bool
  pub last_error : Option String

-- The rows, and the next number of the id sequence.
pub record Jobs : Type 0 where
  pub rows : List Job
  pub next_id : ℕ

-- two keys conflict; NULL conflicts with nothing
abbrev pub same_key : Option String → Option String → Bool
same_key (some a) (some b) = str_eq a b
same_key _ _ = false

-- update jobs set ... where id = ...
abbrev pub update : ℕ → (Job → Job) → List Job → List Job
update id set [] = []
update id set (j ∷ js) =
    let rest = update id set js in if j.id == id then set j ∷ rest else j ∷ rest

abbrev with_rows : (List Job → List Job) → Jobs → Jobs
with_rows f t = record { rows = f t.rows; next_id = t.next_id }

abbrev insert : Job → Bool → Jobs → Option ℕ × Jobs
insert j true t = (none, record { rows = t.rows; next_id = suc t.next_id })
insert j false t = (some j.id, record { rows = j ∷ t.rows; next_id = suc t.next_id })

abbrev pub new_job : ℕ → String → Fields → ℕ → Option String → ℕ → Job
new_job id kind payload run_at dedupe_key max_attempts = record {
  id = id;
  kind = kind;
  payload = payload;
  run_at = run_at;
  dedupe_key = dedupe_key;
  attempts = 0;
  max_attempts = max_attempts;
  locked_until = none;
  done = false;
  last_error = none;
}

-- The id, or none if a job with the key exists; the sequence advances either way. The order of the
-- rows is not observed.
unfoldable pub enqueue_job :
    ℕ → String → Fields → Option ℕ → Option String → ℕ → Jobs → Option ℕ × Jobs
enqueue_job now kind payload run_at dedupe_key max_attempts t =
    insert (new_job t.next_id kind payload (get_or run_at now) dedupe_key max_attempts)
      (any (λ (j : Job). same_key dedupe_key j.dedupe_key) t.rows) t

abbrev pub free : ℕ → Option ℕ → Bool
free now none = true
free now (some until) = ltb until now

abbrev wanted : Option (List String) → String → Bool
wanted none kind = true
wanted (some kinds) kind = contains kind kinds

unfoldable pub is_ready : Option (List String) → ℕ → Job → Bool
is_ready kinds now j =
    not j.done
    && leb j.run_at now
    && free now j.locked_until
    && ltb j.attempts j.max_attempts
    && wanted kinds j.kind

-- order by run_at, id
abbrev pub goes_first : Job → Job → Bool
goes_first a b = ltb a.run_at b.run_at || (a.run_at == b.run_at && leb a.id b.id)

abbrev pub earlier : Job → Option Job → Option Job
earlier j none = some j
earlier j (some k) = if goes_first j k then some j else some k

-- limit 1
abbrev pub first_ready : Option (List String) → ℕ → List Job → Option Job
first_ready kinds now [] = none
first_ready kinds now (j ∷ js) =
    let rest = first_ready kinds now js in if is_ready kinds now j then earlier j rest else rest

abbrev pub lease : ℕ → Job → Job
lease until j = record j { locked_until = some until; attempts = suc j.attempts }

abbrev take : ℕ → Option Job → Jobs → Option Job × Jobs
take until none t = (none, t)
take until (some j) t = (some (lease until j), with_rows (update j.id (lease until)) t)

unfoldable pub claim_job : Option (List String) → ℕ → ℕ → Jobs → Option Job × Jobs
claim_job kinds lease_seconds now t = take (now + lease_seconds) (first_ready kinds now t.rows) t

abbrev complete : Job → Job
complete j = record j { done = true; locked_until = none; last_error = none }

unfoldable pub complete_job : ℕ → Jobs → Jobs
complete_job id t = with_rows (update id complete) t

abbrev fail : ℕ → String → Job → Job
fail run_at error j = record j { locked_until = none; last_error = some error; run_at = run_at }

-- `error` is the text cut to 2000 characters
unfoldable pub fail_job : ℕ → String → ℕ → ℕ → Jobs → Jobs
fail_job id error retry_in_seconds now t =
    with_rows (update id (fail (now + retry_in_seconds) error)) t

abbrev pub spend : ℕ → ℕ → ℕ
spend attempts max_attempts = if ltb attempts max_attempts then max_attempts else attempts

abbrev kill : String → Job → Job
kill error j = record j {
  attempts = spend j.attempts j.max_attempts;
  locked_until = none;
  last_error = some error;
}

-- the update of a PermanentJobError in `Worker._run`
unfoldable pub kill_job : ℕ → String → Jobs → Jobs
kill_job id error t = with_rows (update id (kill error)) t
