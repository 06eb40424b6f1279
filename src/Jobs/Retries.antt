-- ===== src/Jobs/Retries.antt =====
-- When a job that has run is run again (engine/contextrail/jobs.py).
use mathlib.Core.Path.{subst}
use contextrail.Prelude.{
  not, ◌&&◌, ltb, ℕ, zero, suc, ◌+◌, ◌-◌, ◌*◌, ◌^◌, ◌≤◌, ◌<◌, min, Bool, true, false, String,
  Option, none, List, [], ◌∷◌, ◌≡◌, refl, inl, inr, Bool-cases, All, arith, sym, ◌∙◌, ◌==◌, leb,
}
use contextrail.Jobs.Queue.{
  Job, Jobs, spend, free, update, is_ready, complete_job, fail_job, kill_job,
}
use contextrail.Jobs.Worker.{
  Ended, returned, permanent, raised, Result, done, retry, dead, JobOutcome, retry_delay, run,
}

one_le_pow : (n : ℕ) → 1 ≤ 2 ^ n
one_le_pow zero = omega arith
one_le_pow (suc n) = omega (arith, one_le_pow n)

le_mul : (b x y : ℕ) → x ≤ y → b * x ≤ b * y
le_mul zero x y h = omega arith
le_mul (suc b) x y h = omega (arith, h, le_mul b x y h)

power_steps :
    (a : ℕ) → (2 ^ min a 20 ≤ 2 ^ min (suc a) 20) × (2 ^ min (suc a) 20 ≤ 2 * 2 ^ min a 20)
power_steps a = elim (Bool-cases (leb 20 a)) [
  | inl e ↦
      let p : min a 20 ≡ 20 = ground arith in
      let q : min (suc a) 20 ≡ 20 = ground arith in rw (p, q) (omega arith, omega arith)
  | inr e ↦
      let p : min a 20 ≡ a = ground arith in
      let q : min (suc a) 20 ≡ suc a = ground arith in rw (p, q) (omega arith, omega arith)
]

capped :
    (c b p q : ℕ)
    → b ≤ p
    → p ≤ q
    → q ≤ 2 * p
    → (min c p ≤ c) × (min b c ≤ min c p) × (min c p ≤ min c q) × (min c q ≤ 2 * min c p)
capped c b p q h i j = (omega arith, omega arith, omega arith, omega arith)

-- A delay is never above the cap; it is at least the base or the cap, the smaller one; and from one attempt to
-- the next it does not fall and at most doubles.
retry_delay_lem :
    (base_s cap_s attempt : ℕ)
    → 1 ≤ attempt
    → (retry_delay base_s cap_s attempt ≤ cap_s)
      × (min base_s cap_s ≤ retry_delay base_s cap_s attempt)
      × (retry_delay base_s cap_s attempt ≤ retry_delay base_s cap_s (suc attempt))
      × (retry_delay base_s cap_s (suc attempt) ≤ 2 * retry_delay base_s cap_s attempt)
unfolding retry_delay
retry_delay_lem base_s cap_s zero h = absurd (omega arith)
retry_delay_lem base_s cap_s (suc a) h =
    let (up, twice) = power_steps a in
    let least = le_mul base_s 1 (2 ^ min a 20) (one_le_pow (min a 20)) in
    let more = le_mul base_s (2 ^ min a 20) (2 ^ min (suc a) 20) up in
    let less = le_mul base_s (2 ^ min (suc a) 20) (2 * 2 ^ min a 20) twice in
    let one : suc a - 1 ≡ a = omega arith in
    let two : suc (suc a) - 1 ≡ suc a = omega arith in
    rw (one, two)
      (capped cap_s base_s (base_s * 2 ^ min a 20) (base_s * 2 ^ min (suc a) 20)
        (omega (arith, least)) more (omega (arith, less)))

-- what a settled row is, by the outcome
abbrev pub IsSettled : ℕ → Result → Job → Type 0
IsSettled run_at retry r =
    (r.run_at ≡ run_at) × (r.locked_until ≡ none) × (r.attempts < r.max_attempts) × (r.done ≡ false)
IsSettled run_at done r =
    (r.done ≡ true) × ((kinds : Option (List String)) (at : ℕ) → is_ready kinds at r ≡ false)
IsSettled run_at dead r =
    (r.max_attempts ≤ r.attempts)
    × ((kinds : Option (List String)) (at : ℕ) → is_ready kinds at r ≡ false)

-- the row of the job, as it was claimed
abbrev pub IsClaimed : Job → Job → Type 0
IsClaimed j r =
    r.id ≡ j.id → (r.attempts ≡ j.attempts) × (r.max_attempts ≡ j.max_attempts) × (r.done ≡ false)

update-IsSettled :
    (j : Job) (set : Job → Job) (run_at : ℕ) (result : Result) (js : List Job)
    → ((r : Job)
        → r.attempts ≡ j.attempts
        → r.max_attempts ≡ j.max_attempts
        → r.done ≡ false
        → IsSettled run_at result (set r))
    → ((r : Job) → (set r).id ≡ r.id)
    → All (IsClaimed j) js
    → All (λ r. r.id ≡ j.id → IsSettled run_at result r) (update j.id set js)
update-IsSettled j set run_at result [] f k a = tt
update-IsSettled j set run_at result (r ∷ js) f k a =
    let rest = update-IsSettled j set run_at result js f k a.1 in
    elim (Bool-cases (r.id == j.id)) [
      | inl e ↦ rw e (λ q. let c = a.0 (sym (k r) ∙ q) in f r c.0 c.1 c.2, rest)
      | inr e ↦ rw e (λ q. absurd (ground arith), rest)
    ]

settled_done :
    (r : Job)
    → r.done ≡ true
    → (kinds : Option (List String)) (at : ℕ) → is_ready kinds at r ≡ false
unfolding is_ready
settled_done r h kinds at = rw h refl

and_false : (a b c d : Bool) → (a && b && c && false && d) ≡ false
and_false false b c d = refl
and_false true false c d = refl
and_false true true false d = refl
and_false true true true d = refl

settled_dead :
    (r : Job)
    → r.max_attempts ≤ r.attempts
    → (kinds : Option (List String)) (at : ℕ) → is_ready kinds at r ≡ false
unfolding is_ready
settled_dead r h kinds at =
    let spent : ltb r.attempts r.max_attempts ≡ false = ground arith in
    rw spent (and_false (not r.done) (leb r.run_at at) (free at r.locked_until) _)

spend_all : (attempts max_attempts : ℕ) → max_attempts ≤ spend attempts max_attempts
spend_all attempts max_attempts = ground arith

-- After a claimed job has run, its row is as the outcome says. `done`: the row is done. `dead`: its
-- attempts are used up. In both cases it is never ready again. `retry`: attempts are left, and the row
-- is unlocked and runs next after the delay of its attempt.
pub run-IsSettled :
    (delay : ℕ → ℕ) (ended : Ended) (now : ℕ) (j : Job) (t u : Jobs) (out : JobOutcome)
    → All (IsClaimed j) t.rows
    → run delay ended now j t ≡ (out, u)
    → (out.id ≡ j.id)
      × All (λ r. r.id ≡ j.id → IsSettled (now + delay j.attempts) out.outcome r) u.rows
run-IsSettled delay ended now j t u out a h =
    subst
      (λ p.
        (p.0.id ≡ j.id)
        × All (λ r. r.id ≡ j.id → IsSettled (now + delay j.attempts) p.0.outcome r) p.1.rows)
      h (settled ended)
  where
    settled :
        (ended : Ended)
        → ((run delay ended now j t).0.id ≡ j.id)
          × All
              (λ r.
                r.id ≡ j.id
                → IsSettled (now + delay j.attempts) (run delay ended now j t).0.outcome r)
              (run delay ended now j t).1.rows
    settled returned =
        unfold run complete_job in
        (
          refl,
          update-IsSettled j _ (now + delay j.attempts) done t.rows
              (λ r e f g. (refl, settled_done _ refl)) (λ r. refl) a,
        )
    settled (permanent error) =
        unfold run kill_job in
        (
          refl,
          update-IsSettled j _ (now + delay j.attempts) dead t.rows
              (λ r e f g. let m = spend_all r.attempts r.max_attempts in (m, settled_dead _ m))
              (λ r. refl) a,
        )
    settled (raised error) =
        unfold run fail_job in
        elim (Bool-cases (leb j.max_attempts j.attempts)) [
          | inl e ↦ rw e (
            refl,
            update-IsSettled j _ (now + delay j.attempts) dead t.rows
                (λ r p q g.
                  let m : r.max_attempts ≤ r.attempts = ground arith in (m, settled_dead _ m))
                (λ r. refl) a,
          )
          | inr e ↦ rw e (
            refl,
            update-IsSettled j _ (now + delay j.attempts) retry t.rows
                (λ r p q g. (refl, refl, ground arith, g)) (λ r. refl) a,
          )
        ]
