-- ===== src/Memory/Bounded.antt =====
-- The memory of a thread is bounded and expires (engine/contextrail/memory.py).
use contextrail.Prelude.{
  ℕ, zero, suc, ◌+◌, ◌≤◌, ltb, leb, Bool, true, false, not, ◌||◌, String, Option, none, some, List,
  [], ◌∷◌, filter, length, All, ◌≡◌, ◌≢◌, refl, inl, inr, Bool-cases, arith, some-eq-some, str_eq,
  if◌then◌else◌, eq_iff,
}
use mathlib.Core.Path.{subst}
use contextrail.Memory.{
  Entry, Memory, Scope, Note, max_entries, in_scope, is_live, next_count, trim, thread_key,
  with_key, entry_of, scope_of, store, append,
}

one_le : (m : ℕ) → leb 1 (suc m) ≡ true
one_le m = ground arith

trim-bound : (s : Scope) (n : ℕ) (es : List Entry) → length (filter (in_scope s) (trim s n es)) ≤ n
unfolding trim
trim-bound s n [] = omega arith
trim-bound s n (e ∷ es) = elim (Bool-cases (in_scope s e)) [
  | inl t ↦ rw t (within n (trim-bound s (next_count n) es) (trim-bound s n es) t)
  | inr f ↦ rw (f, f) (trim-bound s n es)
]
  where
    within :
        (m : ℕ)
        → length (filter (in_scope s) (trim s (next_count m) es)) ≤ next_count m
        → length (filter (in_scope s) (trim s m es)) ≤ m
        → in_scope s e ≡ true
        → length
            (filter (in_scope s) (if leb 1 m then e ∷ trim s (next_count m) es else trim s m es))
          ≤ m
    within zero h k t = k
    within (suc m) h k t = rw (one_le m, t) (omega (arith, h))

trim-All :
    (P : Entry → Type 0) (s : Scope) (n : ℕ) (es : List Entry) → All P es → All P (trim s n es)
unfolding trim
trim-All P s n [] a = a
trim-All P s n (e ∷ es) (p, a) = elim (Bool-cases (in_scope s e)) [
  | inl t ↦ elim (Bool-cases (leb 1 n)) [
    | inl u ↦ rw (t, u) (p, trim-All P s (next_count n) es a)
    | inr u ↦ rw (t, u) (trim-All P s n es a)
  ]
  | inr f ↦ rw f (p, trim-All P s n es a)
]

filter-All : (p : Entry → Bool) (es : List Entry) → All (λ e. p e ≡ true) (filter p es)
filter-All p [] = record {}
filter-All p (e ∷ es) = elim (Bool-cases (p e)) [
  | inl t ↦ rw t (t, filter-All p es)
  | inr f ↦ rw f (filter-All p es)
]

later : (now n : ℕ) → ltb now (now + suc n) ≡ true
later now n = ground arith

new-in_scope :
    (clean : String → String) (now id : ℕ) (n : Note) (key run : String)
    → in_scope (scope_of n key) (entry_of clean now id n key run) ≡ true
new-in_scope clean now id n key run =
    rw
      (
        (eq_iff n.channel n.channel).1 refl,
        (eq_iff n.person_id n.person_id).1 refl,
        (eq_iff key key).1 refl,
      )
      refl

trim-first :
    (s : Scope) (n : ℕ) (e : Entry) (es : List Entry)
    → in_scope s e ≡ true
    → trim s (suc n) (e ∷ es) ≡ e ∷ trim s n es
unfolding trim
trim-first s n e es t = rw (t, one_le n) refl

-- What remembering leaves behind.
abbrev pub IsRemembered : (String → String) → ℕ → Note → String → String → Memory → Memory → Type 0
IsRemembered clean now n key run m m' =
    (length (filter (in_scope (scope_of n key)) m'.rows) ≤ max_entries)
    × All (λ e. is_live now e ≡ true) m'.rows
    × ((rest : List Entry) × (m'.rows ≡ entry_of clean now m.next_id n key run ∷ rest))

store-IsRemembered :
    (clean : String → String) (now : ℕ) (n : Note) (key run : String) (m : Memory)
    → IsRemembered clean now n key run m (store clean now n key run m)
store-IsRemembered clean now n key run m =
    let e = entry_of clean now m.next_id n key run in
    let s = scope_of n key in
    (
      trim-bound s max_entries (e ∷ filter (is_live now) m.rows),
      trim-All _ s max_entries (e ∷ filter (is_live now) m.rows)
          (later now 2591999, filter-All (is_live now) m.rows),
      (
        _,
        trim-first s 19 e (filter (is_live now) m.rows)
            (new-in_scope clean now m.next_id n key run),
      ),
    )

with_key-IsRemembered :
    (clean : String → String) (now : ℕ) (n : Note) (k r : Option String) (m m' : Memory)
    → with_key clean now n k r m ≡ some m'
    → (run : String) × (r ≡ some run)
      × ((key : String) × (k ≡ some key) × IsRemembered clean now n key run m m')
with_key-IsRemembered clean now n none r m m' e = cc
with_key-IsRemembered clean now n (some key) none m m' e = cc
with_key-IsRemembered clean now n (some key) (some run) m m' e = (
  run,
  refl,
  (
    key,
    refl,
    subst (λ x. IsRemembered clean now n key run m x) (some-eq-some e)
        (store-IsRemembered clean now n key run m),
  ),
)

or-false : (a b : Bool) → (a || b) ≡ false → b ≡ false
or-false true b e = cc
or-false false b e = e

-- The memory of a thread is bounded and expires: after a note is remembered, its thread has at most 20
-- entries, no entry of any thread has expired, and the entry of the note is there as the newest, with
-- the person who was resolved and the run that was cited; a note without them is not remembered.
pub append-IsRemembered :
    (hash clean : String → String) (now : ℕ) (n : Note) (m m' : Memory)
    → append hash clean now n m ≡ some m'
    → (n.person_id ≢ "")
      × ((run : String) × (n.run_id ≡ some run)
          × ((key : String) × (thread_key hash n.thread_ref ≡ some key)
              × IsRemembered clean now n key run m m'))
unfolding append
append-IsRemembered hash clean now n m m' e =
    elim (Bool-cases
      (not (str_eq n.role "user" || str_eq n.role "assistant") || str_eq n.person_id "")) [
        | inl t ↦ absurd (cc (rw t at e))
        | inr f ↦ (
          (λ p. cc (
            or-false (not (str_eq n.role "user" || str_eq n.role "assistant"))
                (str_eq n.person_id "") f,
            (eq_iff n.person_id "").1 p,
          )),
          with_key-IsRemembered clean now n (thread_key hash n.thread_ref) n.run_id m m'
              (rw f at e),
        )
      ]
